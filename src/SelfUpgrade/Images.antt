-- ===== src/SelfUpgrade/Images.antt =====
-- What a rollback gets back: the image of a deployment, and the files of a backup.
use cluster_api_provider_bar.Prelude.{
  Text, String, ◌≡◌, ◌≢◌, refl, ap, false, Option, none, some, List, [], ◌∷◌, ◌++◌, arith, length,
  take-append_length, starts_with, codes, nat_eq, contains, ok, text_beq,
}
use cluster_api_provider_bar.Effects.{for_each}
use cluster_api_provider_bar.SelfUpgrade.Resource.{Strategy}
use cluster_api_provider_bar.SelfUpgrade.Components.{
  Deployment, Backup, Platform, tag_image, last_colon, untag_image, upgraded_deployment,
  rolled_back_deployment, prefixed, crd_entries, deployment_entry, backup_data, restore,
}

pub last_colon-none : (t : Text) → contains t b':' ≡ false → last_colon t ≡ none
unfolding last_colon
last_colon-none [] h = refl
last_colon-none (c ∷ t) h = ground (arith, last_colon-none t)

pub last_colon-append :
    (image version : Text)
    → contains version b':' ≡ false
    → last_colon (image ++ b':' ∷ version) ≡ some (length image)
unfolding last_colon
last_colon-append [] version h = rw (last_colon-none version h) refl
last_colon-append (c ∷ image) version h = rw (last_colon-append image version h) refl

-- Taking the tag off an image that was given a tag without a colon is the image, unless it is empty.
untag_image-tag_image :
    (image version : Text)
    → image ≢ []
    → contains version b':' ≡ false
    → untag_image (tag_image image version) ≡ image
unfolding untag_image tag_image
untag_image-tag_image [] version n h = absurd (n refl)
untag_image-tag_image (c ∷ image) version n h = ground (
  arith,
  last_colon-append (c ∷ image) version h,
  take-append_length (c ∷ image) (b':' ∷ version),
)

-- The rollback of a deployment that was upgraded restores its image, whatever the image is that is
-- not empty, if the version holds no colon.
pub rolled_back_deployment-upgraded_deployment :
    (version : Text) (strategy : Strategy) (d : Deployment) (image : Text)
    → d.image ≡ some image
    → image ≢ []
    → contains version b':' ≡ false
    → (rolled_back_deployment (upgraded_deployment version strategy d)).image ≡ d.image
unfolding rolled_back_deployment upgraded_deployment
rolled_back_deployment-upgraded_deployment version strategy d image e n h =
    rw e (ap (λ (t : Text). some t) (untag_image-tag_image image version n h))

prefixed-append :
    (prefix : Text) (a b : Backup)
    → prefixed prefix (a ++ b) ≡ prefixed prefix a ++ prefixed prefix b
prefixed-append prefix [] b = refl
prefixed-append prefix ((key, content) ∷ a) b = ground (arith, prefixed-append prefix a b)

-- A prefix that no entry of a backup has.
abbrev Alien : Text → Type 0
Alien prefix =
    ((t : Text) → starts_with (codes "crd-" ++ t) prefix ≡ false)
    × ((t : Text) → starts_with (codes "deployment-" ++ t) prefix ≡ false)

module _ {W : Type 0} (p : Platform W) where
  prefixed-crd_entries :
      (prefix : Text)
      → Alien prefix
      → (found : List (Text × Option String)) → prefixed prefix (crd_entries p found) ≡ []
  unfolding crd_entries
  prefixed-crd_entries prefix al [] = refl
  prefixed-crd_entries prefix al ((name, none) ∷ rest) = prefixed-crd_entries prefix al rest
  prefixed-crd_entries prefix al ((name, some yaml) ∷ rest) =
      rw (al.0 (name ++ codes ".yaml")) (prefixed-crd_entries prefix al rest)

  prefixed-deployment_entry :
      (prefix : Text)
      → Alien prefix
      → (namespace name : String) (w : W)
      → prefixed prefix (deployment_entry p namespace name w).0 ≡ []
  unfolding deployment_entry
  prefixed-deployment_entry prefix al namespace name w =
      ground (arith, al.1 (codes namespace ++ codes "-" ++ codes name ++ codes ".yaml"))

  prefixed-backup_data :
      (prefix : Text)
      → Alien prefix
      → (found : List (Text × Option String)) (w : W)
      → prefixed prefix (backup_data p found w).0 ≡ []
  unfolding backup_data
  prefixed-backup_data prefix al found w =
      let cvo = deployment_entry p "cvo-system" "cvo-controller-manager" w in
      let capbm = deployment_entry p "capbm-system" "capbm-controller-manager" cvo.1 in
      rw
        (
          prefixed-append prefix (crd_entries p found ++ cvo.0) capbm.0,
          prefixed-append prefix (crd_entries p found) cvo.0,
          prefixed-crd_entries prefix al found,
          prefixed-deployment_entry prefix al "cvo-system" "cvo-controller-manager" w,
          prefixed-deployment_entry prefix al "capbm-system" "capbm-controller-manager" cvo.1,
        )
        refl

  -- Restoring the RBAC files or the webhooks of a backup changes nothing and reports success.
  pub restore-backup_data :
      (found : List (Text × Option String)) (w w' : W)
      → (restore p (codes "rbac-") (backup_data p found w).0 w' ≡ (ok tt, w'))
        × (restore p (codes "webhook-") (backup_data p found w).0 w' ≡ (ok tt, w'))
  unfolding restore text_beq for_each
  restore-backup_data found w w' = (
    (rw (prefixed-backup_data (codes "rbac-") (λ t. refl, λ t. refl) found w) refl),
    (rw (prefixed-backup_data (codes "webhook-") (λ t. refl, λ t. refl) found w) refl),
  )

-- ===== src/Ssh/Pool.antt =====
-- The invariant of the pool: each connection stands under the key of its own host and port, and no key
-- occurs twice.
use cluster_api_provider_bar.Prelude.Maps.{
  lookup, insert, delete, lookup-insert, lookup-insert_other, lookup-delete, lookup-delete_other,
  DistinctKeys, if-DistinctKeys, insert-DistinctKeys, delete-DistinctKeys, none-ne-some,
}
use cluster_api_provider_bar.Prelude.{
  ◌≡◌, refl, sym, ap, ◌∙◌, subst, Text, Bool, true, false, Option, none, some, List, [], ◌∷◌, ◌==◌,
  ==_iff, text_eq, nat_eq, if◌then◌else◌, arith, inl, inr, Bool-cases, some-eq,
}
use cluster_api_provider_bar.Ssh.{
  SshConnection, SshManager, Platform, key, is_idle, drop_idle, cleanup,
}

module _ {Client W : Type 0} (p : Platform Client W) where
  open p use {now}

  abbrev Entries : Type 0
  Entries = List (Text × SshConnection Client)

  abbrev pub Keyed : Entries → Type 0
  Keyed es =
      (k : Text) (conn : SshConnection Client)
      → lookup k es ≡ some conn
      → k ≡ key p conn.host conn.port

  abbrev pub IsWf : SshManager Client → Type 0
  IsWf m = Keyed m.connections × DistinctKeys m.connections

  insert-Keyed :
      (conn : SshConnection Client) (es : Entries)
      → Keyed es
      → Keyed (insert (key p conn.host conn.port) conn es)
  insert-Keyed conn es keyed k found h = elim (Bool-cases (key p conn.host conn.port == k)) [
    | inl same ↦
        let here : key p conn.host conn.port ≡ k = (==_iff (key p conn.host conn.port) k).0 same in
        let es' : Entries = insert (key p conn.host conn.port) conn es in
        sym here
        ∙ ap (λ (c : SshConnection Client). key p c.host c.port)
            (some-eq (
              sym (lookup-insert (key p conn.host conn.port) conn es)
              ∙ ap (λ m. lookup m es') here
              ∙ h))
    | inr other ↦
        keyed k found (sym (lookup-insert_other (key p conn.host conn.port) k conn es other) ∙ h)
  ]

  pub insert-IsWf :
      (m : SshManager Client) (conn : SshConnection Client)
      → IsWf m
      → IsWf (record m { connections = insert (key p conn.host conn.port) conn m.connections })
  insert-IsWf m conn (keyed, d) = (
    insert-Keyed conn m.connections keyed,
    insert-DistinctKeys (key p conn.host conn.port) conn m.connections d,
  )

  pub delete-IsWf :
      (m : SshManager Client) (k : Text)
      → IsWf m
      → IsWf (record m { connections = delete k m.connections })
  delete-IsWf m k (keyed, d) = (still, delete-DistinctKeys k m.connections d)
    where
      still : Keyed (delete k m.connections)
      still k' conn h = elim (Bool-cases (k == k')) [
        | inl same ↦ absurd (
            none-ne-some conn (
              sym (lookup-delete k m.connections)
              ∙ ap (λ n. lookup n (delete k m.connections)) ((==_iff k k').0 same)
              ∙ h))
        | inr other ↦ keyed k' conn (sym (lookup-delete_other k k' m.connections other) ∙ h)
      ]

  -- Cleaning up keeps the connections that were not idle when their turn came.
  abbrev pub kept_at :
      SshManager Client → W → Option (SshConnection Client) → Option (SshConnection Client)
  kept_at m w none = none
  kept_at m w (some conn) = if is_idle p m (now w) conn then none else some conn

  drop_idle_step :
      (m : SshManager Client) (k : Text) (conn : SshConnection Client) (es : Entries) (w : W)
      → (drop_idle p m ((k, conn) ∷ es) w).0 ≡ (
          if is_idle p m (now w) conn
          then (drop_idle p m es (p.close_client conn.client w)).0
          else (k, conn) ∷ (drop_idle p m es w).0)
  unfolding drop_idle
  drop_idle_step m k conn es w = ground arith

  if_lookup :
      (k : Text) (b : Bool) (xs ys : Entries)
      → lookup k xs ≡ none
      → lookup k ys ≡ none
      → lookup k (if b then xs else ys) ≡ none
  if_lookup k true xs ys x y = x
  if_lookup k false xs ys x y = y

  drop_idle-fresh :
      (m : SshManager Client) (k : Text) (es : Entries) (w : W)
      → lookup k es ≡ none
      → lookup k (drop_idle p m es w).0 ≡ none
  unfolding lookup drop_idle
  drop_idle-fresh m k [] w h = refl
  drop_idle-fresh m k ((name, conn) ∷ es) w h =
      ground
        (arith, h, drop_idle-fresh m k es w, drop_idle-fresh m k es (p.close_client conn.client w))

  drop_idle-DistinctKeys :
      (m : SshManager Client) (es : Entries) (w : W)
      → DistinctKeys es
      → DistinctKeys (drop_idle p m es w).0
  unfolding drop_idle
  drop_idle-DistinctKeys m [] w d = tt
  drop_idle-DistinctKeys m ((name, conn) ∷ es) w (fresh, d) =
      subst DistinctKeys (sym (drop_idle_step m name conn es w)) (
        if-DistinctKeys (is_idle p m (now w) conn)
          (drop_idle p m es (p.close_client conn.client w)).0
          ((name, conn) ∷ (drop_idle p m es w).0)
          (λ _. drop_idle-DistinctKeys m es (p.close_client conn.client w) d)
          (λ _. (drop_idle-fresh m name es w fresh, drop_idle-DistinctKeys m es w d)))

  -- Under each key stands what was there before, unless that was idle in some world on the way.
  pub lookup-drop_idle :
      (m : SshManager Client) (k : Text) (es : Entries) (w : W)
      → DistinctKeys es
      → (w' : W) × (lookup k (drop_idle p m es w).0 ≡ kept_at m w' (lookup k es))
  unfolding lookup drop_idle
  lookup-drop_idle m k [] w d = (w, refl)
  lookup-drop_idle m k ((name, conn) ∷ es) w (fresh, d) =
      elim (Bool-cases (is_idle p m (now w) conn)) [
        | inl idle ↦ elim (Bool-cases (name == k)) [
          | inl same ↦
              let gone : lookup k (drop_idle p m es (p.close_client conn.client w)).0 ≡ none =
                drop_idle-fresh m k es (p.close_client conn.client w)
                  (subst (λ n. lookup n es ≡ none) ((==_iff name k).0 same) fresh) in
              (w, ground (arith, idle, same, gone))
          | inr other ↦
              let (w', e) = lookup-drop_idle m k es (p.close_client conn.client w) d in
              (w', ground (arith, idle, other, e))
        ]
        | inr busy ↦ elim (Bool-cases (name == k)) [
          | inl same ↦ (w, ground (arith, busy, same))
          | inr other ↦
              let (w', e) = lookup-drop_idle m k es w d in (w', ground (arith, busy, other, e))
        ]
      ]

  kept_some :
      (m : SshManager Client) (w : W) (o : Option (SshConnection Client))
      (conn : SshConnection Client)
      → kept_at m w o ≡ some conn
      → o ≡ some conn
  kept_some m w none conn h = h
  kept_some m w (some c) conn h = ground (arith, h)

  pub cleanup-IsWf : (m : SshManager Client) (w : W) → IsWf m → IsWf (cleanup p m w).0
  unfolding cleanup
  cleanup-IsWf m w (keyed, d) = (
    λ k conn h.
        let (w', e) = lookup-drop_idle m k m.connections w d in
        keyed k conn (kept_some m w' (lookup k m.connections) conn (sym e ∙ h)),
    drop_idle-DistinctKeys m m.connections w d,
  )

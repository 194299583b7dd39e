-- ===== src/Addon/Jobs.antt =====
-- Jobs: the wait for one, the hooks, and the jobs that the installers and the upgrader build.
use Prim.Native.Nat.{◌%◌, ◌^◌}
use cluster_api_provider_bar.Prelude.{
  ℕ, zero, suc, String, Text, Bool, true, false, not, ◌&&◌, Option, none, some, List, [], ◌∷◌, ◌++◌,
  ◌==◌, string_eq, if◌then◌else◌, is_empty, codes, ok, err,
}
use cluster_api_provider_bar.Prelude.Integers.{ℤ, pos}
use cluster_api_provider_bar.Effects.{Action, ◌>>◌}
use cluster_api_provider_bar.Api.{AddonHook, stops_on_failure}
use cluster_api_provider_bar.Conditions.{has_true}
use cluster_api_provider_bar.Addon.{
  Platform, AddonError, Job, JobCondition, ClusterAddon, ConfigMap, job_failed, hook_failed, shell,
}

pub data JobState : Type 0 where
  complete failed running : JobState

-- The first condition that is True and tells of the end of the job.
unfoldable pub job_state : List JobCondition → JobState
job_state [] = running
job_state (c ∷ conditions) =
    if c.type == "Complete" && has_true c.status
    then complete
    else if c.type == "Failed" && has_true c.status
    then failed
    else job_state conditions

-- `ptr.To(int32(n))` for a count that is positive, 3 otherwise; an int32 stands as its residue.
unfoldable pub retry_limit : ℤ → ℕ
retry_limit (pos (suc n)) = suc n % 2 ^ 32
retry_limit _ = 3

-- Five minutes by default.
abbrev pub seconds_or_default : Option ℕ → ℕ
seconds_or_default none = 300
seconds_or_default (some n) = n

module _ {W : Type 0} (p : Platform W) where
  open p use {
    create_job, job_conditions, create_config_map, has_already_exists, now, decimal, duration_text,
    scan_seconds, poll,
  }

  -- One round of a wait: a job that cannot be read is waited for.
  unfoldable pub job_done : Job → Action AddonError W Bool
  job_done job w =
      let (r, w') = job_conditions job.namespace job.name w in
      elim r [
        | none ↦ (ok false, w')
        | some conditions ↦ elim (job_state conditions) [
          | complete ↦ (ok true, w')
          | failed ↦ (err job_failed, w')
          | running ↦ (ok false, w')
        ]
      ]

  unfoldable pub wait_for_job : Job → (timeout : Option ℕ) → Action AddonError W (Unit {0})
  wait_for_job job timeout = poll 5 (seconds_or_default timeout) (job_done job)

  unfoldable pub create_and_wait : Job → (timeout : Option ℕ) → Action AddonError W (Unit {0})
  create_and_wait job timeout = create_job job >> wait_for_job job timeout

  -- A config map that exists already is passed over.
  unfoldable pub create_or_keep : ConfigMap → Action AddonError W (Unit {0})
  create_or_keep map w =
      let (r, w') = create_config_map map w in
      elim r [
        | ok _ ↦ (ok tt, w')
        | err e ↦ if not (has_already_exists e) then (err e, w') else (ok tt, w')
      ]

  abbrev pub hook_job : (image : String) → ClusterAddon → AddonHook → W → Job
  hook_job image addon hook w = record {
    name =
        codes "hook-" ++ addon.name ++ codes "-" ++ codes hook.name ++ codes "-" ++ decimal (now w);
    namespace = addon.namespace;
    image = image;
    command = shell hook.command;
    backoff_limit = 1;
    active_deadline = none;
  }

  -- The job of a hook is created, and not waited for.
  unfoldable pub execute_hook :
      (image : String) → ClusterAddon → AddonHook → Action AddonError W (Unit {0})
  execute_hook image addon hook w = create_job (hook_job image addon hook w) w

  unfoldable pub execute_hooks :
      (image : String) → ClusterAddon → List AddonHook → Action AddonError W (Unit {0})
  execute_hooks image addon [] w = (ok tt, w)
  execute_hooks image addon (hook ∷ hooks) w =
      let (r, w') = execute_hook image addon hook w in
      let rest = execute_hooks image addon hooks w' in
      elim r [
        | ok _ ↦ rest
        | err e ↦ if stops_on_failure hook then (err (hook_failed hook.name), w') else rest
      ]

  -- Thirty tens of seconds where the text is no number of seconds, or zero.
  unfoldable pub parse_timeout_seconds : Text → ℤ
  parse_timeout_seconds timeout = elim (scan_seconds timeout) [
    | none ↦ pos 300
    | some (pos zero) ↦ pos 300
    | some n ↦ n
  ]

  abbrev pub timeout_text : Option ℕ → Text
  timeout_text none = codes "300s"
  timeout_text (some n) = duration_text n

  abbrev pub namespace_of : ClusterAddon → Text
  namespace_of addon =
      if is_empty addon.target_namespace then codes "default" else addon.target_namespace

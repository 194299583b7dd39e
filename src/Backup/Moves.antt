-- ===== src/Backup/Moves.antt =====
-- The order of a rollback in time: which worlds the operations of the platform lead to, and that the
-- hooks and the scripts on the nodes lead to no others.
use cluster_api_provider_bar.Prelude.{
  ℕ, zero, suc, ◌≡◌, ◌⊎◌, sym, subst, inl, inr, refl, String, Text, Option, List, [], ◌∷◌, arith,
  Result, ok, err,
}
use cluster_api_provider_bar.Effects.{Action, ◌>>=◌}
use cluster_api_provider_bar.Effects.Later.{
  Later, here, next, trans, once, Moves, bind-Moves, then-Moves,
}
use cluster_api_provider_bar.Api.{AddonHook}
use cluster_api_provider_bar.NodeUpgrade.{LabelledNode}
use cluster_api_provider_bar.Backup.{
  Platform, BackupError, Script, check_exit, with_connection, run_script,
}
use cluster_api_provider_bar.Backup.Hooks.{
  execute_hook_on_node, hook_on_nodes, execute_hooks_on_nodes,
}

-- What one operation of the platform makes of a world, of those that a rollback uses.
pub data Step {Conn W : Type 0} (p : Platform Conn W) : W → W → Type 0 where
  lists_nodes : (w : W) → Step p w (p.cluster_nodes w).1
  connects : (host : String) (w : W) → Step p w (p.connect host w).1
  closes : (conn : Conn) (w : W) → Step p w (p.close conn w)
  executes :
      (conn : Conn) (script : Script) (timeout : Option ℕ) (w : W)
      → Step p w (p.execute_script conn script timeout w).1
  reads_file : (path : String) (w : W) → Step p w (p.read_file path w).1

module _ {Conn W : Type 0} (p : Platform Conn W) where
  pub with_connection-Moves :
      {A : Type 0} (host : String) (body : Conn → Action BackupError W A)
      → ((conn : Conn) → Moves (Step p) (body conn))
      → Moves (Step p) (with_connection p host body)
  unfolding with_connection
  with_connection-Moves {A} host body moves w = split (p.connect host w).0 refl
    where
      connected : Later (Step p) w (p.connect host w).1
      connected = once (connects host w)

      split :
          (r : Result BackupError Conn)
          → (p.connect host w).0 ≡ r
          → Later (Step p) w (with_connection p host body w).1
      split (err e) same = rw (same, with_connection) connected
      split (ok conn) same =
          rw (same, with_connection)
            (next (trans connected (moves conn (p.connect host w).1)) (closes conn _))

  pub check_exit-Moves : (out : ℕ × Text) → Moves (Step p) (check_exit p out)
  check_exit-Moves (zero, out) w = here
  check_exit-Moves (suc code, out) w = here

  pub execute-Moves :
      (conn : Conn) (script : Script) (timeout : Option ℕ)
      → Moves (Step p) (p.execute_script conn script timeout >>= check_exit p)
  execute-Moves conn script timeout =
      bind-Moves (Step p) (p.execute_script conn script timeout) (check_exit p)
        (λ w. once (executes conn script timeout w)) check_exit-Moves

  execute_hook_on_node-Moves :
      (hook : AddonHook) (n : LabelledNode) → Moves (Step p) (execute_hook_on_node p hook n)
  unfolding execute_hook_on_node run_script
  execute_hook_on_node-Moves hook n =
      with_connection-Moves n.node.name _ (λ conn. execute-Moves conn _ _)

  hook_on_nodes_world :
      (hook : AddonHook) (n : LabelledNode) (nodes : List LabelledNode) (w : W)
      → let w' = (execute_hook_on_node p hook n w).1 in
        ((hook_on_nodes p hook (n ∷ nodes) w).1 ≡ w')
        ⊎ ((hook_on_nodes p hook (n ∷ nodes) w).1 ≡ (hook_on_nodes p hook nodes w').1)
  unfolding hook_on_nodes
  hook_on_nodes_world hook n nodes w = ground arith

  hook_on_nodes-Moves :
      (hook : AddonHook) (nodes : List LabelledNode) → Moves (Step p) (hook_on_nodes p hook nodes)
  unfolding hook_on_nodes
  hook_on_nodes-Moves hook [] w = here
  hook_on_nodes-Moves hook (n ∷ nodes) w =
      let w' = (execute_hook_on_node p hook n w).1 in
      let first = execute_hook_on_node-Moves hook n w in
      let rest = hook_on_nodes-Moves hook nodes w' in
      elim (hook_on_nodes_world hook n nodes w) [
        | inl same ↦ subst (Later (Step p) w) (sym same) first
        | inr same ↦ subst (Later (Step p) w) (sym same) (trans first rest)
      ]

  pub execute_hooks_on_nodes-Moves :
      (nodes : List LabelledNode) (hooks : List AddonHook)
      → Moves (Step p) (execute_hooks_on_nodes p nodes hooks)
  unfolding execute_hooks_on_nodes
  execute_hooks_on_nodes-Moves nodes [] w = here
  execute_hooks_on_nodes-Moves nodes (hook ∷ hooks) w =
      then-Moves (Step p) (hook_on_nodes p hook nodes) (execute_hooks_on_nodes p nodes hooks)
        (hook_on_nodes-Moves hook nodes) (execute_hooks_on_nodes-Moves nodes hooks) w

-- ===== src/Agent/Reconcile/Running.antt =====
-- `Run` of nodelet/pkg/nodelet/nodelet.go: when it does not panic.
use nodelet.Shared.{ℕ, zero, suc, Bool, true, false, pos, if◌then◌else◌, ◌==◌}
use nodelet.Config.{ok_state}
use nodelet.Agent.State.{
  SendsHosts, Returns, Returns-bind, Returns-if, Setup, Nodelet, Outcome, done, panic, exit,
  with_state,
}
use nodelet.Agent.Persist.{set_kube_env_symlink}
use nodelet.Agent.Reconcile.{reconcile, run_loop, run}
use nodelet.Agent.Reconcile.Safety.{
  IsWellFormed, IsUsable, persist_and_update-Returns, reconcile-IsWellFormed,
}

module _ (s : Setup) where
  run_loop-IsWellFormed :
      SendsHosts s.env
      → (rounds : ℕ) (n : Nodelet) → IsUsable s
      → IsWellFormed s n
      → Returns (IsWellFormed s) (run_loop s rounds n)
  unfolding run_loop
  run_loop-IsWellFormed sends zero n u h = h
  run_loop-IsWellFormed sends (suc rounds) n u h =
      round (λ m w. run_loop-IsWellFormed sends rounds m u w) (reconcile s n)
        (reconcile-IsWellFormed s sends n u h)
    where
      round :
          ((m : Nodelet) → IsWellFormed s m → Returns (IsWellFormed s) (run_loop s rounds m))
          → (o : Outcome (Bool × Nodelet)) → Returns (λ r. IsWellFormed s r.1) o
          → Returns (IsWellFormed s) (elim o [
            | panic ↦ panic
            | exit m ↦ exit m
            | done r ↦
                let next = run_loop s rounds r.1 in if s.config.disable_loop then done r.1 else next
          ])
      round ih (done r) w =
          Returns-if (IsWellFormed s) s.config.disable_loop _ _ (λ _. w) (λ _. ih r.1 w)
      round ih panic w = absurd w
      round ih (exit m) w = tt

  settled-IsWellFormed :
      (b : Bool) (m : Nodelet)
      → IsWellFormed s m
      → IsWellFormed s (
          if b
          then with_state (λ d. record d { node_state = ok_state; start_attempts = pos 0 }) m
          else m)
  settled-IsWellFormed true m w = record { names = w.names; failed_start = w.failed_start }
  settled-IsWellFormed false m w = w

  linked-IsWellFormed :
      (m : Nodelet) → IsWellFormed s m → IsWellFormed s (set_kube_env_symlink s m).1
  unfolding set_kube_env_symlink
  linked-IsWellFormed m w = record { names = w.names; failed_start = w.failed_start }

  pub run-IsWellFormed :
      SendsHosts s.env
      → (rounds : ℕ) (n : Nodelet) → IsUsable s
      → IsWellFormed s n
      → Returns (IsWellFormed s) (run s rounds n)
  unfolding run
  run-IsWellFormed sends rounds n u h =
      Returns-bind (λ r. IsWellFormed s r.1) (IsWellFormed s) _ _
        (persist_and_update-Returns s sends n h)
        (λ r w.
          run_loop-IsWellFormed sends rounds _ u
            (linked-IsWellFormed _ (settled-IsWellFormed (s.config.cluster_id == "") r.1 w)))

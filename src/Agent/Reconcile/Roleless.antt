-- ===== src/Agent/Reconcile/Roleless.antt =====
-- The start handler of nodelet/pkg/nodelet/nodelet.go for a role without phases.
use nodelet.Shared.{
  ◌≡◌, refl, Bool, true, false, List, ap, get_elem?, [], ℤ, pos, negsuc, if◌then◌else◌,
}
use nodelet.Agent.State.{Phase, Setup, Nodelet, Outcome, panic, ◌>>=◌, phase_at}
use nodelet.Agent.Chain.{stop_phases, stop_from}
use nodelet.Agent.Reconcile.{
  already_running, start_service, restart_from, handle_service_start_state,
}

if-panics : {A : Type 0} (b : Bool) (r : Outcome A) → r ≡ panic → (if b then panic else r) ≡ panic
if-panics true r e = refl
if-panics false r e = e

bind-panics :
    {A B : Type 0} (b c : Bool) (done_at_once : Outcome B) (other r : Outcome A) (f : A → Outcome B)
    → b ≡ false
    → c ≡ false
    → r ≡ panic
    → (if b then done_at_once else ((if c then other else r) >>= f)) ≡ panic
bind-panics b c done_at_once other r f scripts stopped e = rw scripts (rw stopped (rw e refl))

module _ (s : Setup) (none_left : s.phases ≡ []) where
  stop_phases-panics : (i : ℤ) (force : Bool) (n : Nodelet) → stop_phases s i force n ≡ panic
  unfolding stop_phases stop_from phase_at
  stop_phases-panics (pos i) force n =
      ap (λ (l : List Phase). stop_from s (get_elem? l i) (pos i) force n) none_left
  stop_phases-panics (negsuc i) force n = refl

  restart_from-panics : (i : ℤ) (n : Nodelet) → restart_from s i n ≡ panic
  unfolding restart_from
  restart_from-panics i n = rw (stop_phases-panics i false n) refl

  start_service-panics : (n : Nodelet) → start_service s n ≡ panic
  unfolding start_service
  start_service-panics n = if-panics _ _ (restart_from-panics _ _)

  -- Without any phase, with scripts enabled and a service that does not run as it should, the start
  -- handler panics.
  pub start_without_phases-panics :
      (n : Nodelet)
      → s.config.disable_scripts ≡ false
      → already_running s n.current_state ≡ false
      → handle_service_start_state s n ≡ panic
  unfolding handle_service_start_state already_running
  start_without_phases-panics n scripts stopped =
      bind-panics _ _ _ _ _ _ scripts stopped (start_service-panics _)

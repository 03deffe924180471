-- ===== src/Agent/Chain/Verdict.antt =====
-- When `Status` of nodelet/pkg/nodelet/nodelet.go reports that the services run.
use nodelet.Shared.{Bool, ◌&&◌, ◌||◌, ◌==◌, ℤ, minus_one, eqb_ℤ}
use nodelet.Config.{service_state_true}
use nodelet.Agent.State.{Setup, Nodelet}
use nodelet.Agent.Chain.{status_failure_toleration, within_toleration}

module _ (s : Setup) where
  open s use {env, config}

  -- The verdict, from the index that the loop found.
  abbrev pub is_tolerated : ℤ → Nodelet → Bool
  is_tolerated failed n =
      eqb_ℤ failed minus_one
      || (n.current_state.service_state == service_state_true
          && within_toleration (status_failure_toleration config.pf9_status_threshold_seconds)
              n.current_state.last_successful_status (env.now n.trace))

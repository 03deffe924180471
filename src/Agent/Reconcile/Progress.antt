-- ===== src/Agent/Reconcile/Progress.antt =====
-- What `handleServiceStartState` of nodelet/pkg/nodelet/nodelet.go records of a start.
use nodelet.Shared.{
  ℕ, ◌<◌, ◌≡◌, refl, ◌∙◌, ◌⊎◌, inl, inr, Bool, true, false, arith, length, map, take, ℤ, pos,
  negsuc, minus_one, abs, eqb, get_elem?-lt, length-map, take-length, if◌then◌else◌, ◌+ℤ◌,
}
use nodelet.Config.{service_state_true, service_state_false, start_op}
use nodelet.Extension.{elements}
use nodelet.Agent.State.{Phase, Setup, Nodelet, done, with_state}
use nodelet.Agent.Persist.{try_to_persist_status}
use nodelet.Agent.Persist.Frame.{SameCore, persist-SameCore}
use nodelet.Agent.Chain.Health.{InRange}
use nodelet.Agent.Chain.Started.{Started, start_phases-Started}
use nodelet.Agent.Chain.Stopped.{stop_phases-Stopped}
use nodelet.Agent.Reconcile.{
  already_running, confirm_running, after_start, restart_from, start_service,
  handle_service_start_state,
}
use nodelet.Agent.State.{Returns, Returns-bind, Returns-if}
use nodelet.Agent.Reconcile.Safety.{IsWellFormed, IsUsable}

module _ (s : Setup) where
  -- All phases are up.
  pub record IsUp (m : Nodelet) : Type 0 where
    pub service : m.current_state.service_state ≡ service_state_true
    pub attempts : m.current_state.start_attempts ≡ pos 0
    pub step : m.current_state.start_fail_step ≡ minus_one
    pub completed :
        elements m.current_state.all_phases m.current_state.completed_phases
        ≡ map (λ p. p.name) s.phases

  -- The start failed at a phase, and the phases before it are the completed ones.
  pub record IsPartial (m : Nodelet) : Type 0 where
    pub at : ℕ
    pub inside : at < length s.phases
    pub service : m.current_state.service_state ≡ service_state_false
    pub step : m.current_state.start_fail_step ≡ pos at
    pub completed :
        elements m.current_state.all_phases m.current_state.completed_phases
        ≡ take at (map (λ p. p.name) s.phases)
    pub cluster : m.current_state.cluster_id ≡ s.config.cluster_id
    pub role : m.current_state.cluster_role ≡ s.config.cluster_role

  abbrev pub IsSettled : Nodelet → Type 0
  IsSettled m = IsUp m ⊎ IsPartial m

  after_start-IsSettled :
      (i : ℕ) (n : Nodelet) (r : ℕ × Bool × Nodelet)
      → n.current_state.cluster_id ≡ s.config.cluster_id
      → n.current_state.cluster_role ≡ s.config.cluster_role
      → Started s i n r
      → Returns IsSettled (after_start s r)
  unfolding after_start elements
  after_start-IsSettled i n (step, true, m) c e h =
      let lt : step < length s.phases =
        omega (arith, h.ends.failed_inside refl, length-map (λ (p : Phase). p.name) s.phases) in
      let (p, at) = get_elem?-lt s.phases step lt in
      rw (at, after_start)
        (inr (record {
          at = step;
          inside = lt;
          service = refl;
          step = refl;
          completed = rw (h.ends.at.completed, h.ends.at.array) refl;
          cluster = h.around.cluster_id ∙ c;
          role = h.around.cluster_role ∙ e;
        }))
  after_start-IsSettled i n (step, false, m) c e h = inl (record {
    service = refl;
    attempts = refl;
    step = refl;
    completed =
        rw (h.ends.at.completed, h.ends.at.array)
          (rw (h.ends.passed_whole refl) (take-length (map (λ (p : Phase). p.name) s.phases)));
  })

  restart_from-IsSettled :
      (z : ℤ) (n : Nodelet)
      → InRange 0 (length s.phases) z
      → n.current_state.all_phases ≡ map (λ p. p.name) s.phases
      → Returns IsSettled (restart_from s z n)
  unfolding restart_from
  restart_from-IsSettled (negsuc k) n h names = absurd h
  restart_from-IsSettled (pos i) n h names =
      let (r, stopped, keeps) = stop_phases-Stopped s i false n h.1 names in
      rw stopped (
        let n2 : Nodelet =
          with_state
            (λ d. record d {
              cluster_id = s.config.cluster_id;
              cluster_role = s.config.cluster_role;
            })
            r.1 in
        let (q, started, result) = start_phases-Started s i n2 h.1 (keeps.all_phases ∙ names) in
        rw started (after_start-IsSettled i n2 q refl refl result))

  start_service-IsSettled :
      (n : Nodelet)
      → IsUsable s
      → n.current_state.all_phases ≡ map (λ p. p.name) s.phases
      → InRange 0 (length s.phases) n.current_state.failed_status_check
      → Returns IsSettled (start_service s n)
  unfolding start_service
  start_service-IsSettled n u names h =
      let nonzero : eqb (abs s.config.full_retry_count) 0 ≡ false = ground (arith, u.retry_count) in
      rw nonzero (chosen _)
    where
      chosen :
          (b : Bool)
          → Returns IsSettled (
              restart_from s (if b then pos 0 else n.current_state.failed_status_check) (
                with_state
                  (λ d. record d { start_attempts = n.current_state.start_attempts +ℤ pos 1 })
                  n))
      chosen true = restart_from-IsSettled (pos 0) _ (omega arith, u.some_phase) names
      chosen false = restart_from-IsSettled n.current_state.failed_status_check _ h names

  IsSettled-SameCore :
      (a b : Nodelet) → SameCore a.current_state b.current_state → IsSettled b → IsSettled a
  IsSettled-SameCore a b same (inl h) = inl (record {
    service = same.service_state ∙ h.service;
    attempts = same.start_attempts ∙ h.attempts;
    step = same.start_fail_step ∙ h.step;
    completed = rw (same.all_phases, same.completed_phases) h.completed;
  })
  IsSettled-SameCore a b same (inr h) = inr (record {
    at = h.at;
    inside = h.inside;
    service = same.service_state ∙ h.service;
    step = same.start_fail_step ∙ h.step;
    completed = rw (same.all_phases, same.completed_phases) h.completed;
    cluster = same.cluster_id ∙ h.cluster;
    role = same.cluster_role ∙ h.role;
  })

  -- With scripts enabled, some phase, a retry count that is not 0, a well-formed agent and a
  -- `FailedStatusCheck` that is the index of a phase, the start handler does not panic and ends in
  -- one of two states: the service is up with all phases completed and the counters at rest, or it
  -- is down, the failed phase is recorded, exactly the phases before it are completed, and the
  -- agent has the configured cluster.
  pub handle_service_start_state-IsSettled :
      (n : Nodelet)
      → IsUsable s
      → IsWellFormed s n
      → InRange 0 (length s.phases) n.current_state.failed_status_check
      → s.config.disable_scripts ≡ false
      → Returns IsSettled (handle_service_start_state s n)
  unfolding handle_service_start_state
  handle_service_start_state-IsSettled n u h k on =
      Returns-if IsSettled s.config.disable_scripts _ _ (λ off. cc)
        (λ _.
          Returns-bind IsSettled IsSettled _ _
            (Returns-if IsSettled (already_running s n1.current_state) (done (confirm_running s n1))
              (start_service s n1)
              (λ _. inl (
                unfold confirm_running elements in
                (record {
                  service = refl;
                  attempts = refl;
                  step = refl;
                  completed = take-length n.current_state.all_phases ∙ h.names;
                })))
              (λ _. start_service-IsSettled n1 u h.names k))
            (λ m w. IsSettled-SameCore (try_to_persist_status s m) m (persist-SameCore s m) w))
    where
      n1 : Nodelet
      n1 = with_state (λ d. record d { operation = start_op }) n

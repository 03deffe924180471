-- ===== src/Agent/Reconcile/Counter.antt =====
-- The counter of start attempts in nodelet/pkg/nodelet/nodelet.go, when the restart goes down to the
-- first phase.
use nodelet.Shared.{
  ℕ, ◌+◌, ◌<◌, ◌≡◌, refl, ◌∙◌, Bool, true, false, List, [], ◌∷◌, arith, length-map, get_elem?-lt,
  length, map, pos, eqb, abs, if◌then◌else◌, not, ◌&&◌, inl, inr, Bool-cases, ◌++◌,
}
use mathlib.Core.List.{reverse, reverse-cons}
use nodelet.Config.{start_op, gen_certs_phase_order}
use nodelet.Registry.Ordering.{CertsFirst, AllAbove}
use nodelet.Agent.State.{Phase, stop, call, Setup, Nodelet, done, emit, with_state}
use nodelet.Agent.Persist.Frame.{persist-SameCore}
use nodelet.Agent.Chain.{indexed, skips, stop_loop, stop_end, stop_phases}
use nodelet.Agent.Chain.Order.{stop_end-IsStopped}
use nodelet.Agent.Chain.Started.{Started, start_phases-Started}
use nodelet.Agent.Chain.Stopped.{
  stop_loop-break, stop_loop-next, stopping, stop_phases_lem, stop_end-Stopped, stopping-Stopped,
}
use nodelet.Agent.Reconcile.{
  already_running, confirm_running, after_start, restart_from, start_service,
  handle_service_start_state,
}
use nodelet.Agent.State.{Returns, Returns-bind, Returns-if}
use nodelet.Agent.Reconcile.Safety.{IsWellFormed, IsUsable}

module _ (s : Setup) where
  -- No phase of a list meets the guard of the early return.
  abbrev Unskipped : Nodelet → List (ℕ × Phase) → Type 0
  Unskipped n [] = Unit
  Unskipped n ((i, p) ∷ ps) = (skips s i p n ≡ false) × Unskipped n ps

  Unskipped-emit :
      (p : Phase) (n : Nodelet) (ps : List (ℕ × Phase))
      → Unskipped n ps
      → Unskipped (emit (call stop p) n) ps
  unfolding skips
  Unskipped-emit p n [] h = tt
  Unskipped-emit p n (_ ∷ ps) h = (h.0, Unskipped-emit p n ps h.1)

  stop_loop-Unskipped :
      (force : Bool) (ps : List (ℕ × Phase)) (err : Bool) (n : Nodelet)
      → Unskipped n ps
      → (stop_loop s force ps err n).0 ≡ false
  stop_loop-Unskipped force [] err n h = unfold stop_loop in refl
  stop_loop-Unskipped force ((i, p) ∷ ps) err n h =
      elim (Bool-cases (s.env.fails n.trace (call stop p) && not force)) [
        | inl f ↦ rw (stop_loop-break s force i p ps err n h.0 f)
        | inr f ↦ rw (stop_loop-next s force i p ps err n h.0 f) (
            stop_loop-Unskipped force ps (s.env.fails n.trace (call stop p)) (emit (call stop p) n)
              (Unskipped-emit p n ps h.1))
      ]

  Unskipped-append :
      (n : Nodelet) (ps qs : List (ℕ × Phase))
      → Unskipped n ps
      → Unskipped n qs
      → Unskipped n (ps ++ qs)
  Unskipped-append n [] qs h k = k
  Unskipped-append n (_ ∷ ps) qs h k = (h.0, Unskipped-append n ps qs h.1 k)

  Unskipped-reverse :
      (n : Nodelet) (ps : List (ℕ × Phase)) → Unskipped n ps → Unskipped n (reverse ps)
  Unskipped-reverse n [] h = tt
  Unskipped-reverse n (x ∷ ps) h =
      rw reverse-cons
        (Unskipped-append n (reverse ps) (x ∷ []) (Unskipped-reverse n ps h.1) (h.0, tt))

  -- The phases behind the first have other orders than the one that generates the certificates.
  later-Unskipped :
      (n : Nodelet) (i : ℕ) (ps : List Phase)
      → AllAbove gen_certs_phase_order ps
      → Unskipped n (indexed i ps)
  unfolding skips indexed
  later-Unskipped n i [] h = tt
  later-Unskipped n i (p ∷ ps) h = (above, later-Unskipped n (i + 1) ps h.1)
    where
      above : skips s i p n ≡ false
      above = ground (arith, h.0)

  all-Unskipped :
      (n : Nodelet) (ps : List Phase)
      → CertsFirst ps
      → n.current_state.failed_status_check ≡ pos 0
      → Unskipped n (indexed 0 ps)
  unfolding indexed
  all-Unskipped n [] h e = tt
  all-Unskipped n (p ∷ ps) h e = (first, later-Unskipped n (0 + 1) ps h)
    where
      first : skips s 0 p n ≡ false
      first = unfold skips in ground (arith, e)

  abbrev pub AttemptsAreZero : Nodelet → Type 0
  AttemptsAreZero m = m.current_state.start_attempts ≡ pos 0

  stopping-unskipped :
      (n : Nodelet)
      → CertsFirst s.phases
      → n.current_state.failed_status_check ≡ pos 0
      → (stopping s 0 false n).0 ≡ false
  unfolding stopping
  stopping-unskipped n first e =
      stop_loop-Unskipped false (reverse (indexed 0 s.phases)) false n
        (Unskipped-reverse n (indexed 0 s.phases) (all-Unskipped n s.phases first e))

  -- A stop down to index 0 that generates the certificates again resets the counter.
  full_stop-resets :
      (n : Nodelet)
      → 0 < length s.phases
      → CertsFirst s.phases
      → n.current_state.all_phases ≡ map (λ p. p.name) s.phases
      → n.current_state.failed_status_check ≡ pos 0
      → let r = stopping s 0 false n in stop_phases s (pos 0) false n ≡ done (r.1, stop_end s 0 r.2)
  full_stop-resets n lt first names e =
      stop_phases_lem s 0 false n lt names ∙ rw (stopping-unskipped n first e)

  after_start-zero :
      (i : ℕ) (n : Nodelet) (r : ℕ × Bool × Nodelet)
      → n.current_state.start_attempts ≡ pos 0
      → Started s i n r
      → Returns AttemptsAreZero (after_start s r)
  unfolding after_start
  after_start-zero i n (step, true, m) z h =
      let lt : step < length s.phases =
        omega (arith, h.ends.failed_inside refl, length-map (λ (p : Phase). p.name) s.phases) in
      let (p, at) = get_elem?-lt s.phases step lt in
      rw (at, after_start) (h.around.start_attempts ∙ z)
  after_start-zero i n (step, false, m) z h = refl

  restart-zero :
      (n : Nodelet)
      → 0 < length s.phases
      → CertsFirst s.phases
      → n.current_state.all_phases ≡ map (λ p. p.name) s.phases
      → n.current_state.failed_status_check ≡ pos 0
      → Returns AttemptsAreZero (restart_from s (pos 0) n)
  unfolding restart_from
  restart-zero n lt first names e =
      let r = stopping s 0 false n in
      let m = stop_end s 0 r.2 in
      let kept =
        (stop_end-Stopped s 0 r.2).all_phases ∙ (stopping-Stopped s 0 false n).all_phases in
      let n2 : Nodelet =
        with_state
          (λ d. record d { cluster_id = s.config.cluster_id; cluster_role = s.config.cluster_role })
          m in
      let (q, started, result) = start_phases-Started s 0 n2 lt (kept ∙ names) in
      rw (full_stop-resets n lt first names e)
        (rw started (after_start-zero 0 n2 q ((stop_end-IsStopped s 0 r.2).counter refl) result))

  start_service-zero :
      (n : Nodelet)
      → IsUsable s
      → CertsFirst s.phases
      → n.current_state.all_phases ≡ map (λ p. p.name) s.phases
      → n.current_state.failed_status_check ≡ pos 0
      → Returns AttemptsAreZero (start_service s n)
  unfolding start_service
  start_service-zero n u first names e =
      let nonzero : eqb (abs s.config.full_retry_count) 0 ≡ false = ground (arith, u.retry_count) in
      rw nonzero (rw (index _) (restart-zero _ u.some_phase first names e))
    where
      index : (b : Bool) → (if b then pos 0 else n.current_state.failed_status_check) ≡ pos 0
      index true = refl
      index false = e

  -- With scripts enabled, a well-formed agent, some phase, a retry count that is not 0, and phases
  -- of which only the first may generate the certificates, the start handler for a service that
  -- does not run as it should and a `FailedStatusCheck` of 0 does not panic and leaves
  -- `StartAttempts` at 0, also when the first phase fails again.
  pub first_failure-forgets :
      (n : Nodelet)
      → IsUsable s
      → IsWellFormed s n
      → CertsFirst s.phases
      → s.config.disable_scripts ≡ false
      → already_running s n.current_state ≡ false
      → n.current_state.failed_status_check ≡ pos 0
      → Returns AttemptsAreZero (handle_service_start_state s n)
  unfolding handle_service_start_state already_running
  first_failure-forgets n u h first on off e =
      Returns-if AttemptsAreZero s.config.disable_scripts _ _ (λ off'. cc)
        (λ _.
          Returns-bind AttemptsAreZero AttemptsAreZero _ _
            (Returns-if AttemptsAreZero (already_running s n1.current_state)
              (done (confirm_running s n1)) (start_service s n1) (λ running. absurd (ground arith))
              (λ _. start_service-zero n1 u first h.names e))
            (λ m z. (persist-SameCore s m).start_attempts ∙ z))
    where
      n1 : Nodelet
      n1 = with_state (λ d. record d { operation = start_op }) n

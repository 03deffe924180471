-- ===== src/Agent/Chain/Stopped.antt =====
-- What `Stop` of nodelet/pkg/nodelet/nodelet.go leaves behind.
use nodelet.Shared.{
  ℕ, ◌<◌, ◌≡◌, refl, Bool, true, false, inl, inr, List, [], ◌∷◌, arith, Bool-cases, not, ◌&&◌, ◌∙◌,
  eqb, length, map, drop, pos, get_elem?-lt, length-map, ap, if◌then◌else◌,
}
use mathlib.Core.List.{reverse}
use nodelet.Config.{service_state_false}
use nodelet.Extension.{prefix}
use nodelet.Agent.State.{Phase, Setup, Nodelet, call, emit, stop, done, with_state}
use nodelet.Agent.Persist.Frame.{persist-SameCore}
use nodelet.Agent.Chain.{indexed, skips, reset, stop_loop, stop_end, stop_phases}

module _ (s : Setup) where
  pub stop_loop-skip :
      (force : Bool) (i : ℕ) (p : Phase) (rest : List (ℕ × Phase)) (err : Bool) (n : Nodelet)
      → skips s i p n ≡ true
      → stop_loop s force ((i, p) ∷ rest) err n ≡ (true, false, n)
  unfolding stop_loop
  stop_loop-skip force i p rest err n e = rw e

  pub stop_loop-break :
      (force : Bool) (i : ℕ) (p : Phase) (rest : List (ℕ × Phase)) (err : Bool) (n : Nodelet)
      → skips s i p n ≡ false
      → (s.env.fails n.trace (call stop p) && not force) ≡ true
      → stop_loop s force ((i, p) ∷ rest) err n ≡ (false, true, emit (call stop p) n)
  unfolding stop_loop
  stop_loop-break force i p rest err n e f = rw e (rw f)

  pub stop_loop-next :
      (force : Bool) (i : ℕ) (p : Phase) (rest : List (ℕ × Phase)) (err : Bool) (n : Nodelet)
      → skips s i p n ≡ false
      → (s.env.fails n.trace (call stop p) && not force) ≡ false
      → stop_loop s force ((i, p) ∷ rest) err n
        ≡ stop_loop s force rest (s.env.fails n.trace (call stop p)) (emit (call stop p) n)
  unfolding stop_loop
  stop_loop-next force i p rest err n e f = rw e (rw f)

  -- The loop only makes calls.
  pub stop_loop-state :
      (force : Bool) (ps : List (ℕ × Phase)) (err : Bool) (n : Nodelet)
      → (stop_loop s force ps err n).2.current_state ≡ n.current_state
  stop_loop-state force [] err n = unfold stop_loop in refl
  stop_loop-state force ((i, p) ∷ rest) err n = elim (Bool-cases (skips s i p n)) [
    | inl e ↦ rw (stop_loop-skip force i p rest err n e)
    | inr e ↦ elim (Bool-cases (s.env.fails n.trace (call stop p) && not force)) [
      | inl f ↦ rw (stop_loop-break force i p rest err n e f)
      | inr f ↦
          rw (stop_loop-next force i p rest err n e f)
            (stop_loop-state force rest (s.env.fails n.trace (call stop p)) (emit (call stop p) n))
    ]
  ]

  -- The loop of `Stop` down to an index.
  unfoldable pub stopping : ℕ → Bool → Nodelet → Bool × Bool × Nodelet
  stopping i force n = stop_loop s force (reverse (indexed i (drop i s.phases))) false n

  pub stop_phases_lem :
      (i : ℕ) (force : Bool) (n : Nodelet)
      → i < length s.phases
      → n.current_state.all_phases ≡ map (λ p. p.name) s.phases
      → let r = stopping i force n in
        stop_phases s (pos i) force n
        ≡ (if r.0 then done (false, r.2) else done (r.1, stop_end s i r.2))
  unfolding stop_phases stopping
  stop_phases_lem i force n lt names =
      let (p, at) = get_elem?-lt s.phases i lt in
      ground (
        arith,
        at,
        ap length names,
        length-map (λ (q : Phase). q.name) s.phases,
        stop_loop-state force (reverse (indexed i (drop i s.phases))) false n,
      )

  -- What `Stop` keeps: the lists that the agent was made with, and the results of the checks.
  pub record Stopped (n m : Nodelet) : Type 0 where
    pub all_phases : m.current_state.all_phases ≡ n.current_state.all_phases
    pub operation : m.current_state.operation ≡ n.current_state.operation
    pub kube_running : m.current_state.kube_running ≡ n.current_state.kube_running
    pub failed_status_check :
        m.current_state.failed_status_check ≡ n.current_state.failed_status_check
    pub start_fail_step : m.current_state.start_fail_step ≡ n.current_state.start_fail_step

  pub stop_end-Stopped : (i : ℕ) (n : Nodelet) → Stopped n (stop_end s i n)
  unfolding stop_end reset
  stop_end-Stopped i n = elim (Bool-cases (eqb i 0)) [
    | inl z ↦ rw z (ground (arith, persist-SameCore s (with_state (reset) (cleared i n))))
    | inr z ↦ rw z (ground (arith, persist-SameCore s (cleared i n)))
  ]
    where
      cleared : ℕ → Nodelet → Nodelet
      cleared i n =
          with_state
            (λ d. record d { service_state = service_state_false; completed_phases = prefix i }) n

  pub stopping-Stopped : (i : ℕ) (force : Bool) (n : Nodelet) → Stopped n (stopping i force n).2
  unfolding stopping
  stopping-Stopped i force n =
      ground (arith, stop_loop-state force (reverse (indexed i (drop i s.phases))) false n)

  Stopped-trans : {a b c : Nodelet} → Stopped a b → Stopped b c → Stopped a c
  Stopped-trans h k = ground arith

  -- From an index of a phase `Stop` never panics, and keeps what `Stopped` names.
  pub stop_phases-Stopped :
      (i : ℕ) (force : Bool) (n : Nodelet)
      → i < length s.phases
      → n.current_state.all_phases ≡ map (λ p. p.name) s.phases
      → (r : Bool × Nodelet) × (stop_phases s (pos i) force n ≡ done r) × Stopped n r.1
  stop_phases-Stopped i force n lt names = elim (Bool-cases (stopping i force n).0) [
    | inl e ↦ (
      (false, (stopping i force n).2),
      stop_phases_lem i force n lt names ∙ (rw e),
      stopping-Stopped i force n,
    )
    | inr e ↦ (
      ((stopping i force n).1, stop_end s i (stopping i force n).2),
      stop_phases_lem i force n lt names ∙ (rw e),
      Stopped-trans (stopping-Stopped i force n) (stop_end-Stopped i (stopping i force n).2),
    )
  ]

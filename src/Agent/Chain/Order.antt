-- ===== src/Agent/Chain/Order.antt =====
-- The order of the calls that `Start` and `Stop` of nodelet/pkg/nodelet/nodelet.go make.
use mathlib.Core.List.{reverse}
use nodelet.Config.{start_op, service_state_false}
use nodelet.Shared.{
  push-reverse, map-reverse, eqb, ◌==◌, ℕ, ◌+◌, ◌<◌, ◌≡◌, refl, ◌∙◌, ap, Bool, true, false, not,
  ◌&&◌, inl, inr, List, [], ◌∷◌, ◌++◌, arith, Bool-cases, length, map, drop, take, push, pos,
}
use nodelet.Extension.{elements, prefix}
use nodelet.Agent.State.{Phase, start, stop, Event, call, Setup, Nodelet, done, emit, with_state}
use nodelet.Agent.Persist.Frame.{persist-SameCore}
use nodelet.Agent.Persist.{try_to_persist_status}
use nodelet.Agent.Chain.{indexed, stop_loop, stop_phases, skips, stop_end, reset}
use nodelet.Agent.Chain.Stopped.{stop_loop-next, stopping, stop_phases_lem}

-- The phases that were started, the latest first.
abbrev pub started : List Event → List Phase
started [] = []
started (call start p ∷ es) = p ∷ started es
started (_ ∷ es) = started es

-- The phases that were stopped, the latest first.
abbrev pub stopped : List Event → List Phase
stopped [] = []
stopped (call stop p ∷ es) = p ∷ stopped es
stopped (_ ∷ es) = stopped es

abbrev pub one_if : Bool → ℕ
one_if true = 1
one_if false = 0

module _ (s : Setup) where
  pub persist-stopped : (n : Nodelet) → stopped (try_to_persist_status s n).trace ≡ stopped n.trace
  unfolding try_to_persist_status
  persist-stopped n = ground arith

  -- What `Start` reports from index `i`: it went over `k` phases, the last of which may have failed.
  pub record IsStartReport (i : ℕ) (n : Nodelet) (r : ℕ × Bool × Nodelet) : Type 0 where
    pub steps : ℕ
    pub last : r.0 ≡ i + steps
    pub failed_inside : r.1 ≡ true → r.0 < length s.phases
    pub passed_whole : r.1 ≡ false → r.0 ≡ length s.phases
    pub order :
        started r.2.trace ≡ push (take (steps + one_if r.1) (drop i s.phases)) (started n.trace)
    pub untouched : r.2.current_state.all_phases ≡ n.current_state.all_phases
    pub completed :
        elements r.2.current_state.all_phases r.2.current_state.completed_phases
        ≡ take r.0 (map (λ p. p.name) s.phases)

  -- The loop of `Stop` without the early return, and with `force` set, stops every phase.
  stop_loop-forced :
      (ps : List (ℕ × Phase)) (err : Bool) (n : Nodelet)
      → (n.current_state.operation == start_op) ≡ false
      → let r = stop_loop s true ps err n in
        (r.0 ≡ false) × (stopped r.2.trace ≡ push (map (λ x. x.1) ps) (stopped n.trace))
  stop_loop-forced [] err n h = unfold stop_loop in (refl, refl)
  stop_loop-forced ((i, p) ∷ ps) err n h =
      rw
        (stop_loop-next s true i p ps err n (unfold skips in rw h)
          (never (s.env.fails n.trace (call stop p))))
        (stop_loop-forced ps (s.env.fails n.trace (call stop p)) (emit (call stop p) n) h)
    where
      never : (b : Bool) → (b && not true) ≡ false
      never true = refl
      never false = refl

  indexed-phases : (i : ℕ) (ps : List Phase) → map (λ x. x.1) (indexed i ps) ≡ ps
  unfolding indexed
  indexed-phases i [] = refl
  indexed-phases i (p ∷ ps) = ap (λ qs. p ∷ qs) (indexed-phases (i + 1) ps)

  pub stop_end-stopped : (i : ℕ) (n : Nodelet) → stopped (stop_end s i n).trace ≡ stopped n.trace
  unfolding stop_end
  stop_end-stopped i n = elim (Bool-cases (eqb i 0)) [
    | inl z ↦ rw z (persist-stopped _)
    | inr z ↦ rw z (persist-stopped _)
  ]

  -- What `Stop` sets behind its loop.
  pub record IsStopped (i : ℕ) (m : Nodelet) : Type 0 where
    pub service : m.current_state.service_state ≡ service_state_false
    pub completed :
        elements m.current_state.all_phases m.current_state.completed_phases
        ≡ take i m.current_state.all_phases
    pub counter : i ≡ 0 → m.current_state.start_attempts ≡ pos 0
    pub cluster : i ≡ 0 → m.current_state.cluster_id ≡ ""
    pub role : i ≡ 0 → m.current_state.cluster_role ≡ ""

  pub stop_end-IsStopped : (i : ℕ) (n : Nodelet) → IsStopped i (stop_end s i n)
  unfolding stop_end reset elements
  stop_end-IsStopped i n = elim (Bool-cases (eqb i 0)) [
    | inl z ↦
        let same = persist-SameCore s (with_state reset (cleared i n)) in
        let none_left : i ≡ 0 = ground arith in
        rw z (record {
          service = same.service_state;
          completed = rw (same.completed_phases, none_left) refl;
          counter = λ _. same.start_attempts;
          cluster = λ _. same.cluster_id;
          role = λ _. same.cluster_role;
        })
    | inr z ↦
        let same = persist-SameCore s (cleared i n) in
        rw z (record {
          service = same.service_state;
          completed = rw same.completed_phases refl;
          counter = λ e. absurd (ground arith);
          cluster = λ e. absurd (ground arith);
          role = λ e. absurd (ground arith);
        })
  ]
    where
      cleared : ℕ → Nodelet → Nodelet
      cleared i n =
          with_state
            (λ d. record d { service_state = service_state_false; completed_phases = prefix i }) n

  -- A forced `Stop` from the index of a phase, on an agent whose operation is not a start and whose
  -- list of phase names is that of its setup, returns and stops every phase from the last down to
  -- that one, each once and in the reverse order, and leaves the state of a stop to that index.
  pub stop_phases-forced :
      (i : ℕ) (n : Nodelet)
      → i < length s.phases
      → n.current_state.all_phases ≡ map (λ p. p.name) s.phases
      → (n.current_state.operation == start_op) ≡ false
      → (r : Bool × Nodelet) × (stop_phases s (pos i) true n ≡ done r)
        × (stopped r.1.trace ≡ drop i s.phases ++ stopped n.trace)
        × IsStopped i r.1
  stop_phases-forced i n lt names op =
      let ps = reverse (indexed i (drop i s.phases)) in
      let (ends, calls) = stop_loop-forced ps false n op in
      let r = stop_loop s true ps false n in
      (
        (r.1, stop_end s i r.2),
        stop_phases_lem s i true n lt names ∙ (unfold stopping in rw ends),
        stop_end-stopped i r.2 ∙ calls ∙ simp (map-reverse, indexed-phases, push-reverse),
        stop_end-IsStopped i r.2,
      )

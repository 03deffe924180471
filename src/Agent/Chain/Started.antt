-- ===== src/Agent/Chain/Started.antt =====
-- What `Start` of nodelet/pkg/nodelet/nodelet.go leaves behind.
use nodelet.Shared.{
  ℕ, suc, ◌+◌, ◌≤◌, ◌<◌, ◌≡◌, refl, String, Bool, true, false, inl, inr, List, [], ◌∷◌, arith,
  Bool-cases, length, map, pos, get_elem?-lt, length-map, drop-map, drop, get_elem?, set-get_elem?,
  get_elem?-drop, drop-suc, lt-length_of_drop, some, length-drop_eq, ap,
}
use native.Mathlib.Numerals.{add-one}
use nodelet.Extension.{ExtensionData, prefix, complete_phase}
use nodelet.Agent.State.{Phase, done, start, call, Setup, Nodelet, emit, with_state}
use nodelet.Agent.Persist.{try_to_persist_status}
use nodelet.Agent.Persist.Frame.{SameCore, persist-SameCore}
use nodelet.Agent.Chain.{start_loop, start_phases}

-- The state of the lists of phases while the chain is at index `i`: the array is `arr`, and the
-- completed phases are its first `i` elements, in the same array.
pub record IsAt (arr : List String) (i : ℕ) (d : ExtensionData) : Type 0 where
  pub array : d.all_phases ≡ arr
  pub completed : d.completed_phases ≡ prefix i

pub IsAt-SameCore :
    (arr : List String) (i : ℕ) {a b : ExtensionData} → SameCore a b → IsAt arr i b → IsAt arr i a
IsAt-SameCore arr i h k = ground arith

-- `append` writes the name that stands in the array already.
complete_phase-IsAt :
    (arr : List String) (i : ℕ) (x : String) (d : ExtensionData)
    → IsAt arr i d
    → get_elem? arr i ≡ some x
    → i < length arr
    → IsAt arr (suc i) (complete_phase x d)
unfolding complete_phase
complete_phase-IsAt arr i x d h g lt =
    rw h.completed (rw h.array (ground (arith, set-get_elem? arr i x g)))

-- The fields that `Start` never changes.
pub record SameAround (a b : ExtensionData) : Type 0 where
  pub service_state : a.service_state ≡ b.service_state
  pub start_attempts : a.start_attempts ≡ b.start_attempts
  pub cluster_id : a.cluster_id ≡ b.cluster_id
  pub cluster_role : a.cluster_role ≡ b.cluster_role
  pub operation : a.operation ≡ b.operation
  pub kube_running : a.kube_running ≡ b.kube_running
  pub failed_status_check : a.failed_status_check ≡ b.failed_status_check
  pub last_successful_status : a.last_successful_status ≡ b.last_successful_status
  pub start_fail_step : a.start_fail_step ≡ b.start_fail_step

pub SameAround-trans : {a b c : ExtensionData} → SameAround a b → SameAround b c → SameAround a c
SameAround-trans h k = ground arith

complete_phase-SameAround : (x : String) (d : ExtensionData) → SameAround (complete_phase x d) d
unfolding complete_phase
complete_phase-SameAround x d = ground arith

-- Where the loop of `Start` ends, in an array of names.
pub record EndsAt (arr : List String) (i : ℕ) (r : ℕ × Bool × Nodelet) : Type 0 where
  pub at : IsAt arr r.0 r.2.current_state
  pub above : i ≤ r.0
  pub failed_inside : r.1 ≡ true → r.0 < length arr
  pub passed_whole : r.1 ≡ false → r.0 ≡ length arr

EndsAt-lower :
    (arr : List String) (i : ℕ) {r : ℕ × Bool × Nodelet} → EndsAt arr (i + 1) r → EndsAt arr i r
EndsAt-lower arr i h = record {
  at = h.at;
  above = omega (arith, h.above);
  failed_inside = h.failed_inside;
  passed_whole = h.passed_whole;
}

module _ (s : Setup) where
  -- The agent before the phase is started, and after each result.
  unfoldable pub entered : Phase → Nodelet → Nodelet
  entered p n = try_to_persist_status s (with_state (λ d. record d { current_phase = p.name }) n)

  unfoldable pub spoiled : Phase → Nodelet → Nodelet
  spoiled p n = try_to_persist_status s (
      with_state (λ d. record d { last_failed_phase = p.name }) (emit (call start p) (entered p n)))

  unfoldable pub finished : Phase → Nodelet → Nodelet
  finished p n =
      try_to_persist_status s
        (with_state (complete_phase p.name) (emit (call start p) (entered p n)))

  pub start_loop-nil : (i : ℕ) (n : Nodelet) → start_loop s [] i n ≡ (i, false, n)
  unfolding start_loop
  start_loop-nil i n = refl

  pub start_loop-fail :
      (p : Phase) (ps : List Phase) (i : ℕ) (n : Nodelet)
      → s.env.fails (entered p n).trace (call start p) ≡ true
      → start_loop s (p ∷ ps) i n ≡ (i, true, spoiled p n)
  unfolding start_loop entered spoiled
  start_loop-fail p ps i n e = rw e

  pub start_loop-pass :
      (p : Phase) (ps : List Phase) (i : ℕ) (n : Nodelet)
      → s.env.fails (entered p n).trace (call start p) ≡ false
      → start_loop s (p ∷ ps) i n ≡ start_loop s ps (i + 1) (finished p n)
  unfolding start_loop entered finished
  start_loop-pass p ps i n e = rw e

  entered-IsAt :
      (arr : List String) (i : ℕ) (p : Phase) (n : Nodelet)
      → IsAt arr i n.current_state
      → IsAt arr i (entered p n).current_state
  unfolding entered
  entered-IsAt arr i p n h =
      IsAt-SameCore arr i
        (persist-SameCore s (with_state (λ d. record d { current_phase = p.name }) n))
        (ground arith)

  spoiled-IsAt :
      (arr : List String) (i : ℕ) (p : Phase) (n : Nodelet)
      → IsAt arr i n.current_state
      → IsAt arr i (spoiled p n).current_state
  unfolding spoiled
  spoiled-IsAt arr i p n h =
      IsAt-SameCore arr i
        (persist-SameCore s (
          with_state (λ d. record d { last_failed_phase = p.name })
            (emit (call start p) (entered p n))))
        (ground (arith, entered-IsAt arr i p n h))

  finished-IsAt :
      (arr : List String) (i : ℕ) (p : Phase) (n : Nodelet)
      → IsAt arr i n.current_state
      → get_elem? arr i ≡ some p.name
      → i < length arr
      → IsAt arr (suc i) (finished p n).current_state
  unfolding finished
  finished-IsAt arr i p n h g lt =
      IsAt-SameCore arr (suc i)
        (persist-SameCore s
          (with_state (complete_phase p.name) (emit (call start p) (entered p n))))
        (complete_phase-IsAt arr i p.name (entered p n).current_state (entered-IsAt arr i p n h) g
          lt)

  pub start_loop-EndsAt :
      (arr : List String) (ps : List Phase) (i : ℕ) (n : Nodelet)
      → drop i arr ≡ map (λ p. p.name) ps
      → i ≤ length arr
      → IsAt arr i n.current_state
      → EndsAt arr i (start_loop s ps i n)
  start_loop-EndsAt arr [] i n d le h =
      let end : i ≡ length arr = omega (arith, length-drop_eq arr i le, ap length d) in
      rw start_loop-nil
        (record { at = h; above = omega arith; failed_inside = λ e. cc; passed_whole = λ _. end })
  start_loop-EndsAt arr (p ∷ ps) i n d le h =
      elim (Bool-cases (s.env.fails (entered p n).trace (call start p))) [
        | inl bad ↦ rw (start_loop-fail p ps i n bad) (record {
          at = spoiled-IsAt arr i p n h;
          above = omega arith;
          failed_inside = λ _. lt-length_of_drop arr i d;
          passed_whole = λ e. cc;
        })
        | inr good ↦ rw (start_loop-pass p ps i n good) (
            EndsAt-lower arr i (
              start_loop-EndsAt arr ps (i + 1) (finished p n) (rw add-one (drop-suc arr i d))
                (omega (arith, lt-length_of_drop arr i d))
                (rw add-one (
                  finished-IsAt arr i p n h (get_elem?-drop arr i d) (lt-length_of_drop arr i d)))))
      ]

  entered-SameAround :
      (p : Phase) (n : Nodelet) → SameAround (entered p n).current_state n.current_state
  unfolding entered
  entered-SameAround p n =
      ground (arith, persist-SameCore s (with_state (λ d. record d { current_phase = p.name }) n))

  spoiled-SameAround :
      (p : Phase) (n : Nodelet) → SameAround (spoiled p n).current_state n.current_state
  unfolding spoiled
  spoiled-SameAround p n = ground (
    arith,
    entered-SameAround p n,
    persist-SameCore s (
        with_state (λ d. record d { last_failed_phase = p.name })
          (emit (call start p) (entered p n))),
  )

  finished-SameAround :
      (p : Phase) (n : Nodelet) → SameAround (finished p n).current_state n.current_state
  unfolding finished
  finished-SameAround p n = ground (
    arith,
    entered-SameAround p n,
    complete_phase-SameAround p.name (entered p n).current_state,
    persist-SameCore s (with_state (complete_phase p.name) (emit (call start p) (entered p n))),
  )

  pub start_loop-SameAround :
      (ps : List Phase) (i : ℕ) (n : Nodelet)
      → SameAround (start_loop s ps i n).2.current_state n.current_state
  start_loop-SameAround [] i n = rw start_loop-nil (ground arith)
  start_loop-SameAround (p ∷ ps) i n =
      elim (Bool-cases (s.env.fails (entered p n).trace (call start p))) [
        | inl bad ↦ rw (start_loop-fail p ps i n bad) (spoiled-SameAround p n)
        | inr good ↦ rw (start_loop-pass p ps i n good) (
            SameAround-trans (start_loop-SameAround ps (i + 1) (finished p n))
              (finished-SameAround p n))
      ]

  -- The agent as the loop of `Start` finds it, and as `Start` leaves it.
  unfoldable pub begun : ℕ → Nodelet → Nodelet
  begun i n = with_state (λ d. record d { completed_phases = prefix i }) n

  unfoldable pub ended : Nodelet → Nodelet
  ended n = try_to_persist_status s (with_state (λ d. record d { current_phase = "" }) n)

  pub start_phases_lem :
      (i : ℕ) (n : Nodelet)
      → i < length s.phases
      → n.current_state.all_phases ≡ map (λ p. p.name) s.phases
      → let r = start_loop s (drop i s.phases) i (begun i n) in
        start_phases s (pos i) n ≡ done (r.0, r.1, ended r.2)
  unfolding start_phases begun ended
  start_phases_lem i n lt names =
      let (p, at) = get_elem?-lt s.phases i lt in
      ground (arith, at, ap length names, length-map (λ (q : Phase). q.name) s.phases)

  ended-IsAt :
      (arr : List String) (i : ℕ) (n : Nodelet)
      → IsAt arr i n.current_state
      → IsAt arr i (ended n).current_state
  unfolding ended
  ended-IsAt arr i n h =
      IsAt-SameCore arr i (persist-SameCore s (with_state (λ d. record d { current_phase = "" }) n))
        (ground arith)

  ended-SameAround : (n : Nodelet) → SameAround (ended n).current_state n.current_state
  unfolding ended
  ended-SameAround n =
      ground (arith, persist-SameCore s (with_state (λ d. record d { current_phase = "" }) n))

  begun-IsAt :
      (arr : List String) (i : ℕ) (n : Nodelet)
      → n.current_state.all_phases ≡ arr
      → IsAt arr i (begun i n).current_state
  unfolding begun
  begun-IsAt arr i n h = ground arith

  begun-SameAround : (i : ℕ) (n : Nodelet) → SameAround (begun i n).current_state n.current_state
  unfolding begun
  begun-SameAround i n = ground arith

  EndsAt-ended :
      {arr : List String} {i : ℕ} {r : ℕ × Bool × Nodelet}
      → EndsAt arr i r
      → EndsAt arr i (r.0, r.1, ended r.2)
  EndsAt-ended {arr} {i} {r} h = record {
    at = ended-IsAt arr r.0 r.2 h.at;
    above = h.above;
    failed_inside = h.failed_inside;
    passed_whole = h.passed_whole;
  }

  -- What `Start` returns from an index in range.
  pub record Started (i : ℕ) (n : Nodelet) (r : ℕ × Bool × Nodelet) : Type 0 where
    pub ends : EndsAt (map (λ p. p.name) s.phases) i r
    pub around : SameAround r.2.current_state n.current_state

  pub ended-Started :
      (i : ℕ) (n : Nodelet)
      → i < length s.phases
      → n.current_state.all_phases ≡ map (λ p. p.name) s.phases
      → let r = start_loop s (drop i s.phases) i (begun i n) in Started i n (r.0, r.1, ended r.2)
  ended-Started i n lt names =
      let r = start_loop s (drop i s.phases) i (begun i n) in
      let arr = map (λ (p : Phase). p.name) s.phases in
      record {
        ends = EndsAt-ended (
            start_loop-EndsAt arr (drop i s.phases) i (begun i n)
              (drop-map (λ p. p.name) i s.phases)
              (omega (arith, length-map (λ (p : Phase). p.name) s.phases))
              (begun-IsAt arr i n names));
        around = SameAround-trans (ended-SameAround r.2) (
            SameAround-trans (start_loop-SameAround (drop i s.phases) i (begun i n))
              (begun-SameAround i n));
      }

  -- From an index of a phase `Start` never panics, and returns as `Started` says.
  pub start_phases-Started :
      (i : ℕ) (n : Nodelet)
      → i < length s.phases
      → n.current_state.all_phases ≡ map (λ p. p.name) s.phases
      → (r : ℕ × Bool × Nodelet) × (start_phases s (pos i) n ≡ done r) × Started i n r
  start_phases-Started i n lt names =
      let r = start_loop s (drop i s.phases) i (begun i n) in
      ((r.0, r.1, ended r.2), start_phases_lem i n lt names, ended-Started i n lt names)

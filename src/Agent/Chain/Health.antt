-- ===== src/Agent/Chain/Health.antt =====
-- What `Status` of nodelet/pkg/nodelet/nodelet.go leaves behind.
use nodelet.Shared.{
  ℕ, zero, suc, ◌+◌, ◌≤◌, ◌<◌, ◌≡◌, refl, false, inl, inr, List, [], ◌∷◌, arith, Bool-cases, ℤ, pos,
  negsuc, minus_one, eqb_ℤ, length,
}
use mathlib.Core.Path.{subst}
use mathlib.Core.Logic.{◌⊎◌}
use nodelet.Extension.{ExtensionData}
use nodelet.Agent.State.{Phase, status, call, Setup, Nodelet, emit, with_state}
use nodelet.Agent.Persist.{try_to_persist_status}
use nodelet.Agent.Persist.Frame.{SameCore, SameCore-trans, persist-SameCore}
use nodelet.Agent.Chain.{
  status_loop, status_verdict, status_begin, status_run, status_incomplete, check_status,
}

-- An index in a range.
abbrev pub InRange : ℕ → ℕ → ℤ → Type 0
InRange lo hi (pos i) = (lo ≤ i) × (i < hi)
InRange lo hi (negsuc k) = ⊥

-- -1, or an index in a range.
abbrev pub IsIndex : ℕ → ℕ → ℤ → Type 0
IsIndex lo hi (pos i) = (lo ≤ i) × (i < hi)
IsIndex lo hi (negsuc zero) = Unit
IsIndex lo hi (negsuc (suc k)) = ⊥

pub InRange-IsIndex :
    (lo hi : ℕ) (z : ℤ) → IsIndex lo hi z → eqb_ℤ z minus_one ≡ false → InRange lo hi z
InRange-IsIndex lo hi (pos i) h e = h
InRange-IsIndex lo hi (negsuc zero) h e = cc
InRange-IsIndex lo hi (negsuc (suc k)) h e = h

-- The fields that `Status` never changes.
pub record SameService (a b : ExtensionData) : Type 0 where
  pub service_state : a.service_state ≡ b.service_state
  pub start_attempts : a.start_attempts ≡ b.start_attempts
  pub cluster_id : a.cluster_id ≡ b.cluster_id
  pub cluster_role : a.cluster_role ≡ b.cluster_role
  pub all_phases : a.all_phases ≡ b.all_phases
  pub completed_phases : a.completed_phases ≡ b.completed_phases
  pub current_phase : a.current_phase ≡ b.current_phase
  pub last_failed_phase : a.last_failed_phase ≡ b.last_failed_phase
  pub start_fail_step : a.start_fail_step ≡ b.start_fail_step

module _ (s : Setup) where
  abbrev looked : Phase → Nodelet → Nodelet
  looked p n = emit (call status p) (with_state (λ d. record d { current_status_check = p.name }) n)

  status_loop-IsIndex :
      (ps : List Phase) (i : ℕ) (n : Nodelet) → IsIndex i (i + length ps) (status_loop s ps i n).0
  unfolding status_loop
  status_loop-IsIndex [] i n = tt
  status_loop-IsIndex (p ∷ ps) i n = elim (Bool-cases s.config.disable_scripts) [
    | inl off ↦ rw off tt
    | inr on ↦ rw on (elim (Bool-cases (s.env.fails n.trace (call status p))) [
      | inl bad ↦ rw bad (omega arith)
      | inr good ↦ rw good (widen _ (status_loop-IsIndex ps (i + 1) (looked p n)))
    ])
  ]
    where
      widen : (z : ℤ) → IsIndex (i + 1) (i + 1 + length ps) z → IsIndex i (i + length (p ∷ ps)) z
      widen (pos j) h = omega arith
      widen (negsuc zero) h = tt
      widen (negsuc (suc k)) h = absurd h

  status_loop-SameCore :
      (ps : List Phase) (i : ℕ) (n : Nodelet)
      → SameCore (status_loop s ps i n).1.current_state n.current_state
  unfolding status_loop
  status_loop-SameCore [] i n = ground arith
  status_loop-SameCore (p ∷ ps) i n = elim (Bool-cases s.config.disable_scripts) [
    | inl off ↦ rw off (ground arith)
    | inr on ↦ rw on (elim (Bool-cases (s.env.fails n.trace (call status p))) [
      | inl bad ↦ rw bad (ground arith)
      | inr good ↦
          rw good (SameCore-trans (status_loop-SameCore ps (i + 1) (looked p n)) (ground arith))
    ])
  ]

  status_verdict-SameService :
      (z : ℤ) (n : Nodelet) → SameService (status_verdict s z n).current_state n.current_state
  unfolding status_verdict
  status_verdict-SameService z n = ground arith

  SameService-core : {a b c : ExtensionData} → SameService a b → SameCore b c → SameService a c
  SameService-core h k = ground arith

  -- What the loop of `Status` and the save behind it leave.
  unfoldable pub after_loop : Nodelet → Nodelet
  after_loop n =
      try_to_persist_status s
        (with_state (λ d. record d { current_status_check = "" }) (status_loop s s.phases 0 n).1)

  pub after_loop-SameCore : (n : Nodelet) → SameCore (after_loop n).current_state n.current_state
  unfolding after_loop
  after_loop-SameCore n =
      SameCore-trans
        (persist-SameCore s
          (with_state (λ d. record d { current_status_check = "" }) (status_loop s s.phases 0 n).1))
        (ground (arith, status_loop-SameCore s.phases 0 n))

  pub status_run_lem :
      (n : Nodelet)
      → status_run s n ≡ status_verdict s (status_loop s s.phases 0 n).0 (after_loop n)
  unfolding status_run after_loop
  status_run_lem n = refl

  status_run-SameService :
      (n : Nodelet) → SameService (status_run s n).current_state n.current_state
  status_run-SameService n = rw status_run_lem (
      SameService-core (status_verdict-SameService (status_loop s s.phases 0 n).0 (after_loop n))
        (after_loop-SameCore n))

  status_incomplete-SameService :
      (n : Nodelet) → SameService (status_incomplete s n).current_state n.current_state
  unfolding status_incomplete
  status_incomplete-SameService n =
      ground
        (arith, persist-SameCore s (with_state (λ d. record d { current_status_check = "" }) n))

  -- `Status` never changes the state of the service, the retry counter, the identity of the
  -- cluster, the lists of phases or the recorded failed start.
  pub check_status-SameService :
      (n : Nodelet) → SameService (check_status s n).current_state n.current_state
  unfolding check_status status_begin
  check_status-SameService n = ground (
    arith,
    status_run-SameService (status_begin s n),
    status_incomplete-SameService (status_begin s n),
  )

  -- The index that the verdict keeps: 0, or that of the loop.
  verdict_index :
      (z : ℤ) (n : Nodelet)
      → let kept = (status_verdict s z n).current_state.failed_status_check in
        (kept ≡ pos 0) ⊎ ((kept ≡ z) × (eqb_ℤ z minus_one ≡ false))
  unfolding status_verdict
  verdict_index z n = ground arith

  status_verdict-InRange :
      (z : ℤ) (n : Nodelet)
      → 0 < length s.phases
      → IsIndex 0 (length s.phases) z
      → InRange 0 (length s.phases) (status_verdict s z n).current_state.failed_status_check
  status_verdict-InRange z n h k = elim (verdict_index z n) [
    | inl e ↦ rw e (omega arith)
    | inr e ↦ rw e.0 (InRange-IsIndex _ _ z k e.1)
  ]

  status_run-InRange :
      (n : Nodelet)
      → 0 < length s.phases
      → InRange 0 (length s.phases) (status_run s n).current_state.failed_status_check
  status_run-InRange n h = rw status_run_lem (
      status_verdict-InRange (status_loop s s.phases 0 n).0 (after_loop n) h (
        subst (λ k. IsIndex 0 k (status_loop s s.phases 0 n).0) (omega arith)
          (status_loop-IsIndex s.phases 0 n)))

  status_incomplete-step :
      (n : Nodelet)
      → (status_incomplete s n).current_state.failed_status_check ≡ n.current_state.start_fail_step
  unfolding status_incomplete
  status_incomplete-step n =
      ground
        (arith, persist-SameCore s (with_state (λ d. record d { current_status_check = "" }) n))

  -- `Status`, with some phase and a recorded failed start that is the index of a phase or none,
  -- leaves `FailedStatusCheck` at the index of a phase, from which the next start goes on.
  pub check_status-InRange :
      (n : Nodelet)
      → 0 < length s.phases
      → IsIndex 0 (length s.phases) n.current_state.start_fail_step
      → InRange 0 (length s.phases) (check_status s n).current_state.failed_status_check
  unfolding check_status status_begin
  check_status-InRange n h k = elim (Bool-cases (eqb_ℤ n.current_state.start_fail_step minus_one)) [
    | inl e ↦ rw e (status_run-InRange (status_begin s n) h)
    | inr e ↦ rw e (
        rw (status_incomplete-step (status_begin s n))
          (InRange-IsIndex _ _ n.current_state.start_fail_step k e))
  ]

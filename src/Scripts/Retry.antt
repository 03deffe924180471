-- ===== src/Scripts/Retry.antt =====
-- The retries of nodelet/pkg/phases/bash_script_based_phases/bash_script_base.go.
use mathlib.Core.Path.{subst}
use nodelet.Shared.{
  ◌∷◌, length-drop_eq, ℕ, zero, suc, ◌-◌, ◌≤◌, ◌<◌, ◌≡◌, refl, sym, ◌∙◌, ◌⊎◌, inl, inr, String,
  Bool, true, false, List, [], ◌++◌, Option, some, arith, pos, ap, length, Bool-cases, drop, take,
  ltb, ◌-ℤ◌,
}
use nodelet.Config.{running_state, failed_state, stopped_state, status_op, stop_op}
use nodelet.Scripts.{
  ScriptPhase, Shell, IsBackoff, max_retries, prune, exits_well, command, after_attempts, retried,
  fail_with, succeed_with, finish, script_status, script_stop,
}

take-drop : {A : Type 0} (n : ℕ) (l : List A) → l ≡ take n l ++ drop n l
take-drop zero l = refl
take-drop (suc n) [] = refl
take-drop (suc n) (x ∷ l) = ap (λ r. x ∷ r) (take-drop n l)

module _ (sh : Shell) (law : IsBackoff sh.attempts) where
  -- Whether the n-th run of an operation exits with 0.
  abbrev pub good : ScriptPhase → String → ℕ → Bool
  good p op k = exits_well (sh.run (command sh p op) k)

  -- How many retries an operation has.
  abbrev pub retries : ScriptPhase → ℕ
  retries p = max_retries (p.retry -ℤ pos 1)

  -- Whether the time is up after the n-th run.
  abbrev pub late : ScriptPhase → String → ℕ → Bool
  late p op k = sh.out_of_time (command sh p op) k

  -- The n-th attempt comes before the retries and the time are used up.
  abbrev pub IsAllowed : ScriptPhase → String → ℕ → Type 0
  IsAllowed p op k = (k ≤ retries p) × ((j : ℕ) → j < k → late p op j ≡ false)

  last_attempt :
      (p : ScriptPhase) (op : String)
      → (m : ℕ) × (sh.attempts (retries p) (good p op) (late p op) ≡ suc m)
        × IsAllowed p op m
        × (retried sh p op ≡ sh.run (command sh p op) m)
  unfolding retried
  last_attempt p op =
      let n = sh.attempts (retries p) (good p op) (late p op) in
      let first = law.tries (retries p) (good p op) (late p op) in
      let most = law.bounded (retries p) (good p op) (late p op) in
      let same : n ≡ suc (n - 1) = omega arith in
      (
        n - 1,
        same,
        (
          omega arith,
          λ j lt. (law.after_failure (retries p) (good p op) (late p op) j (omega arith)).1,
        ),
        ap (after_attempts sh p op) same ∙ unfold after_attempts in refl,
      )

  all_bad :
      (p : ScriptPhase) (op : String) (m : ℕ)
      → sh.attempts (retries p) (good p op) (late p op) ≡ suc m
      → good p op m ≡ false
      → (k : ℕ) → IsAllowed p op k
      → good p op k ≡ false
  all_bad p op m n bad k h = elim (Bool-cases (ltb k m)) [
    | inl lt ↦ (law.after_failure (retries p) (good p op) (late p op) k (ground (arith, lt, n))).0
    | inr ge ↦ elim (Bool-cases (ltb m k)) [
      | inl gt ↦ elim (law.gives_up (retries p) (good p op) (late p op) m n bad) [
        | inl full ↦ absurd (beyond k m (ground (arith, gt)) h.0 (ground (arith, full, n)))
        | inr up ↦ absurd (true-false (sym up ∙ h.1 m (ground (arith, gt))))
      ]
      | inr le ↦
          let same : m ≡ k = ground (arith, ge, le) in
          subst (λ (j : ℕ). good p op j ≡ false) same bad
    ]
  ]
    where
      beyond : (k m : ℕ) → m < k → k ≤ retries p → m ≡ retries p → ⊥
      beyond k m gt le same = omega arith

      true-false : true ≡ false → ⊥
      true-false e = ground (e, arith)

  -- An operation with retries: some allowed attempt does well and the phase is in the good state, or
  -- all of them fail, and it is in the bad state, with the last lines of the output of the last
  -- attempt, after which no retry or no time was left.
  abbrev pub IsRetried :
      String → String → String → ScriptPhase → Option (ScriptPhase × Bool) → Type 0
  IsRetried op fine bad p r =
      ((k : ℕ) × IsAllowed p op k × (good p op k ≡ true) × (r ≡ succeed_with sh fine p))
      ⊎ (((k : ℕ) → IsAllowed p op k → good p op k ≡ false)
          × ((last : ℕ) × IsAllowed p op last
              × ((last ≡ retries p) ⊎ (late p op last ≡ true))
              × (r ≡ fail_with sh bad p (sh.run (command sh p op) last).0)))

  used_up :
      (p : ScriptPhase) (op : String) (m : ℕ)
      → sh.attempts (retries p) (good p op) (late p op) ≡ suc m
      → good p op m ≡ false
      → (m ≡ retries p) ⊎ (late p op m ≡ true)
  used_up p op m n bad = elim (law.gives_up (retries p) (good p op) (late p op) m n bad) [
    | inl full ↦ inl (ground (arith, full, n))
    | inr up ↦ inr up
  ]

  finish-IsRetried :
      (op fine bad : String) (p : ScriptPhase)
      → IsRetried op fine bad p (finish sh fine bad p (retried sh p op))
  unfolding finish
  finish-IsRetried op fine bad p =
      let (m, n, allowed, last) = last_attempt p op in
      elim (Bool-cases (good p op m)) [
        | inl well ↦ inl (m, allowed, well, rw last (rw well refl))
        | inr ill ↦
            inr (all_bad p op m n ill, (m, allowed, used_up p op m n ill, rw last (rw ill refl)))
      ]

  -- For a backoff that keeps its documented laws, `Status` of a script succeeds, and sets the
  -- running state without a message, exactly when some attempt exits with 0 that comes before the
  -- retries and the time of the backoff are used up; else it sets the failed state with the last
  -- lines of the output of the attempt with which they are, unless their bound is negative.
  pub script_status-IsRetried :
      (p : ScriptPhase) → IsRetried status_op running_state failed_state p (script_status sh p)
  unfolding script_status
  script_status-IsRetried p = finish-IsRetried status_op running_state failed_state p

  -- For a backoff that keeps its documented laws, `Stop` of a script succeeds exactly when some
  -- attempt exits with 0 that comes before the retries and the time of the backoff are used up; it
  -- sets the stopped state in both cases, with the last lines of the last output on a failure, unless
  -- their bound is negative.
  pub script_stop-IsRetried :
      (p : ScriptPhase) → IsRetried stop_op stopped_state stopped_state p (script_stop sh p)
  unfolding script_stop
  script_stop-IsRetried p = finish-IsRetried stop_op stopped_state stopped_state p

-- `pruneAndLogCmdOutput`, under a bound that is not negative, keeps the last lines of an output: no
-- more than the bound, and exactly as many when it drops any.
pub prune-last :
    (output : List String) (max : ℕ)
    → (lines before : List String) × (prune output (pos max) ≡ some lines)
      × (output ≡ before ++ lines)
      × (length lines ≤ max)
      × ((length lines ≡ max) ⊎ (before ≡ []))
unfolding prune
prune-last output max = elim (Bool-cases (ltb max (length output))) [
  | inl long ↦
      let cut = length output - max in
      let kept = length-drop_eq output cut (ground (arith, long)) in
      (
        drop cut output,
        take cut output,
        rw long refl,
        take-drop cut output,
        ground (arith, long, kept),
        inl (ground (arith, long, kept)),
      )
  | inr short ↦ (output, [], rw short refl, refl, ground (arith, short), inr refl)
]

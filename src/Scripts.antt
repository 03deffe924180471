-- ===== src/Scripts.antt =====
-- The phases that are scripts: nodelet/pkg/phases/bash_script_based_phases/bash_script_base.go. The
-- package backoff is a parameter, and so are the runs of the scripts.
pub mod Retry
use nodelet.Shared.{
  ℕ, zero, suc, ◌+◌, ◌-◌, ◌<◌, ◌≤◌, ◌≡◌, String, Bool, true, false, not, ◌&&◌, List, [], ◌∷◌, ◌++◌,
  ◌⊎◌, Option, none, some, ◌==◌, ltb, if◌then◌else◌, ℤ, pos, negsuc, ◌-ℤ◌, eqb_ℤ, length, drop,
}
use nodelet.Config.{running_state, failed_state, stopped_state, start_op, stop_op, status_op}

-- `Phase`, with the fields of its `HostPhase` that it sets.
pub record ScriptPhase : Type 0 where
  pub name : String
  pub filename : String
  pub retry : ℤ
  pub status : String
  pub message : String

-- What the phase uses of its surroundings.
pub record Shell : Type 0 where
  -- the output and the exit code of the n-th run of a command
  pub run : List String → ℕ → List String × ℤ
  -- `backoff.Retry`, under a number of retries: how many attempts it makes, when it is known which
  -- of them would succeed, and after which of them its time would be up
  pub attempts : ℕ → (ℕ → Bool) → (ℕ → Bool) → ℕ
  -- whether the 15 minutes of a backoff are up after the n-th attempt of a command
  pub out_of_time : List String → ℕ → Bool
  -- `fmt.Sprintf("%v", lines)`
  pub show : List String → String
  pub is_debug : Bool
  pub use_cgroups : Bool
  pub num_cmd_output_lines_to_log : ℤ

-- What backoff documents: it tries at least once, again only after a failure and while its time, which
-- `MaxElapsedTime` bounds, is not up; it gives up on a failure only when the retries are used up or
-- the time is.
pub record IsBackoff (attempts : ℕ → (ℕ → Bool) → (ℕ → Bool) → ℕ) : Type 0 where
  pub tries : (retries : ℕ) (good late : ℕ → Bool) → 0 < attempts retries good late
  pub bounded : (retries : ℕ) (good late : ℕ → Bool) → attempts retries good late ≤ retries + 1
  pub after_failure :
      (retries : ℕ) (good late : ℕ → Bool) (k : ℕ)
      → k + 1 < attempts retries good late
      → (good k ≡ false) × (late k ≡ false)
  pub gives_up :
      (retries : ℕ) (good late : ℕ → Bool) (last : ℕ)
      → attempts retries good late ≡ suc last
      → good last ≡ false
      → (attempts retries good late ≡ retries + 1) ⊎ (late last ≡ true)

-- `getBackOff`, by the number of its retries.
unfoldable pub max_retries : ℤ → ℕ
max_retries (pos zero) = 1
max_retries (pos (suc n)) = suc n
max_retries (negsuc n) = 1

-- `pruneAndLogCmdOutput`, before it is printed; `none` is the panic of a negative bound.
unfoldable pub prune : List String → ℤ → Option (List String)
prune output (pos max) =
    if ltb max (length output) then some (drop (length output - max) output) else some output
prune output (negsuc max) = none

abbrev exits_well : List String × ℤ → Bool
exits_well r = eqb_ℤ r.1 (pos 0)

abbrev pub base_command : List String
base_command = "sudo" ∷ "/opt/pf9/pf9-kube/setup_env_and_run_script.sh" ∷ []

abbrev pub base_cgroup_command : List String
base_cgroup_command =
    "cgexec" ∷ "-g" ∷ "cpu:pf9-kube-status" ∷ "sudo"
    ∷ "/opt/pf9/pf9-kube/setup_env_and_run_script.sh" ∷ []

-- The keys of `ValidCgroupOps`.
is_cgroup_op : String → Bool
is_cgroup_op op = op == status_op

module _ (sh : Shell) where
  -- The command of `runCommand`.
  unfoldable pub command : ScriptPhase → String → List String
  unfolding is_cgroup_op
  command p op =
      let base =
        (if is_cgroup_op op && sh.use_cgroups then base_cgroup_command else base_command) in
      let line = base ++ p.filename ∷ op ∷ [] in
      if sh.is_debug then line ++ "--debug" ∷ [] else line

  -- What the variables `cmdOutput` and `exitCode` hold after a number of attempts.
  unfoldable pub after_attempts : ScriptPhase → String → ℕ → List String × ℤ
  after_attempts p op zero = ([], pos 1)
  after_attempts p op (suc k) = sh.run (command p op) k

  -- The result of `backoff.Retry` on an operation.
  unfoldable pub retried : ScriptPhase → String → List String × ℤ
  retried p op = after_attempts p op (
      sh.attempts (max_retries (p.retry -ℤ pos 1)) (λ k. exits_well (sh.run (command p op) k))
        (sh.out_of_time (command p op)))

  -- The ends of the operations: the phase, and whether they return an error; `none` is a panic.
  unfoldable pub fail_with : String → ScriptPhase → List String → Option (ScriptPhase × Bool)
  fail_with state p output = elim (prune output sh.num_cmd_output_lines_to_log) [
    | none ↦ none
    | some lines ↦ some (record p { status = state; message = sh.show lines }, true)
  ]

  abbrev pub succeed_with : String → ScriptPhase → Option (ScriptPhase × Bool)
  succeed_with state p = some (record p { status = state; message = "" }, false)

  unfoldable pub finish :
      String → String → ScriptPhase → List String × ℤ → Option (ScriptPhase × Bool)
  finish good bad p r =
      let failed = fail_with bad p r.0 in if exits_well r then succeed_with good p else failed

  -- `Status`, `Start` and `Stop`.
  unfoldable pub script_status : ScriptPhase → Option (ScriptPhase × Bool)
  script_status p = finish running_state failed_state p (retried p status_op)

  unfoldable pub script_start : ScriptPhase → Option (ScriptPhase × Bool)
  script_start p = finish running_state failed_state p (after_attempts p start_op 1)

  unfoldable pub script_stop : ScriptPhase → Option (ScriptPhase × Bool)
  script_stop p = finish stopped_state stopped_state p (retried p stop_op)

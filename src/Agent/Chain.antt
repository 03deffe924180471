-- ===== src/Agent/Chain.antt =====
-- The chains of phases of nodelet/pkg/nodelet/nodelet.go: `Start`, `Stop` and `Status`.
pub mod Health
pub mod Order
pub mod Started
pub mod Stopped
pub mod Verdict
use nodelet.Shared.{
  ℕ, suc, ◌+◌, ◌-◌, ◌*◌, ◌/◌, Bool, true, false, not, ◌&&◌, Option, none, some, List, [], ◌∷◌, ◌==◌,
  eqb, leb, ltb, if◌then◌else◌, ℤ, pos, negsuc, minus_one, abs, pos_part, neg_part, eqb_ℤ, length,
  drop,
}
use mathlib.Core.List.{reverse}
use nodelet.Config.{
  start_op, status_op, service_state_true, service_state_false, gen_certs_phase_order,
}
use nodelet.Extension.{ExtensionData, prefix, own, complete_phase}
use nodelet.Agent.State.{
  Phase, status, start, stop, read_clock, call, Setup, Nodelet, Outcome, done, panic, emit,
  with_state, phase_at,
}
use nodelet.Agent.Persist.{try_to_persist_status}

-- `time.Duration`'s range, in nanoseconds.
abbrev max_duration : ℕ
max_duration = 9223372036854775807

-- `getStatusFailureToleration`: `ParseDuration` fails past the range, and then the threshold is 0.
-- The result is a count of nanoseconds, with its sign.
unfoldable pub status_failure_toleration : ℤ → ℤ
status_failure_toleration (pos t) =
    if leb (t * 1000000000) max_duration then pos (t * 1000000000) else pos 0
status_failure_toleration (negsuc t) =
    if leb (suc t * 1000000000) max_duration then negsuc (suc t * 1000000000 - 1) else pos 0

-- `delta < threshold`, with `delta` the time since the last success. Since Go's zero time the delta
-- is the longest duration, which is below no threshold.
unfoldable pub within_toleration : ℤ → Option ℕ → ℕ → Bool
within_toleration threshold none now = false
within_toleration threshold (some last) now =
    ltb (now + neg_part threshold) (last + pos_part threshold)

abbrev seconds : ℕ → ℕ
seconds ns = ns / 1000000000

-- The phases with their indices, from `i` on.
unfoldable pub indexed : ℕ → List Phase → List (ℕ × Phase)
indexed i [] = []
indexed i (p ∷ ps) = (i, p) ∷ indexed (i + 1) ps

-- `AllPhases[0:i]` is in range; the capacity of the slice is taken to be its length.
abbrev slice_fits : ℤ → Nodelet → Bool
slice_fits (pos i) n = leb i (length n.current_state.all_phases)
slice_fits (negsuc i) n = false

-- What `Stop` does behind its loop, for a stop down to index 0.
unfoldable pub reset : ExtensionData → ExtensionData
reset d = record d {
  start_attempts = pos 0;
  completed_phases = own [];
  cluster_id = "";
  cluster_role = "";
  current_phase = "";
  last_failed_phase = "";
}

module _ (s : Setup) where
  open s use {env, config, phases}

  -- `time.Now()`
  abbrev tick : Nodelet → Nodelet
  tick n = emit read_clock n

  -- The loop of `Status`, from the phase with index `i` on: the index of the first that fails, or -1.
  unfoldable pub status_loop : List Phase → ℕ → Nodelet → ℤ × Nodelet
  status_loop [] i n = (minus_one, n)
  status_loop (p ∷ ps) i n =
      let n1 = with_state (λ d. record d { current_status_check = p.name }) n in
      let n2 = emit (call status p) n1 in
      let bad =
        with_state
          (λ d. record d {
            last_failed_check = p.name;
            last_failed_check_time = pos (seconds (env.now n2.trace));
          })
          (tick n2) in
      let rest = status_loop ps (i + 1) n2 in
      if config.disable_scripts
      then (minus_one, n)
      else if env.fails n1.trace (call status p)
      then (pos i, bad)
      else rest

  -- What `Status` makes of the index that the loop found.
  unfoldable pub status_verdict : ℤ → Nodelet → Nodelet
  status_verdict failed n =
      let now = env.now n.trace in
      let threshold = status_failure_toleration config.pf9_status_threshold_seconds in
      if eqb_ℤ failed minus_one
      then with_state
          (λ d. record d {
            kube_running = true;
            last_successful_status = some now;
            failed_status_check = pos 0;
          })
          (tick n)
      else if n.current_state.service_state == service_state_true
      then (if within_toleration threshold n.current_state.last_successful_status now
          then with_state (λ d. record d { kube_running = true; failed_status_check = pos 0 })
              (tick n)
          else with_state (λ d. record d { failed_status_check = failed }) (tick n))
      else with_state
          (λ d. record d { last_successful_status = some now; failed_status_check = pos 0 })
          (tick n)

  -- The beginning of `Status`.
  unfoldable pub status_begin : Nodelet → Nodelet
  status_begin n =
      with_state
        (λ d. record d {
          current_status_check_time = pos (seconds (env.now n.trace));
          operation = status_op;
          kube_running = false;
        })
        (tick n)

  -- `Status`, past the special case for an incomplete start.
  unfoldable pub status_run : Nodelet → Nodelet
  status_run n =
      let (failed, n1) = status_loop phases 0 n in
      let n2 = with_state (λ d. record d { current_status_check = "" }) n1 in
      status_verdict failed (try_to_persist_status s n2)

  -- `Status`, in the special case for an incomplete start.
  unfoldable pub status_incomplete : Nodelet → Nodelet
  status_incomplete n =
      let n1 = with_state (λ d. record d { current_status_check = "" }) n in
      with_state (λ d. record d { failed_status_check = d.start_fail_step })
        (try_to_persist_status s n1)

  -- `Status`.
  unfoldable pub check_status : Nodelet → Nodelet
  check_status n =
      let n1 = status_begin n in
      if eqb_ℤ n1.current_state.start_fail_step minus_one
      then status_run n1
      else status_incomplete n1

  -- The loop of `Start`, from the phase with index `i` on: the index where it stopped, whether a
  -- phase failed, and the agent.
  unfoldable pub start_loop : List Phase → ℕ → Nodelet → ℕ × Bool × Nodelet
  start_loop [] i n = (i, false, n)
  start_loop (p ∷ ps) i n =
      let n1 = try_to_persist_status s (with_state (λ d. record d { current_phase = p.name }) n) in
      let n2 = emit (call start p) n1 in
      let bad =
        try_to_persist_status s (with_state (λ d. record d { last_failed_phase = p.name }) n2) in
      let rest =
        start_loop ps (i + 1) (try_to_persist_status s (with_state (complete_phase p.name) n2)) in
      if env.fails n1.trace (call start p) then (i, true, bad) else rest

  -- `Start`, after the slice and the read of the first phase, which may panic.
  start_from : Bool → Option Phase → ℤ → Nodelet → Outcome (ℕ × Bool × Nodelet)
  start_from false p i n = panic
  start_from true none i n = panic
  start_from true (some _) i n =
      let n1 = with_state (λ d. record d { completed_phases = prefix (abs i) }) n in
      let (last, failed, n2) = start_loop (drop (abs i) phases) (abs i) n1 in
      let n3 = try_to_persist_status s (with_state (λ d. record d { current_phase = "" }) n2) in
      done (last, failed, n3)

  -- `Start`: the last phase, whether there is an error, and the agent.
  unfoldable pub start_phases : ℤ → Nodelet → Outcome (ℕ × Bool × Nodelet)
  unfolding start_from phase_at
  start_phases i n = start_from (slice_fits i n) (phase_at phases i) i n

  -- The guard of the loop of `Stop` on the phase that generates the certificates.
  unfoldable pub skips : ℕ → Phase → Nodelet → Bool
  skips i p n =
      n.current_state.operation == start_op
      && eqb p.order gen_certs_phase_order
      && not (eqb_ℤ n.current_state.failed_status_check (pos i))

  -- The loop of `Stop`, over the phases that are left with their indices, and the last error so far.
  -- The first result says that the loop ran into the early return.
  unfoldable pub stop_loop : Bool → List (ℕ × Phase) → Bool → Nodelet → Bool × Bool × Nodelet
  stop_loop force [] err n = (false, err, n)
  stop_loop force ((i, p) ∷ rest) err n =
      let failed = env.fails n.trace (call stop p) in
      let n1 = emit (call stop p) n in
      let next = stop_loop force rest failed n1 in
      if skips i p n
      then (true, false, n)
      else if failed && not force
      then (false, true, n1)
      else next

  unfoldable pub stop_end : ℕ → Nodelet → Nodelet
  stop_end i n =
      let n1 =
        with_state
          (λ d. record d { service_state = service_state_false; completed_phases = prefix i }) n in
      try_to_persist_status s (if eqb i 0 then with_state reset n1 else n1)

  stop_finish : ℕ → Bool × Bool × Nodelet → Outcome (Bool × Nodelet)
  stop_finish i (true, err, n) = done (false, n)
  stop_finish i (false, err, n) = if slice_fits (pos i) n then done (err, stop_end i n) else panic

  unfoldable pub stop_from : Option Phase → ℤ → Bool → Nodelet → Outcome (Bool × Nodelet)
  unfolding stop_finish
  stop_from none i force n = panic
  stop_from (some _) i force n =
      stop_finish (abs i)
        (stop_loop force (reverse (indexed (abs i) (drop (abs i) phases))) false n)

  -- `Stop`: whether it returns an error, and the agent.
  unfoldable pub stop_phases : ℤ → Bool → Nodelet → Outcome (Bool × Nodelet)
  unfolding stop_from phase_at
  stop_phases i force n = stop_from (phase_at phases i) i force n

-- ===== src/Tests/Hosts.antt =====
-- The scripts of nodelet/pkg/phases, the status at Sunpike, and the checker of etcd_raft_checker at concrete inputs.
use nodelet.Shared.{
  ◌||◌, ◌⊎◌, inl, minus_one, ℕ, zero, suc, ◌+◌, ◌<◌, ◌≤◌, ◌≡◌, ◌↔◌, ◌⊎◌, refl, Bool, true, false,
  String, List, [], ◌∷◌, ◌++◌, some, pos, arith, length, eqb, if◌then◌else◌,
}
use nodelet.Config.{running_state, failed_state, status_op}
use nodelet.Scripts.{ScriptPhase, Shell, IsBackoff, prune, script_status}
use nodelet.Scripts.Retry.{IsRetried, script_status-IsRetried, prune-last}
use nodelet.Registry.{master_phase_list, prepare_kubeconfigs_phase, load_role_phases}
use nodelet.Extension.{new}
use nodelet.Sunpike.{
  HostStatus, node_state_ok, get_order_for_phase_name, convert_old_phase_to_sunpike_phase,
  populate_fields, populate_host_obj,
}
use nodelet.Sunpike.Orders.{populate_host_obj-fields, get_order-load_role_phases}
use nodelet.Raft.{check_endpoint_status}
use nodelet.Raft.Spread.{IsClose, check_endpoint_status_iff}

-- A backoff that tries again as long as it may.
tries : ℕ → (ℕ → Bool) → (ℕ → Bool) → ℕ
tries zero good late = 1
tries (suc r) good late =
    let rest = suc (tries r (λ k. good (suc k)) (λ k. late (suc k))) in
    if good 0 || late 0 then 1 else rest

tries-pos : (r : ℕ) (good late : ℕ → Bool) → 0 < tries r good late
unfolding tries
tries-pos zero good late = omega arith
tries-pos (suc r) good late = ground arith

tries-le : (r : ℕ) (good late : ℕ → Bool) → tries r good late ≤ r + 1
unfolding tries
tries-le zero good late = omega arith
tries-le (suc r) good late = ground (arith, tries-le r (λ k. good (suc k)) (λ k. late (suc k)))

tries-after :
    (r : ℕ) (good late : ℕ → Bool) (k : ℕ)
    → k + 1 < tries r good late
    → (good k ≡ false) × (late k ≡ false)
unfolding tries
tries-after zero good late k h = absurd (omega arith)
tries-after (suc r) good late zero h = ground arith
tries-after (suc r) good late (suc k) h =
    tries-after r (λ j. good (suc j)) (λ j. late (suc j)) k (ground (arith, h))

tries-last :
    (r : ℕ) (good late : ℕ → Bool) (last : ℕ)
    → tries r good late ≡ suc last
    → good last ≡ false
    → (tries r good late ≡ r + 1) ⊎ (late last ≡ true)
unfolding tries
tries-last zero good late last h bad = inl refl
tries-last (suc r) good late zero h bad =
    ground (arith, h, bad, tries-pos r (λ j. good (suc j)) (λ j. late (suc j)))
tries-last (suc r) good late (suc last) h bad =
    ground
      (arith, tries-last r (λ j. good (suc j)) (λ j. late (suc j)) last (ground (arith, h)) bad)

tries-IsBackoff : IsBackoff tries
tries-IsBackoff = record {
  tries = tries-pos;
  bounded = tries-le;
  after_failure = tries-after;
  gives_up = tries-last;
}

-- The first run of a command fails, the others do well.
abbrev shell : Shell
shell = record {
  run = λ _ n. ("line" ∷ [], if eqb n 0 then pos 1 else pos 0);
  attempts = tries;
  out_of_time = λ _ _. false;
  show = λ _. "lines";
  is_debug = false;
  use_cgroups = true;
  num_cmd_output_lines_to_log = pos 10;
}

abbrev script : ScriptPhase
script = record {
  name = "Start etcd";
  filename = "etcd_run.sh";
  retry = pos 0;
  status = "";
  message = "";
}

script_status-IsRetried_example :
    IsRetried shell tries-IsBackoff status_op running_state failed_state script
      (script_status shell script)
script_status-IsRetried_example = script_status-IsRetried shell tries-IsBackoff script

prune-last_example :
    (lines before : List String) × (prune ("a" ∷ "b" ∷ "c" ∷ []) (pos 2) ≡ some lines)
    × ("a" ∷ "b" ∷ "c" ∷ [] ≡ before ++ lines)
    × (length lines ≤ 2)
    × ((length lines ≡ 2) ⊎ (before ≡ []))
prune-last_example = prune-last ("a" ∷ "b" ∷ "c" ∷ []) 2

check_endpoint_status_iff_example :
    (check_endpoint_status (some (7 ∷ 8 ∷ 7 ∷ [])) ≡ false) ↔ IsClose (7 ∷ 8 ∷ 7 ∷ [])
check_endpoint_status_iff_example = check_endpoint_status_iff 7 (8 ∷ 7 ∷ []) (omega arith)

abbrev host_status : HostStatus
host_status = record {
  phases = convert_old_phase_to_sunpike_phase master_phase_list;
  start_attempts = pos 0;
  last_failed_check_time = pos 0;
  current_status_check_time = pos 0;
  service_state = false;
  current_status_check = minus_one;
  last_failed_check = minus_one;
  host_state = node_state_ok;
}

populate_host_obj-fields_example :
    populate_host_obj (λ t. t) 5 new host_status ≡ populate_fields (λ t. t) new host_status
populate_host_obj-fields_example = populate_host_obj-fields (λ t. t) 5 new host_status

master_phases : load_role_phases false "master" ≡ some master_phase_list
unfolding load_role_phases
master_phases = refl

get_order-load_role_phases_example :
    get_order_for_phase_name host_status "Prepare configuration" ≡ pos 30
get_order-load_role_phases_example =
    get_order-load_role_phases false "master" master_phase_list 1 prepare_kubeconfigs_phase
      host_status master_phases refl refl

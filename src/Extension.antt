-- ===== src/Extension.antt =====
-- nodelet/pkg/utils/extensionfile/extension.go: the agent's state, which is also what it writes to
-- the extension file. The pointer `Cfg` is the argument `cfg`; `file`, `path` and `log` are left out.
pub mod Health
pub mod Load
use nodelet.Shared.{
  ℕ, suc, String, Bool, true, false, not, ◌&&◌, Option, none, List, [], ◌∷◌, ◌++◌, ◌==◌,
  if◌then◌else◌, ℤ, pos, ◌-ℤ◌, leb_ℤ, ltb_ℤ, eqb_ℤ, length, set, take, ltb,
}
use nodelet.Config.{
  Config, ok_state, converging_state, retrying_state, error_state, service_state_true,
  service_state_false, num_retries_for_error_state, failed_status_check_reap_interval,
}

-- A Go slice of strings: a prefix of the array of `AllPhases`, or an array of its own.
pub data Slice : Type 0 where
  prefix : ℕ → Slice
  own : List String → Slice

-- `ExtensionData`. `last_successful_status` is in nanoseconds since 1970, `none` for Go's zero time.
pub record ExtensionData : Type 0 where
  pub service_state : String
  pub node_state : String
  pub start_attempts : ℤ
  pub cluster_id : String
  pub cluster_role : String
  pub all_status_checks : List String
  pub all_phases : List String
  pub completed_phases : Slice
  pub current_status_check : String
  pub current_phase : String
  pub last_failed_check : String
  pub last_failed_check_time : ℤ
  pub last_failed_phase : String
  pub current_status_check_time : ℤ
  pub operation : String
  pub kube_running : Bool
  pub failed_status_check : ℤ
  pub last_successful_status : Option ℕ
  pub start_fail_step : ℤ

-- The strings that a slice shows.
unfoldable pub elements : List String → Slice → List String
elements array (prefix n) = take n array
elements array (own xs) = xs

-- `append(data.CompletedPhases, x)`, stored in `CompletedPhases`: within the capacity it writes into
-- the array of `AllPhases`, past it the strings are copied.
append_slice : Slice → String → ExtensionData → ExtensionData
append_slice (prefix n) x d =
    if ltb n (length d.all_phases)
    then record d { all_phases = set d.all_phases n x; completed_phases = prefix (suc n) }
    else record d { completed_phases = own (d.all_phases ++ x ∷ []) }
append_slice (own xs) x d = record d { completed_phases = own (xs ++ x ∷ []) }

unfoldable pub complete_phase : String → ExtensionData → ExtensionData
unfolding append_slice
complete_phase x d = append_slice d.completed_phases x d

-- `New`: the fields that it leaves out have Go's zero values.
unfoldable pub new : ExtensionData
new = record {
  service_state = "";
  node_state = converging_state;
  start_attempts = pos 1;
  cluster_id = "";
  cluster_role = "";
  all_status_checks = [];
  all_phases = [];
  completed_phases = own [];
  current_status_check = "";
  current_phase = "";
  last_failed_check = "";
  last_failed_check_time = pos 0;
  last_failed_phase = "";
  current_status_check_time = pos 0;
  operation = "";
  kube_running = false;
  failed_status_check = pos 0;
  last_successful_status = none;
  start_fail_step = pos 0;
}

-- The first `if` of `populateExtraFields`.
reap_failed_check : ExtensionData → ExtensionData
reap_failed_check d =
    if leb_ℤ (pos failed_status_check_reap_interval)
      (d.current_status_check_time -ℤ d.last_failed_check_time)
    then record d { last_failed_check_time = pos 0; last_failed_check = "" }
    else d

-- The inner `switch` of `populateExtraFields`: no case matches when the counter is below 1.
attempts_state : ℤ → String → String
attempts_state n old =
    if eqb_ℤ n (pos 1)
    then converging_state
    else if ltb_ℤ (pos 1) n && leb_ℤ n (pos num_retries_for_error_state)
    then retrying_state
    else if ltb_ℤ (pos num_retries_for_error_state) n
    then error_state
    else old

-- The outer `switch`: an unknown desired state matches no case.
desired_state : String → Bool → ℤ → String → String
unfolding attempts_state
desired_state want running n old =
    if want == service_state_true && not running
    then attempts_state n old
    else if want == service_state_false && running
    then attempts_state n old
    else if want == service_state_true && running
    then ok_state
    else if want == service_state_false && not running
    then ok_state
    else old

-- `populateExtraFields`.
unfoldable pub populate_extra_fields : Config → ExtensionData → ExtensionData
unfolding reap_failed_check desired_state
populate_extra_fields cfg d =
    let e = reap_failed_check d in
    if e.service_state == service_state_true then record e { node_state = ok_state } else record e {
      node_state =
          desired_state cfg.kube_service_state e.kube_running e.start_attempts e.node_state;
    }

-- `convertNodeState`.
unfoldable pub convert_node_state : ExtensionData → ExtensionData
convert_node_state d =
    if d.node_state == ok_state
    then record d { node_state = converging_state; start_attempts = pos 1 }
    else d

-- ===== src/Extension/Load.antt =====
-- nodelet/pkg/utils/extensionfile/extension.go: `Load`, and the conversion of the older format.
use nodelet.Shared.{
  insert, String, Bool, Option, none, some, List, [], ◌∷◌, ◌==◌, ◌||◌, if◌then◌else◌, ℤ, pos,
  minus_one,
}
use nodelet.Config.{Config, stop_op, service_state_false}
use nodelet.Extension.{ExtensionData, own, new, populate_extra_fields, convert_node_state}

-- The functions of Go's `strings` and `strconv` that the conversion uses.
pub record Text : Type 0 where
  pub trim_space : String → String
  pub is_comment : String → Bool
  -- `SplitN(line, " ", 2)`, as its first field and the second, if there is one
  pub split_n : String → String × Option String
  -- `none` is an error
  pub atoi : String → Option ℤ

-- The fields that a JSON document sets, `none` for a field that it does not name.
pub record Saved : Type 0 where
  pub service_state : Option String
  pub node_state : Option String
  pub start_attempts : Option ℤ
  pub cluster_id : Option String
  pub cluster_role : Option String
  pub all_status_checks : Option (List String)
  pub all_phases : Option (List String)
  pub completed_phases : Option (List String)
  pub current_status_check : Option String
  pub current_phase : Option String
  pub last_failed_check : Option String
  pub last_failed_check_time : Option ℤ
  pub last_failed_phase : Option String
  pub current_status_check_time : Option ℤ

-- What the extension file holds: the fields that `ReadJSONFile` sets, `none` for the document `null`,
-- which sets its pointer to nil; whether it returns an error; and the lines of the file, `none` when it cannot be read.
pub record File : Type 0 where
  pub saved : Option Saved
  pub json_fails : Bool
  pub lines : Option (List String)

abbrev or_else {ℓ} : {A : Type ℓ} → Option A → A → A
or_else none a = a
or_else (some b) a = b

-- What `ReadJSONFile` sets.
unfoldable pub read_json : Saved → ExtensionData → ExtensionData
read_json j d = record d {
  service_state = or_else j.service_state d.service_state;
  node_state = or_else j.node_state d.node_state;
  start_attempts = or_else j.start_attempts d.start_attempts;
  cluster_id = or_else j.cluster_id d.cluster_id;
  cluster_role = or_else j.cluster_role d.cluster_role;
  all_status_checks = or_else j.all_status_checks d.all_status_checks;
  all_phases = or_else j.all_phases d.all_phases;
  completed_phases = elim j.completed_phases [ none ↦ d.completed_phases | some l ↦ own l ];
  current_status_check = or_else j.current_status_check d.current_status_check;
  current_phase = or_else j.current_phase d.current_phase;
  last_failed_check = or_else j.last_failed_check d.last_failed_check;
  last_failed_check_time = or_else j.last_failed_check_time d.last_failed_check_time;
  last_failed_phase = or_else j.last_failed_phase d.last_failed_phase;
  current_status_check_time = or_else j.current_status_check_time d.current_status_check_time;
}

module _ (text : Text) where
  -- One case of the `switch` of `convertExtnDataToJSON`.
  unfoldable pub convert_entry : String → String → ExtensionData → ExtensionData
  convert_entry key value d =
      if key == "pf9_kube_service_state"
      then record d { service_state = value }
      else if key == "pf9_kube_node_state"
      then record d { node_state = value }
      else if key == "pf9_kube_start_attempt"
      then record d { start_attempts = or_else (text.atoi value) (pos 0) }
      else if key == "pf9_cluster_id"
      then record d { cluster_id = if value == "\"\"" then "" else value }
      else if key == "pf9_cluster_role"
      then record d { cluster_role = value }
      else if key == "all_status_checks"
      then record d { all_status_checks = [] }
      else if key == "all_tasks"
      then record d { all_phases = [] }
      else if key == "completed_tasks"
      then record d { completed_phases = own [] }
      else if key == "current_status_check"
      then record d { current_status_check = "" }
      else if key == "current_task"
      then record d { current_phase = "" }
      else if key == "last_failed_status_check"
      then record d { last_failed_check = "" }
      else if key == "last_failed_status_time"
      then record d { current_status_check_time = pos 0 }
      else if key == "last_failed_task"
      then record d { last_failed_phase = "" }
      else if key == "status_check_timestamp"
      then record d { current_status_check_time = pos 0 }
      else d

  -- The loop of `getOldExtensionData` over the lines.
  old_entry : String → List (String × String) → List (String × String)
  unfolding insert
  old_entry raw m =
      let line = text.trim_space raw in
      let (key, value) = text.split_n line in
      if line == "" || text.is_comment line
      then m
      else insert (text.trim_space key) (text.trim_space (or_else value "")) m

  unfoldable pub old_entries : List String → List (String × String) → List (String × String)
  unfolding old_entry
  old_entries [] m = m
  old_entries (line ∷ lines) m = old_entries lines (old_entry line m)

  -- `getOldExtensionData`.
  unfoldable pub get_old_extension_data : Option (List String) → List (String × String)
  unfolding old_entries
  get_old_extension_data none = []
  get_old_extension_data (some lines) = old_entries lines []

  -- The loop of `convertExtnDataToJSON`: the order of the map's range is the order of the list.
  unfoldable pub convert_entries : List (String × String) → ExtensionData → ExtensionData
  unfolding convert_entry
  convert_entries [] d = d
  convert_entries ((k, v) ∷ m) d = convert_entries m (convert_entry k v d)

  -- `convertExtnDataToJSON`; the write at its end completes the state.
  unfoldable pub convert_extn_data_to_json :
      Config → Option (List String) → ExtensionData → ExtensionData
  unfolding convert_entries get_old_extension_data
  convert_extn_data_to_json cfg lines d =
      populate_extra_fields cfg (convert_entries (get_old_extension_data lines) d)

  -- `Load`; `none` is the panic on a pointer that `ReadJSONFile` has set to nil.
  unfoldable pub load : Config → File → ExtensionData → Option ExtensionData
  load cfg file d = elim file.saved [
    | none ↦ none
    | some saved ↦
        let d1 = read_json saved d in
        some (
          convert_node_state
            (if file.json_fails then convert_extn_data_to_json cfg file.lines d1 else d1))
  ]

  -- The end of `constructInitialCurrentState`, over the names of the phases.
  unfoldable pub initial : List String → Option ExtensionData → Option ExtensionData
  initial names none = none
  initial names (some d) = some (record d {
    completed_phases = own [];
    start_fail_step = minus_one;
    all_phases = names;
    all_status_checks = names;
    operation = stop_op;
    service_state = service_state_false;
  })

  -- `constructInitialCurrentState` of nodelet/pkg/nodelet/nodelet.go; `none` is a panic.
  unfoldable pub construct_initial_current_state :
      Config → File → List String → Option ExtensionData
  construct_initial_current_state cfg file names =
      initial names (if cfg.disable_ext_file then some new else load cfg file new)

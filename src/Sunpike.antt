-- ===== src/Sunpike.antt =====
-- nodelet/pkg/utils/sunpikeutils/sunpikeutils.go: the agent's state as a host's status at Sunpike.
-- `HostPhase` is by the fields that the code reads or sets, its order in the range of int32.
pub mod Orders
use nodelet.Shared.{
  ℕ, zero, suc, ◌+◌, ◌-◌, ◌%◌, ◌^◌, String, Bool, true, false, not, List, [], ◌∷◌, Option, none,
  some, ◌==◌, ltb, if◌then◌else◌, ℤ, pos, negsuc, minus_one, eqb_ℤ, leb_ℤ, map,
}
use nodelet.Config.{
  ok_state, converging_state, retrying_state, error_state, service_state_true, not_started_state,
  running_state, stopped_state, failed_state, executing_state,
}
use nodelet.Registry.{Phase}
use nodelet.Extension.{ExtensionData, elements}

pub record HostPhase : Type 0 where
  pub name : String
  pub order : ℤ
  pub status : String
  pub operation : String
  pub started_at : ℕ

-- Sunpike's states of a host.
pub data HostState : Type 0 where
  node_state_ok node_state_converging node_state_retrying node_state_failed : HostState

pub record HostStatus : Type 0 where
  pub phases : List HostPhase
  pub start_attempts : ℤ
  pub last_failed_check_time : ℤ
  pub current_status_check_time : ℤ
  pub service_state : Bool
  pub current_status_check : ℤ
  pub last_failed_check : ℤ
  pub host_state : HostState

-- The lowest 32 bits of an int.
low_word : ℤ → ℕ
low_word (pos n) = n % 2 ^ 32
low_word (negsuc n) = 2 ^ 32 - 1 - n % 2 ^ 32

-- The conversion `int32(n)`.
unfoldable pub to_int32 : ℤ → ℤ
unfolding low_word
to_int32 n = let m = low_word n in if ltb m (2 ^ 31) then pos m else negsuc (2 ^ 32 - m - 1)

-- The loop of `GetOrderForPhaseName`, and the function.
unfoldable pub order_among : String → List HostPhase → ℤ
order_among name [] = minus_one
order_among name (p ∷ phases) =
    let rest = order_among name phases in if p.name == name then p.order else rest

unfoldable pub get_order_for_phase_name : HostStatus → String → ℤ
get_order_for_phase_name h name =
    let found = order_among name h.phases in if name == "" then minus_one else found

-- `convertOldPhaseToSunpikePhase`, its first result; a new phase has no status yet.
unfoldable pub convert_old_phase_to_sunpike_phase : List Phase → List HostPhase
convert_old_phase_to_sunpike_phase = map λ p. record {
  name = p.name;
  order = to_int32 (pos p.order);
  status = "";
  operation = "";
  started_at = 0;
}

-- Where a `*HostPhase` points: to the variable of a loop, or to an element of `Status.Phases`.
pub data Pointer : Type 0 where
  to_variable : Pointer
  to_element : ℕ → Pointer

-- What `populatePhaseObj` can write: the variable of its loop, and the status.
pub record Memory : Type 0 where
  pub variable : HostPhase
  pub host : HostStatus

unfoldable pub modify : ℕ → (HostPhase → HostPhase) → List HostPhase → List HostPhase
modify i f [] = []
modify zero f (p ∷ phases) = f p ∷ phases
modify (suc i) f (p ∷ phases) = p ∷ modify i f phases

-- An assignment to fields of what a pointer points to.
unfoldable pub assign : Pointer → (HostPhase → HostPhase) → Memory → Memory
assign to_variable f m = record m { variable = f m.variable }
assign (to_element i) f m =
    let h = m.host in record m { host = record h { phases = modify i f h.phases } }

-- The loop of `populatePhaseObj`: each round copies an element to the variable `p`, and the pointer
-- that it ends with is `&p`.
unfoldable pub find_phase : ℤ → List HostPhase → Memory → Memory × Option Pointer
find_phase order [] m = (m, none)
find_phase order (p ∷ phases) m =
    let m1 = record m { variable = p } in
    let rest = find_phase order phases m1 in
    if eqb_ℤ p.order order then (m1, some to_variable) else rest

unfoldable pub set_phase : (HostPhase → HostPhase) → Memory × Option Pointer → HostStatus
set_phase f (m, none) = m.host
set_phase f (m, some phase) = (assign phase f m).host

-- `populatePhaseObj`.
unfoldable pub populate_phase_obj : ℕ → ℤ → String → String → HostStatus → HostStatus
populate_phase_obj now order op status h =
    let empty : HostPhase = record {
      name = "";
      order = pos 0;
      status = "";
      operation = "";
      started_at = 0;
    } in
    set_phase (λ p. record p { operation = op; status = status; started_at = now })
      (find_phase order h.phases (record { variable = empty; host = h }))

-- The loops of `populateHostObj` over the phases, after a completed phase and without one.
unfoldable pub populate_completed : ℕ → ℤ → String → List HostPhase → HostStatus → HostStatus
populate_completed now latest op [] h = h
populate_completed now latest op (p ∷ phases) h = populate_completed now latest op phases (
    if leb_ℤ p.order latest
    then populate_phase_obj now p.order op running_state h
    else if not (p.status == not_started_state)
    then populate_phase_obj now p.order op stopped_state h
    else h)

unfoldable pub populate_stopped : ℕ → String → List HostPhase → HostStatus → HostStatus
populate_stopped now op [] h = h
populate_stopped now op (p ∷ phases) h =
    populate_stopped now op phases (populate_phase_obj now p.order op stopped_state h)

-- The `switch` of `populateHostObj`.
unfoldable pub host_state_of : String → HostState
host_state_of s =
    if s == ok_state
    then node_state_ok
    else if s == converging_state
    then node_state_converging
    else if s == retrying_state
    then node_state_retrying
    else node_state_failed

unfoldable pub last_of : List String → Option String
last_of [] = none
last_of (x ∷ []) = some x
last_of (x ∷ y ∷ xs) = last_of (y ∷ xs)

-- The order of the latest completed phase.
unfoldable pub latest_completed : ExtensionData → HostStatus → ℤ
unfolding last_of
latest_completed d h = elim (last_of (elements d.all_phases d.completed_phases)) [
  | none ↦ minus_one
  | some name ↦ get_order_for_phase_name h name
]

-- The fields that `populateHostObj` sets; `to_lower` is `strings.ToLower`.
unfoldable pub populate_fields : (String → String) → ExtensionData → HostStatus → HostStatus
populate_fields to_lower d h = record h {
  start_attempts = to_int32 d.start_attempts;
  last_failed_check_time = d.last_failed_check_time;
  current_status_check_time = d.current_status_check_time;
  service_state = to_lower d.service_state == service_state_true;
  current_status_check = get_order_for_phase_name h d.current_status_check;
  last_failed_check = get_order_for_phase_name h d.last_failed_check;
  host_state = host_state_of d.node_state;
}

-- A call of `populatePhaseObj` for an order that is not -1.
unfoldable pub populate_known : ℕ → ℤ → String → String → HostStatus → HostStatus
populate_known now order op status h =
    if eqb_ℤ order minus_one then h else populate_phase_obj now order op status h

unfoldable pub populate_rest : ℕ → ℤ → String → HostStatus → HostStatus
populate_rest now latest op h =
    if not (eqb_ℤ latest minus_one)
    then populate_completed now latest op h.phases h
    else if not h.service_state
    then populate_stopped now op h.phases h
    else h

-- `populateHostObj`.
unfoldable pub populate_host_obj : (String → String) → ℕ → ExtensionData → HostStatus → HostStatus
populate_host_obj to_lower now d h =
    let current = get_order_for_phase_name h d.current_phase in
    let failed = get_order_for_phase_name h d.last_failed_phase in
    populate_rest now (latest_completed d h) d.operation (
      populate_known now failed d.operation failed_state
        (populate_known now current d.operation executing_state (populate_fields to_lower d h)))

-- ===== src/Sunpike/Orders.antt =====
-- What nodelet/pkg/utils/sunpikeutils/sunpikeutils.go reports of the phases.
use nodelet.Shared.{
  ℕ, zero, suc, negsuc, ◌&&◌, ap, ◌≡◌, refl, String, Bool, true, false, List, [], ◌∷◌, Option, none,
  some, arith, ℤ, pos, eqb_ℤ, get_elem?, ◌==◌, not, Bool-cases, inl, inr,
}
use mathlib.Core.Path.{subst}
use mathlib.Core.Option.{some-injective}
use nodelet.Config.{
  role_none, role_worker, role_master, running_state, stopped_state, executing_state, failed_state,
}
use nodelet.Registry.{no_role_phase, worker_phase_list, master_phase_list, Phase, load_role_phases}
use nodelet.Extension.{ExtensionData}
use nodelet.Sunpike.{
  HostPhase, HostStatus, to_int32, order_among, get_order_for_phase_name,
  convert_old_phase_to_sunpike_phase, Memory, assign, find_phase, set_phase, populate_phase_obj,
  populate_completed, populate_stopped, populate_fields, populate_known, populate_rest,
  populate_host_obj, latest_completed,
}

-- The loop leaves the status as it is, and a pointer to its own variable.
find_phase-host :
    (order : ℤ) (phases : List HostPhase) (m : Memory) (f : HostPhase → HostPhase)
    → set_phase f (find_phase order phases m) ≡ m.host
unfolding find_phase set_phase assign
find_phase-host order [] m f = refl
find_phase-host order (p ∷ phases) m f = elim (Bool-cases (eqb_ℤ p.order order)) [
  | inl e ↦ rw e refl
  | inr e ↦ rw e (find_phase-host order phases (record m { variable = p }) f)
]

populate_phase_obj-same :
    (now : ℕ) (order : ℤ) (op status : String) (h : HostStatus)
    → populate_phase_obj now order op status h ≡ h
unfolding populate_phase_obj
populate_phase_obj-same now order op status h = find_phase-host order h.phases _ _

populate_completed-phases :
    (now : ℕ) (latest : ℤ) (op : String) (ps : List HostPhase) (h : HostStatus)
    → populate_completed now latest op ps h ≡ h
unfolding populate_completed
populate_completed-phases now latest op [] h = refl
populate_completed-phases now latest op (p ∷ ps) h =
    rw
      (
        populate_phase_obj-same now p.order op running_state h,
        populate_phase_obj-same now p.order op stopped_state h,
      )
      (ground (arith, populate_completed-phases now latest op ps h))

populate_stopped-phases :
    (now : ℕ) (op : String) (ps : List HostPhase) (h : HostStatus)
    → populate_stopped now op ps h ≡ h
unfolding populate_stopped
populate_stopped-phases now op [] h = refl
populate_stopped-phases now op (p ∷ ps) h =
    rw (populate_phase_obj-same now p.order op stopped_state h)
      (populate_stopped-phases now op ps h)

populate_known-same :
    (now : ℕ) (order : ℤ) (op status : String) (h : HostStatus)
    → populate_known now order op status h ≡ h
unfolding populate_known
populate_known-same now order op status h =
    rw (populate_phase_obj-same now order op status h) (ground arith)

-- `populateHostObj` comes to the assignments of its scalar fields: none of its calls of
-- `populatePhaseObj` changes the status of a phase.
pub populate_host_obj-fields :
    (to_lower : String → String) (now : ℕ) (d : ExtensionData) (h : HostStatus)
    → populate_host_obj to_lower now d h ≡ populate_fields to_lower d h
unfolding populate_host_obj populate_rest
populate_host_obj-fields to_lower now d h =
    let fields = populate_fields to_lower d h in
    rw
      (
        populate_known-same now (get_order_for_phase_name h d.current_phase) d.operation
            executing_state fields,
        populate_known-same now (get_order_for_phase_name h d.last_failed_phase) d.operation
            failed_state fields,
      )
      (ground (
        arith,
        populate_completed-phases now (latest_completed d h) d.operation fields.phases fields,
        populate_stopped-phases now d.operation fields.phases fields,
      ))

-- Each phase of a list is found under its name in the whole.
abbrev AllFound : List Phase → List Phase → Type 0
AllFound whole [] = Unit
AllFound whole (p ∷ ps) =
    (order_among p.name (convert_old_phase_to_sunpike_phase whole) ≡ pos p.order)
    × ((p.name == "") ≡ false)
    × AllFound whole ps

-- The same as a test.
all_found : List Phase → List Phase → Bool
all_found whole [] = true
all_found whole (p ∷ ps) =
    eqb_ℤ (order_among p.name (convert_old_phase_to_sunpike_phase whole)) (pos p.order)
    && (not (p.name == "") && all_found whole ps)

and_true_twice : (a b c : Bool) → (a && (b && c)) ≡ true → (a ≡ true) × ((b ≡ true) × (c ≡ true))
and_true_twice true true true h = (refl, (refl, refl))
and_true_twice true true false h = absurd (ground arith)
and_true_twice true false c h = absurd (ground arith)
and_true_twice false b c h = absurd (ground arith)

eqb_ℤ-pos : (z : ℤ) (n : ℕ) → eqb_ℤ z (pos n) ≡ true → z ≡ pos n
eqb_ℤ-pos (pos m) n h = ap pos (ground (arith, h))
eqb_ℤ-pos (negsuc m) n h = absurd (ground (arith, h))

all_found-AllFound : (whole ps : List Phase) → all_found whole ps ≡ true → AllFound whole ps
unfolding all_found
all_found-AllFound whole [] h = tt
all_found-AllFound whole (p ∷ ps) h =
    let order = order_among p.name (convert_old_phase_to_sunpike_phase whole) in
    let (this, (named, rest)) =
      and_true_twice (eqb_ℤ order (pos p.order)) (not (p.name == "")) _ h in
    (eqb_ℤ-pos order p.order this, ground (arith, named), all_found-AllFound whole ps rest)

-- What is known of the phases of a role, if they load.
abbrev IsFound : Option (List Phase) → Type 0
IsFound none = Unit
IsFound (some ps) = AllFound ps ps

master_phase_list-AllFound : AllFound master_phase_list master_phase_list
unfolding all_found order_among convert_old_phase_to_sunpike_phase to_int32
master_phase_list-AllFound = all_found-AllFound master_phase_list master_phase_list refl

worker_phase_list-AllFound : AllFound worker_phase_list worker_phase_list
unfolding all_found order_among convert_old_phase_to_sunpike_phase to_int32
worker_phase_list-AllFound = all_found-AllFound worker_phase_list worker_phase_list refl

no_role_phase-AllFound : AllFound (no_role_phase ∷ []) (no_role_phase ∷ [])
unfolding all_found order_among convert_old_phase_to_sunpike_phase to_int32
no_role_phase-AllFound = all_found-AllFound (no_role_phase ∷ []) (no_role_phase ∷ []) refl

load_role_phases-IsFound : (err : Bool) (role : String) → IsFound (load_role_phases err role)
unfolding load_role_phases
load_role_phases-IsFound err role = elim (Bool-cases (role == role_none)) [
  | inl e ↦ rw e no_role_phase-AllFound
  | inr e ↦ rw e (elim (Bool-cases (role == role_worker)) [
    | inl f ↦ rw f worker_phase_list-AllFound
    | inr f ↦ rw f (elim (Bool-cases (role == role_master)) [
      | inl g ↦ rw g master_phase_list-AllFound
      | inr g ↦ rw g (elim (Bool-cases err) [ inl b ↦ rw b tt | inr b ↦ rw b tt ])
    ])
  ])
]

AllFound-get_elem? :
    (whole ps : List Phase) (i : ℕ) (p : Phase)
    → AllFound whole ps
    → get_elem? ps i ≡ some p
    → (order_among p.name (convert_old_phase_to_sunpike_phase whole) ≡ pos p.order)
      × ((p.name == "") ≡ false)
AllFound-get_elem? whole [] i p all h = absurd (ground arith)
AllFound-get_elem? whole (q ∷ ps) zero p all h =
    let same : q ≡ p = some-injective q p h in
    subst
      (λ (r : Phase).
        (order_among r.name (convert_old_phase_to_sunpike_phase whole) ≡ pos r.order)
        × ((r.name == "") ≡ false))
      same (all.0, all.1)
AllFound-get_elem? whole (q ∷ ps) (suc i) p all h = AllFound-get_elem? whole ps i p all.2 h

-- For the phases that load for any role, `GetOrderForPhaseName` on the host made of them gives for
-- the name of each phase the order of that phase.
pub get_order-load_role_phases :
    (err : Bool) (role : String) (ps : List Phase) (i : ℕ) (p : Phase) (h : HostStatus)
    → load_role_phases err role ≡ some ps
    → get_elem? ps i ≡ some p
    → h.phases ≡ convert_old_phase_to_sunpike_phase ps
    → get_order_for_phase_name h p.name ≡ pos p.order
unfolding get_order_for_phase_name
get_order-load_role_phases err role ps i p h loads at same =
    let all = subst IsFound loads (load_role_phases-IsFound err role) in
    let (order, named) = AllFound-get_elem? ps ps i p all at in ground (arith, order, named, same)

-- ===== src/Registry/Ordering.antt =====
-- The order of the phases of nodelet/pkg/phases/register.go.
use nodelet.Shared.{
  ◌⊎◌, Bool, true, none, ◌||◌, ℕ, ◌<◌, ◌≡◌, refl, ◌↔◌, inl, inr, String, false, Bool-cases, List,
  [], ◌∷◌, some, arith, ◌==◌,
}
use nodelet.Config.{role_none, role_worker, role_master, gen_certs_phase_order}
use nodelet.Registry.{
  no_role_phase, worker_phase_list, master_phase_list, Phase, validate_phase_ordering,
  load_role_phases,
}

-- The three roles that have phases.
abbrev pub is_known : String → Bool
is_known role = role == role_none || (role == role_worker || role == role_master)

-- Every later phase has a greater order.
abbrev pub AllAbove : ℕ → List Phase → Type 0
AllAbove k [] = Unit
AllAbove k (p ∷ ps) = (k < p.order) × AllAbove k ps

abbrev pub IsSorted : List Phase → Type 0
IsSorted [] = Unit
IsSorted (p ∷ ps) = AllAbove p.order ps × IsSorted ps

AllAbove-weaken : (j k : ℕ) (ps : List Phase) → j < k → AllAbove k ps → AllAbove j ps
AllAbove-weaken j k [] lt h = tt
AllAbove-weaken j k (p ∷ ps) lt h = (omega arith, AllAbove-weaken j k ps lt h.1)

validate-IsSorted : (ps : List Phase) → validate_phase_ordering ps ≡ false → IsSorted ps
unfolding validate_phase_ordering
validate-IsSorted [] h = tt
validate-IsSorted (p ∷ []) h = (tt, tt)
validate-IsSorted (p ∷ q ∷ ps) h =
    let sorted = validate-IsSorted (q ∷ ps) (ground arith) in
    let lt : p.order < q.order = ground arith in
    ((lt, AllAbove-weaken p.order q.order ps lt sorted.0), sorted)

IsSorted-validate : (ps : List Phase) → IsSorted ps → validate_phase_ordering ps ≡ false
unfolding validate_phase_ordering
IsSorted-validate [] h = refl
IsSorted-validate (p ∷ []) h = refl
IsSorted-validate (p ∷ q ∷ ps) h = ground (arith, IsSorted-validate (q ∷ ps) h.1)

-- `validatePhaseOrdering`, which compares neighbours, accepts a list exactly when the orders rise
-- strictly along all of it.
pub validate_phase_ordering_iff :
    (ps : List Phase) → (validate_phase_ordering ps ≡ false) ↔ IsSorted ps
validate_phase_ordering_iff ps = (validate-IsSorted ps, IsSorted-validate ps)

-- The phase that generates the certificates, if it is there, is the first of the list.
abbrev pub CertsFirst : List Phase → Type 0
CertsFirst [] = Unit
CertsFirst (p ∷ ps) = AllAbove gen_certs_phase_order ps

-- Whatever the role and whether the setup of cgroups failed, the phases load, with orders that rise
-- strictly and the phase that generates the certificates nowhere but first, except for an unknown
-- role after a failed setup, which is an error.
pub load_role_phases-IsSorted :
    (err : Bool) (role : String)
    → ((err ≡ true) × (is_known role ≡ false) × (load_role_phases err role ≡ none))
      ⊎ ((ps : List Phase) × (load_role_phases err role ≡ some ps) × IsSorted ps × CertsFirst ps)
unfolding load_role_phases
load_role_phases-IsSorted err role = elim (Bool-cases (role == role_none)) [
  | inl e ↦ inr (no_role_phase ∷ [], rw e, omega arith, tt)
  | inr e ↦ elim (Bool-cases (role == role_worker)) [
    | inl f ↦ inr (worker_phase_list, rw e (rw f), omega arith, omega arith)
    | inr f ↦ elim (Bool-cases (role == role_master)) [
      | inl g ↦ inr (master_phase_list, rw e (rw f (rw g)), omega arith, omega arith)
      | inr g ↦ elim (Bool-cases err) [
        | inl h ↦ inl (h, rw e (rw f g), rw e (rw f (rw g (rw h))))
        | inr h ↦ inr ([], rw e (rw f (rw g (rw h))), tt, tt)
      ]
    ]
  ]
]

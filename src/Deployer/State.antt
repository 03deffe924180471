-- ===== src/Deployer/State.antt =====
-- What nodeletctl/pkg/nodeletctl/deployer.go asks of a node and of its own machine. Every call that
-- leaves the deployer is an action; the log has the actions, each with whether it succeeded.
use nodelet.Shared.{
  ◌≡◌, refl, ◌⊎◌, inl, inr, String, Bool, true, false, List, [], ◌∷◌, ◌++◌, sym, ap, ◌∙◌,
  Bool-cases, arith,
}

pub data Action : Type 0 where
  -- a command that the SSH client runs
  run : String → Action
  upload : String → String → Action
  download : String → String → Action
  -- `os.Stat` on the local machine, which fails when the file does not exist
  stat : String → Action
  read_file : String → Action
  -- the decoding of a status file
  decode : String → Action

-- The newest entry first.
abbrev pub Log : Type 0
Log = List (Action × Bool)

-- The answers of the surroundings, each from the log so far, and the functions of Go's packages
-- `strings` and `filepath` that work on paths and letters.
pub record Remote : Type 0 where
  -- whether the action returns an error
  pub fails : Log → Action → Bool
  -- the standard output of the command that is to run
  pub output : Log → String → String
  -- the field `NodeState` of a decoded status file
  pub node_state : Log → String → String
  -- `strings.ToLower`
  pub to_lower : String → String
  -- `filepath.Join` of two elements, and `filepath.Base`
  pub join : String → String → String
  pub base : String → String

-- Why an operation fails; the texts that wrap an error are left out.
pub data Error : Type 0 where
  failed : Action → Error
  unsupported_os : Error
  package_not_found : Error

pub data Result (A : Type 0) : Type 0 where
  ok : A → Log → Result A
  err : Error → Log → Result A

abbrev pub M : Type 0 → Type 0
M A = Log → Result A

abbrev pub ret : {A : Type 0} → A → M A
ret a l = ok a l

abbrev pub raise : {A : Type 0} → Error → M A
raise e l = err e l

-- What follows an operation.
abbrev pub continue : {A B : Type 0} → Result A → (A → M B) → Result B
continue (ok a l) f = f a l
continue (err e l) f = err e l

infixl 5 ◌>>=◌ ◌>>◌
abbrev pub ◌>>=◌ : {A B : Type 0} → M A → (A → M B) → M B
◌>>=◌ m f l = continue (m l) f

abbrev pub ◌>>◌ : {B : Type 0} → M (Unit {0}) → M B → M B
m >> k = m >>= λ _. k

module _ (r : Remote) where
  abbrev acted : Bool → Action → M (Unit {0})
  acted true a l = err (failed a) ((a, false) ∷ l)
  acted false a l = ok tt ((a, true) ∷ l)

  -- An action whose error ends the operation.
  abbrev pub act : Action → M (Unit {0})
  act a l = acted (r.fails l a) a l

  abbrev attempted : Bool → Action → M Bool
  attempted true a l = ok false ((a, false) ∷ l)
  attempted false a l = ok true ((a, true) ∷ l)

  -- An action whose error the code looks at: whether it succeeded.
  abbrev pub attempt : Action → M Bool
  attempt a l = attempted (r.fails l a) a l

  -- The standard output of a command, before it runs.
  abbrev pub output_of : String → M String
  output_of c l = ok (r.output l c) l

  -- The reference: a list of actions, in order, up to the first that fails.
  unfoldable pub run_all : List Action → M (Unit {0})
  run_all [] = ret tt
  run_all (a ∷ plan) = act a >> run_all plan

-- The log after a list of actions that all succeeded.
abbrev pub done : List Action → Log → Log
done [] l = l
done (a ∷ plan) l = done plan ((a, true) ∷ l)

-- What a plan comes to: all its actions succeed in order, or one fails behind those that did, it is
-- the error, and nothing follows.
abbrev pub Follows : List Action → Log → Result (Unit {0}) → Type 0
Follows plan l res =
    (res ≡ ok tt (done plan l))
    ⊎ ((before : List Action) × (a : Action) × (after : List Action) × (plan ≡ before ++ a ∷ after)
        × (res ≡ err (failed a) ((a, false) ∷ done before l)))

-- A plan with one more action in front.
Follows-cons :
    (a : Action) (plan : List Action) (l : Log) (res : Result (Unit {0}))
    → Follows plan ((a, true) ∷ l) res
    → Follows (a ∷ plan) l res
Follows-cons a plan l res (inl e) = inl e
Follows-cons a plan l res (inr (before, b, after, p, e)) =
    inr (a ∷ before, b, after, ap (λ ys. a ∷ ys) p, e)

pub run_all-Follows :
    (r : Remote) (plan : List Action) (l : Log) → Follows plan l (run_all r plan l)
unfolding run_all
run_all-Follows r [] l = inl refl
run_all-Follows r (a ∷ plan) l = elim (Bool-cases (r.fails l a)) [
  | inl bad ↦ rw bad (inr ([], a, plan, refl, refl))
  | inr good ↦ rw good (
      Follows-cons a plan l (run_all r plan ((a, true) ∷ l))
        (run_all-Follows r plan ((a, true) ∷ l)))
]

-- An operation that does what a plan says.
abbrev pub Plans : Remote → List Action → M (Unit {0}) → Type 0
Plans r plan m = (l : Log) → m l ≡ run_all r plan l

module _ (r : Remote) where
  pub continue-ret : (res : Result (Unit {0})) → continue res (λ _. ret tt) ≡ res
  continue-ret (ok tt l) = refl
  continue-ret (err e l) = refl

  pub act-Plans : (a : Action) → Plans r (a ∷ []) (act r a)
  unfolding run_all
  act-Plans a l = elim (Bool-cases (r.fails l a)) [ inl bad ↦ rw bad | inr good ↦ rw good ]

  pub ret-Plans : Plans r [] (ret tt)
  unfolding run_all
  ret-Plans l = refl

  continue-Plans :
      (m k : M (Unit {0})) (ps qs : List Action) (l : Log)
      → Plans r ps m
      → Plans r qs k
      → continue (m l) (λ _. k) ≡ run_all r (ps ++ qs) l
  unfolding run_all
  continue-Plans m k [] qs l h g = rw (h l) (g l)
  continue-Plans m k (a ∷ ps) qs l h g = elim (Bool-cases (r.fails l a)) [
    | inl bad ↦ rw (h l, bad)
    | inr good ↦
        rw (h l, good) (continue-Plans (run_all r ps) k ps qs ((a, true) ∷ l) (λ m. refl) g)
  ]

  pub >>-Plans :
      {m k : M (Unit {0})} (ps qs : List Action)
      → Plans r ps m
      → Plans r qs k
      → Plans r (ps ++ qs) (m >> k)
  >>-Plans {m} {k} ps qs h g l = continue-Plans m k ps qs l h g

  pub Plans-Follows :
      {m : M (Unit {0})} (plan : List Action) → Plans r plan m → (l : Log) → Follows plan l (m l)
  Plans-Follows plan h l = rw (h l) (run_all-Follows r plan l)

-- Inversion of an operation that succeeds.
pub continue-ok :
    {A B : Type 0} (m : Result A) (f : A → M B) {b : B} {l' : Log}
    → continue m f ≡ ok b l'
    → (a : A) × (l : Log) × (m ≡ ok a l) × (f a l ≡ ok b l')
continue-ok (ok a l) f h = (a, l, refl, h)
continue-ok (err e l) f h = cc

pub act-ok :
    (r : Remote) (a : Action) (l : Log) {u : Unit {0}} {l' : Log}
    → act r a l ≡ ok u l'
    → l' ≡ (a, true) ∷ l
act-ok r a l h = elim (Bool-cases (r.fails l a)) [
  | inl bad ↦ absurd (cc (bad, h))
  | inr good ↦ ground arith
]

run_all-ok :
    (r : Remote) (plan : List Action) (l : Log) {u : Unit {0}} {l' : Log}
    → run_all r plan l ≡ ok u l'
    → l' ≡ done plan l
unfolding run_all
run_all-ok r [] l h = cc
run_all-ok r (a ∷ plan) l h =
    let (_, l1, first, rest) = continue-ok (act r a l) (λ _. run_all r plan) h in
    run_all-ok r plan l1 rest ∙ ap (done plan) (act-ok r a l first)

-- Behind an operation with a plan, the log is that of the plan.
pub Plans-step :
    (r : Remote) {B : Type 0} (plan : List Action) (m : M (Unit {0})) (k : M B)
    → Plans r plan m
    → (l : Log) {b : B} {l' : Log} → continue (m l) (λ _. k) ≡ ok b l'
    → k (done plan l) ≡ ok b l'
Plans-step r plan m k h l e =
    let (_, l1, first, rest) = continue-ok (m l) (λ _. k) e in
    rw (← run_all-ok r plan l {l' = l1} (rw (← h l) first)) rest

pub done-append : (ps qs : List Action) (l : Log) → done (ps ++ qs) l ≡ done qs (done ps l)
done-append [] qs l = refl
done-append (a ∷ ps) qs l = done-append ps qs ((a, true) ∷ l)

-- An operation with a plan that succeeds has the log of the plan.
pub Plans-ok :
    (r : Remote) (plan : List Action) (m : M (Unit {0}))
    → Plans r plan m
    → (l : Log) {u : Unit {0}} {l' : Log} → m l ≡ ok u l'
    → l' ≡ done plan l
Plans-ok r plan m h l e = run_all-ok r plan l (sym (h l) ∙ e)

-- ===== src/Commands/Guard.antt =====
-- The checks of nodelet/pkg/nodelet/cmd/phase_commands.go keep the commands from a panic.
use nodelet.Shared.{
  ℕ, zero, suc, ◌-ℤ◌, ◌||◌, ◌&&◌, if◌then◌else◌, ◌<◌, ◌≡◌, refl, sym, ap, ◌∙◌, Bool, true, Option,
  none, some, [], map, length, ℤ, pos, negsuc, arith, Bool-cases, inl, inr, get_elem?-lt, ltb_ℤ,
}
use nodelet.Agent.State.{Setup, Nodelet, Outcome, done, Returns, Returns-bind, Returns-if, ◌>>=◌}
use nodelet.Config.{Config}
use nodelet.Config.Load.{get_config_from_dir}
use nodelet.Registry.Ordering.{is_known}
use nodelet.Agent.Create.{create_nodelet_from_config}
use nodelet.Agent.Create.Startup.{created-IsWellFormed, created-config}
use nodelet.Agent.Chain.Started.{start_phases-Started}
use nodelet.Agent.Chain.Stopped.{stop_phases-Stopped}
use nodelet.Agent.Reconcile.{start_single_phase, stop_single_phase, skip_gen_certs_phase}
use nodelet.Commands.{
  PhasesOpts, Shell, prepared, override, complete_with, complete, are_pf9_agents_running, validated,
  validate, start_opts, stop_opts, restart_opts, start_command, stop_command, restart_command,
  forget,
}

number-lt :
    (n : ℕ) (z i : ℤ)
    → 0 < n
    → (if ltb_ℤ (pos n) z || ltb_ℤ z (pos 0)
        then none
        else some (if ltb_ℤ (pos 0) z then z -ℤ pos 1 else z))
      ≡ some i
    → (k : ℕ) × (i ≡ pos k) × (k < n)
number-lt n (pos zero) i some_phase h = (0, ground arith, some_phase)
number-lt n (pos (suc m)) i some_phase h = (m, ground arith, ground arith)
number-lt n (negsuc m) i some_phase h = absurd (ground arith)

-- A phase number that passes is turned into the index of a phase.
pub validate-lt :
    (sh : Shell) (check : Bool) (o : PhasesOpts) (s : Setup) (i : ℤ)
    → 0 < length s.phases
    → validate sh check o s ≡ some i
    → (k : ℕ) × (i ≡ pos k) × (k < length s.phases)
unfolding validate
validate-lt sh check o s i some_phase h = elim (Bool-cases (check && are_pf9_agents_running sh)) [
  | inl e ↦ absurd (cc (e, h))
  | inr e ↦ number-lt (length s.phases) o.phase i some_phase (rw e at h)
]

-- The names of the phases stay.
abbrev pub KeepsNames : Setup → Bool × Nodelet → Type 0
KeepsNames s r = r.1.current_state.all_phases ≡ map (λ p. p.name) s.phases

module _ (s : Setup) where
  start_single_phase-Returns :
      (k : ℕ) (n : Nodelet)
      → k < length s.phases
      → n.current_state.all_phases ≡ map (λ p. p.name) s.phases
      → Returns (KeepsNames s) (start_single_phase s (pos k) n)
  unfolding start_single_phase
  start_single_phase-Returns k n lt names = let (p, e) = get_elem?-lt s.phases k lt in rw e names

  stop_single_phase-Returns :
      (k : ℕ) (n : Nodelet)
      → k < length s.phases
      → n.current_state.all_phases ≡ map (λ p. p.name) s.phases
      → Returns (KeepsNames s) (stop_single_phase s (pos k) n)
  unfolding stop_single_phase
  stop_single_phase-Returns k n lt names = let (p, e) = get_elem?-lt s.phases k lt in rw e names

  start_opts-Returns :
      (o : PhasesOpts) (k : ℕ) (n : Nodelet)
      → k < length s.phases
      → n.current_state.all_phases ≡ map (λ p. p.name) s.phases
      → Returns (KeepsNames s) (start_opts s o (pos k) n)
  unfolding start_opts
  start_opts-Returns o k n lt names =
      Returns-if (KeepsNames s) o.single _ _ (λ _. start_single_phase-Returns k n lt names)
        (λ _. let (r, e, h) = start_phases-Started s k n lt names in rw e h.ends.at.array)

  stop_opts-Returns :
      (o : PhasesOpts) (k : ℕ) (n : Nodelet)
      → k < length s.phases
      → n.current_state.all_phases ≡ map (λ p. p.name) s.phases
      → Returns (KeepsNames s) (stop_opts s o (pos k) n)
  unfolding stop_opts
  stop_opts-Returns o k n lt names =
      Returns-if (KeepsNames s) o.single _ _ (λ _. stop_single_phase-Returns k n lt names)
        (λ _.
          let (r, e, h) = stop_phases-Stopped s k o.force n lt names in rw e (h.all_phases ∙ names))

  restart_opts-Returns :
      (o : PhasesOpts) (k : ℕ) (n : Nodelet)
      → k < length s.phases
      → n.current_state.all_phases ≡ map (λ p. p.name) s.phases
      → Returns (KeepsNames s) (restart_opts s o (pos k) n)
  unfolding restart_opts
  restart_opts-Returns o k n lt names =
      Returns-bind (KeepsNames s) (KeepsNames s) (stop_opts s o (pos k) n) _
        (stop_opts-Returns o k n lt names) (λ r same. start_opts-Returns o k r.1 lt same)

-- A command behind the checks.
pub validated-Returns :
    (P : Bool × Nodelet → Type 0) (m : Option ℤ) (k : ℤ → Outcome (Bool × Nodelet)) (n : Nodelet)
    → P (true, n)
    → ((i : ℤ) → m ≡ some i → Returns P (k i))
    → Returns P (validated m k n)
validated-Returns P none k n h g = h
validated-Returns P (some i) k n h g = g i refl

module _ (sh : Shell) (o : PhasesOpts) (s : Setup) where
  -- A command from an index of a phase, whose names stay.
  guarded :
      (k : ℤ → Outcome (Bool × Nodelet)) (n : Nodelet)
      → 0 < length s.phases
      → KeepsNames s (true, n)
      → ((j : ℕ) → j < length s.phases → Returns (KeepsNames s) (k (pos j)))
      → Returns (KeepsNames s) (validated (validate sh true o s) k n)
  guarded k n some_phase names h =
      validated-Returns (KeepsNames s) (validate sh true o s) k n names
        λ i e. let (j, same, lt) = validate-lt sh true o s i some_phase e in rw same (h j lt)

  forget-Returns :
      (r : Outcome (Bool × Nodelet))
      → Returns (KeepsNames s) r
      → Returns (KeepsNames s) (r >>= forget)
  forget-Returns r h = Returns-bind (KeepsNames s) (KeepsNames s) r forget h (λ a same. same)

  prepared-names : (n : Nodelet) → KeepsNames s (true, n) → KeepsNames s (true, prepared o s n)
  unfolding prepared skip_gen_certs_phase
  prepared-names n names = elim (Bool-cases o.regen_certs) [
    | inl e ↦ rw e names
    | inr e ↦ rw e names
  ]

  -- The commands of a well-formed agent with some phase.
  pub commands-Return :
      (n : Nodelet)
      → 0 < length s.phases
      → n.current_state.all_phases ≡ map (λ p. p.name) s.phases
      → Returns (KeepsNames s) (start_command sh o s n)
        × Returns (KeepsNames s) (stop_command sh o s n)
        × Returns (KeepsNames s) (restart_command sh o s n)
  unfolding start_command stop_command restart_command
  commands-Return n some_phase names = (
    guarded _ n some_phase names λ j lt. forget-Returns _ (start_opts-Returns s o j n lt names),
    guarded _ n some_phase names λ j lt. forget-Returns _ (stop_opts-Returns s o j n lt names),
    guarded _ (prepared o s n) some_phase (prepared-names n names)
        λ j lt. restart_opts-Returns s o j (prepared o s n) lt (prepared-names n names),
  )

-- What `complete` returns comes from `CreateNodeletFromConfig`.
complete-created :
    (sh : Shell) (c : Option Config) (s : Setup) (n : Nodelet)
    → complete_with sh c ≡ done (some (s, n))
    → (cfg : Config) × (create_nodelet_from_config sh.text sh.env cfg sh.file []
        ≡ done (some (s, n)))
unfolding complete_with
complete-created sh none s n h = absurd (cc h)
complete-created sh (some c) s n h = elim (Bool-cases sh.merge_fails) [
  | inl e ↦ absurd (cc (e, h))
  | inr e ↦ (sh.merge (override c), (rw e at h))
]

-- For an agent that `complete` of the commands returns, of a role with phases, the commands `phases
-- start`, `stop` and `restart` with any flags return: no phase number that `validate` lets pass
-- makes `Start`, `Stop` or their forms for a single phase panic, and the names of the phases stay.
pub completed-commands_return :
    (sh : Shell) (o : PhasesOpts) (s : Setup) (n : Nodelet)
    → complete sh ≡ done (some (s, n))
    → is_known s.config.cluster_role ≡ true
    → Returns (KeepsNames s) (start_command sh o s n)
      × Returns (KeepsNames s) (stop_command sh o s n)
      × Returns (KeepsNames s) (restart_command sh o s n)
unfolding complete
completed-commands_return sh o s n h known =
    let (cfg, created) = complete-created sh (get_config_from_dir sh.files).0 s n h in
    let (w, same, some_phase) =
      created-IsWellFormed sh.text sh.env cfg sh.file [] s n
        (sym (
            ap (λ (c : Config). is_known c.cluster_role)
              (created-config sh.text sh.env cfg sh.file [] s n created))
          ∙ known)
        created in
    commands-Return sh o s n some_phase w.names

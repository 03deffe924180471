-- ===== src/Agent/Create/Startup.antt =====
-- The agent from its creation on: `CreateNodeletFromConfig` and `Run` of
-- nodelet/pkg/nodelet/nodelet.go.
use mathlib.Core.Path.{subst}
use mathlib.Core.Option.{some-injective}
use nodelet.Agent.Chain.Health.{IsIndex}
use nodelet.Extension.{ExtensionData}
use nodelet.Agent.Persist.Frame.{fetch-state}
use nodelet.Shared.{
  sym, ◌∙◌, ℕ, ◌<◌, ◌≡◌, refl, String, Bool, true, false, ◌↔◌, inl, inr, Bool-cases, Option, none,
  some, List, [], ◌∷◌, map, length, minus_one, arith, abs, ◌==◌, ap, not, ◌&&◌, ◌||◌,
}
use nodelet.Config.{Config, role_none, role_worker, role_master}
use nodelet.Registry.{no_role_phase, worker_phase_list, master_phase_list, Phase, load_role_phases}
use nodelet.Registry.Ordering.{is_known}
use nodelet.KubeEnv.{KubeEnvMap}
use nodelet.Extension.Load.{Text, File, Saved, initial, load, construct_initial_current_state}
use nodelet.Agent.State.{
  SendsHosts, Env, Setup, Nodelet, Event, stat, read_file, parse_file, Outcome, done, panic, exit,
}
use nodelet.Agent.Persist.{fetch_kube_env_map}
use nodelet.Agent.Create.{
  setup_error, after_setup, create_with, create_on, create_from, create_nodelet_from_config,
}
use nodelet.Agent.Reconcile.{run}
use nodelet.Agent.State.{Returns}
use nodelet.Agent.Reconcile.Safety.{IsWellFormed}
use nodelet.Agent.Reconcile.Running.{run-IsWellFormed}

load_role_phases-pos :
    (err : Bool) (role : String)
    → is_known role ≡ true
    → (ps : List Phase) × (load_role_phases err role ≡ some ps) × (0 < length ps)
unfolding load_role_phases
load_role_phases-pos err role h = elim (Bool-cases (role == role_none)) [
  | inl e ↦ (no_role_phase ∷ [], rw e, omega arith)
  | inr e ↦ elim (Bool-cases (role == role_worker)) [
    | inl f ↦ (worker_phase_list, rw e (rw f), omega arith)
    | inr f ↦ elim (Bool-cases (role == role_master)) [
      | inl g ↦ (master_phase_list, rw e (rw f (rw g)), omega arith)
      | inr g ↦ absurd (ground arith)
    ]
  ]
]

-- What is known of an outcome of the creation that is an agent.
abbrev IsCreated : Env → Config → Outcome (Option (Setup × Nodelet)) → Type 0
IsCreated env cfg (done (some (s, n))) =
    IsWellFormed s n
    × (s.config ≡ cfg)
    × (s.env ≡ env)
    × ((err : Bool) × (load_role_phases err cfg.cluster_role ≡ some s.phases))
IsCreated env cfg (done none) = Unit
IsCreated env cfg panic = Unit
IsCreated env cfg (exit n) = Unit

abbrev pub is_absent : Option Saved → Bool
is_absent none = true
is_absent (some _) = false

-- What is known of a first state.
abbrev IsInitial : List String → Option ExtensionData → Type 0
IsInitial names none = Unit
IsInitial names (some d) = (d.all_phases ≡ names) × (d.start_fail_step ≡ minus_one)

initial-IsInitial :
    (text : Text) (names : List String) (o : Option ExtensionData)
    → IsInitial names (initial text names o)
unfolding initial
initial-IsInitial text names none = tt
initial-IsInitial text names (some d) = (refl, refl)

module _ (text : Text) (env : Env) (cfg : Config) (file : File) (trace : List Event) where
  create_with-IsCreated :
      (err : Bool) (ps : List Phase) (n : Nodelet) (r : Option KubeEnvMap × Nodelet)
      → r.1.current_state ≡ n.current_state
      → n.current_state.all_phases ≡ map (λ p. p.name) ps
      → n.current_state.start_fail_step ≡ minus_one
      → load_role_phases err cfg.cluster_role ≡ some ps
      → IsCreated env cfg (create_with (record { env = env; config = cfg; phases = ps }) n r)
  unfolding create_with
  create_with-IsCreated err ps n (none, m) e names step l = tt
  create_with-IsCreated err ps n (some _, m) e names step l = (
    record {
      names = ap (λ (d : ExtensionData). d.all_phases) e ∙ names;
      failed_start =
          subst (λ i. IsIndex 0 (length ps) i)
            (sym (ap (λ (d : ExtensionData). d.start_fail_step) e ∙ step)) tt;
    },
    refl,
    refl,
    (err, l),
  )

  create_on-IsCreated :
      (err : Bool) (ps : List Phase) (o : Option ExtensionData)
      → IsInitial (map (λ p. p.name) ps) o
      → load_role_phases err cfg.cluster_role ≡ some ps
      → IsCreated env cfg (create_on env cfg trace ps o)
  unfolding create_on
  create_on-IsCreated err ps none known l = tt
  create_on-IsCreated err ps (some d) (names, step) l =
      let s : Setup = record { env = env; config = cfg; phases = ps } in
      let n : Nodelet = record { current_state = d; trace = trace } in
      create_with-IsCreated err ps n (fetch_kube_env_map s n) (fetch-state s n) names step l

  create_from-IsCreated :
      (err : Bool) (o : Option (List Phase))
      → load_role_phases err cfg.cluster_role ≡ o
      → IsCreated env cfg (create_from text env cfg file trace o)
  unfolding create_from construct_initial_current_state
  create_from-IsCreated err none l = tt
  create_from-IsCreated err (some ps) l =
      create_on-IsCreated err ps
        (construct_initial_current_state text cfg file (map (λ p. p.name) ps))
        (initial-IsInitial text (map (λ p. p.name) ps) _) l

module _ (text : Text) (env : Env) (cfg : Config) (file : File) (trace : List Event) where
  create_nodelet_from_config-IsCreated :
      IsCreated env cfg (create_nodelet_from_config text env cfg file trace)
  unfolding create_nodelet_from_config
  create_nodelet_from_config-IsCreated =
      create_from-IsCreated text env cfg file (after_setup cfg trace) (setup_error env cfg trace)
        (load_role_phases (setup_error env cfg trace) cfg.cluster_role) refl

  -- An agent that is returned has the configuration that it was made from.
  pub created-config :
      (s : Setup) (n : Nodelet)
      → create_nodelet_from_config text env cfg file trace ≡ done (some (s, n))
      → s.config ≡ cfg
  created-config s n e = (subst (IsCreated env cfg) e create_nodelet_from_config-IsCreated).1

  created-env :
      (s : Setup) (n : Nodelet)
      → create_nodelet_from_config text env cfg file trace ≡ done (some (s, n))
      → s.env ≡ env
  created-env s n e = (subst (IsCreated env cfg) e create_nodelet_from_config-IsCreated).2

  -- An agent that is returned is well-formed, and has some phase, for a role with phases.
  pub created-IsWellFormed :
      (s : Setup) (n : Nodelet)
      → is_known cfg.cluster_role ≡ true
      → create_nodelet_from_config text env cfg file trace ≡ done (some (s, n))
      → IsWellFormed s n × (s.config ≡ cfg) × (0 < length s.phases)
  created-IsWellFormed s n known e =
      let (w, same, _, (err, loaded)) =
        subst (IsCreated env cfg) e create_nodelet_from_config-IsCreated in
      let (ps, loads, some_phase) = load_role_phases-pos err cfg.cluster_role known in
      (
        w,
        same,
        subst (λ (qs : List Phase). 0 < length qs) (some-injective ps s.phases (sym loads ∙ loaded))
            some_phase,
      )

  -- An agent that `CreateNodeletFromConfig` returns, for a role with phases and a retry count that
  -- is not 0, runs any number of rounds of `Run` without an index out of range or another panic of
  -- its own, where every operation of a phase returns, with or without an error, and Sunpike never
  -- answers without a host; each run returns a well-formed agent or ends the process.
  pub created-run_never_panics :
      (s : Setup) (n : Nodelet) (rounds : ℕ)
      → SendsHosts env
      → is_known cfg.cluster_role ≡ true
      → 0 < abs cfg.full_retry_count
      → create_nodelet_from_config text env cfg file trace ≡ done (some (s, n))
      → Returns (IsWellFormed s) (run s rounds n)
  created-run_never_panics s n rounds sends known retry e =
      let (w, same, some_phase) = created-IsWellFormed s n known e in
      run-IsWellFormed s (subst SendsHosts (sym (created-env s n e)) sends) rounds n
        (record { some_phase = some_phase; retry_count = rw same retry }) w

  -- Whether the file of the Sunpike configuration is there and cannot be read or parsed.
  abbrev pub is_unreadable : Bool
  is_unreadable =
      let path = cfg.sunpike_config_path in
      let t0 = after_setup cfg trace in
      let t1 = stat path ∷ t0 in
      let t2 = read_file path ∷ t1 in
      not (env.fails t0 (stat path))
      && (env.fails t1 (read_file path) || env.fails t2 (parse_file path))

  -- Whether the extension file is used and holds the JSON document `null`.
  abbrev pub is_null : Bool
  is_null = not cfg.disable_ext_file && is_absent file.saved

  -- For a role with phases, `CreateNodeletFromConfig` panics exactly when the extension file is
  -- used and holds the JSON document `null`, or the file of the Sunpike configuration is there and
  -- cannot be read or parsed.
  pub create-panic_iff :
      is_known cfg.cluster_role ≡ true
      → (create_nodelet_from_config text env cfg file trace ≡ panic)
        ↔ ((is_null || is_unreadable) ≡ true)
  unfolding create_nodelet_from_config create_from create_on create_with fetch_kube_env_map
      construct_initial_current_state load initial
  create-panic_iff known =
      let (ps, loads, _) =
        load_role_phases-pos (setup_error env cfg trace) cfg.cluster_role known in
      ground (arith, loads)

-- ===== src/Agent/State.antt =====
-- The state of the agent of nodelet/pkg/nodelet/nodelet.go, and what it asks of its surroundings.
-- Every call that leaves the agent is an event; the surroundings answer from the events so far.
use nodelet.Shared.{
  true, false, refl, ◌≡◌, if◌then◌else◌, ℕ, String, Bool, ℤ, List, ◌∷◌, Option, none, some,
  get_elem?, pos, negsuc,
}
pub use nodelet.Registry.{Phase}
use nodelet.Config.{Config}
use nodelet.KubeEnv.{KubeEnvMap, Host}
use nodelet.Extension.{ExtensionData}

-- The three operations of a `PhaseInterface`.
pub data Op : Type 0 where
  status start stop : Op

pub data Event : Type 0 where
  setup_cgroup : Event
  read_clock : Event
  call : Op → Phase → Event
  write : ExtensionData → Event
  update : ExtensionData → Event
  stat : String → Event
  read_file : String → Event
  parse_file : String → Event
  open_file : String → Event
  write_kube_env : String → KubeEnvMap → Event
  write_yaml : String → KubeEnvMap → Event
  remove : String → Event
  symlink : String → String → Event

-- The answers of the surroundings, each from the events so far, the newest first.
pub record Env : Type 0 where
  -- nanoseconds since 1970
  pub now : List Event → ℕ
  -- whether the call returns an error; a phase's operation is one that returns, and a panic of its own
  -- is not modelled here
  pub fails : List Event → Event → Bool
  -- the host that Sunpike sends back; `none` is an answer without one, a nil pointer
  pub host : List Event → Option Host
  -- the map in the file `SunpikeConfigPath`
  pub config_file : List Event → KubeEnvMap
  -- `HostPhase.Status` of a phase
  pub phase_status : List Event → Phase → String
  -- `strings.ToUpper`
  pub to_upper : String → String
  -- whether a host's spec equals `HostSpec{}`
  pub spec_is_empty : Host → Bool
  -- whether `ToConfig` returns an error
  pub to_config_fails : KubeEnvMap → Bool

-- Sunpike never answers without a host.
abbrev pub SendsHosts : Env → Type 0
SendsHosts env = (t : List Event) → (h : Host) × (env.host t ≡ some h)

-- The fields of `Nodelet` that do not change, with the surroundings.
pub record Setup : Type 0 where
  pub env : Env
  pub config : Config
  pub phases : List Phase

-- `currentState`, and the events so far, the newest first.
pub record Nodelet : Type 0 where
  pub current_state : ExtensionData
  pub trace : List Event

-- How a handler ends: it returns, it panics, or it ends the process by `os.Exit(0)`.
pub data Outcome (A : Type 0) : Type 0 where
  done : A → Outcome A
  panic : Outcome A
  exit : Nodelet → Outcome A

infixl 5 ◌>>=◌
abbrev pub ◌>>=◌ : {A B : Type 0} → Outcome A → (A → Outcome B) → Outcome B
done a >>= f = f a
panic >>= f = panic
exit n >>= f = exit n

abbrev pub emit : Event → Nodelet → Nodelet
emit e n = record n { trace = e ∷ n.trace }

abbrev pub with_state : (ExtensionData → ExtensionData) → Nodelet → Nodelet
with_state f n = record n { current_state = f n.current_state }

-- `n.phases[i]`; `none` is the panic of an index out of range.
unfoldable pub phase_at : List Phase → ℤ → Option Phase
phase_at ps (pos i) = get_elem? ps i
phase_at ps (negsuc i) = none

-- The outcome is no panic, and what is returned satisfies a predicate.
abbrev pub Returns : {A : Type 0} → (A → Type 0) → Outcome A → Type 0
Returns P (done a) = P a
Returns P panic = ⊥
Returns P (exit n) = Unit

pub Returns-bind :
    {A B : Type 0} (P : A → Type 0) (Q : B → Type 0) (m : Outcome A) (f : A → Outcome B)
    → Returns P m
    → ((a : A) → P a → Returns Q (f a))
    → Returns Q (m >>= f)
Returns-bind P Q (done a) f h k = k a h
Returns-bind P Q panic f h k = absurd h
Returns-bind P Q (exit n) f h k = tt

pub Returns-if :
    {A : Type 0} (P : A → Type 0) (b : Bool) (x y : Outcome A)
    → (b ≡ true → Returns P x)
    → (b ≡ false → Returns P y)
    → Returns P (if b then x else y)
Returns-if P true x y h k = h refl
Returns-if P false x y h k = k refl

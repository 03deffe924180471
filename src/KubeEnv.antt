-- ===== src/KubeEnv.antt =====
-- nodelet/pkg/utils/config/kubeenv.go: the key-value form of a host's configuration. The order of a
-- Go map's range is the order of the list. The values come rendered: `fmt` is not modelled.
pub mod Override
pub mod Export
pub mod Read
pub mod RoundTrip
use nodelet.Shared.{
  lookup, insert, String, Bool, true, false, ◌&&◌, Option, none, some, List, [], ◌∷◌, ◌==◌,
  if◌then◌else◌,
}

abbrev pub KubeEnvMap : Type 0
KubeEnvMap = List (String × String)

abbrev pub host_id_key : String
host_id_key = "HOSTID"

-- The fields of a struct as `reflect` walks them: a nested struct, a map or slice or array, and any
-- other field with its `kube.env` tag, if it has one, and its value as text.
pub data Fields : Type 0 where
  nil : Fields
  struct : Fields → Fields → Fields
  container : Fields → Fields
  scalar : Option String → String → Fields → Fields

-- `Host`: the name, the fields of the spec, and its `ExtraCfg`.
pub record Host : Type 0 where
  pub name : String
  pub spec : Fields
  pub extra_cfg : KubeEnvMap

-- `structToKubeEnvMap`.
unfoldable pub struct_to_kube_env_map : Fields → KubeEnvMap → KubeEnvMap
struct_to_kube_env_map nil m = m
struct_to_kube_env_map (struct inner rest) m =
    struct_to_kube_env_map rest (struct_to_kube_env_map inner m)
struct_to_kube_env_map (container rest) m = struct_to_kube_env_map rest m
struct_to_kube_env_map (scalar none v rest) m = struct_to_kube_env_map rest m
struct_to_kube_env_map (scalar (some k) v rest) m = struct_to_kube_env_map rest (insert k v m)

-- The test in the loop over `ExtraCfg`: a key that is there stays as it is.
add_missing : Option String → String → String → KubeEnvMap → KubeEnvMap
add_missing none k v m = insert k v m
add_missing (some w) k v m = m

-- The loop over `ExtraCfg`; `to_upper` is `strings.ToUpper`.
unfoldable pub add_extra : (String → String) → KubeEnvMap → KubeEnvMap → KubeEnvMap
unfolding add_missing
add_extra to_upper [] m = m
add_extra to_upper ((k, v) ∷ extra) m =
    add_extra to_upper extra (add_missing (lookup (to_upper k) m) (to_upper k) v m)

-- `ConvertHostToKubeEnvMap`.
unfoldable pub convert_host_to_kube_env_map : (String → String) → Host → KubeEnvMap
convert_host_to_kube_env_map to_upper host =
    add_extra to_upper host.extra_cfg
      (insert host_id_key host.name (struct_to_kube_env_map host.spec []))

abbrev same_value : String → Option String → Bool
same_value v none = false
same_value v (some w) = v == w

contains_all : KubeEnvMap → KubeEnvMap → KubeEnvMap → Bool
contains_all [] whole m = true
contains_all ((k, v) ∷ l) whole m =
    (elim (lookup k whole) [ none ↦ true | some w ↦ same_value w (lookup k m) ])
    && contains_all l whole m

-- `reflect.DeepEqual` on two maps: each has the other's values.
unfoldable pub deep_equal : KubeEnvMap → KubeEnvMap → Bool
unfolding contains_all
deep_equal a b = contains_all a a b && contains_all b b a

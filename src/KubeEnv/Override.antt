-- ===== src/KubeEnv/Override.antt =====
-- The order of precedence in `ConvertHostToKubeEnvMap` of nodelet/pkg/utils/config/kubeenv.go.
use nodelet.Shared.{
  lookup, insert, lookup-insert, lookup-nil, ◌≡◌, refl, ◌∙◌, sym, ap, String, Option, none, some,
  [], ◌∷◌, ◌==◌, arith, eq_iff, if◌then◌else◌, inl, inr, Bool-cases,
}
use nodelet.KubeEnv.{
  KubeEnvMap, Host, Fields, nil, struct, container, scalar, add_missing, add_extra,
  struct_to_kube_env_map, convert_host_to_kube_env_map, host_id_key,
}

-- The first of two values that is there.
abbrev pub prefer {ℓ} : {A : Type ℓ} → Option A → Option A → Option A
prefer none b = b
prefer (some a) b = some a

prefer_assoc {ℓ} : {A : Type ℓ} (a b c : Option A) → prefer a (prefer b c) ≡ prefer (prefer a b) c
prefer_assoc none b c = refl
prefer_assoc (some a) b c = refl

prefer-none {ℓ} : {A : Type ℓ} (a : Option A) → prefer a none ≡ a
prefer-none none = refl
prefer-none (some a) = refl

-- The value of the last field of a struct, at any depth, that has a tag.
abbrev pub last_tagged : String → Fields → Option String
last_tagged j nil = none
last_tagged j (struct inner rest) = prefer (last_tagged j rest) (last_tagged j inner)
last_tagged j (container rest) = last_tagged j rest
last_tagged j (scalar none v rest) = last_tagged j rest
last_tagged j (scalar (some k) v rest) =
    prefer (last_tagged j rest) (if k == j then some v else none)

-- The value of the first extra key that is a given key in upper case.
abbrev pub first_extra : (String → String) → String → KubeEnvMap → Option String
first_extra to_upper j [] = none
first_extra to_upper j ((k, v) ∷ extra) =
    prefer (if to_upper k == j then some v else none) (first_extra to_upper j extra)

lookup-struct :
    (j : String) (f : Fields) (m : KubeEnvMap)
    → lookup j (struct_to_kube_env_map f m) ≡ prefer (last_tagged j f) (lookup j m)
unfolding struct_to_kube_env_map
lookup-struct j nil m = refl
lookup-struct j (struct inner rest) m =
    lookup-struct j rest (struct_to_kube_env_map inner m)
    ∙ ap (prefer (last_tagged j rest)) (lookup-struct j inner m)
    ∙ prefer_assoc (last_tagged j rest) (last_tagged j inner) (lookup j m)
lookup-struct j (container rest) m = lookup-struct j rest m
lookup-struct j (scalar none v rest) m = lookup-struct j rest m
lookup-struct j (scalar (some k) v rest) m =
    lookup-struct j rest (insert k v m)
    ∙ ground (
      arith,
      lookup-insert k j v m,
      prefer_assoc (last_tagged j rest) (if k == j then some v else none) (lookup j m),
    )

lookup-add_missing :
    (o : Option String) (k v j : String) (m : KubeEnvMap)
    → lookup k m ≡ o
    → lookup j (add_missing o k v m) ≡ prefer (lookup j m) (if k == j then some v else none)
unfolding add_missing
lookup-add_missing none k v j m e = elim (Bool-cases (k == j)) [
  | inl same ↦
      let gone : lookup j m ≡ none = ap (λ x. lookup x m) (sym ((eq_iff k j).0 same)) ∙ e in
      rw lookup-insert (rw (same, gone))
  | inr other ↦ rw lookup-insert (rw other (sym (prefer-none (lookup j m))))
]
lookup-add_missing (some w) k v j m e = elim (Bool-cases (k == j)) [
  | inl same ↦
      let there : lookup j m ≡ some w = ap (λ x. lookup x m) (sym ((eq_iff k j).0 same)) ∙ e in
      rw there
  | inr other ↦ rw other (sym (prefer-none (lookup j m)))
]

lookup-add_extra :
    (to_upper : String → String) (j : String) (extra m : KubeEnvMap)
    → lookup j (add_extra to_upper extra m) ≡ prefer (lookup j m) (first_extra to_upper j extra)
unfolding add_extra
lookup-add_extra to_upper j [] m = sym (prefer-none (lookup j m))
lookup-add_extra to_upper j ((k, v) ∷ extra) m =
    lookup-add_extra to_upper j extra (add_missing (lookup (to_upper k) m) (to_upper k) v m)
    ∙ ap (λ o. prefer o (first_extra to_upper j extra))
        (lookup-add_missing (lookup (to_upper k) m) (to_upper k) v j m refl)
    ∙ sym (
        prefer_assoc (lookup j m) (if to_upper k == j then some v else none)
          (first_extra to_upper j extra))

-- The value of a key in the result of `ConvertHostToKubeEnvMap` is the name of the host for its own
-- key, else that of the last field of the spec with this tag, else that of the first extra key that
-- is this one in upper case: an extra key never overrides the spec.
pub lookup-convert :
    (to_upper : String → String) (host : Host) (j : String)
    → lookup j (convert_host_to_kube_env_map to_upper host)
      ≡ prefer
          (if host_id_key == j then some host.name else last_tagged j host.spec)
          (first_extra to_upper j host.extra_cfg)
unfolding convert_host_to_kube_env_map
lookup-convert to_upper host j =
    lookup-add_extra to_upper j host.extra_cfg _
    ∙ ap (λ o. prefer o (first_extra to_upper j host.extra_cfg))
        (lookup-insert host_id_key j host.name (struct_to_kube_env_map host.spec [])
          ∙ ap (λ o. if host_id_key == j then some host.name else o)
              (lookup-struct j host.spec []
                ∙ ap (prefer (last_tagged j host.spec)) (lookup-nil j)
                ∙ prefer-none (last_tagged j host.spec)))

-- ===== src/KubeEnv/Export.antt =====
-- The file kube.env of nodelet/pkg/utils/config/kubeenv.go: `ToKubeEnv` and `Keys`.
use Prim.Native.String.{◌++◌}
use Prim.Native.Char.{Char, code}
use nodelet.Shared.{
  lookup, String, Bool, true, false, ◌||◌, none, some, List, [], ◌∷◌, eqb, if◌then◌else◌, map,
}
use nodelet.Shared.Texts.{sort_strings, trim_space}
use nodelet.KubeEnv.{KubeEnvMap}

abbrev pub backslash : Char
backslash = "\\"

abbrev pub letter_n : Char
letter_n = "n"

-- The characters of `charsToEscapeInVarExport`: two quotes, the backquote, the backslash, and $.
abbrev pub is_escaped : Char → Bool
is_escaped c =
    eqb (code c) b'"'
    || eqb (code c) 39
    || eqb (code c) b'`'
    || eqb (code c) 92
    || eqb (code c) b'$'

-- `charsToEscapeInVarExport.ReplaceAllString(s, "\\$1")`.
unfoldable pub escape_chars : String → String
escape_chars String.[] = ""
escape_chars (String.◌∷◌ c s) =
    let rest = String.◌∷◌ c (escape_chars s) in
    if is_escaped c then String.◌∷◌ backslash rest else rest

-- `strings.ReplaceAll(s, "\n", "\\n")`.
unfoldable pub escape_newlines : String → String
escape_newlines String.[] = ""
escape_newlines (String.◌∷◌ c s) =
    let rest = escape_newlines s in
    if eqb (code c) 10 then String.◌∷◌ backslash (String.◌∷◌ letter_n rest) else String.◌∷◌ c rest

unfoldable pub escape : String → String
escape s = escape_newlines (escape_chars s)

-- `Keys`.
unfoldable pub keys : KubeEnvMap → List String
keys m = sort_strings (map (λ p. p.0) m)

-- `k[key]`
abbrev pub value_of : KubeEnvMap → String → String
value_of m k = elim (lookup k m) [ none ↦ "" | some v ↦ v ]

-- The line of a key.
unfoldable pub export_line : KubeEnvMap → String → String
export_line m k = "export " ++ (trim_space k ++ ("=\"" ++ (escape (value_of m k) ++ "\"\n")))

-- The loop of `ToKubeEnv`: what was written before is the file so far; `fails` says of a write
-- whether it returns an error. The result is whether there is an error, and the file.
unfoldable pub write_lines : (String → Bool) → KubeEnvMap → List String → String → Bool × String
write_lines fails m [] file = (false, file)
write_lines fails m (k ∷ ks) file =
    let rest = write_lines fails m ks (file ++ export_line m k) in
    if fails file then (true, file) else rest

-- `ToKubeEnv`.
unfoldable pub to_kube_env : (String → Bool) → KubeEnvMap → String → Bool × String
to_kube_env fails m file = write_lines fails m (keys m) file

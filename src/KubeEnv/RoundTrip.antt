-- ===== src/KubeEnv/RoundTrip.antt =====
-- The file that `ToKubeEnv` of nodelet/pkg/utils/config/kubeenv.go writes, read line by line.
use Prim.Native.String.{◌++◌}
use Prim.Native.String.append
use Prim.Native.Char.{Char, code}
use text.Mathlib.TextLemmas.{append_assoc, append-nil}
use nodelet.Shared.{
  ℕ, zero, suc, ◌≤◌, ◌≡◌, refl, sym, ap, ◌∙◌, String, Bool, true, false, not, ◌&&◌, ◌||◌, leb,
  Option, none, some, List, [], ◌∷◌, map, length, eqb, if◌then◌else◌, arith,
}
use nodelet.Shared.Texts.{trim_space}
use nodelet.KubeEnv.{KubeEnvMap}
use nodelet.KubeEnv.Export.{escape, keys, value_of, export_line, write_lines, to_kube_env}
use nodelet.KubeEnv.Read.{read_quoted, seen, is_plain, seen-plain, quote, read-escape}

infixl 5 ◌>>=◌
abbrev ◌>>=◌ : {A B : Type 0} → Option A → (A → Option B) → Option B
none >>= f = none
some a >>= f = f a

-- The rest of a text behind a prefix.
unfoldable pub strip : String → String → Option String
strip String.[] t = some t
strip (String.◌∷◌ c p) String.[] = none
strip (String.◌∷◌ c p) (String.◌∷◌ d t) =
    let rest = strip p t in if eqb (code c) (code d) then rest else none

-- The name of a variable, up to "=", and what stands behind that.
unfoldable pub read_name : String → Option (String × String)
read_name String.[] = none
read_name (String.◌∷◌ c s) =
    let rest = read_name s in
    if eqb (code c) b'=' then some ("", s) else rest >>= λ p. some (String.◌∷◌ c p.0, p.1)

-- A name that a shell takes for a variable: a letter or "_", then letters, digits and "_".
abbrev is_between : ℕ → ℕ → Char → Bool
is_between low high c = leb low (code c) && leb (code c) high

abbrev is_name_start : Char → Bool
is_name_start c = is_between b'a' b'z' c || is_between b'A' b'Z' c || eqb (code c) b'_'

abbrev is_name_rest : String → Bool
is_name_rest String.[] = true
is_name_rest (String.◌∷◌ c s) = (is_name_start c || is_between b'0' b'9' c) && is_name_rest s

abbrev pub is_name : String → Bool
is_name String.[] = false
is_name (String.◌∷◌ c s) = is_name_start c && is_name_rest s

abbrev require : Bool → Option Bool
require true = some true
require false = none

-- One line: a variable's name, its value, and the rest of the file.
unfoldable pub read_line : String → Option ((String × String) × String)
read_line s = do
  s1 ← strip "export " s
  name ← read_name s1
  _ ← require (is_name name.0)
  s2 ← strip "\"" name.1
  value ← read_quoted false s2
  s3 ← strip "\n" value.1
  some ((name.0, value.0), s3)

-- A file of no more lines than the number says.
unfoldable pub read_env : ℕ → String → Option (List (String × String))
read_env n String.[] = some []
read_env zero (String.◌∷◌ c s) = none
read_env (suc n) (String.◌∷◌ c s) = do
  line ← read_line (String.◌∷◌ c s)
  rest ← read_env n line.1
  some (line.0 ∷ rest)

abbrev has_no_equals : String → Bool
has_no_equals String.[] = true
has_no_equals (String.◌∷◌ c s) = not (eqb (code c) b'=') && has_no_equals s

is_name_rest-no_equals : (s : String) → is_name_rest s ≡ true → has_no_equals s ≡ true
is_name_rest-no_equals String.[] h = refl
is_name_rest-no_equals (String.◌∷◌ c s) h =
    let rest = is_name_rest-no_equals s in ground (arith, rest)

is_name-no_equals : (s : String) → is_name s ≡ true → has_no_equals s ≡ true
is_name-no_equals String.[] h = refl
is_name-no_equals (String.◌∷◌ c s) h = let rest = is_name_rest-no_equals s in ground (arith, rest)

strip-append : (p t : String) → strip p (p ++ t) ≡ some t
unfolding strip
strip-append String.[] t = rw append.nil
strip-append (String.◌∷◌ c p) t = rw append.cons (ground (arith, strip-append p t))

abbrev equals : Char
equals = "="

abbrev line_end : Char
line_end = "\n"

read_name-append :
    (k t : String) → has_no_equals k ≡ true → read_name (k ++ String.◌∷◌ equals t) ≡ some (k, t)
unfolding read_name
read_name-append String.[] t h = rw append.nil
read_name-append (String.◌∷◌ c k) t h = rw append.cons (ground (arith, read_name-append k t))

equals-quote : (t : String) → "=\"" ++ t ≡ String.◌∷◌ equals (String.◌∷◌ quote t)
equals-quote t =
    (λ i. append.cons equals "\"" t i)
    ∙ ap (λ u. String.◌∷◌ equals u)
        ((λ i. append.cons quote "" t i) ∙ ap (λ u. String.◌∷◌ quote u) (λ i. append.nil t i))

quote-end : (t : String) → "\"\n" ++ t ≡ String.◌∷◌ quote (String.◌∷◌ line_end t)
quote-end t =
    (λ i. append.cons quote "\n" t i)
    ∙ ap (λ u. String.◌∷◌ quote u)
        ((λ i. append.cons line_end "" t i) ∙ ap (λ u. String.◌∷◌ line_end u) (λ i. append.nil t i))

-- A line and what stands behind it, by its parts.
line_parts :
    (m : KubeEnvMap) (k t : String)
    → export_line m k ++ t
      ≡ "export "
        ++ (trim_space k
            ++ String.◌∷◌ equals (
                String.◌∷◌ quote
                  (escape (value_of m k) ++ String.◌∷◌ quote (String.◌∷◌ line_end t))))
unfolding export_line
line_parts m k t =
    rw (append_assoc, append_assoc, append_assoc, append_assoc, quote-end t, equals-quote)

strip-quote : (t : String) → strip "\"" (String.◌∷◌ quote t) ≡ some t
unfolding strip
strip-quote t = refl

strip-line_end : (t : String) → strip "\n" (String.◌∷◌ line_end t) ≡ some t
unfolding strip
strip-line_end t = refl

-- A line of the file in front of others is read as its name and what a shell sees of its value.
read_line-export :
    (m : KubeEnvMap) (k t : String)
    → is_name (trim_space k) ≡ true
    → read_line (export_line m k ++ t) ≡ some ((trim_space k, seen (value_of m k)), t)
unfolding read_line
read_line-export m k t h = rw (
  line_parts m k t,
  strip-append "export ",
  read_name-append (trim_space k) _ (is_name-no_equals (trim_space k) h),
  h,
  strip-quote,
  read-escape (value_of m k) (String.◌∷◌ line_end t),
  strip-line_end,
)

-- The lines of some keys.
lines : KubeEnvMap → List String → String
lines m [] = ""
lines m (k ∷ ks) = export_line m k ++ lines m ks

-- Where no write fails, the file gets the lines one after the other.
write_lines-lines :
    (m : KubeEnvMap) (ks : List String) (file : String)
    → write_lines (λ _. false) m ks file ≡ (false, file ++ lines m ks)
unfolding write_lines lines
write_lines-lines m [] file = rw append-nil
write_lines-lines m (k ∷ ks) file =
    write_lines-lines m ks (file ++ export_line m k)
    ∙ ap (λ f. (false, f)) (append_assoc file (export_line m k) (lines m ks))

abbrev pub AreNames : List String → Type 0
AreNames [] = Unit
AreNames (k ∷ ks) = (is_name (trim_space k) ≡ true) × AreNames ks

abbrev pub as_seen : KubeEnvMap → String → String × String
as_seen m k = (trim_space k, seen (value_of m k))

read_line-empty : read_line "" ≡ none
unfolding read_line strip
read_line-empty = refl

-- A file with a line that can be read.
read_env-step :
    (s t : String) (n : ℕ) (p : String × String)
    → read_line s ≡ some (p, t)
    → read_env (suc n) s ≡ (read_env n t >>= λ rest. some (p ∷ rest))
unfolding read_env
read_env-step String.[] t n p h = absurd (no_line h)
  where
    no_line : read_line "" ≡ some (p, t) → ⊥
    no_line e = cc (sym read_line-empty ∙ e)
read_env-step (String.◌∷◌ c s) t n p h = rw h

read_env-line :
    (m : KubeEnvMap) (k t : String) (n : ℕ)
    → is_name (trim_space k) ≡ true
    → read_env (suc n) (export_line m k ++ t) ≡ (read_env n t >>= λ rest. some (as_seen m k ∷ rest))
read_env-line m k t n h =
    read_env-step (export_line m k ++ t) t n (as_seen m k) (read_line-export m k t h)

read_env-lines :
    (m : KubeEnvMap) (ks : List String) (n : ℕ)
    → AreNames ks
    → length ks ≤ n
    → read_env n (lines m ks) ≡ some (map (as_seen m) ks)
unfolding lines read_env
read_env-lines m [] n h le = refl
read_env-lines m (k ∷ ks) zero h le = absurd (omega arith)
read_env-lines m (k ∷ ks) (suc n) h le =
    read_env-line m k (lines m ks) n h.0 ∙ rw (read_env-lines m ks n h.1 (omega arith))

-- For a map whose keys, without the white space round them, are names of a shell's variables
-- (letters, digits and "_", no digit first), and where no write fails, `ToKubeEnv` returns no
-- error, and a reader that takes each line for an `export` of such a name, with double quotes and
-- backslashes by a shell's rules, finds the keys of the map in their order, each with its value as
-- a shell sees it, and nothing else: no value ends its quotes early or begins an expansion. The
-- value seen is the very value if that has no single quote and no end of a line.
pub to_kube_env-read :
    (m : KubeEnvMap)
    → AreNames (keys m)
    → (n : ℕ) → length (keys m) ≤ n
    → ((to_kube_env (λ _. false) m "").0 ≡ false)
      × (read_env n (to_kube_env (λ _. false) m "").1 ≡ some (map (as_seen m) (keys m)))
      × ((k : String) → is_plain (value_of m k) ≡ true → as_seen m k ≡ (trim_space k, value_of m k))
unfolding to_kube_env
to_kube_env-read m h n le =
    let written = write_lines-lines m (keys m) "" in
    (
      ap (λ p. p.0) written,
      ap (λ p. read_env n p.1) written
          ∙ ap (read_env n) (λ i. append.nil (lines m (keys m)) i)
          ∙ read_env-lines m (keys m) n h le,
      λ k plain. ap (λ v. (trim_space k, v)) (seen-plain (value_of m k) plain),
    )

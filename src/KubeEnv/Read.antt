-- ===== src/KubeEnv/Read.antt =====
-- A shell's reading of the file that `ToKubeEnv` of nodelet/pkg/utils/config/kubeenv.go writes.
use Prim.Native.String.{◌++◌}
use Prim.Native.String.append
use Prim.Native.Char.{Char, code}
use nodelet.Shared.{
  ◌≡◌, refl, String, Bool, true, false, not, ◌&&◌, ◌||◌, Option, none, some, eqb, if◌then◌else◌,
  Bool-cases, arith, inl, inr,
}
use nodelet.KubeEnv.Export.{backslash, letter_n, is_escaped, escape_chars, escape_newlines, escape}

-- A character in front of what is read.
abbrev keep : Char → Option (String × String) → Option (String × String)
keep c none = none
keep c (some (v, rest)) = some (String.◌∷◌ c v, rest)

-- The characters before which a backslash keeps its meaning between double quotes.
abbrev is_active : Char → Bool
is_active c = eqb (code c) b'"' || eqb (code c) b'`' || eqb (code c) 92 || eqb (code c) b'$'

-- A text behind an opening double quote, as a shell reads it: the value, and what stands behind the
-- closing quote; `none` where an expansion would begin, or no quote comes. The flag says that a
-- backslash stands before.
unfoldable pub read_quoted : Bool → String → Option (String × String)
read_quoted after String.[] = none
read_quoted true (String.◌∷◌ c s) =
    let rest = read_quoted false s in
    if is_active c
    then keep c rest
    else if eqb (code c) 10
    then rest
    else keep backslash (keep c rest)
read_quoted false (String.◌∷◌ c s) =
    let rest = read_quoted false s in
    let next = read_quoted true s in
    if eqb (code c) b'"'
    then some ("", s)
    else if eqb (code c) 92
    then next
    else if eqb (code c) b'`' || eqb (code c) b'$'
    then none
    else keep c rest

-- What a shell sees of a value: a single quote has a backslash before it, and a line's end has become
-- a backslash and the letter n.
unfoldable pub seen : String → String
seen String.[] = ""
seen (String.◌∷◌ c s) =
    let rest = seen s in
    if eqb (code c) 39
    then String.◌∷◌ backslash (String.◌∷◌ c rest)
    else if eqb (code c) 10
    then String.◌∷◌ backslash (String.◌∷◌ letter_n rest)
    else String.◌∷◌ c rest

-- No single quote and no line's end.
abbrev pub is_plain : String → Bool
is_plain String.[] = true
is_plain (String.◌∷◌ c s) = not (eqb (code c) 39) && not (eqb (code c) 10) && is_plain s

pub seen-plain : (s : String) → is_plain s ≡ true → seen s ≡ s
unfolding seen
seen-plain String.[] h = refl
seen-plain (String.◌∷◌ c s) h = ground (arith, seen-plain s)

-- Kinds of characters in the escaped text, in front of a text `t`.
read-active :
    (c : Char) (t : String)
    → is_active c ≡ true
    → read_quoted false (String.◌∷◌ backslash (String.◌∷◌ c t)) ≡ keep c (read_quoted false t)
unfolding read_quoted
read-active c t h = rw h

read-backslash :
    (c : Char) (t : String)
    → is_active c ≡ false
    → eqb (code c) 10 ≡ false
    → read_quoted false (String.◌∷◌ backslash (String.◌∷◌ c t))
      ≡ keep backslash (keep c (read_quoted false t))
unfolding read_quoted
read-backslash c t h g = rw (h, g)

read-other :
    (c : Char) (t : String)
    → is_active c ≡ false
    → read_quoted false (String.◌∷◌ c t) ≡ keep c (read_quoted false t)
unfolding read_quoted
read-other c t h = ground arith

-- The escaped text of a character and a text.
escape-special :
    (c : Char) (s : String)
    → is_escaped c ≡ true
    → escape (String.◌∷◌ c s) ≡ String.◌∷◌ backslash (String.◌∷◌ c (escape s))
unfolding escape escape_chars escape_newlines
escape-special c s h = ground arith

escape-newline :
    (c : Char) (s : String)
    → eqb (code c) 10 ≡ true
    → escape (String.◌∷◌ c s) ≡ String.◌∷◌ backslash (String.◌∷◌ letter_n (escape s))
unfolding escape escape_chars escape_newlines
escape-newline c s h = ground arith

escape-other :
    (c : Char) (s : String)
    → is_escaped c ≡ false
    → eqb (code c) 10 ≡ false
    → escape (String.◌∷◌ c s) ≡ String.◌∷◌ c (escape s)
unfolding escape escape_chars escape_newlines
escape-other c s h g = ground arith

seen-quote :
    (c : Char) (s : String)
    → eqb (code c) 39 ≡ true
    → seen (String.◌∷◌ c s) ≡ String.◌∷◌ backslash (String.◌∷◌ c (seen s))
unfolding seen
seen-quote c s h = rw h

seen-newline :
    (c : Char) (s : String)
    → eqb (code c) 39 ≡ false
    → eqb (code c) 10 ≡ true
    → seen (String.◌∷◌ c s) ≡ String.◌∷◌ backslash (String.◌∷◌ letter_n (seen s))
unfolding seen
seen-newline c s h g = rw (h, g)

seen-other :
    (c : Char) (s : String)
    → eqb (code c) 39 ≡ false
    → eqb (code c) 10 ≡ false
    → seen (String.◌∷◌ c s) ≡ String.◌∷◌ c (seen s)
unfolding seen
seen-other c s h g = rw (h, g)

abbrev pub quote : Char
quote = "\""

read-quote : (t : String) → read_quoted false (String.◌∷◌ quote t) ≡ some ("", t)
unfolding read_quoted
read-quote t = refl

escape-nil : escape "" ≡ ""
unfolding escape escape_chars escape_newlines
escape-nil = refl

seen-nil : seen "" ≡ ""
unfolding seen
seen-nil = refl

-- A value in the file is read up to the quote that closes it.
pub read-escape :
    (s t : String) → read_quoted false (escape s ++ String.◌∷◌ quote t) ≡ some (seen s, t)
read-escape String.[] t = rw (escape-nil, append.nil, read-quote t, seen-nil)
read-escape (String.◌∷◌ c s) t = elim (Bool-cases (is_active c)) [
  | inl active ↦ rw (
    escape-special c s (ground arith),
    append.cons,
    append.cons,
    read-active c _ active,
    read-escape s t,
    seen-other c s (ground arith) (ground arith),
  )
  | inr passive ↦ elim (Bool-cases (eqb (code c) 39)) [
    | inl single ↦ rw (
      escape-special c s (ground arith),
      append.cons,
      append.cons,
      read-backslash c _ passive (ground arith),
      read-escape s t,
      seen-quote c s single,
    )
    | inr other ↦ elim (Bool-cases (eqb (code c) 10)) [
      | inl newline ↦ rw (
        escape-newline c s newline,
        append.cons,
        append.cons,
        read-backslash letter_n _ refl refl,
        read-escape s t,
        seen-newline c s other newline,
      )
      | inr further ↦ rw (
        escape-other c s (ground arith) further,
        append.cons,
        read-other c _ passive,
        read-escape s t,
        seen-other c s other further,
      )
    ]
  ]
]

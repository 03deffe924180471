-- ===== src/Shared/Texts.antt =====
-- The functions of Go's package `strings` that the modelled code uses. A text is a list of characters.
use Prim.Native.Nat.{◌-◌}
use Prim.Native.String.{String, len, slice, compare}
use Prim.Native.Char.{Char, code}
use mathlib.Core.Bool.{Bool, true, false, ◌&&◌, ◌||◌}
use mathlib.Core.Option.{none, some}
use mathlib.Core.List.{List, [], ◌∷◌}
use text.Mathlib.Text.{find?, is_le}
use nodelet.Shared.Tests.{◌==◌, eqb, leb, if◌then◌else◌}

-- `strings.Contains` and `strings.HasSuffix`.
unfoldable pub contains : String → String → Bool
contains s t = elim (find? s t) [ none ↦ false | some _ ↦ true ]

unfoldable pub has_suffix : String → String → Bool
has_suffix s t = leb (len t) (len s) && (slice s (len s - len t) (len s) == t)

-- A character in front of the first line.
push_char : Char → List String → List String
push_char c [] = (String.◌∷◌ c String.[]) ∷ []
push_char c (line ∷ lines) = (String.◌∷◌ c line) ∷ lines

-- `strings.Split` at "\n".
unfoldable pub split_lines : String → List String
unfolding push_char
split_lines String.[] = "" ∷ []
split_lines (String.◌∷◌ c s) =
    let lines = split_lines s in if eqb (code c) 10 then "" ∷ lines else push_char c lines

-- `unicode.IsSpace`: Latin-1, then the other characters with the property White_Space.
abbrev is_space : Char → Bool
is_space c =
    (leb 9 (code c) && leb (code c) 13)
    || eqb (code c) 32
    || eqb (code c) 133
    || eqb (code c) 160
    || eqb (code c) 5760
    || (leb 8192 (code c) && leb (code c) 8202)
    || eqb (code c) 8232
    || eqb (code c) 8233
    || eqb (code c) 8239
    || eqb (code c) 8287
    || eqb (code c) 12288

-- A character in front of a text whose white space at the end is gone.
put_front : Char → String → String
put_front c String.[] = if is_space c then "" else String.◌∷◌ c String.[]
put_front c (String.◌∷◌ d s) = String.◌∷◌ c (String.◌∷◌ d s)

trim_right : String → String
unfolding put_front
trim_right String.[] = ""
trim_right (String.◌∷◌ c s) = put_front c (trim_right s)

trim_left : String → String
trim_left String.[] = ""
trim_left (String.◌∷◌ c s) = let rest = trim_left s in if is_space c then rest else String.◌∷◌ c s

-- `strings.TrimSpace`.
unfoldable pub trim_space : String → String
unfolding trim_left trim_right
trim_space s = trim_right (trim_left s)

-- A text in its place, by the order of the bytes: `sort.Strings`.
insert_sorted : String → List String → List String
insert_sorted k [] = k ∷ []
insert_sorted k (j ∷ ks) =
    let rest = insert_sorted k ks in if is_le (compare k j) then k ∷ j ∷ ks else j ∷ rest

unfoldable pub sort_strings : List String → List String
unfolding insert_sorted
sort_strings [] = []
sort_strings (k ∷ ks) = insert_sorted k (sort_strings ks)

-- ===== src/Shared/Lists.antt =====
-- Lists measured and indexed by native numbers, under the library's names.
use Prim.Native.Nat.{ℕ, zero, suc, ◌+◌, ◌<◌, ◌≤◌}
use mathlib.Core.Path.{◌≡◌, refl, ap, ◌∙◌}
use mathlib.Core.List.{
  List, [], ◌∷◌, ◌++◌, map, reverse, reverse-cons, reverse-reverse, append_assoc, map-append,
}
use mathlib.Core.Option.{Option, none, some}
use native.Mathlib.Omega.{arith}

module _ {ℓ} {A : Type ℓ} where
  abbrev pub length : List A → ℕ
  length [] = 0
  length (x ∷ xs) = suc (length xs)

  abbrev pub get_elem? : List A → ℕ → Option A
  get_elem? [] i = none
  get_elem? (x ∷ xs) zero = some x
  get_elem? (x ∷ xs) (suc i) = get_elem? xs i

  -- A write out of bounds changes nothing.
  abbrev pub set : List A → ℕ → A → List A
  set [] i v = []
  set (x ∷ xs) zero v = v ∷ xs
  set (x ∷ xs) (suc i) v = x ∷ set xs i v

  abbrev pub take : ℕ → List A → List A
  take zero xs = []
  take (suc n) [] = []
  take (suc n) (x ∷ xs) = x ∷ take n xs

  abbrev pub drop : ℕ → List A → List A
  drop zero xs = xs
  drop (suc n) [] = []
  drop (suc n) (x ∷ xs) = drop n xs

  pub length-append : (xs ys : List A) → length (xs ++ ys) ≡ length xs + length ys
  length-append [] ys = omega arith
  length-append (x ∷ xs) ys = omega (arith, length-append xs ys)

  pub length-take_le : (n : ℕ) (xs : List A) → n ≤ length xs → length (take n xs) ≡ n
  length-take_le zero xs h = refl
  length-take_le (suc n) [] h = omega arith
  length-take_le (suc n) (x ∷ xs) h = omega (arith, length-take_le n xs)

  pub take-length : (xs : List A) → take (length xs) xs ≡ xs
  take-length [] = refl
  take-length (x ∷ xs) = ap (λ ys. x ∷ ys) (take-length xs)

  -- Writing the element that is there changes nothing.
  pub set-get_elem? : (xs : List A) (i : ℕ) (v : A) → get_elem? xs i ≡ some v → set xs i v ≡ xs
  set-get_elem? [] i v h = refl
  set-get_elem? (x ∷ xs) zero v h = cc
  set-get_elem? (x ∷ xs) (suc i) v h = ap (λ ys. x ∷ ys) (set-get_elem? xs i v h)

pub get_elem?-map {ℓ κ} :
    {A : Type ℓ} {B : Type κ} (f : A → B) (xs : List A) (i : ℕ) (x : A)
    → get_elem? xs i ≡ some x
    → get_elem? (map f xs) i ≡ some (f x)
get_elem?-map f [] i x h = cc
get_elem?-map f (y ∷ ys) zero x h = cc
get_elem?-map f (y ∷ ys) (suc i) x h = get_elem?-map f ys i x h

pub length-map {ℓ κ} :
    {A : Type ℓ} {B : Type κ} (f : A → B) (xs : List A) → length (map f xs) ≡ length xs
length-map f [] = refl
length-map f (x ∷ xs) = ap suc (length-map f xs)

module _ {ℓ} {A : Type ℓ} where
  -- The elements pushed one by one on the front of a list: the last comes out first.
  abbrev pub push : List A → List A → List A
  push [] l = l
  push (x ∷ xs) l = push xs (x ∷ l)

  pub get_elem?-drop :
      (xs : List A) (i : ℕ) {x : A} {r : List A} → drop i xs ≡ x ∷ r → get_elem? xs i ≡ some x
  get_elem?-drop [] zero h = cc
  get_elem?-drop [] (suc i) h = cc
  get_elem?-drop (y ∷ ys) zero h = cc
  get_elem?-drop (y ∷ ys) (suc i) h = get_elem?-drop ys i h

  pub drop-suc :
      (xs : List A) (i : ℕ) {x : A} {r : List A} → drop i xs ≡ x ∷ r → drop (suc i) xs ≡ r
  drop-suc [] zero h = cc
  drop-suc [] (suc i) h = cc
  drop-suc (y ∷ ys) zero h = cc
  drop-suc (y ∷ ys) (suc i) h = drop-suc ys i h

  pub length-drop_eq : (xs : List A) (i : ℕ) → i ≤ length xs → i + length (drop i xs) ≡ length xs
  length-drop_eq xs zero h = omega arith
  length-drop_eq [] (suc i) h = omega arith
  length-drop_eq (x ∷ xs) (suc i) h = omega (arith, length-drop_eq xs i)

  pub lt-length_of_drop :
      (xs : List A) (i : ℕ) {x : A} {r : List A} → drop i xs ≡ x ∷ r → i < length xs
  lt-length_of_drop [] zero h = cc
  lt-length_of_drop [] (suc i) h = cc
  lt-length_of_drop (y ∷ ys) zero h = omega arith
  lt-length_of_drop (y ∷ ys) (suc i) h = omega (arith, lt-length_of_drop ys i h)

  pub get_elem?-lt : (xs : List A) (i : ℕ) → i < length xs → (x : A) × (get_elem? xs i ≡ some x)
  get_elem?-lt [] i h = absurd (omega arith)
  get_elem?-lt (x ∷ xs) zero h = (x, refl)
  get_elem?-lt (x ∷ xs) (suc i) h = get_elem?-lt xs i (omega arith)

pub drop-map {ℓ κ} :
    {A : Type ℓ} {B : Type κ} (f : A → B) (i : ℕ) (xs : List A)
    → drop i (map f xs) ≡ map f (drop i xs)
drop-map f zero xs = refl
drop-map f (suc i) [] = refl
drop-map f (suc i) (x ∷ xs) = drop-map f i xs

module _ {ℓ} {A : Type ℓ} where
  pub push-eq : (xs l : List A) → push xs l ≡ reverse xs ++ l
  push-eq [] l = refl
  push-eq (x ∷ xs) l = push-eq xs (x ∷ l) ∙ simp (reverse-cons, append_assoc)

  pub push-reverse : (xs l : List A) → push (reverse xs) l ≡ xs ++ l
  push-reverse xs l = push-eq (reverse xs) l ∙ ap (λ ys. ys ++ l) (reverse-reverse xs)

pub map-reverse {ℓ κ} :
    {A : Type ℓ} {B : Type κ} (f : A → B) (xs : List A) → map f (reverse xs) ≡ reverse (map f xs)
map-reverse f [] = refl
map-reverse f (x ∷ xs) = simp (reverse-cons, map-append, map-reverse f xs)

-- ===== src/Deployer/Packed.antt =====
-- The choice of the package in nodeletctl/pkg/nodeletctl/deployer.go, and its installation.
use Prim.Native.String.{◌++◌ as ◌+s◌}
use nodelet.Shared.{
  ◌≡◌, ◌⊎◌, ◌↔◌, inl, inr, refl, ap, ◌∙◌, String, Bool, true, false, List, [], ◌∷◌, ◌++◌, ◌==◌,
  if◌then◌else◌, Bool-cases, arith, eq_iff,
}
use nodelet.Shared.Texts.{has_suffix, split_lines, trim_space}
use nodelet.Deployer.State.{run, Log, Remote, ok, act, act-ok, continue-ok}
use nodelet.Deployer.Files.{NodeletDeployer, os_type_centos, os_type_ubuntu}
use nodelet.Deployer.Packages.{is_for, first_package, found, determine_nodelet_pkg_name}

-- No line is a package for the system.
abbrev pub NoneIs : String → List String → Type 0
NoneIs os [] = Unit
NoneIs os (line ∷ lines) = (is_for os (trim_space line) ≡ false) × NoneIs os lines

-- The first line that is a package for the system, without the white space round it.
abbrev pub Chosen : String → List String → String → Type 0
Chosen os lines name =
    (before : List String) × (line : String) × (after : List String) × (lines
      ≡ before ++ line ∷ after)
    × NoneIs os before
    × (name ≡ trim_space line)
    × (is_for os name ≡ true)

is_for-empty : (os : String) → is_for os "" ≡ false
unfolding is_for has_suffix
is_for-empty os = ground (arith, eq_iff os os_type_centos, eq_iff os os_type_ubuntu)

Chosen-cons :
    (os line : String) (lines : List String) (name : String)
    → is_for os (trim_space line) ≡ false
    → Chosen os lines name
    → Chosen os (line ∷ lines) name
Chosen-cons os line lines name h (before, x, after, e, none_is, n, good) =
    (line ∷ before, x, after, ap (λ ys. line ∷ ys) e, (h, none_is), n, good)

-- A result of the loop: a package, or none.
abbrev Found : String → List String → String → Type 0
Found os lines name = ((name ≡ "") × NoneIs os lines) ⊎ Chosen os lines name

Found-cons :
    (os line : String) (lines : List String) (name : String) (good : Bool)
    → is_for os (trim_space line) ≡ good
    → Found os lines name
    → Found os (line ∷ lines) (if good then trim_space line else name)
Found-cons os line lines name true e f = inr ([], line, lines, refl, tt, refl, e)
Found-cons os line lines name false e (inl (h, none_is)) = inl (h, (e, none_is))
Found-cons os line lines name false e (inr chosen) = inr (Chosen-cons os line lines name e chosen)

first_package-Found : (os : String) (lines : List String) → Found os lines (first_package os lines)
unfolding first_package
first_package-Found os [] = inl (refl, tt)
first_package-Found os (line ∷ lines) =
    Found-cons os line lines (first_package os lines) _ refl (first_package-Found os lines)

first_package-append :
    (os : String) (before : List String) (line : String) (after : List String)
    → NoneIs os before
    → is_for os (trim_space line) ≡ true
    → first_package os (before ++ line ∷ after) ≡ trim_space line
unfolding first_package
first_package-append os [] line after h good = rw good
first_package-append os (x ∷ before) line after h good =
    rw h.0 (first_package-append os before line after h.1 good)

first_package-Chosen :
    (os : String) (lines : List String) (name : String)
    → Chosen os lines name
    → first_package os lines ≡ name
first_package-Chosen os lines name (before, line, after, e, none_is, n, good) =
    rw (e, n) (first_package-append os before line after none_is (rw (← n) good))

-- A name that is for the system is no empty text.
ne-empty : (os name : String) → is_for os name ≡ true → (name == "") ≡ false
ne-empty os name h = elim (Bool-cases (name == "")) [
  | inl e ↦ absurd (no_package ((eq_iff name "").0 e))
  | inr e ↦ e
]
  where
    no_package : name ≡ "" → ⊥
    no_package e = cc (is_for-empty os, h, ap (is_for os) e)

-- What is found is no empty text, so it is returned exactly when it is the package.
found-to :
    (os : String) (lines : List String) (got name : String) (l : Log)
    → Found os lines got
    → found got l ≡ ok name l
    → Chosen os lines name
unfolding found
found-to os lines got name l (inl (e, _)) h = absurd (ground (arith, eq_iff got ""))
found-to os lines got name l (inr chosen) h =
    let same : got ≡ name = ground (arith, eq_iff got "") in rw (← same) chosen

found-from :
    (os : String) (lines : List String) (name : String) (l : Log)
    → Chosen os lines name
    → found (first_package os lines) l ≡ ok name l
unfolding found
found-from os lines name l chosen =
    rw (first_package-Chosen os lines name chosen, ne-empty os name (is_for_of_Chosen chosen))
  where
    is_for_of_Chosen : Chosen os lines name → is_for os name ≡ true
    is_for_of_Chosen (before, line, after, e, none_is, n, good) = good

-- Where `ls` succeeds, `DetermineNodeletPkgName` returns a name exactly when this is, without the
-- white space round it, the first line that `ls` lists with the suffix of the system.
pub determine_nodelet_pkg_name_iff :
    (r : Remote) (d : NodeletDeployer) (dir : String) (l : Log)
    → r.fails l (run ("ls " +s dir)) ≡ false
    → (name : String)
    → (determine_nodelet_pkg_name r d dir l ≡ ok name ((run ("ls " +s dir), true) ∷ l))
      ↔ Chosen d.os_type (split_lines (r.output l ("ls " +s dir))) name
unfolding determine_nodelet_pkg_name
determine_nodelet_pkg_name_iff r d dir l h name = rw h (
  found-to _ _ _ name _ (first_package-Found d.os_type (split_lines (r.output l ("ls " +s dir)))),
  found-from d.os_type (split_lines (r.output l ("ls " +s dir))) name _,
)

found-ok :
    (os : String) (lines : List String) (got : String) (l : Log) {name : String} {l' : Log}
    → Found os lines got
    → found got l ≡ ok name l'
    → (l' ≡ l) × Chosen os lines name
unfolding found
found-ok os lines got l (inl (e, _)) h = absurd (ground (arith, eq_iff got ""))
found-ok os lines got l {name} {l'} (inr chosen) h =
    let same : (got ≡ name) × (l' ≡ l) = ground (arith, eq_iff got "") in
    (same.1, rw (← same.0) chosen)

-- A name that is returned is that of the first package for the system.
pub determine_nodelet_pkg_name-ok :
    (r : Remote) (d : NodeletDeployer) (dir : String) (l : Log) {name : String} {l' : Log}
    → determine_nodelet_pkg_name r d dir l ≡ ok name l'
    → (l' ≡ (run ("ls " +s dir), true) ∷ l)
      × Chosen d.os_type (split_lines (r.output l ("ls " +s dir))) name
unfolding determine_nodelet_pkg_name
determine_nodelet_pkg_name-ok r d dir l h =
    let lines = split_lines (r.output l ("ls " +s dir)) in
    let (_, l1, first, rest) =
      continue-ok (act r (run ("ls " +s dir)) l) (λ _. found (first_package d.os_type lines)) h in
    let (e, chosen) =
      found-ok d.os_type lines (first_package d.os_type lines) l1
        (first_package-Found d.os_type lines) rest in
    (e ∙ act-ok r (run ("ls " +s dir)) l first, chosen)

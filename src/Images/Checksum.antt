-- ===== src/Images/Checksum.antt =====
-- What the checksums of nodelet/pkg/utils/fileio/fileio.go are to the load of the images.
use mathlib.Core.Path.{subst}
use Prim.Native.String.{◌++◌ as ◌++s◌}
use nodelet.Shared.{
  ◌≡◌, refl, sym, ap, ◌∙◌, String, Bool, true, false, ◌&&◌, List, [], ◌∷◌, Option, none, some, ◌⊎◌,
  inl, inr, ◌==◌, if◌then◌else◌, eq_iff, arith,
}
use nodelet.Images.{
  Item, Images, Disk, constant_images_dir, string_slices_equal, generate_hash_for_dir,
  no_checksum_dir, made_dir, make_missing, write_to_file, then_do, generated, generate_checksum,
  verify_checksum, compared, read_back, verified, took, load_items, listed, load_images_from_dir,
  fail, succeed, load_all, unless_verified, with_checksum, images_start_with, images_start,
}

-- Files without faults, whose lines are read as they were written.
pub record IsSound (d : Disk) : Type 0 where
  pub makes : (path : String) (a : Images) → d.mkdir_error path a ≡ none
  pub stats : (a : Images) → d.stat_error a ≡ none
  pub reads : (a : Images) → d.read_error a ≡ none
  pub writes : (a : Images) → d.write_error a ≡ none
  pub rereads : (lines : List String) → d.reread lines ≡ lines

-- The directories are there, and the file of the checksums has the present hashes.
pub record IsSettled (dir : String) (lines : List String) (a : Images) : Type 0 where
  pub in_place : a.present dir ≡ true
  pub constant_in_place : a.present constant_images_dir ≡ true
  pub hashes : generate_hash_for_dir dir a ≡ inr lines
  pub noted : a.checksum ≡ some lines

both : (b c : Bool) → (b && c) ≡ true → (b ≡ true) × (c ≡ true)
both b c e = ground (e, arith)

if-true : (b o : Bool) → o ≡ true → (if b then true else o) ≡ true
if-true true o e = refl
if-true false o e = e

-- Two lists of lines are equal to the code exactly when they are the same.
pub string_slices_equal-same : (a b : List String) → string_slices_equal a b ≡ true → a ≡ b
unfolding string_slices_equal
string_slices_equal-same [] [] e = refl
string_slices_equal-same [] (t ∷ b) e = ground (e, arith)
string_slices_equal-same (s ∷ a) [] e = ground (e, arith)
string_slices_equal-same (s ∷ a) (t ∷ b) e =
    let (p, q) = both (s == t) (string_slices_equal a b) e in
    ap (λ h. h ∷ a) ((eq_iff s t).0 p) ∙ ap (λ l. t ∷ l) (string_slices_equal-same a b q)

pub string_slices_equal_refl : (a : List String) → string_slices_equal a a ≡ true
unfolding string_slices_equal
string_slices_equal_refl [] = refl
string_slices_equal_refl (s ∷ a) =
    let ih = string_slices_equal_refl a in ground (arith, ih, eq_iff s s)

module _ (d : Disk) (dir : String) (lines : List String) where
  took-IsSettled :
      (file : String) (a : Images) (err : Option String) (next : Images → Images × Option String)
      → IsSettled dir lines a
      → ((b : Images) → IsSettled dir lines b → IsSettled dir lines (next b).0)
      → IsSettled dir lines (took d dir file a err next).0
  unfolding generate_hash_for_dir
  took-IsSettled file a (some err) next l k = l
  took-IsSettled file a none next l k =
      k (record a { loaded = file ∷ a.loaded })
        (record {
          in_place = l.in_place;
          constant_in_place = l.constant_in_place;
          hashes = l.hashes;
          noted = l.noted;
        })

  if-IsSettled :
      (b : Bool) (r q : Images × Option String)
      → IsSettled dir lines r.0
      → IsSettled dir lines q.0
      → IsSettled dir lines (if b then r else q).0
  if-IsSettled true r q l m = l
  if-IsSettled false r q l m = m

  load_items-IsSettled :
      (items : List Item) (a : Images)
      → IsSettled dir lines a
      → IsSettled dir lines (load_items d dir items a).0
  unfolding load_items
  load_items-IsSettled [] a l = l
  load_items-IsSettled (item ∷ items) a l =
      if-IsSettled item.is_dir (load_items d dir items a) _ (load_items-IsSettled items a l)
        (took-IsSettled _ a _ (load_items d dir items) l (load_items-IsSettled items))

  listed-IsSettled :
      (found : String ⊎ List Item) (a : Images)
      → IsSettled dir lines a
      → IsSettled dir lines (listed d dir found a).0
  unfolding listed
  listed-IsSettled (inl err) a l = l
  listed-IsSettled (inr items) a l = load_items-IsSettled items a l

  ended :
      (r : Images × Option String)
      → IsSettled dir lines r.0
      → IsSettled dir lines (then_do fail r succeed).0
  unfolding generate_hash_for_dir
  ended (a, none) l = record {
    in_place = l.in_place;
    constant_in_place = l.constant_in_place;
    hashes = l.hashes;
    noted = l.noted;
  }
  ended (a, some err) l = record {
    in_place = l.in_place;
    constant_in_place = l.constant_in_place;
    hashes = l.hashes;
    noted = l.noted;
  }

  load_all-IsSettled :
      (a : Images) → IsSettled dir lines a → IsSettled dir lines (load_all d dir a).0
  unfolding load_all load_images_from_dir
  load_all-IsSettled a l = ended (listed d dir a.entries a) (listed-IsSettled a.entries a l)

  unless_verified-IsSettled :
      (r : Images × (String ⊎ Bool))
      → IsSettled dir lines r.0
      → IsSettled dir lines (unless_verified d dir r).0
  unfolding unless_verified generate_hash_for_dir
  unless_verified-IsSettled (a, inl err) l = ended (a, some err) l
  unless_verified-IsSettled (a, inr true) l = ended (a, none) l
  unless_verified-IsSettled (a, inr false) l = load_all-IsSettled a l

  module _ (sound : IsSound d) where
    written_lem :
        (a : Images) → write_to_file d dir lines a ≡ (record a { checksum = some lines }, none)
    unfolding write_to_file
    written_lem a = rw (sound.writes a) refl

    compared-IsSettled :
        (a : Images) (old : List String) (same : Bool)
        → a.present dir ≡ true
        → a.present constant_images_dir ≡ true
        → generate_hash_for_dir dir a ≡ inr lines
        → a.checksum ≡ some old
        → string_slices_equal lines old ≡ same
        → IsSettled dir lines (compared d dir lines old a).0
    unfolding compared generate_hash_for_dir
    compared-IsSettled a old true p q r n e = rw e (record {
      in_place = p;
      constant_in_place = q;
      hashes = r;
      noted = n ∙ ap some (sym (string_slices_equal-same lines old e));
    })
    compared-IsSettled a old false p q r n e =
        rw (e, written_lem a)
          (record { in_place = p; constant_in_place = q; hashes = r; noted = refl })

    verify_checksum-IsSettled :
        (a : Images) (old : List String)
        → a.present dir ≡ true
        → a.present constant_images_dir ≡ true
        → generate_hash_for_dir dir a ≡ inr lines
        → a.checksum ≡ some old
        → IsSettled dir lines (verify_checksum d dir a).0
    unfolding verify_checksum verified read_back
    verify_checksum-IsSettled a old p q r n =
        subst (λ found. IsSettled dir lines (verified d dir found a).0) (sym r)
          (subst (λ err. IsSettled dir lines (read_back d dir lines a err a.checksum).0)
            (sym (sound.reads a))
            (subst (λ found. IsSettled dir lines (read_back d dir lines a none found).0) (sym n)
              (subst (λ l. IsSettled dir lines (compared d dir lines l a).0)
                (sym (sound.rereads old))
                (compared-IsSettled a old (string_slices_equal lines old) p q r n refl))))

    -- The directory of the checksums is made where it is missing.
    made_dir-IsSettled :
        (path : String) (a : Images) (on_error : Images → String → Images × Option String)
        (there : Bool)
        → a.present dir ≡ true
        → a.present constant_images_dir ≡ true
        → generate_hash_for_dir dir a ≡ inr lines
        → IsSettled dir lines
            (then_do on_error
              (if there then (a, none) else made_dir d dir path a (d.mkdir_error path a))
              (write_to_file d dir lines)).0
    unfolding generate_hash_for_dir
    made_dir-IsSettled path a on_error true p q r =
        rw (written_lem a)
          (record { in_place = p; constant_in_place = q; hashes = r; noted = refl })
    made_dir-IsSettled path a on_error false p q r =
        rw
          (
            sound.makes path a,
            written_lem (record a { present = λ t. if path == t then true else a.present t }),
          )
          (record {
            in_place = if-true (path == dir) (a.present dir) p;
            constant_in_place =
                if-true (path == constant_images_dir) (a.present constant_images_dir) q;
            hashes = r;
            noted = refl;
          })

    generate_checksum-IsSettled :
        (a : Images)
        → a.present dir ≡ true
        → a.present constant_images_dir ≡ true
        → generate_hash_for_dir dir a ≡ inr lines
        → IsSettled dir lines (generate_checksum d dir a).0
    unfolding generate_checksum generated make_missing
    generate_checksum-IsSettled a p q r =
        subst (λ found. IsSettled dir lines (generated d dir found a).0) (sym r)
          (made_dir-IsSettled (dir ++s "/checksum") a (no_checksum_dir d dir)
            (a.present (dir ++s "/checksum")) p q r)

    loaded-IsSettled :
        (r : Images × Option String)
        → IsSettled dir lines r.0
        → IsSettled dir lines (then_do fail r (load_all d dir)).0
    unfolding generate_hash_for_dir
    loaded-IsSettled (a, none) l = load_all-IsSettled a l
    loaded-IsSettled (a, some err) l = ended (a, some err) l

    with_checksum-IsSettled :
        (a : Images) (found : Option (List String))
        → a.present dir ≡ true
        → a.present constant_images_dir ≡ true
        → generate_hash_for_dir dir a ≡ inr lines
        → a.checksum ≡ found
        → IsSettled dir lines (with_checksum d dir a none found).0
    unfolding with_checksum
    with_checksum-IsSettled a none p q r n =
        loaded-IsSettled (generate_checksum d dir a) (generate_checksum-IsSettled a p q r)
    with_checksum-IsSettled a (some old) p q r n =
        unless_verified-IsSettled (verify_checksum d dir a)
          (verify_checksum-IsSettled a old p q r n)

    -- A `Start` leaves a settled state.
    images_start-IsSettled :
        (a : Images)
        → a.present dir ≡ true
        → a.present constant_images_dir ≡ true
        → generate_hash_for_dir dir a ≡ inr lines
        → IsSettled dir lines (images_start d dir a).0
    unfolding images_start images_start_with make_missing
    images_start-IsSettled a p q r =
        rw (q, p)
          (subst (λ err. IsSettled dir lines (with_checksum d dir a err a.checksum).0)
            (sym (sound.stats a)) (with_checksum-IsSettled a a.checksum p q r refl))

    verify_checksum-settled :
        (a : Images) → IsSettled dir lines a → verify_checksum d dir a ≡ (a, inr true)
    unfolding verify_checksum verified read_back compared
    verify_checksum-settled a l =
        ap (λ found. verified d dir found a) l.hashes
        ∙ ap (λ err. read_back d dir lines a err a.checksum) (sound.reads a)
        ∙ ap (λ found. read_back d dir lines a none found) l.noted
        ∙ ap (λ old. compared d dir lines old a) (sound.rereads lines)
        ∙ rw (string_slices_equal_refl lines) refl

    -- On a settled state `Start` finds that the hashes are those of the file.
    images_start-settled : (a : Images) → IsSettled dir lines a → images_start d dir a ≡ succeed a
    unfolding images_start make_missing images_start_with with_checksum unless_verified
    images_start-settled a l =
        rw (l.constant_in_place, l.in_place)
          (ap (λ err. with_checksum d dir a err a.checksum) (sound.stats a)
            ∙ ap (with_checksum d dir a none) l.noted
            ∙ ap (unless_verified d dir) (verify_checksum-settled a l))

-- With files that have no faults, a `Start` that finds its directories and hashes the files is the
-- last that loads any image, whether or not it loaded them all: the next one takes the images for
-- loaded, loads nothing and reports the running state.
pub images_start-forgets :
    (d : Disk) (dir : String) (lines : List String) (a : Images)
    → IsSound d
    → a.present dir ≡ true
    → a.present constant_images_dir ≡ true
    → generate_hash_for_dir dir a ≡ inr lines
    → images_start d dir (images_start d dir a).0 ≡ succeed (images_start d dir a).0
images_start-forgets d dir lines a sound p q r =
    images_start-settled d dir lines sound (images_start d dir a).0
      (images_start-IsSettled d dir lines sound a p q r)

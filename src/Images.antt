-- ===== src/Images.antt =====
-- The images that a user gives to a host: nodelet/pkg/phases/container_runtime/load_images.go, with
-- the checksums of nodelet/pkg/utils/fileio/fileio.go and LoadImagesFromDir of
-- nodelet/pkg/utils/container_runtime/image_utils.go. Hashes, containerd and the faults of files are
-- parameters.
pub mod Checksum
use Prim.Native.String.{◌++◌}
use nodelet.Shared.{
  String, Bool, true, false, not, ◌&&◌, List, [], ◌∷◌, Option, none, some, ◌⊎◌, inl, inr, ◌==◌,
  if◌then◌else◌, ◌++◌ as ◌++l◌,
}
use nodelet.Config.{running_state, failed_state, stopped_state}
use nodelet.Kubernetes.{wrap}

-- `constants.UserImagesDir`.
abbrev pub constant_images_dir : String
constant_images_dir = "/var/opt/pf9/images"

-- An entry of the directory: the hash of a file in hexadecimal digits, or the error of its read.
pub record Item : Type 0 where
  pub name : String
  pub is_dir : Bool
  pub hash : String ⊎ String

-- The phase's status and message, and what is around it.
pub record Images : Type 0 where
  pub status : String
  pub message : String
  -- whether a directory is there
  pub present : String → Bool
  -- `ioutil.ReadDir` of the directory of the configuration
  pub entries : String ⊎ List Item
  -- the lines written to the file of the checksums, where it is there
  pub checksum : Option (List String)
  -- the files loaded so far, the newest first
  pub loaded : List String

-- How the calls end, by the state in which they are made; an error is its text.
pub record Disk : Type 0 where
  pub mkdir_error : String → Images → Option String
  -- an error of `os.Stat` for the file of the checksums that is not its absence
  pub stat_error : Images → Option String
  pub read_error : Images → Option String
  pub write_error : Images → Option String
  -- what a failed write leaves of the file
  pub spoiled : List String → Images → Option (List String)
  -- the lines that a scan finds in a file of lines
  pub reread : List String → List String
  -- `LoadImagesFromFile`
  pub load_error : String → Images → Option String

-- `stringSlicesEqual`.
unfoldable pub string_slices_equal : List String → List String → Bool
string_slices_equal [] [] = true
string_slices_equal [] (s ∷ b) = false
string_slices_equal (s ∷ a) [] = false
string_slices_equal (s ∷ a) (t ∷ b) = let rest = string_slices_equal a b in (s == t) && rest

-- `GenerateHashForFile`, and the loop of `GenerateHashForDir`.
abbrev hashed : String → String ⊎ String → (String ⊎ List String) → String ⊎ List String
hashed file (inl err) rest = inl err
hashed file (inr hash) (inl err) = inl err
hashed file (inr hash) (inr lines) = inr ((hash ++ "  " ++ file) ∷ lines)

unfoldable pub hash_items : String → List Item → String ⊎ List String
hash_items dir [] = inr []
hash_items dir (item ∷ items) =
    let rest = hash_items dir items in
    if item.is_dir then rest else hashed (dir ++ "/" ++ item.name) item.hash rest

-- `GenerateHashForDir`, which takes a directory that cannot be read as an empty one.
abbrev items_of : String ⊎ List Item → List Item
items_of (inl err) = []
items_of (inr items) = items

unfoldable pub generate_hash_for_dir : String → Images → String ⊎ List String
generate_hash_for_dir dir a = hash_items dir (items_of a.entries)

-- A call, whose error ends the operation.
abbrev pub then_do :
    {A : Type 0} → (Images → String → A) → Images × Option String → (Images → A) → A
then_do on_error (a, none) next = next a
then_do on_error (a, some err) next = on_error a err

-- The ends of the operations, with `SetHostStatus`.
abbrev pub fail : Images → String → Images × Option String
fail a err = (record a { status = failed_state; message = err }, some err)

abbrev pub succeed : Images → Images × Option String
succeed a = (record a { status = running_state; message = "" }, none)

module _ (d : Disk) (dir : String) where
  -- `WriteToFile` of lines to the file of the checksums.
  abbrev written : List String → Images → Option String → Images × Option String
  written lines a none = (record a { checksum = some lines }, none)
  written lines a (some err) = (record a { checksum = d.spoiled lines a }, some err)

  unfoldable pub write_to_file : List String → Images → Images × Option String
  write_to_file lines a = written lines a (d.write_error a)

  -- `os.MkdirAll`. The entries leave out the directory of the checksums, which the code passes over
  -- as it does every directory.
  abbrev made_dir : String → Images → Option String → Images × Option String
  made_dir path a (some err) = (a, some err)
  made_dir path a none = (record a { present = λ p. if path == p then true else a.present p }, none)

  -- `os.Stat`, and `os.MkdirAll` where the directory is missing.
  unfoldable pub make_missing : String → Images → Images × Option String
  make_missing path a = if a.present path then (a, none) else made_dir path a (d.mkdir_error path a)

  -- `GenerateChecksum`.
  abbrev pub no_checksum_dir : Images → String → Images × Option String
  no_checksum_dir a err =
      (a, wrap (some err) ("failed to create directory: " ++ dir ++ "/checksum"))

  unfoldable pub generated : String ⊎ List String → Images → Images × Option String
  generated (inl err) a = (a, wrap (some err) ("could not generate hash for: " ++ dir))
  generated (inr lines) a =
      then_do no_checksum_dir (make_missing (dir ++ "/checksum") a) (write_to_file lines)

  unfoldable pub generate_checksum : Images → Images × Option String
  unfolding generated
  generate_checksum a = generated (generate_hash_for_dir dir a) a

  -- `VerifyChecksum`: the answer, or an error. It writes the new lines where they differ.
  abbrev verdict : Images × Option String → Images × (String ⊎ Bool)
  verdict (a, none) = (a, inr false)
  verdict (a, some err) = (a, inl err)

  compared : List String → List String → Images → Images × (String ⊎ Bool)
  compared current previous a =
      if string_slices_equal current previous
      then (a, inr true)
      else verdict (write_to_file current a)

  -- `ReadFileByLine` of the checksums.
  read_back : List String → Images → Option String → Option (List String) → Images × (String ⊎ Bool)
  unfolding compared
  read_back current a (some err) found = (a, inl err)
  read_back current a none none = (a, inl "no such file or directory")
  read_back current a none (some lines) = compared current (d.reread lines) a

  verified : String ⊎ List String → Images → Images × (String ⊎ Bool)
  unfolding read_back
  verified (inl err) a = (a, inl ("could not generate hash for: " ++ dir ++ ": " ++ err))
  verified (inr current) a = read_back current a (d.read_error a) a.checksum

  unfoldable pub verify_checksum : Images → Images × (String ⊎ Bool)
  unfolding verified
  verify_checksum a = verified (generate_hash_for_dir dir a) a

  -- The loop of `LoadImagesFromDir`.
  abbrev took :
      String → Images → Option String → (Images → Images × Option String) → Images × Option String
  took file a (some err) next = (a, wrap (some err) ("could not load images from : " ++ file))
  took file a none next = next (record a { loaded = file ∷ a.loaded })

  unfoldable pub load_items : List Item → Images → Images × Option String
  load_items [] a = (a, none)
  load_items (item ∷ items) a =
      let file = dir ++ "/" ++ item.name in
      let following = took file a (d.load_error file a) (load_items items) in
      if item.is_dir then load_items items a else following

  unfoldable pub listed : String ⊎ List Item → Images → Images × Option String
  listed (inl err) a = (a, wrap (some err) ("could not read dir: " ++ dir))
  listed (inr items) a = load_items items a

  unfoldable pub load_images_from_dir : Images → Images × Option String
  unfolding listed
  load_images_from_dir a = listed a.entries a

  -- The load of all images, at the end.
  unfoldable pub load_all : Images → Images × Option String
  load_all a = then_do fail (load_images_from_dir a) succeed

  unless_verified : Images × (String ⊎ Bool) → Images × Option String
  unless_verified (a, inl err) = fail a err
  unless_verified (a, inr true) = succeed a
  unless_verified (a, inr false) = load_all a

  -- `LoadImagePhase`: `Status`, `Start` and `Stop`, where `dir` is the configuration's `UserImagesDir`.
  unfoldable pub images_status : Images → Images × Option String
  unfolding unless_verified
  images_status a = if a.present dir then unless_verified (verify_checksum a) else succeed a

  unfoldable pub with_checksum :
      Images → Option String → Option (List String) → Images × Option String
  unfolding unless_verified
  with_checksum a (some err) found = fail a err
  with_checksum a none (some lines) = unless_verified (verify_checksum a)
  with_checksum a none none = then_do fail (generate_checksum a) load_all

  unfoldable pub images_start_with : Images → Images × Option String
  unfolding with_checksum
  images_start_with a =
      if a.present dir then with_checksum a (d.stat_error a) a.checksum else succeed a

  unfoldable pub images_start : Images → Images × Option String
  images_start a = then_do fail (make_missing constant_images_dir a) images_start_with

  unfoldable pub images_stop : Images → Images × Option String
  images_stop a = (record a { status = stopped_state; message = "" }, none)

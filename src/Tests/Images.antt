-- ===== src/Tests/Images.antt =====
-- The load of images at concrete inputs: one file that containerd does not take.
use nodelet.Shared.{◌≡◌, refl, true, false, [], ◌∷◌, none, some, inr}
use nodelet.Images.{
  Images, Disk, generate_hash_for_dir, hash_items, images_start, images_start_with, make_missing,
  succeed, with_checksum, generate_checksum, generated, write_to_file, load_all,
  load_images_from_dir, listed, load_items,
}
use nodelet.Kubernetes.{wrap}
use nodelet.Images.Checksum.{IsSound, images_start-forgets}

abbrev disk : Disk
disk = record {
  mkdir_error = λ path a. none;
  stat_error = λ a. none;
  read_error = λ a. none;
  write_error = λ a. none;
  spoiled = λ lines a. none;
  reread = λ lines. lines;
  load_error = λ file a. some "unexpected EOF";
}

disk-IsSound : IsSound disk
disk-IsSound = record {
  makes = λ path a. refl;
  stats = λ a. refl;
  reads = λ a. refl;
  writes = λ a. refl;
  rereads = λ lines. refl;
}

abbrev images : Images
images = record {
  status = "";
  message = "";
  present = λ path. true;
  entries = inr ((record { name = "calico.tar"; is_dir = false; hash = inr "e3b0" }) ∷ []);
  checksum = none;
  loaded = [];
}

images_start-forgets_example :
    images_start disk "/images" (images_start disk "/images" images).0
    ≡ succeed (images_start disk "/images" images).0
unfolding generate_hash_for_dir hash_items
images_start-forgets_example =
    images_start-forgets disk "/images" ("e3b0  /images/calico.tar" ∷ []) images disk-IsSound refl
      refl refl

-- The first `Start` ends with the error of the load.
first_start :
    (images_start disk "/images" images).1
    ≡ some "could not load images from : /images/calico.tar: unexpected EOF"
unfolding images_start make_missing images_start_with with_checksum generate_checksum generated
    generate_hash_for_dir hash_items write_to_file load_all load_images_from_dir listed load_items
    wrap
first_start = refl

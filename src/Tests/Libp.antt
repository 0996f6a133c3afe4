-- ===== src/Tests/Libp.antt =====
-- A directory that is added to the path of libraries.
use osu_micro_benchmarks_rs.Prelude.{◌≡◌, refl, ◌⊎◌, true, false, Option, some}
use osu_micro_benchmarks_rs.Libp.{Text, ascii, contains, value, add_to_ld_library_path}
use osu_micro_benchmarks_rs.Libp.Added.{Added, add_to_ld_library_path_lem}

abbrev lib64 : Text
lib64 = ascii "/lib64"

abbrev opt : Text
opt = ascii "/opt"

add_to_ld_library_path_example :
    ((contains (value (some lib64)) opt ≡ true)
      × (add_to_ld_library_path opt (some lib64) ≡ (false, some lib64)))
    ⊎ ((var' : Option Text) × (contains (value (some lib64)) opt ≡ false)
        × (add_to_ld_library_path opt (some lib64) ≡ (true, var'))
        × Added opt (some lib64) var')
add_to_ld_library_path_example =
    add_to_ld_library_path_lem opt (some lib64) (refl, (refl, (refl, (refl, tt))))

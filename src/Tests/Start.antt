-- ===== src/Tests/Start.antt =====
-- The choice of the backend, with a library that cannot be set up.
use osu_micro_benchmarks_rs.Prelude.{Bool, true, false, Option, none, some, ◌≡◌, ◌≢◌, ◌↔◌, ◌⊎◌}
use osu_micro_benchmarks_rs.Rust.{ok, panic}
use osu_micro_benchmarks_rs.Runtime.{Backend}
use osu_micro_benchmarks_rs.Init.{init_backend}
use osu_micro_benchmarks_rs.Init.Selection.{chosen, init_backend_lem}

abbrev no_library : Bool → Option Bool × Bool
no_library w = (none, true)

abbrev no_flag : Option Bool
no_flag = none

init_backend_example :
    ((init_backend no_library none false ≡ panic)
      × (no_flag ≡ some true)
      × ((no_library false).0 ≡ none))
    ⊎ (((no_flag ≢ some true) ⊎ ((no_library false).0 ≢ none))
        × (init_backend no_library none false ≡ ok ((none, chosen no_library none none), true))
        × (((chosen no_library none none).0 ≡ Backend.ucc) ↔ (no_flag ≢ none)))
init_backend_example = init_backend_lem no_library none false

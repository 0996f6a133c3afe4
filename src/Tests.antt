-- ===== src/Tests.antt =====
-- Concrete runs: the data that the tests share, on a network that delivers at once.
mod Blocking
mod Rooted
mod Floats
mod Nonblocking
mod Sizes
mod Ring
mod Start
mod Oob
mod Bench
mod Fan
mod Pair
mod Libp
mod Onesided
use osu_micro_benchmarks_rs.Prelude.{ℕ, Bool, true, false, Option, none, some, List, [], ◌∷◌}
use osu_micro_benchmarks_rs.Ucx.Openshmem.{Openshmem}
use osu_micro_benchmarks_rs.Ucx.Mailbox.{Boxes}
use osu_micro_benchmarks_rs.Runtime.{Backend, BackendSelection, Context}

-- Rank 1 of three.
abbrev pub middle : Context
middle = record {
  rank = 1;
  size = 3;
  backend = Backend.ucx;
  backend_selection = BackendSelection.auto_ucx;
  openshmem_initialized = false;
}

-- Every tag has the same messages to come.
abbrev pub inbox : List (List ℕ) → Boxes
inbox ms = record { box = λ t. ms; log = [] }

-- No call succeeds.
abbrev pub no_shmem : Openshmem Boxes
no_shmem = record {
  barrier = λ w. (false, w);
  broadcast = λ root buf w. (false, buf, w);
  reduce = λ vs w. (false, vs, w);
  collect = λ buf w. (none, w);
}

-- Rank 0 of two.
abbrev pub root : Context
root = record middle { rank = 0; size = 2 }

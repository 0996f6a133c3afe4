-- ===== src/Bench.antt =====
-- What the benchmark programs share: a rank with its clock and its output, loops that run a body a
-- number of times, and the way a program ends.

pub mod Stock
pub mod Loops
pub mod Blocking
pub mod Posted
pub mod Window
pub mod Pair
pub mod Fans
pub mod Onesided
pub mod Startup
use osu_micro_benchmarks_rs.Prelude.{ℕ, zero, suc, ◌+◌, List, ◌∷◌, ◌++◌, ◌==◌, if◌then◌else◌, []}
use osu_micro_benchmarks_rs.Rust.{Outcome, ok, panic, spin, Run, pure, ◌>>=◌, ◌>>◌}
use osu_micro_benchmarks_rs.Rust.Float.{F64}
use osu_micro_benchmarks_rs.Runtime.{Context}
use osu_micro_benchmarks_rs.Output.{Piece}

-- The network, the number of readings of the clock so far, and what was written to stdout.
pub record Machine (W F : Type 0) : Type 0 where
  pub net : W
  pub readings : ℕ
  pub out : List (Piece F)

-- `process::exit`, or the end of `main`.
pub data Ending : Type 0 where
  finished : Ending
  exited : ℕ → Ending

module _ {W F : Type 0} where
  -- A call of the runtime.
  abbrev pub on_net : {A : Type 0} → Run W A → Run (Machine W F) A
  on_net m s = elim (m s.net) [
    | ok (a, w) ↦ ok (a, record s { net = w })
    | panic ↦ panic
    | spin ↦ spin
  ]

  abbrev pub print : List (Piece F) → Run (Machine W F) (Unit {0})
  print pieces s = ok (tt, record s { out = s.out ++ pieces })

  -- `elapsed_us` of a timer: the clock is a list of readings by number.
  abbrev pub elapsed_us : (ℕ → F) → Run (Machine W F) F
  elapsed_us clock s = ok (clock s.readings, record s { readings = s.readings + 1 })

  -- `if rank == 0 { … }`
  abbrev pub on_root : Context → List (Piece F) → Run (Machine W F) (Unit {0})
  on_root c pieces = if c.rank == 0 then print pieces else pure tt

  -- The programs for persistent collectives are placeholders, which tell a harness to skip them.
  pub persistent_placeholder : Run (Machine W F) Ending
  persistent_placeholder = pure (exited 77)

-- `for _ in 0..n { … }` over the variables that the body changes
pub times : {M S : Type 0} → ℕ → (S → Run M S) → S → Run M S
times zero body s = pure s
times (suc n) body s = body s >>= times n body

-- `for x in xs { … }`
pub for_all : {M S A : Type 0} → List A → (A → S → Run M S) → S → Run M S
for_all [] body s = pure s
for_all (x ∷ xs) body s = body x s >>= for_all xs body

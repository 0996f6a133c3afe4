-- ===== src/Ucx/Openshmem.antt =====
-- The calls of openshmem::coll that the runtime makes, as a parameter over the state of the network.
-- A call reports success, and what it leaves in the buffer that it was given.
use osu_micro_benchmarks_rs.Prelude.{ℕ, Bool, Option, List}

pub record Openshmem (W : Type 0) : Type 0 where
  pub barrier : W → Bool × W
  pub broadcast : ℕ → List ℕ → W → Bool × List ℕ × W
  pub reduce : List ℕ → W → Bool × List ℕ × W
  pub collect : List ℕ → W → Option (List ℕ) × W

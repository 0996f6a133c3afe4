-- ===== src/Ucx/Rma.antt =====
-- The remote memory operations of ucx-sys, as a parameter: those that the one-sided programs call. A
-- `false` or a `none` is an error; the requests of the operations without a reply are dropped by the
-- programs and are left out.
use osu_micro_benchmarks_rs.Prelude.{ℕ, ◌≡◌, Bool, true, Option, List, [], ◌∷◌, ◌++◌}
use osu_micro_benchmarks_rs.Ucx.{Ucx}

pub record Rma (u : Ucx) : Type 0 where
  -- by rank, bytes or their number, and remote address
  pub rma_put : ℕ → List ℕ → ℕ → u.World → Bool × u.World
  pub rma_get : ℕ → ℕ → ℕ → u.World → Bool × u.World
  -- by rank, operands and remote address
  pub amo_add64 : ℕ → ℕ → ℕ → u.World → Bool × u.World
  pub amo_cswap64 : ℕ → ℕ → ℕ → ℕ → u.World → Bool × u.World
  pub amo_fadd64 : ℕ → ℕ → ℕ → u.World → Option u.Request × u.World
  -- what a finished fetch replied
  pub reply : u.Request → u.World → ℕ
  -- `Worker::flush`
  pub flush : u.World → Option (Option u.Request) × u.World

-- Bytes that were put at an address of a rank.
pub record Put : Type 0 where
  pub target : ℕ
  pub address : ℕ
  pub bytes : List ℕ

-- Puts are accepted, and logged in the order of the calls.
pub record PutLog (u : Ucx) (r : Rma u) : Type 0 where
  pub puts : u.World → List Put
  pub put_accepted : (d : ℕ) (m : List ℕ) (a : ℕ) (w : u.World) → (r.rma_put d m a w).0 ≡ true
  pub put_logged :
      (d : ℕ) (m : List ℕ) (a : ℕ) (w : u.World)
      → puts (r.rma_put d m a w).1 ≡ puts w ++ (record { target = d; address = a; bytes = m } ∷ [])

-- ===== src/Collective/Scalars.antt =====
-- common/src/runtime/collective_blocking.rs: the barrier, and the reductions of one number.
pub mod Reduction
pub mod Floats
pub mod Exchanged
use osu_micro_benchmarks_rs.Prelude.{
  ℕ, ◌+◌, ◌%◌, ◌^◌, Bool, List, [], ◌∷◌, map, foldl, sum, leb, if◌then◌else◌, replicate,
}
use osu_micro_benchmarks_rs.Rust.{Outcome, ok, panic, spin, Run, pure, lift, ◌>>=◌, ◌>>◌}
use osu_micro_benchmarks_rs.Rust.Bytes.{to_le_bytes, from_le_bytes}
use osu_micro_benchmarks_rs.Rust.Float.{F64}
use osu_micro_benchmarks_rs.Ucx.{Ucx}
use osu_micro_benchmarks_rs.Ucx.Openshmem.{Openshmem}
use osu_micro_benchmarks_rs.Runtime.{Context, set_at, recv_from_peers, send_to_peers}

abbrev pub barrier_tag : ℕ
barrier_tag = 0xBEEFCAFE

abbrev pub reduce_u64_tag : ℕ
reduce_u64_tag = 0xDEADBEEF

abbrev pub min_tag : ℕ
min_tag = 0xDEAD0001

abbrev pub max_tag : ℕ
max_tag = 0xDEAD0002

abbrev pub sum_tag : ℕ
sum_tag = 0xDEAD0003

module _ (u : Ucx) (fuel : ℕ) where
  open u use {World}

  pub barrier_ucx : Context → Run World (Unit {0})
  barrier_ucx c = if leb c.size 1 then pure tt else do
    send_to_peers u fuel c (λ peer. c.rank % 256 ∷ []) barrier_tag
    recv_from_peers u fuel c 1 barrier_tag (λ peer m g. ok g) tt

  -- The openshmem barrier, if it is wired and succeeds, and the handshake of all ranks otherwise.
  pub barrier : Openshmem World → Context → Run World (Unit {0})
  barrier o c w =
      if c.openshmem_initialized
      then (let (done, w') = o.barrier w in if done then ok (tt, w') else barrier_ucx c w')
      else barrier_ucx c w

  -- Every rank sends its word to all others, and gathers theirs.
  pub exchange_words : Context → ℕ → ℕ → List ℕ → Run World (List ℕ)
  exchange_words c value tag gathered = do
    send_to_peers u fuel c (λ peer. to_le_bytes 8 value) tag
    recv_from_peers u fuel c 8 tag (λ peer m g. set_at g peer (from_le_bytes m)) gathered

  -- The release build: the sum of `u64` wraps.
  pub allreduce_u64 : Context → ℕ → Run World ℕ
  allreduce_u64 c value = if leb c.size 1 then pure value else do
    gathered ← lift (set_at (replicate c.size 0) c.rank value)
    all ← exchange_words c value reduce_u64_tag gathered
    pure (sum all % 2 ^ 64)

  module _ (f : F64) where
    open f use {
      Float, to_bits, from_bits, min_f64, max_f64, add_f64, infinity, neg_infinity, zero_f64,
    }

    -- A gather of the bits, after a reduction whose result is not used.
    pub allreduce_min_f64 : Context → Float → Run World Float
    allreduce_min_f64 c value = do
      _ ← allreduce_u64 c (to_bits value)
      gathered ← lift (set_at (replicate c.size 0) c.rank (to_bits value))
      if leb c.size 1 then pure value else do
        all ← exchange_words c (to_bits value) min_tag gathered
        pure (foldl min_f64 infinity (map from_bits all))

    pub allreduce_max_f64 : Context → Float → Run World Float
    allreduce_max_f64 c value = do
      gathered ← lift (set_at (replicate c.size 0) c.rank (to_bits value))
      if leb c.size 1 then pure value else do
        all ← exchange_words c (to_bits value) max_tag gathered
        pure (foldl max_f64 neg_infinity (map from_bits all))

    pub allreduce_sum_f64 : Context → Float → Run World Float
    allreduce_sum_f64 c value = do
      gathered ← lift (set_at (replicate c.size 0) c.rank (to_bits value))
      if leb c.size 1 then pure value else do
        all ← exchange_words c (to_bits value) sum_tag gathered
        pure (foldl add_f64 zero_f64 (map from_bits all))

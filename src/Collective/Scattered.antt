-- ===== src/Collective/Scattered.antt =====
-- common/src/runtime/collective_blocking.rs: the reduce-scatters. Every rank gathers the buffers of
-- all ranks, and sums the bytes of its own piece of them.
pub mod Pieces
pub mod Counts
use osu_micro_benchmarks_rs.Prelude.{
  ℕ, ◌+◌, ◌-◌, ◌*◌, ◌/◌, ◌%◌, ◌^◌, not, ◌&&◌, Option, none, some, List, [], ◌∷◌, ◌++◌, leb,
  if◌then◌else◌, length, range, min, replicate, drop, sum,
}
use osu_micro_benchmarks_rs.Rust.{Outcome, ok, panic, spin, Run, pure, lift, ◌>>=◌, ◌>>◌}
use osu_micro_benchmarks_rs.Rust.Slice.{copy_at, move_bytes}
use osu_micro_benchmarks_rs.Ucx.{Ucx}
use osu_micro_benchmarks_rs.Runtime.{Context, send_wait, for_peers}
use osu_micro_benchmarks_rs.Collective.Columns.{get_at, sum_bytes}
use osu_micro_benchmarks_rs.Collective.Equal.{is_empty}
use osu_micro_benchmarks_rs.Collective.Variable.{post_all, collect_all}

abbrev pub reducescatter_tag : ℕ
reducescatter_tag = 0xBADC0DE9

abbrev pub reduce_scatter_block_tag : ℕ
reduce_scatter_block_tag = 0xBADC0DEB

-- `u64` addition in the release build.
abbrev pub wrap_u64 : ℕ → ℕ
wrap_u64 n = n % 2 ^ 64

-- `for i in 0..len { … recvbuf[i] = (sum % 256) as u8 }`
pub sum_piece : Context → List ℕ → ℕ → ℕ → ℕ → List ℕ → Outcome (List ℕ)
sum_piece c gathered n offset len recvbuf =
    if leb len (length recvbuf)
    then elim (sum_bytes wrap_u64 gathered n c.size (range offset len)) [
      | ok bs ↦ ok (bs ++ drop len recvbuf)
      | panic ↦ panic
      | spin ↦ spin
    ]
    else panic

-- `for &c in counts { displs.push(d); d += c; }`
pub displacements : ℕ → List ℕ → List ℕ
displacements d [] = []
displacements d (c ∷ cs) = d ∷ displacements (d + c) cs

module _ (u : Ucx) (fuel : ℕ) where
  open u use {World}

  -- The buffers of all ranks: the receives are posted on the pieces of `gathered`, which are read when
  -- each request is finished.
  pub gather_all : Context → List ℕ → ℕ → ℕ → Run World (List ℕ)
  gather_all c sendbuf n tag = do
    gathered ← lift (copy_at (replicate (n * c.size) 0) (c.rank * n) ((c.rank + 1) * n) sendbuf)
    r ← post_all u fuel c.rank (λ peer. ok n) tag pure (range 0 c.size) gathered
    for_peers c.rank (range 0 c.size) (λ peer. send_wait u fuel c peer sendbuf tag)
    collect_all u fuel (λ peer. ok n) (λ peer m g. copy_at g (peer * n) ((peer + 1) * n) m)
        (range 0 c.size) r.0 r.1

  pub reduce_scatter_block : Context → List ℕ → List ℕ → ℕ → Run World (List ℕ)
  reduce_scatter_block c sendbuf recvbuf elemcount =
      if leb c.size 1
      then (let len = min (min elemcount (length sendbuf)) (length recvbuf) in
          if leb 1 len then lift (move_bytes recvbuf 0 sendbuf 0 len) else pure recvbuf)
      else (let per_rank = elemcount / c.size in
          do
            gathered ← gather_all c sendbuf elemcount reduce_scatter_block_tag
            lift (sum_piece c gathered elemcount (c.rank * per_rank) per_rank recvbuf))

  pub reducescatter : Context → List ℕ → List ℕ → List ℕ → Run World (List ℕ)
  reducescatter c sendbuf recvbuf counts =
      if leb c.size 1
      then (if not (is_empty sendbuf) && not (is_empty recvbuf)
          then (do
            len ← lift (get_at counts c.rank)
            lift (move_bytes recvbuf 0 sendbuf 0 (min (min len (length sendbuf)) (length recvbuf))))
          else pure recvbuf)
      else do
        gathered ← gather_all c sendbuf (sum counts) reducescatter_tag
        my_offset ← lift (get_at (displacements 0 counts) c.rank)
        my_len ← lift (get_at counts c.rank)
        lift (sum_piece c gathered (sum counts) my_offset my_len recvbuf)

-- ===== src/Collective/Equal.antt =====
-- common/src/runtime/collective_blocking.rs: the collectives with one message size for all ranks.
-- Each returns the new value of `recvbuf`.
pub mod Gathering
pub mod Rooted
pub mod Reduce
use osu_micro_benchmarks_rs.Prelude.{
  ℕ, ◌+◌, ◌*◌, ◌%◌, ◌^◌, ◌<◌, Bool, true, false, not, ◌&&◌, Option, none, some, List, [], ◌∷◌, ◌++◌,
  leb, ltb, ◌==◌, if◌then◌else◌, replicate, length, range, drop, min, ◌||◌,
}
use osu_micro_benchmarks_rs.Rust.{Outcome, ok, panic, spin, Run, pure, lift, ◌>>=◌, ◌>>◌}
use osu_micro_benchmarks_rs.Rust.Slice.{slice, copy_at, copy_from_slice}
use osu_micro_benchmarks_rs.Ucx.{Ucx}
use osu_micro_benchmarks_rs.Ucx.Openshmem.{Openshmem}
use osu_micro_benchmarks_rs.Runtime.{Context, send, recv, for_peers, recv_from_peers, send_to_peers}
use osu_micro_benchmarks_rs.Collective.Columns.{sum_bytes}

abbrev pub bcast_tag : ℕ
bcast_tag = 0xBADC0DE0

abbrev pub reduce_tag : ℕ
reduce_tag = 0xBADC0DE1

abbrev pub allgather_tag : ℕ
allgather_tag = 0xBADC0DE2

abbrev pub gather_tag : ℕ
gather_tag = 0xBADC0DE4

abbrev pub scatter_tag : ℕ
scatter_tag = 0xBADC0DE5

abbrev pub is_empty : List ℕ → Bool
is_empty [] = true
is_empty (x ∷ xs) = false

-- `u16` addition in the release build.
abbrev pub wrap_u16 : ℕ → ℕ
wrap_u16 n = n % 2 ^ 16

-- `buf[offset..offset + len].copy_from_slice(src)`, if the slice lies in the buffer.
abbrev pub copy_if_fits : ℕ → List ℕ → ℕ → List ℕ → Outcome (List ℕ)
copy_if_fits len buf offset src =
    if leb (offset + len) (length buf) then copy_at buf offset (offset + len) src else ok buf

-- The root's loop over `recvbuf`: one sum for each byte, of the gathered buffers of all ranks.
pub reduced : Context → List ℕ → ℕ → List ℕ → Outcome (List ℕ)
reduced c all n recvbuf =
    elim (sum_bytes wrap_u16 all n c.size (range 0 (min n (length recvbuf)))) [
      | ok bs ↦ ok (bs ++ drop (length bs) recvbuf)
      | panic ↦ panic
      | spin ↦ spin
    ]

module _ (u : Ucx) (fuel : ℕ) where
  open u use {World}

  -- Whether openshmem summed the buffers, and what it leaves in `recvbuf`.
  pub openshmem_allreduce : Openshmem World → Context → List ℕ → List ℕ → Run World (Bool × List ℕ)
  openshmem_allreduce o c sendbuf recvbuf w =
      if not c.openshmem_initialized || not (length sendbuf == length recvbuf)
      then ok ((false, recvbuf), w)
      else (let (done, buf, w') = o.reduce sendbuf w in ok ((done, buf), w'))

  pub bcast_ucx : Context → List ℕ → List ℕ → ℕ → Run World (List ℕ)
  bcast_ucx c sendbuf recvbuf root =
      if leb c.size 1
      then lift (copy_from_slice recvbuf sendbuf)
      else if c.rank == root
      then (do
        send_to_peers u fuel c (λ peer. sendbuf) bcast_tag
        lift (copy_from_slice recvbuf sendbuf))
      else recv u fuel recvbuf bcast_tag

  pub bcast : Openshmem World → Context → List ℕ → List ℕ → ℕ → Run World (List ℕ)
  bcast o c sendbuf recvbuf root w =
      if c.openshmem_initialized then bcast_shmem w else bcast_ucx c sendbuf recvbuf root w
    where
      bcast_shmem : Run World (List ℕ)
      bcast_shmem = do
        buf ← lift (copy_from_slice recvbuf sendbuf)
        λ w.
            let (done, buf', w') = o.broadcast root buf w in
            if done then ok (buf', w') else bcast_ucx c sendbuf buf' root w'

  -- The gathered buffers of all ranks, and on the root the byte sums, for `enumerate().take(n)`.
  pub reduce : Context → List ℕ → List ℕ → ℕ → Run World (List ℕ)
  reduce c sendbuf recvbuf root =
      let n = length sendbuf in
      if leb c.size 1 then lift (copy_from_slice recvbuf sendbuf) else do
        send_to_peers u fuel c (λ peer. sendbuf) reduce_tag
        gathered ← lift (copy_at (replicate (n * c.size) 0) (c.rank * n) (c.rank * n + n) sendbuf)
        all ←
            recv_from_peers u fuel c n reduce_tag
              (λ peer m g. copy_at g (peer * n) (peer * n + n) m) gathered
        if c.rank == root then lift (reduced c all n recvbuf) else pure recvbuf

  pub allgather_ucx : Context → List ℕ → List ℕ → ℕ → Run World (List ℕ)
  allgather_ucx c sendbuf recvbuf n =
      if leb c.size 1 then lift (copy_at recvbuf 0 n sendbuf) else do
        buf ← lift (copy_at recvbuf (c.rank * n) (c.rank * n + n) sendbuf)
        send_to_peers u fuel c (λ peer. sendbuf) allgather_tag
        recv_from_peers u fuel c n allgather_tag (λ peer m g. copy_at g (peer * n) (peer * n + n) m)
            buf

  pub allgather : Openshmem World → Context → List ℕ → List ℕ → ℕ → Run World (List ℕ)
  allgather o c sendbuf recvbuf n w =
      if c.openshmem_initialized
      then (let (values, w') = o.collect sendbuf w in
          elim values [
            | some vs ↦
                if length vs == length recvbuf
                then ok (vs, w')
                else allgather_ucx c sendbuf recvbuf n w'
            | none ↦ allgather_ucx c sendbuf recvbuf n w'
          ])
      else allgather_ucx c sendbuf recvbuf n w

  pub gather : Context → List ℕ → List ℕ → ℕ → ℕ → Run World (List ℕ)
  gather c sendbuf recvbuf n root =
      if leb c.size 1
      then (if not (is_empty sendbuf) && not (is_empty recvbuf)
          then lift (copy_at recvbuf 0 (length sendbuf) sendbuf)
          else pure recvbuf)
      else if c.rank == root
      then (do
        buf ← lift (copy_if_fits n recvbuf (c.rank * n) sendbuf)
        recv_from_peers u fuel c n gather_tag (λ peer m g. copy_if_fits n g (peer * n) m) buf)
      else (do send u fuel c root sendbuf gather_tag; pure recvbuf)

  -- The root's message to one rank, where its chunk lies in the buffer.
  pub scatter_send : Context → List ℕ → ℕ → ℕ → Run World (Unit {0})
  scatter_send c sendbuf n peer =
      if leb (peer * n + n) (length sendbuf)
      then (do
        piece ← lift (slice sendbuf (peer * n) (peer * n + n))
        send u fuel c peer piece scatter_tag)
      else pure tt

  -- The root's copy of its own chunk.
  pub scatter_own : Context → List ℕ → List ℕ → ℕ → Run World (List ℕ)
  scatter_own c sendbuf recvbuf n =
      if leb (c.rank * n + n) (length sendbuf) && leb n (length recvbuf)
      then (do
        piece ← lift (slice sendbuf (c.rank * n) (c.rank * n + n))
        lift (copy_at recvbuf 0 n piece))
      else pure recvbuf

  pub scatter : Context → List ℕ → List ℕ → ℕ → ℕ → Run World (List ℕ)
  scatter c sendbuf recvbuf n root =
      if leb c.size 1
      then (if not (is_empty sendbuf) && not (is_empty recvbuf)
          then (let k = min (min n (length sendbuf)) (length recvbuf) in
              do piece ← lift (slice sendbuf 0 k); lift (copy_at recvbuf 0 k piece))
          else pure recvbuf)
      else if c.rank == root
      then (do
        buf ← scatter_own c sendbuf recvbuf n
        for_peers c.rank (range 0 c.size) (scatter_send c sendbuf n)
        pure buf)
      else recv u fuel recvbuf scatter_tag

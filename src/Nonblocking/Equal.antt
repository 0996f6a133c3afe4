-- ===== src/Nonblocking/Equal.antt =====
-- common/src/runtime/non_blocking.rs: the collectives with one message size. Each returns `recvbuf` and
-- the handle. What a peer sends goes to a buffer of its own, which is dropped when the call returns, so
-- that `recvbuf` is settled then, except in `ibcast` and `iscatter`, whose receive is posted on
-- `recvbuf`, so that it awaits that request.
pub mod Posting
pub mod Waiting
pub mod Landing
use osu_micro_benchmarks_rs.Prelude.{
  ℕ, ◌+◌, ◌*◌, ◌%◌, Bool, true, false, not, ◌&&◌, List, [], ◌∷◌, leb, ◌==◌, if◌then◌else◌, length,
  range, min, some,
}
use osu_micro_benchmarks_rs.Rust.{Outcome, ok, panic, spin, Run, pure, lift, ◌>>=◌, ◌>>◌}
use osu_micro_benchmarks_rs.Rust.Bytes.{to_le_bytes}
use osu_micro_benchmarks_rs.Rust.Slice.{slice, copy_at, copy_from_slice}
use osu_micro_benchmarks_rs.Ucx.{Ucx}
use osu_micro_benchmarks_rs.Ucx.Openshmem.{Openshmem}
use osu_micro_benchmarks_rs.Runtime.{Context, send, for_peers, send_to_peers, post_recv}
use osu_micro_benchmarks_rs.Collective.Scalars.{barrier_tag, reduce_u64_tag}
use osu_micro_benchmarks_rs.Collective.Equal.{
  bcast_tag, reduce_tag, allgather_tag, gather_tag, scatter_tag, is_empty, copy_if_fits,
  scatter_own, scatter_send,
}
use osu_micro_benchmarks_rs.Collective.Variable.{alltoall_tag}
use osu_micro_benchmarks_rs.Nonblocking.{
  OsuRequest, Recvbuf, settled, awaiting, complete, post_recvs, posted,
}

module _ (u : Ucx) (fuel : ℕ) where
  open u use {World, Request}

  -- The handle of a receive for every other rank.
  pub post_from_peers : Context → ℕ → ℕ → Run World (OsuRequest Request)
  post_from_peers c len tag = do
    r ← post_recvs u fuel c.rank (λ peer. ok len) tag (range 0 c.size)
    pure (posted u fuel r)

  pub ibarrier : Context → Run World (OsuRequest Request)
  ibarrier c = if leb c.size 1 then pure complete else do
    send_to_peers u fuel c (λ peer. c.rank % 256 ∷ []) barrier_tag
    post_from_peers c 1 barrier_tag

  pub iallreduce_ucx : Context → ℕ → Run World (OsuRequest Request)
  iallreduce_ucx c value = if leb c.size 1 then pure complete else do
    send_to_peers u fuel c (λ peer. to_le_bytes 8 value) reduce_u64_tag
    post_from_peers c 8 reduce_u64_tag

  pub iallreduce : Openshmem World → Context → ℕ → Run World (OsuRequest Request)
  iallreduce o c value w =
      if c.openshmem_initialized
      then (let (done, values, w') = o.reduce (value ∷ []) w in
          if done then ok (complete, w') else iallreduce_ucx c value w')
      else iallreduce_ucx c value w

  pub ibcast_ucx : Context → List ℕ → List ℕ → ℕ → Run World (Recvbuf Request × OsuRequest Request)
  ibcast_ucx c sendbuf recvbuf root =
      if leb c.size 1
      then (do buf ← lift (copy_from_slice recvbuf sendbuf); pure (settled buf, complete))
      else if c.rank == root
      then (do
        send_to_peers u fuel c (λ peer. sendbuf) bcast_tag
        buf ← lift (copy_from_slice recvbuf sendbuf)
        pure (settled buf, complete))
      else do
        req ← post_recv u fuel (length recvbuf) bcast_tag
        pure (awaiting recvbuf req, posted u fuel (some req ∷ [], 1))

  pub ibcast :
      Openshmem World
      → Context
      → List ℕ
      → List ℕ
      → ℕ
      → Run World (Recvbuf Request × OsuRequest Request)
  ibcast o c sendbuf recvbuf root w =
      if c.openshmem_initialized && (length sendbuf == length recvbuf) && not (is_empty recvbuf)
      then (let (done, buf, w') = o.broadcast root sendbuf w in
          if done then ok ((settled buf, complete), w') else ibcast_ucx c sendbuf buf root w')
      else ibcast_ucx c sendbuf recvbuf root w

  pub iallgather : Context → List ℕ → List ℕ → ℕ → Run World (Recvbuf Request × OsuRequest Request)
  iallgather c sendbuf recvbuf n =
      if leb c.size 1
      then (do buf ← lift (copy_at recvbuf 0 n sendbuf); pure (settled buf, complete))
      else do
        buf ← lift (copy_at recvbuf (c.rank * n) (c.rank * n + n) sendbuf)
        send_to_peers u fuel c (λ peer. sendbuf) allgather_tag
        q ← post_from_peers c n allgather_tag
        pure (settled buf, q)

  pub ireduce : Context → List ℕ → List ℕ → ℕ → ℕ → Run World (Recvbuf Request × OsuRequest Request)
  ireduce c sendbuf recvbuf root n =
      if leb c.size 1
      then (do buf ← lift (copy_from_slice recvbuf sendbuf); pure (settled buf, complete))
      else do
        send_to_peers u fuel c (λ peer. sendbuf) reduce_tag
        q ← post_from_peers c n reduce_tag
        pure (settled recvbuf, q)

  pub iscatter :
      Context → List ℕ → List ℕ → ℕ → ℕ → Run World (Recvbuf Request × OsuRequest Request)
  iscatter c sendbuf recvbuf n root =
      if leb c.size 1
      then (if not (is_empty sendbuf) && not (is_empty recvbuf)
          then (let k = min (min n (length sendbuf)) (length recvbuf) in
              do
                piece ← lift (slice sendbuf 0 k)
                buf ← lift (copy_at recvbuf 0 k piece)
                pure (settled buf, complete))
          else pure (settled recvbuf, complete))
      else if c.rank == root
      then (do
        buf ← scatter_own u fuel c sendbuf recvbuf n
        for_peers c.rank (range 0 c.size) (scatter_send u fuel c sendbuf n)
        pure (settled buf, complete))
      else do
        req ← post_recv u fuel (length recvbuf) scatter_tag
        pure (awaiting recvbuf req, posted u fuel (some req ∷ [], 1))

  pub igather : Context → List ℕ → List ℕ → ℕ → ℕ → Run World (Recvbuf Request × OsuRequest Request)
  igather c sendbuf recvbuf n root =
      if leb c.size 1
      then (if not (is_empty sendbuf) && not (is_empty recvbuf)
          then (do
            buf ← lift (copy_at recvbuf 0 (length sendbuf) sendbuf)
            pure (settled buf, complete))
          else pure (settled recvbuf, complete))
      else if c.rank == root
      then (do
        buf ← lift (copy_if_fits n recvbuf (c.rank * n) sendbuf)
        q ← post_from_peers c n gather_tag
        pure (settled buf, q))
      else (do send u fuel c root sendbuf gather_tag; pure (settled recvbuf, complete))

  -- The message to one peer: its piece of the buffer.
  pub alltoall_send : Context → List ℕ → ℕ → ℕ → Run World (Unit {0})
  alltoall_send c sendbuf n peer = do
    piece ← lift (slice sendbuf (peer * n) ((peer + 1) * n))
    send u fuel c peer piece alltoall_tag

  -- The loop that posts copies the own piece when it comes to the own rank; the order of that copy and
  -- of the receives does not matter, and it stands in front of them here.
  pub ialltoall : Context → List ℕ → List ℕ → ℕ → Run World (Recvbuf Request × OsuRequest Request)
  ialltoall c sendbuf recvbuf n =
      if leb c.size 1
      then (do buf ← lift (copy_from_slice recvbuf sendbuf); pure (settled buf, complete))
      else do
        for_peers c.rank (range 0 c.size) (alltoall_send c sendbuf n)
        piece ← lift (slice sendbuf (c.rank * n) (c.rank * n + n))
        buf ← lift (copy_at recvbuf (c.rank * n) (c.rank * n + n) piece)
        q ← post_from_peers c n alltoall_tag
        pure (settled buf, q)

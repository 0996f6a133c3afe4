-- ===== src/Nonblocking/Ring.antt =====
-- common/src/runtime/non_blocking.rs: the neighbor collectives, where each rank sends to the next rank
-- of a ring and receives from the previous one.
pub mod Neighbors
use osu_micro_benchmarks_rs.Prelude.{
  ℕ, ◌+◌, ◌-◌, ◌*◌, ◌%◌, ◌^◌, Bool, true, false, ◌&&◌, Option, some, List, [], ◌∷◌, leb, ltb, ◌==◌,
  if◌then◌else◌, length, range, min, get_or,
}
use osu_micro_benchmarks_rs.Rust.{Outcome, ok, panic, spin, Run, pure, lift, ◌>>=◌, ◌>>◌}
use osu_micro_benchmarks_rs.Rust.Slice.{slice, copy_at, move_bytes}
use osu_micro_benchmarks_rs.Ucx.{Ucx}
use osu_micro_benchmarks_rs.Runtime.{Context, send, post_recv}
use osu_micro_benchmarks_rs.Nonblocking.{OsuRequest, Recvbuf, settled, complete, posted}

abbrev pub neighbor_allgather_tag : ℕ
neighbor_allgather_tag = 0x01010001

abbrev pub neighbor_allgatherv_tag : ℕ
neighbor_allgatherv_tag = 0x01010002

abbrev pub neighbor_alltoall_tag : ℕ
neighbor_alltoall_tag = 0x01010003

abbrev pub neighbor_alltoallv_tag : ℕ
neighbor_alltoallv_tag = 0x01010004

-- `1 ^ rank`
pub xor_one : ℕ → ℕ
xor_one rank = if rank % 2 == 0 then rank + 1 else rank - 1

-- `(rank.wrapping_sub(1)).rem_euclid(size)` on a 64-bit `usize`
pub prev_rank : ℕ → ℕ → ℕ
prev_rank size rank = ((rank + (2 ^ 64 - 1)) % 2 ^ 64) % size

-- `(rank + 1).rem_euclid(size)`
pub next_rank : ℕ → ℕ → ℕ
next_rank size rank = (rank + 1) % size

-- `OsUContext::neighbor_ring`: the sources and the destinations
pub neighbor_ring : Context → List ℕ × List ℕ
neighbor_ring c =
    if leb c.size 2
    then (xor_one c.rank ∷ [], xor_one c.rank ∷ [])
    else (prev_rank c.size c.rank ∷ [], next_rank c.size c.rank ∷ [])

module _ {W : Type 0} where
  -- A job of at most one rank: the first bytes of `sendbuf`, as many as both buffers allow.
  pub alone_prefix : List ℕ → List ℕ → ℕ → Run W (List ℕ)
  alone_prefix sendbuf recvbuf n =
      lift (move_bytes recvbuf 0 sendbuf 0 (min (min n (length sendbuf)) (length recvbuf)))

  -- `for p in 0..size` of the alltoallv in such a job
  pub alone_pieces : List ℕ → List ℕ → List ℕ → List ℕ → List ℕ → List ℕ → Run W (List ℕ)
  alone_pieces sendbuf recvbuf send_counts send_displs recv_displs [] = pure recvbuf
  alone_pieces sendbuf recvbuf send_counts send_displs recv_displs (p ∷ ps) =
      let src_off = get_or send_displs p 0 in
      let dst_off = get_or recv_displs p 0 in
      let copy =
        min (min (get_or send_counts p 0) (length sendbuf - src_off)) (length recvbuf - dst_off) in
      do
        buf ←
            (if leb 1 copy
              then lift (move_bytes recvbuf dst_off sendbuf src_off copy)
              else pure recvbuf)
        alone_pieces sendbuf buf send_counts send_displs recv_displs ps

module _ (u : Ucx) (fuel : ℕ) where
  open u use {World, Request}

  -- `for &dst in &destinations { … }`
  pub for_each : List ℕ → (ℕ → Run World (Unit {0})) → Run World (Unit {0})
  for_each [] body = pure tt
  for_each (p ∷ ps) body = body p >> for_each ps body

  -- `for &src in &sources`: a receive for each, all of them pending.
  pub post_each : (ℕ → ℕ) → ℕ → List ℕ → Run World (List (Option Request))
  post_each len tag [] = pure []
  post_each len tag (p ∷ ps) = do
    req ← post_recv u fuel (len p) tag
    rs ← post_each len tag ps
    pure (some req ∷ rs)

  -- The receives from the sources of the ring, and the handle of them.
  pub post_ring : Context → (ℕ → ℕ) → ℕ → Run World (OsuRequest Request)
  post_ring c len tag = do
    rs ← post_each len tag (neighbor_ring c).0
    pure (posted u fuel (rs, length (neighbor_ring c).0))

  -- `sendbuf[..n.min(sendbuf.len())]` to each destination
  pub send_prefix : Context → List ℕ → ℕ → ℕ → Run World (Unit {0})
  send_prefix c sendbuf n tag = for_each (neighbor_ring c).1 (λ dst. do
    piece ← lift (slice sendbuf 0 (min n (length sendbuf)))
    send u fuel c dst piece tag)

  -- The piece of a destination, cut at the end of the buffer, if it begins in the buffer.
  pub send_from : Context → List ℕ → (ℕ → ℕ) → (ℕ → ℕ) → ℕ → Run World (Unit {0})
  send_from c sendbuf offset len tag = for_each (neighbor_ring c).1 (λ dst.
      if ltb (offset dst) (length sendbuf)
      then (do
        piece ← lift (slice sendbuf (offset dst) (min (offset dst + len dst) (length sendbuf)))
        send u fuel c dst piece tag)
      else pure tt)

  -- The own bytes into `recvbuf`, if their place lies in the buffer.
  pub copy_own : List ℕ → ℕ → List ℕ → ℕ → Run World (List ℕ)
  copy_own recvbuf offset sendbuf n =
      if leb (offset + n) (length recvbuf)
      then (do
        piece ← lift (slice sendbuf 0 (min n (length sendbuf)))
        lift (copy_at recvbuf offset (offset + n) piece))
      else pure recvbuf

  pub ineighbor_allgather :
      Context → List ℕ → List ℕ → ℕ → Run World (Recvbuf Request × OsuRequest Request)
  ineighbor_allgather c sendbuf recvbuf n =
      if leb c.size 1
      then (do buf ← alone_prefix sendbuf recvbuf n; pure (settled buf, complete))
      else do
        buf ← copy_own recvbuf (c.rank * n) sendbuf n
        send_prefix c sendbuf n neighbor_allgather_tag
        q ← post_ring c (λ src. n) neighbor_allgather_tag
        pure (settled buf, q)

  pub ineighbor_allgatherv :
      Context → List ℕ → List ℕ → List ℕ → List ℕ → Run World (Recvbuf Request × OsuRequest Request)
  ineighbor_allgatherv c sendbuf recvbuf counts displs =
      let my_offset = get_or displs c.rank 0 in
      let my_len = get_or counts c.rank 0 in
      if leb c.size 1
      then (let copy_len = min (min my_len (length sendbuf)) (length recvbuf - my_offset) in
          if leb 1 copy_len
          then (do
            buf ← lift (move_bytes recvbuf my_offset sendbuf 0 copy_len)
            pure (settled buf, complete))
          else pure (settled recvbuf, complete))
      else do
        buf ← copy_own recvbuf my_offset sendbuf my_len
        send_prefix c sendbuf my_len neighbor_allgatherv_tag
        q ← post_ring c (λ src. get_or counts src 0) neighbor_allgatherv_tag
        pure (settled buf, q)

  pub ineighbor_alltoall :
      Context → List ℕ → List ℕ → ℕ → Run World (Recvbuf Request × OsuRequest Request)
  ineighbor_alltoall c sendbuf recvbuf n =
      if leb c.size 1
      then (do buf ← alone_prefix sendbuf recvbuf n; pure (settled buf, complete))
      else do
        send_from c sendbuf (λ dst. dst * n) (λ dst. n) neighbor_alltoall_tag
        q ← post_ring c (λ src. n) neighbor_alltoall_tag
        pure (settled recvbuf, q)

  pub ineighbor_alltoallv :
      Context
      → List ℕ
      → List ℕ
      → List ℕ
      → List ℕ
      → List ℕ
      → List ℕ
      → Run World (Recvbuf Request × OsuRequest Request)
  ineighbor_alltoallv c sendbuf recvbuf send_counts recv_counts send_displs recv_displs =
      if leb c.size 1
      then (do
        buf ← alone_pieces sendbuf recvbuf send_counts send_displs recv_displs (range 0 c.size)
        pure (settled buf, complete))
      else do
        send_from c sendbuf (λ dst. get_or send_displs dst 0) (λ dst. get_or send_counts dst 0)
            neighbor_alltoallv_tag
        q ← post_ring c (λ src. get_or recv_counts src 0) neighbor_alltoallv_tag
        pure (settled recvbuf, q)

  pub ineighbor_alltoallw :
      Context
      → List ℕ
      → List ℕ
      → List ℕ
      → List ℕ
      → List ℕ
      → List ℕ
      → Run World (Recvbuf Request × OsuRequest Request)
  ineighbor_alltoallw c sendbuf recvbuf send_counts recv_counts send_displs recv_displs =
      ineighbor_alltoallv c sendbuf recvbuf send_counts recv_counts send_displs recv_displs

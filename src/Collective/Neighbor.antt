-- ===== src/Collective/Neighbor.antt =====
-- common/src/runtime/collective_blocking.rs: the neighbor collectives, where each rank of a ring
-- sends to both its neighbors and receives from both. Each returns the new value of `recvbuf`.
pub mod Ring
use osu_micro_benchmarks_rs.Prelude.{
  ℕ, suc, ◌+◌, ◌-◌, ◌*◌, ◌^◌, ◌&&◌, List, [], ◌∷◌, leb, ltb, if◌then◌else◌, length, range, min,
  replicate, get_or,
}
use osu_micro_benchmarks_rs.Rust.{Run, pure, lift, ◌>>=◌, ◌>>◌}
use osu_micro_benchmarks_rs.Rust.Slice.{slice, move_bytes}
use osu_micro_benchmarks_rs.Ucx.{Ucx}
use osu_micro_benchmarks_rs.Runtime.{Context, send, recv}
use osu_micro_benchmarks_rs.Nonblocking.Ring.{prev_rank, next_rank}
use osu_micro_benchmarks_rs.Collective.Variable.{fold_each}

abbrev pub neighbor_allgather_tag : ℕ
neighbor_allgather_tag = 0xBADC0DEA

abbrev pub neighbor_allgatherv_tag : ℕ
neighbor_allgatherv_tag = 0xBADC0DEB

abbrev pub neighbor_alltoall_tag : ℕ
neighbor_alltoall_tag = 0xBADC0DEC

abbrev pub neighbor_alltoallv_tag : ℕ
neighbor_alltoallv_tag = 0xBADC0DED

-- Subtraction on a `usize`, in the release build.
abbrev pub sub_usize : ℕ → ℕ → ℕ
sub_usize a b = if leb b a then a - b else a + 2 ^ 64 - b

-- `neighbors`
pub neighbors : Context → List ℕ
neighbors c = prev_rank c.size c.rank ∷ next_rank c.size c.rank ∷ []

module _ {W : Type 0} where
  -- `if k > 0 { … }` round a copy
  pub move_some : List ℕ → ℕ → List ℕ → ℕ → ℕ → Run W (List ℕ)
  move_some dst d src s k = if leb 1 k then lift (move_bytes dst d src s k) else pure dst

  -- `for (neighbor_idx, &dst) in neighbors.iter().enumerate()`
  pub for_neighbors : {S : Type 0} → ℕ → List ℕ → (ℕ → ℕ → S → Run W S) → S → Run W S
  for_neighbors i [] body s = pure s
  for_neighbors i (p ∷ ps) body s = body i p s >>= for_neighbors (suc i) ps body

  -- One rank of the alltoallv in a job of at most one.
  pub alltoallv_self : List ℕ → List ℕ → List ℕ → List ℕ → ℕ → List ℕ → Run W (List ℕ)
  alltoallv_self sendbuf send_counts send_displs recv_displs p recvbuf =
      let src_off = get_or send_displs p 0 in
      let dst_off = get_or recv_displs p 0 in
      move_some recvbuf dst_off sendbuf src_off
        (min (min (get_or send_counts p 0) (length sendbuf - src_off)) (length recvbuf - dst_off))

module _ (u : Ucx) (fuel : ℕ) where
  open u use {World}

  -- The receive of `neighbor_allgather` and `neighbor_alltoall` for one neighbor.
  pub recv_block : ℕ → ℕ → ℕ → ℕ → List ℕ → Run World (List ℕ)
  recv_block n tag i src recvbuf =
      let offset = i * n in
      let end = min (offset + n) (length recvbuf) in
      do
        m ← recv u fuel (replicate n 0) tag
        lift (move_bytes recvbuf offset m 0 (min (sub_usize end offset) (length m)))

  -- … of `neighbor_allgatherv` and `neighbor_alltoallv`.
  pub recv_counted : List ℕ → List ℕ → ℕ → ℕ → ℕ → List ℕ → Run World (List ℕ)
  recv_counted recv_counts recv_displs tag i src recvbuf =
      let len = get_or recv_counts i 0 in
      let offset = get_or recv_displs i 0 in
      do
        m ← recv u fuel (replicate len 0) tag
        move_some recvbuf offset m 0 (min len (length recvbuf - offset))

  -- `sendbuf[..n.min(sendbuf.len())]` to both neighbors
  pub send_both : Context → List ℕ → ℕ → ℕ → Run World (Unit {0})
  send_both c sendbuf n tag =
      for_neighbors 0 (neighbors c)
        (λ i dst x. do
          piece ← lift (slice sendbuf 0 (min n (length sendbuf)))
          send u fuel c dst piece tag)
        tt

  pub neighbor_allgather : Context → List ℕ → List ℕ → ℕ → Run World (List ℕ)
  neighbor_allgather c sendbuf recvbuf n =
      if leb c.size 1
      then move_some recvbuf 0 sendbuf 0 (min (min n (length sendbuf)) (length recvbuf))
      else do
        send_both c sendbuf n neighbor_allgather_tag
        for_neighbors 0 (neighbors c) (recv_block n neighbor_allgather_tag) recvbuf

  pub neighbor_allgatherv : Context → List ℕ → List ℕ → ℕ → List ℕ → List ℕ → Run World (List ℕ)
  neighbor_allgatherv c sendbuf recvbuf send_count recv_counts recv_displs =
      if leb c.size 1
      then (let offset = get_or recv_displs c.rank 0 in
          move_some recvbuf offset sendbuf 0
            (min (min (get_or recv_counts c.rank 0) (length sendbuf)) (length recvbuf - offset)))
      else do
        send_both c sendbuf send_count neighbor_allgatherv_tag
        for_neighbors 0 (neighbors c) (recv_counted recv_counts recv_displs neighbor_allgatherv_tag)
            recvbuf

  pub neighbor_alltoall : Context → List ℕ → List ℕ → ℕ → Run World (List ℕ)
  neighbor_alltoall c sendbuf recvbuf n =
      if leb c.size 1
      then move_some recvbuf 0 sendbuf 0 (min (min n (length sendbuf)) (length recvbuf))
      else do
        for_neighbors 0 (neighbors c)
            (λ i dst x.
              if ltb (i * n) (length sendbuf)
              then (do
                piece ← lift (slice sendbuf (i * n) (min (i * n + n) (length sendbuf)))
                send u fuel c dst piece neighbor_alltoall_tag)
              else pure tt)
            tt
        for_neighbors 0 (neighbors c) (recv_block n neighbor_alltoall_tag) recvbuf

  -- The message of `neighbor_alltoallv` to one neighbor.
  pub send_counted : Context → List ℕ → List ℕ → List ℕ → ℕ → ℕ → Unit {0} → Run World (Unit {0})
  send_counted c sendbuf send_counts send_displs i dst x =
      let src_off = get_or send_displs i 0 in
      let len = get_or send_counts i 0 in
      if ltb src_off (length sendbuf) && leb 1 len
      then (do
        piece ← lift (slice sendbuf src_off (min (src_off + len) (length sendbuf)))
        send u fuel c dst piece neighbor_alltoallv_tag)
      else pure tt

  pub neighbor_alltoallv :
      Context → List ℕ → List ℕ → List ℕ → List ℕ → List ℕ → List ℕ → Run World (List ℕ)
  neighbor_alltoallv c sendbuf recvbuf send_counts send_displs recv_counts recv_displs =
      if leb c.size 1
      then fold_each (range 0 c.size) (alltoallv_self sendbuf send_counts send_displs recv_displs)
          recvbuf
      else do
        for_neighbors 0 (neighbors c) (send_counted c sendbuf send_counts send_displs) tt
        for_neighbors 0 (neighbors c) (recv_counted recv_counts recv_displs neighbor_alltoallv_tag)
            recvbuf

  pub neighbor_alltoallw :
      Context → List ℕ → List ℕ → List ℕ → List ℕ → List ℕ → List ℕ → Run World (List ℕ)
  neighbor_alltoallw c sendbuf recvbuf send_counts send_displs recv_counts recv_displs =
      neighbor_alltoallv c sendbuf recvbuf send_counts send_displs recv_counts recv_displs

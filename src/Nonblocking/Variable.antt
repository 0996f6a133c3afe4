-- ===== src/Nonblocking/Variable.antt =====
-- common/src/runtime/non_blocking.rs: the collectives with a count and a displacement for each rank,
-- and the reduce-scatters. They post like those with one message size.
use osu_micro_benchmarks_rs.Prelude.{
  ℕ, ◌+◌, ◌-◌, ◌*◌, not, ◌&&◌, List, [], ◌∷◌, some, leb, ◌==◌, if◌then◌else◌, length, range, min,
  sum,
}
use osu_micro_benchmarks_rs.Rust.{Run, pure, lift, ◌>>=◌, ◌>>◌}
use osu_micro_benchmarks_rs.Rust.Slice.{slice, move_bytes, move_if_fits}
use osu_micro_benchmarks_rs.Ucx.{Ucx}
use osu_micro_benchmarks_rs.Runtime.{Context, send, for_peers, send_to_peers, post_recv}
use osu_micro_benchmarks_rs.Collective.Columns.{get_at}
use osu_micro_benchmarks_rs.Collective.Equal.{is_empty, copy_if_fits}
use osu_micro_benchmarks_rs.Collective.Variable.{
  gatherv_tag, scatterv_tag, allgatherv_tag, alltoallv_tag, fold_each, alone_to, alone_from,
  alltoallv_own,
}
use osu_micro_benchmarks_rs.Collective.Scattered.{reducescatter_tag, reduce_scatter_block_tag}
use osu_micro_benchmarks_rs.Nonblocking.{OsuRequest, Recvbuf, settled, complete, post_recvs, posted}
use osu_micro_benchmarks_rs.Nonblocking.Equal.{post_from_peers}

module _ (u : Ucx) (fuel : ℕ) where
  open u use {World, Request}

  pub iallgatherv :
      Context → List ℕ → List ℕ → List ℕ → List ℕ → Run World (Recvbuf Request × OsuRequest Request)
  iallgatherv c sendbuf recvbuf counts displs =
      if leb c.size 1
      then (do buf ← alone_to sendbuf recvbuf counts displs c.rank; pure (settled buf, complete))
      else do
        my_offset ← lift (get_at displs c.rank)
        my_len ← lift (get_at counts c.rank)
        buf ← lift (copy_if_fits my_len recvbuf my_offset sendbuf)
        send_to_peers u fuel c (λ peer. sendbuf) allgatherv_tag
        r ← post_recvs u fuel c.rank (get_at counts) allgatherv_tag (range 0 c.size)
        pure (settled buf, posted u fuel r)

  pub igatherv :
      Context → List ℕ → List ℕ → ℕ → ℕ → ℕ → Run World (Recvbuf Request × OsuRequest Request)
  igatherv c sendbuf recvbuf root recv_count send_count =
      if leb c.size 1
      then (if not (is_empty sendbuf) && not (is_empty recvbuf)
          then (let offset = c.rank * recv_count in
              let len =
                min (min (min send_count recv_count) (length sendbuf)) (length recvbuf - offset) in
              if leb 1 len
              then (do
                buf ← lift (move_bytes recvbuf offset sendbuf 0 len)
                pure (settled buf, complete))
              else pure (settled recvbuf, complete))
          else pure (settled recvbuf, complete))
      else if c.rank == root
      then (do
        buf ← lift (copy_if_fits send_count recvbuf (c.rank * recv_count) sendbuf)
        q ← post_from_peers u fuel c recv_count gatherv_tag
        pure (settled buf, q))
      else do send u fuel c root sendbuf gatherv_tag; pure (settled recvbuf, complete)

  -- The message of `iscatterv` and `ialltoallv` to one peer, if it lies in the buffer.
  pub send_piece : Context → List ℕ → List ℕ → List ℕ → ℕ → ℕ → Run World (Unit {0})
  send_piece c sendbuf counts displs tag peer = do
    offset ← lift (get_at displs peer)
    len ← lift (get_at counts peer)
    if leb (offset + len) (length sendbuf)
        then (do piece ← lift (slice sendbuf offset (offset + len)); send u fuel c peer piece tag)
        else pure tt

  pub iscatterv :
      Context
      → List ℕ
      → List ℕ
      → List ℕ
      → List ℕ
      → ℕ
      → Run World (Recvbuf Request × OsuRequest Request)
  iscatterv c sendbuf recvbuf counts displs root =
      if leb c.size 1
      then (do buf ← alone_from sendbuf recvbuf counts displs c.rank; pure (settled buf, complete))
      else if c.rank == root
      then (do
        my_offset ← lift (get_at displs c.rank)
        my_len ← lift (get_at counts c.rank)
        buf ← lift (move_if_fits recvbuf 0 sendbuf my_offset my_len)
        for_peers c.rank (range 0 c.size) (send_piece c sendbuf counts displs scatterv_tag)
        pure (settled buf, complete))
      else do
        len ← lift (get_at counts c.rank)
        req ← post_recv u fuel len scatterv_tag
        pure (settled recvbuf, posted u fuel (some req ∷ [], 1))

  -- As in `ialltoall`, the own piece is copied in front of the receives.
  pub ialltoallv :
      Context
      → List ℕ
      → List ℕ
      → List ℕ
      → List ℕ
      → List ℕ
      → List ℕ
      → Run World (Recvbuf Request × OsuRequest Request)
  ialltoallv c sendbuf recvbuf send_counts recv_counts send_displs recv_displs =
      if leb c.size 1
      then (do
        buf ←
            fold_each (range 0 c.size) (alltoallv_own sendbuf send_counts send_displs recv_displs)
              recvbuf
        pure (settled buf, complete))
      else do
        for_peers c.rank (range 0 c.size)
            (send_piece c sendbuf send_counts send_displs alltoallv_tag)
        buf ← alltoallv_own sendbuf send_counts send_displs recv_displs c.rank recvbuf
        r ← post_recvs u fuel c.rank (get_at recv_counts) alltoallv_tag (range 0 c.size)
        pure (settled buf, posted u fuel r)

  pub ialltoallw :
      Context
      → List ℕ
      → List ℕ
      → List ℕ
      → List ℕ
      → List ℕ
      → List ℕ
      → Run World (Recvbuf Request × OsuRequest Request)
  ialltoallw c sendbuf recvbuf send_counts recv_counts send_displs recv_displs =
      ialltoallv c sendbuf recvbuf send_counts recv_counts send_displs recv_displs

  pub ireduce_scatter :
      Context → List ℕ → List ℕ → List ℕ → Run World (Recvbuf Request × OsuRequest Request)
  ireduce_scatter c sendbuf recvbuf recvcounts =
      if leb c.size 1
      then (if not (is_empty sendbuf) && not (is_empty recvbuf)
          then (do
            len ← lift (get_at recvcounts c.rank)
            buf ←
                lift
                  (move_bytes recvbuf 0 sendbuf 0 (min (min len (length sendbuf)) (length recvbuf)))
            pure (settled buf, complete))
          else pure (settled recvbuf, complete))
      else do
        send_to_peers u fuel c (λ peer. sendbuf) reducescatter_tag
        q ← post_from_peers u fuel c (sum recvcounts) reducescatter_tag
        pure (settled recvbuf, q)

  pub ireduce_scatter_block :
      Context → List ℕ → List ℕ → ℕ → Run World (Recvbuf Request × OsuRequest Request)
  ireduce_scatter_block c sendbuf recvbuf elemcount =
      if leb c.size 1
      then (let len = min (min elemcount (length sendbuf)) (length recvbuf) in
          if leb 1 len
          then (do buf ← lift (move_bytes recvbuf 0 sendbuf 0 len); pure (settled buf, complete))
          else pure (settled recvbuf, complete))
      else do
        send_to_peers u fuel c (λ peer. sendbuf) reduce_scatter_block_tag
        q ← post_from_peers u fuel c elemcount reduce_scatter_block_tag
        pure (settled recvbuf, q)

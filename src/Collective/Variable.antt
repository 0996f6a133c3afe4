-- ===== src/Collective/Variable.antt =====
-- common/src/runtime/collective_blocking.rs: alltoall, and the collectives with a count and a
-- displacement for each rank. Each returns the new value of `recvbuf`.
pub mod Arrivals
pub mod Dealt
pub mod Alltoall
use osu_micro_benchmarks_rs.Prelude.{
  ℕ, ◌+◌, ◌-◌, ◌*◌, not, ◌&&◌, Option, none, some, List, [], ◌∷◌, leb, ◌==◌, if◌then◌else◌, length,
  range, min, replicate,
}
use osu_micro_benchmarks_rs.Rust.{Outcome, ok, panic, spin, Run, pure, lift, ◌>>=◌, ◌>>◌}
use osu_micro_benchmarks_rs.Rust.Slice.{slice, copy_at, copy_from_slice, move_bytes, move_if_fits}
use osu_micro_benchmarks_rs.Ucx.{Ucx}
use osu_micro_benchmarks_rs.Runtime.{
  Context, send, send_wait, for_peers, fold_peers, send_to_peers, try_recv, wait, recv_into,
}
use osu_micro_benchmarks_rs.Collective.Columns.{get_at}
use osu_micro_benchmarks_rs.Collective.Equal.{is_empty, copy_if_fits}

abbrev pub alltoall_tag : ℕ
alltoall_tag = 0xBADC0DE3

abbrev pub gatherv_tag : ℕ
gatherv_tag = 0xBADC0DE6

abbrev pub scatterv_tag : ℕ
scatterv_tag = 0xBADC0DE7

abbrev pub allgatherv_tag : ℕ
allgatherv_tag = 0xBADC0DE8

abbrev pub alltoallv_tag : ℕ
alltoallv_tag = 0xBADC0DEA

module _ {W : Type 0} where
  -- `for x in xs`, with variables that the body changes
  pub fold_each : {S : Type 0} → List ℕ → (ℕ → S → Run W S) → S → Run W S
  fold_each [] body s = pure s
  fold_each (x ∷ xs) body s = body x s >>= fold_each xs body

  -- A job of one rank: its own bytes to its own displacement, as many as both buffers allow.
  pub alone_to : List ℕ → List ℕ → List ℕ → List ℕ → ℕ → Run W (List ℕ)
  alone_to sendbuf recvbuf counts displs rank =
      if not (is_empty sendbuf) && not (is_empty recvbuf)
      then (do
        offset ← lift (get_at displs rank)
        len ← lift (get_at counts rank)
        lift (
            move_bytes recvbuf offset sendbuf 0
              (min (min len (length sendbuf)) (length recvbuf - offset))))
      else pure recvbuf

  -- … and from its own displacement.
  pub alone_from : List ℕ → List ℕ → List ℕ → List ℕ → ℕ → Run W (List ℕ)
  alone_from sendbuf recvbuf counts displs rank =
      if not (is_empty sendbuf) && not (is_empty recvbuf)
      then (do
        offset ← lift (get_at displs rank)
        len ← lift (get_at counts rank)
        lift (
            move_bytes recvbuf 0 sendbuf offset
              (min (min len (length sendbuf - offset)) (length recvbuf))))
      else pure recvbuf

  -- The own piece of an alltoallv.
  pub alltoallv_own : List ℕ → List ℕ → List ℕ → List ℕ → ℕ → List ℕ → Run W (List ℕ)
  alltoallv_own sendbuf send_counts send_displs recv_displs rank recvbuf = do
    src_off ← lift (get_at send_displs rank)
    dst_off ← lift (get_at recv_displs rank)
    len ← lift (get_at send_counts rank)
    lift (move_if_fits recvbuf dst_off sendbuf src_off len)

module _ (u : Ucx) (fuel : ℕ) where
  open u use {World, Request, received}

  -- The loop of receives, which copies the own piece when it comes to the own rank.
  pub alltoall_turn : Context → List ℕ → ℕ → ℕ → List ℕ × List ℕ → Run World (List ℕ × List ℕ)
  alltoall_turn c sendbuf n peer (g, buf) =
      if peer == c.rank
      then (do g' ← lift (move_bytes g (c.rank * n) sendbuf (c.rank * n) n); pure (g', buf))
      else recv_into u fuel alltoall_tag (λ p m g. copy_at g (p * n) (p * n + n) m) peer (g, buf)

  pub alltoall : Context → List ℕ → List ℕ → ℕ → Run World (List ℕ)
  alltoall c sendbuf recvbuf n = if leb c.size 1 then lift (copy_from_slice recvbuf sendbuf) else do
    for_peers c.rank (range 0 c.size) (λ peer. do
      piece ← lift (slice sendbuf (peer * n) ((peer + 1) * n))
      send u fuel c peer piece alltoall_tag)
    r ← fold_each (range 0 c.size) (alltoall_turn c sendbuf n) (recvbuf, replicate n 0)
    pure r.0

  -- `if let Ok(Some(req)) = worker.tag_recv(&mut buf, …) { while … }`: the buffer, if there was one.
  pub recv_wait : List ℕ → ℕ → Run World (Option (List ℕ))
  recv_wait buf tag = do
    r ← try_recv u fuel (length buf) tag
    elim r [
      | some q ↦ elim q [
        | some req ↦ wait u fuel req >> (λ w. ok (some (received req buf w), w))
        | none ↦ pure none
      ]
      | none ↦ pure none
    ]

  -- The root's receive from one peer.
  pub gatherv_from : List ℕ → List ℕ → ℕ → List ℕ → Run World (List ℕ)
  gatherv_from counts displs peer recvbuf = do
    offset ← lift (get_at displs peer)
    len ← lift (get_at counts peer)
    m ← recv_wait (replicate len 0) gatherv_tag
    elim m [ some bytes ↦ lift (copy_if_fits len recvbuf offset bytes) | none ↦ pure recvbuf ]

  pub gatherv : Context → List ℕ → List ℕ → List ℕ → List ℕ → ℕ → Run World (List ℕ)
  gatherv c sendbuf recvbuf counts displs root =
      if leb c.size 1
      then alone_to sendbuf recvbuf counts displs c.rank
      else if c.rank == root
      then (do
        my_offset ← lift (get_at displs c.rank)
        my_len ← lift (get_at counts c.rank)
        buf ← lift (copy_if_fits my_len recvbuf my_offset sendbuf)
        fold_peers c.rank (range 0 c.size) (gatherv_from counts displs) buf)
      else do send_wait u fuel c root sendbuf gatherv_tag; pure recvbuf

  -- The message to one peer, if it lies in the buffer.
  pub send_piece_wait : Context → List ℕ → List ℕ → List ℕ → ℕ → ℕ → Run World (Unit {0})
  send_piece_wait c sendbuf counts displs tag peer = do
    offset ← lift (get_at displs peer)
    len ← lift (get_at counts peer)
    if leb (offset + len) (length sendbuf)
        then (do
          piece ← lift (slice sendbuf offset (offset + len))
          send_wait u fuel c peer piece tag)
        else pure tt

  pub scatterv : Context → List ℕ → List ℕ → List ℕ → List ℕ → ℕ → Run World (List ℕ)
  scatterv c sendbuf recvbuf counts displs root =
      if leb c.size 1
      then alone_from sendbuf recvbuf counts displs c.rank
      else if c.rank == root
      then (do
        my_offset ← lift (get_at displs c.rank)
        my_len ← lift (get_at counts c.rank)
        buf ← lift (move_if_fits recvbuf 0 sendbuf my_offset my_len)
        for_peers c.rank (range 0 c.size) (send_piece_wait c sendbuf counts displs scatterv_tag)
        pure buf)
      else do
        m ← recv_wait recvbuf scatterv_tag
        elim m [ some bytes ↦ pure bytes | none ↦ pure recvbuf ]

  -- Phase 1: `match worker.tag_recv(…) { Ok(r) => recv_reqs.push(r), _ => recv_reqs.push(None) }`.
  -- `own` is what is done at the own rank.
  pub post_all :
      {S : Type 0}
      → ℕ
      → (ℕ → Outcome ℕ)
      → ℕ
      → (S → Run World S)
      → List ℕ
      → S
      → Run World (List (Option Request) × S)
  post_all rank len tag own [] s = pure ([], s)
  post_all rank len tag own (p ∷ ps) s =
      if p == rank
      then (do s' ← own s; r ← post_all rank len tag own ps s'; pure (none ∷ r.0, r.1))
      else do
        n ← lift (len p)
        req ← try_recv u fuel n tag
        r ← post_all rank len tag own ps s
        pure (elim req [ some q ↦ q | none ↦ none ] ∷ r.0, r.1)

  -- Phase 3: wait for the request of each peer, and store what its zeroed buffer holds then.
  pub collect_all :
      (ℕ → Outcome ℕ)
      → (ℕ → List ℕ → List ℕ → Outcome (List ℕ))
      → List ℕ
      → List (Option Request)
      → List ℕ
      → Run World (List ℕ)
  collect_all len write [] rs g = pure g
  collect_all len write (p ∷ ps) [] g = pure g
  collect_all len write (p ∷ ps) (none ∷ rs) g = collect_all len write ps rs g
  collect_all len write (p ∷ ps) (some req ∷ rs) g = do
    wait u fuel req
    n ← lift (len p)
    g' ← (λ w. lift (write p (received req (replicate n 0) w) g) w)
    collect_all len write ps rs g'

  -- `recvbuf[offset..offset + len].copy_from_slice(…)` at the place of a peer, if it lies in the buffer
  pub store_at : List ℕ → List ℕ → ℕ → List ℕ → List ℕ → Outcome (List ℕ)
  store_at counts displs peer bytes recvbuf = elim (get_at displs peer) [
    | ok offset ↦ elim (get_at counts peer) [
      | ok len ↦ copy_if_fits len recvbuf offset bytes
      | panic ↦ panic
      | spin ↦ spin
    ]
    | panic ↦ panic
    | spin ↦ spin
  ]

  pub allgatherv : Context → List ℕ → List ℕ → List ℕ → List ℕ → Run World (List ℕ)
  allgatherv c sendbuf recvbuf counts displs =
      if leb c.size 1 then alone_to sendbuf recvbuf counts displs c.rank else do
        my_offset ← lift (get_at displs c.rank)
        my_len ← lift (get_at counts c.rank)
        buf ← lift (copy_if_fits my_len recvbuf my_offset sendbuf)
        r ← post_all c.rank (get_at counts) allgatherv_tag pure (range 0 c.size) buf
        for_peers c.rank (range 0 c.size) (λ peer. send_wait u fuel c peer sendbuf allgatherv_tag)
        collect_all (get_at counts) (store_at counts displs) (range 0 c.size) r.0 r.1

  pub alltoallv : Context → List ℕ → List ℕ → List ℕ → List ℕ → List ℕ → List ℕ → Run World (List ℕ)
  alltoallv c sendbuf recvbuf sendcounts sdispls recvcounts rdispls =
      let own = alltoallv_own sendbuf sendcounts sdispls rdispls in
      if leb c.size 1 then fold_each (range 0 c.size) own recvbuf else do
        r ← post_all c.rank (get_at recvcounts) alltoallv_tag (own c.rank) (range 0 c.size) recvbuf
        for_peers c.rank (range 0 c.size)
            (send_piece_wait c sendbuf sendcounts sdispls alltoallv_tag)
        collect_all (get_at recvcounts) (store_at recvcounts rdispls) (range 0 c.size) r.0 r.1

  pub alltoallw : Context → List ℕ → List ℕ → List ℕ → List ℕ → List ℕ → List ℕ → Run World (List ℕ)
  alltoallw c sendbuf recvbuf sendcounts sdispls recvcounts rdispls =
      alltoallv c sendbuf recvbuf sendcounts sdispls recvcounts rdispls

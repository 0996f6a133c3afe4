-- ===== src/Tests/Nonblocking.antt =====
-- Runs of the non-blocking collectives, and of the handle of two requests.
use osu_micro_benchmarks_rs.Prelude.{ℕ, ◌≡◌, refl, Bool, true, none, some, List, [], ◌∷◌, arith}
use osu_micro_benchmarks_rs.Rust.{ok, ◌>>=◌}
use osu_micro_benchmarks_rs.Rust.Bytes.{to_le_bytes, length-to_le_bytes}
use osu_micro_benchmarks_rs.Ucx.Mailbox.{Boxes, mailbox, mailbox_matching}
use osu_micro_benchmarks_rs.Runtime.Wait.{Quiet, Takes}
use osu_micro_benchmarks_rs.Runtime.Slots.{to_peers, Exchanges}
use osu_micro_benchmarks_rs.Collective.Scalars.{barrier_tag, reduce_u64_tag}
use osu_micro_benchmarks_rs.Collective.Equal.{bcast_tag, allgather_tag, reduce_tag}
use osu_micro_benchmarks_rs.Nonblocking.{OsuRequest, Recvbuf, contents, wait_request}
use osu_micro_benchmarks_rs.Nonblocking.Requests.{
  pending, Balanced, Within-lag, Tested, test_lem, wait_request_lem,
}
use osu_micro_benchmarks_rs.Nonblocking.Equal.{
  ibarrier, iallreduce_ucx, ibcast_ucx, iallgather, ireduce,
}
use osu_micro_benchmarks_rs.Nonblocking.Equal.Landing.{ibcast_ucx-wait_request}
use osu_micro_benchmarks_rs.Nonblocking.Equal.Waiting.{
  ibarrier-wait_request, iallreduce_ucx-wait_request, iallgather-wait_request, ireduce-wait_request,
}
use osu_micro_benchmarks_rs.Nonblocking.Ring.{neighbor_ring, prev_rank, next_rank}
use osu_micro_benchmarks_rs.Nonblocking.Ring.Neighbors.{neighbor_ring_lem, next_rank-prev_rank_zero}
use osu_micro_benchmarks_rs.Tests.{middle, inbox}

abbrev bytes : Boxes
bytes = inbox ((7 ∷ []) ∷ (9 ∷ []) ∷ [])

abbrev words : Boxes
words = inbox (to_le_bytes 8 7 ∷ to_le_bytes 8 9 ∷ [])

abbrev handle : OsuRequest (List ℕ)
handle = record {
  recv_reqs = some (7 ∷ []) ∷ none ∷ some (9 ∷ []) ∷ [];
  has_worker = true;
  remaining = 2;
}

handle-Balanced : Balanced handle
handle-Balanced = (refl, λ f. absurd (cc))

test_example :
    (done : Bool) × (q' : OsuRequest (List ℕ)) × (w' : Boxes) × Tested mailbox mailbox_matching 1
      (omega arith)
      1
      handle
      bytes
      done
      q'
      w'
    × (q'.has_worker ≡ true)
test_example =
    test_lem mailbox mailbox_matching 1 (omega arith) 1 handle bytes handle-Balanced refl
      (Within-lag mailbox mailbox_matching handle.recv_reqs bytes (tt, (tt, tt)))

wait_request_example :
    (q' : OsuRequest (List ℕ)) × (w' : Boxes) × (wait_request mailbox 1 2 handle bytes
      ≡ ok (q', w'))
    × (pending q'.recv_reqs ≡ 0)
    × (q'.remaining ≡ 0)
    × Quiet mailbox mailbox_matching bytes w'
wait_request_example =
    wait_request_lem mailbox mailbox_matching 1 (omega arith) 2 1 handle bytes handle-Balanced refl
      (Within-lag mailbox mailbox_matching handle.recv_reqs bytes (tt, (tt, tt))) (omega arith)

ibarrier-wait_request_example :
    (q : OsuRequest (List ℕ)) × (w' : Boxes) × ((ibarrier mailbox 1 middle
          >>= wait_request mailbox 1 2)
        bytes
      ≡ ok (q, w'))
    × (q.remaining ≡ 0)
    × (pending q.recv_reqs ≡ 0)
    × Exchanges mailbox mailbox_matching bytes
        (to_peers middle (λ peer. 1 ∷ []) barrier_tag)
        barrier_tag
        []
        w'
ibarrier-wait_request_example =
    ibarrier-wait_request mailbox mailbox_matching 1 (omega arith) 2 middle
      ((7 ∷ []) ∷ (9 ∷ []) ∷ []) [] bytes (omega arith) (omega arith) (omega arith) refl refl
      (refl, (refl, tt))

iallgather-wait_request_example :
    (b : Recvbuf (List ℕ)) × (q q' : OsuRequest (List ℕ)) × (w₁ w' : Boxes) × (iallgather mailbox 1
        middle
        (5 ∷ [])
        (0 ∷ 0 ∷ 0 ∷ [])
        1
        bytes
      ≡ ok ((b, q), w₁))
    × (wait_request mailbox 1 2 q w₁ ≡ ok (q', w'))
    × (contents mailbox b w' ≡ 0 ∷ 5 ∷ 0 ∷ [])
    × (pending q.recv_reqs ≡ 2)
    × (pending q'.recv_reqs ≡ 0)
    × Exchanges mailbox mailbox_matching bytes
        (to_peers middle (λ peer. 5 ∷ []) allgather_tag)
        allgather_tag
        []
        w'
iallgather-wait_request_example =
    iallgather-wait_request mailbox mailbox_matching 1 (omega arith) 2 middle (5 ∷ [])
      (0 ∷ 0 ∷ 0 ∷ []) 1 ((7 ∷ []) ∷ (9 ∷ []) ∷ []) [] bytes (omega arith) (omega arith)
      (omega arith) refl refl refl refl (refl, (refl, tt))

ibcast_ucx-wait_request_example :
    (b : Recvbuf (List ℕ)) × (q q' : OsuRequest (List ℕ)) × (w₁ w' : Boxes) × (ibcast_ucx mailbox 1
        middle []
        (0 ∷ 3 ∷ [])
        0
        bytes
      ≡ ok ((b, q), w₁))
    × (wait_request mailbox 1 2 q w₁ ≡ ok (q', w'))
    × (contents mailbox b w' ≡ 7 ∷ 3 ∷ [])
    × (pending q'.recv_reqs ≡ 0)
    × Takes mailbox mailbox_matching bytes bcast_tag ((9 ∷ []) ∷ []) w'
ibcast_ucx-wait_request_example =
    ibcast_ucx-wait_request mailbox mailbox_matching 1 (omega arith) 2 middle [] (0 ∷ 3 ∷ []) 0
      (7 ∷ []) ((9 ∷ []) ∷ []) bytes (omega arith) (omega arith) (omega arith) refl (omega arith)

neighbor_ring_example :
    ((neighbor_ring middle).1 ≡ 2 ∷ []) × ((neighbor_ring (record middle { rank = 2 })).0 ≡ 1 ∷ [])
neighbor_ring_example = neighbor_ring_lem middle (omega arith) (omega arith) (omega arith)

-- In a ring of three the rank before rank 0 should be rank 2, and is rank 0 itself.
next_rank-prev_rank_zero_example : next_rank 3 (prev_rank 3 0) ≡ 1
next_rank-prev_rank_zero_example = next_rank-prev_rank_zero 3

ireduce-wait_request_example :
    (b : Recvbuf (List ℕ)) × (q q' : OsuRequest (List ℕ)) × (w₁ w' : Boxes) × (ireduce mailbox 1
        middle
        (5 ∷ [])
        (0 ∷ [])
        1
        1
        bytes
      ≡ ok ((b, q), w₁))
    × (wait_request mailbox 1 2 q w₁ ≡ ok (q', w'))
    × (contents mailbox b w' ≡ 0 ∷ [])
    × (pending q'.recv_reqs ≡ 0)
    × Exchanges mailbox mailbox_matching bytes
        (to_peers middle (λ peer. 5 ∷ []) reduce_tag)
        reduce_tag
        []
        w'
ireduce-wait_request_example =
    ireduce-wait_request mailbox mailbox_matching 1 (omega arith) 2 middle (5 ∷ []) (0 ∷ []) 1 1
      ((7 ∷ []) ∷ (9 ∷ []) ∷ []) [] bytes (omega arith) (omega arith) (omega arith) refl refl
      (refl, (refl, tt))

iallreduce_ucx-wait_request_example :
    (q : OsuRequest (List ℕ)) × (w' : Boxes) × ((iallreduce_ucx mailbox 1 middle 300
          >>= wait_request mailbox 1 2)
        words
      ≡ ok (q, w'))
    × (q.remaining ≡ 0)
    × (pending q.recv_reqs ≡ 0)
    × Exchanges mailbox mailbox_matching words
        (to_peers middle (λ peer. to_le_bytes 8 300) reduce_u64_tag)
        reduce_u64_tag
        []
        w'
iallreduce_ucx-wait_request_example =
    iallreduce_ucx-wait_request mailbox mailbox_matching 1 (omega arith) 2 middle 300
      (to_le_bytes 8 7 ∷ to_le_bytes 8 9 ∷ []) [] words (omega arith) (omega arith) (omega arith)
      refl refl (length-to_le_bytes 8 7, (length-to_le_bytes 8 9, tt))

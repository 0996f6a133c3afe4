-- ===== src/Tests/Blocking.antt =====
-- Runs of the barrier, the reductions and the gathers.
use osu_micro_benchmarks_rs.Prelude.{◌≡◌, refl, [], ◌∷◌, map, arith}
use mathlib.Core.List.Permᴰ
use osu_micro_benchmarks_rs.Rust.{ok}
use osu_micro_benchmarks_rs.Rust.Bytes.{to_le_bytes}
use osu_micro_benchmarks_rs.Ucx.Mailbox.{Boxes, mailbox, mailbox_matching}
use osu_micro_benchmarks_rs.Runtime.Wait.{Takes}
use osu_micro_benchmarks_rs.Runtime.Slots.{to_peers, Exchanges}
use osu_micro_benchmarks_rs.Collective.Scalars.{barrier, allreduce_u64, barrier_tag, reduce_u64_tag}
use osu_micro_benchmarks_rs.Collective.Scalars.Reduction.{barrier_lem, allreduce_u64_lem}
use osu_micro_benchmarks_rs.Collective.Equal.{
  reduce, allgather, gather, reduce_tag, allgather_tag, gather_tag,
}
use osu_micro_benchmarks_rs.Collective.Equal.Gathering.{
  allgather_lem, allgather_in_order, gather_root_lem,
}
use osu_micro_benchmarks_rs.Collective.Equal.Reduce.{reduce_lem}
use osu_micro_benchmarks_rs.Collective.Scattered.{reduce_scatter_block, reduce_scatter_block_tag}
use osu_micro_benchmarks_rs.Collective.Scattered.Pieces.{reduce_scatter_block_lem}
use osu_micro_benchmarks_rs.Tests.{middle, inbox, no_shmem}

abbrev words : Boxes
words = inbox (map (to_le_bytes 8) (7 ∷ 9 ∷ []))

abbrev bytes : Boxes
bytes = inbox ((7 ∷ []) ∷ (9 ∷ []) ∷ [])

abbrev triples : Boxes
triples = inbox ((200 ∷ 1 ∷ 2 ∷ []) ∷ (100 ∷ 3 ∷ 4 ∷ []) ∷ [])

allreduce_u64_example :
    (w' : Boxes) × (allreduce_u64 mailbox 1 middle 5 words ≡ ok (21, w'))
    × Exchanges mailbox mailbox_matching words
        (to_peers middle (λ peer. to_le_bytes 8 5) reduce_u64_tag)
        reduce_u64_tag
        []
        w'
allreduce_u64_example =
    allreduce_u64_lem mailbox mailbox_matching 1 (omega arith) middle 5 (7 ∷ 9 ∷ [])
      (5 ∷ 7 ∷ 9 ∷ []) [] words (omega arith) (omega arith) (omega arith, (omega arith, tt)) refl
      (Permᴰ.refl _) refl

barrier_example :
    (w' : Boxes) × (barrier mailbox 1 no_shmem middle bytes ≡ ok (tt, w'))
    × Exchanges mailbox mailbox_matching bytes
        (to_peers middle (λ peer. 1 ∷ []) barrier_tag)
        barrier_tag
        []
        w'
barrier_example =
    barrier_lem mailbox mailbox_matching 1 (omega arith) no_shmem middle ((7 ∷ []) ∷ (9 ∷ []) ∷ [])
      [] bytes refl (omega arith) (omega arith) (refl, (refl, tt)) refl refl

allgather_example :
    (w' : Boxes) × (allgather mailbox 1 no_shmem middle (5 ∷ []) (0 ∷ 0 ∷ 0 ∷ []) 1 bytes
      ≡ ok (7 ∷ 5 ∷ 9 ∷ [], w'))
    × Exchanges mailbox mailbox_matching bytes
        (to_peers middle (λ peer. 5 ∷ []) allgather_tag)
        allgather_tag
        []
        w'
allgather_example =
    allgather_lem mailbox mailbox_matching 1 (omega arith) no_shmem middle (5 ∷ []) (0 ∷ 0 ∷ 0 ∷ [])
      1 ((7 ∷ []) ∷ (9 ∷ []) ∷ []) [] bytes refl (omega arith) (omega arith) refl refl
      (refl, (refl, tt)) refl refl

allgather_in_order_example :
    (w' : Boxes) × (allgather mailbox 1 no_shmem middle (5 ∷ []) (0 ∷ 0 ∷ 0 ∷ []) 1 bytes
      ≡ ok (7 ∷ 5 ∷ 9 ∷ [], w'))
allgather_in_order_example =
    allgather_in_order mailbox mailbox_matching 1 (omega arith) no_shmem middle (0 ∷ 0 ∷ 0 ∷ []) 1
      ((7 ∷ []) ∷ (5 ∷ []) ∷ (9 ∷ []) ∷ []) [] bytes refl (omega arith) (omega arith) refl
      (refl, (refl, (refl, tt))) refl refl

gather_root_example :
    (w' : Boxes) × (gather mailbox 1 middle (5 ∷ []) (0 ∷ 0 ∷ 0 ∷ []) 1 1 bytes
      ≡ ok (7 ∷ 5 ∷ 9 ∷ [], w'))
    × Takes mailbox mailbox_matching bytes gather_tag [] w'
gather_root_example =
    gather_root_lem mailbox mailbox_matching 1 (omega arith) middle (5 ∷ []) (0 ∷ 0 ∷ 0 ∷ []) 1
      ((7 ∷ []) ∷ (9 ∷ []) ∷ []) [] bytes (omega arith) (omega arith) refl refl (refl, (refl, tt))
      refl refl

reduce_example :
    (w' : Boxes) × (reduce mailbox 1 middle (50 ∷ 5 ∷ 6 ∷ []) (0 ∷ 0 ∷ 0 ∷ []) 1 triples
      ≡ ok (94 ∷ 9 ∷ 12 ∷ [], w'))
    × Exchanges mailbox mailbox_matching triples
        (to_peers middle (λ peer. 50 ∷ 5 ∷ 6 ∷ []) reduce_tag)
        reduce_tag
        []
        w'
reduce_example =
    reduce_lem mailbox mailbox_matching 1 (omega arith) middle (50 ∷ 5 ∷ 6 ∷ []) (0 ∷ 0 ∷ 0 ∷ []) 1
      ((200 ∷ 1 ∷ 2 ∷ []) ∷ (100 ∷ 3 ∷ 4 ∷ []) ∷ [])
      ((50 ∷ 5 ∷ 6 ∷ []) ∷ (200 ∷ 1 ∷ 2 ∷ []) ∷ (100 ∷ 3 ∷ 4 ∷ []) ∷ []) [] triples (omega arith)
      (omega arith) refl (refl, (refl, tt)) refl (Permᴰ.refl _) refl

reduce_scatter_block_example :
    (w' : Boxes) × (reduce_scatter_block mailbox 1 middle (50 ∷ 5 ∷ 6 ∷ []) (0 ∷ []) 3 triples
      ≡ ok (9 ∷ [], w'))
    × (w'.log ≡ to_peers middle (λ peer. 50 ∷ 5 ∷ 6 ∷ []) reduce_scatter_block_tag)
    × (w'.box reduce_scatter_block_tag ≡ [])
reduce_scatter_block_example =
    reduce_scatter_block_lem mailbox mailbox_matching 1 (omega arith) middle (50 ∷ 5 ∷ 6 ∷ [])
      (0 ∷ []) 3 ((200 ∷ 1 ∷ 2 ∷ []) ∷ (100 ∷ 3 ∷ 4 ∷ []) ∷ [])
      ((50 ∷ 5 ∷ 6 ∷ []) ∷ (200 ∷ 1 ∷ 2 ∷ []) ∷ (100 ∷ 3 ∷ 4 ∷ []) ∷ []) [] triples (omega arith)
      (omega arith) refl refl (refl, (refl, tt)) refl (Permᴰ.refl _) refl

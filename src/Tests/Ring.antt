-- ===== src/Tests/Ring.antt =====
-- Runs of the neighbor allgather and of the reduce-scatter with counts.
use osu_micro_benchmarks_rs.Prelude.{◌≡◌, refl, [], ◌∷◌, arith}
use mathlib.Core.List.Permᴰ
use osu_micro_benchmarks_rs.Rust.{ok}
use osu_micro_benchmarks_rs.Ucx.Mailbox.{Boxes, mailbox, mailbox_matching}
use osu_micro_benchmarks_rs.Runtime.Slots.{to_peers, Exchanges}
use osu_micro_benchmarks_rs.Nonblocking.Ring.Neighbors.{before, after}
use osu_micro_benchmarks_rs.Collective.Neighbor.{neighbor_allgather, neighbor_allgather_tag}
use osu_micro_benchmarks_rs.Collective.Neighbor.Ring.{neighbor_allgather_lem}
use osu_micro_benchmarks_rs.Collective.Scattered.{reducescatter, reducescatter_tag}
use osu_micro_benchmarks_rs.Collective.Scattered.Counts.{reducescatter_lem}
use osu_micro_benchmarks_rs.Tests.{middle, inbox}

abbrev both : Boxes
both = inbox ((7 ∷ []) ∷ (9 ∷ []) ∷ [])

abbrev triples : Boxes
triples = inbox ((200 ∷ 1 ∷ 2 ∷ []) ∷ (100 ∷ 3 ∷ 4 ∷ []) ∷ [])

neighbor_allgather_example :
    (w' : Boxes) × (neighbor_allgather mailbox 1 middle (5 ∷ []) (0 ∷ 0 ∷ 0 ∷ []) 1 both
      ≡ ok (7 ∷ 9 ∷ 0 ∷ [], w'))
    × Exchanges mailbox mailbox_matching both
        (record { dst = before 3 1; tag = neighbor_allgather_tag; msg = 5 ∷ [] }
          ∷ record { dst = after 3 1; tag = neighbor_allgather_tag; msg = 5 ∷ [] }
          ∷ [])
        neighbor_allgather_tag
        []
        w'
neighbor_allgather_example =
    neighbor_allgather_lem mailbox mailbox_matching 1 (omega arith) middle (5 ∷ []) (0 ∷ 0 ∷ 0 ∷ [])
      1 (7 ∷ []) (9 ∷ []) [] both (omega arith) (omega arith) (omega arith) refl (omega arith) refl
      refl refl

-- The counts 1, 2 and 0: rank 1 has the second and the third byte.
reducescatter_example :
    (w' : Boxes) × (reducescatter mailbox 1 middle
        (50 ∷ 5 ∷ 6 ∷ [])
        (0 ∷ 0 ∷ [])
        (1 ∷ 2 ∷ 0 ∷ [])
        triples
      ≡ ok (9 ∷ 12 ∷ [], w'))
    × (w'.log ≡ to_peers middle (λ peer. 50 ∷ 5 ∷ 6 ∷ []) reducescatter_tag)
    × (w'.box reducescatter_tag ≡ [])
reducescatter_example =
    reducescatter_lem mailbox mailbox_matching 1 (omega arith) middle (50 ∷ 5 ∷ 6 ∷ []) (0 ∷ 0 ∷ [])
      (1 ∷ 2 ∷ 0 ∷ []) ((200 ∷ 1 ∷ 2 ∷ []) ∷ (100 ∷ 3 ∷ 4 ∷ []) ∷ [])
      ((50 ∷ 5 ∷ 6 ∷ []) ∷ (200 ∷ 1 ∷ 2 ∷ []) ∷ (100 ∷ 3 ∷ 4 ∷ []) ∷ []) [] triples (omega arith)
      (omega arith) refl refl refl (refl, (refl, tt)) refl (Permᴰ.refl _) refl

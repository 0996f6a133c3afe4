-- ===== src/Tests/Rooted.antt =====
-- Runs of broadcast, scatter and alltoall.
use osu_micro_benchmarks_rs.Prelude.{ℕ, ◌≡◌, refl, ap, List, [], ◌∷◌, arith, get_or}
use osu_micro_benchmarks_rs.Rust.{ok}
use osu_micro_benchmarks_rs.Ucx.Mailbox.{Boxes, mailbox, mailbox_matching}
use osu_micro_benchmarks_rs.Runtime.Wait.{Takes}
use osu_micro_benchmarks_rs.Runtime.Loops.{SendsAll}
use osu_micro_benchmarks_rs.Runtime.Slots.{to_peers}
use osu_micro_benchmarks_rs.Collective.Equal.{
  bcast, scatter, gather, bcast_tag, scatter_tag, gather_tag,
}
use osu_micro_benchmarks_rs.Collective.Equal.Rooted.{
  bcast_root_lem, bcast_other_lem, scatter_root_lem, gather-scatter,
}
use osu_micro_benchmarks_rs.Runtime.Slots.{Exchanges}
use osu_micro_benchmarks_rs.Collective.Variable.{alltoall, alltoall_tag}
use osu_micro_benchmarks_rs.Collective.Variable.Alltoall.{alltoall_lem}
use osu_micro_benchmarks_rs.Tests.{middle, inbox, no_shmem}

abbrev replies : Boxes
replies = inbox ((7 ∷ []) ∷ (9 ∷ []) ∷ [])

abbrev parts : List (List ℕ)
parts = (7 ∷ []) ∷ (5 ∷ []) ∷ (9 ∷ []) ∷ []

bcast_root_example :
    (w' : Boxes) × (bcast mailbox 1 no_shmem middle (4 ∷ 5 ∷ []) (0 ∷ 0 ∷ []) 1 replies
      ≡ ok (4 ∷ 5 ∷ [], w'))
    × SendsAll mailbox mailbox_matching replies (to_peers middle (λ peer. 4 ∷ 5 ∷ []) bcast_tag) w'
bcast_root_example =
    bcast_root_lem mailbox mailbox_matching 1 (omega arith) no_shmem middle (4 ∷ 5 ∷ [])
      (0 ∷ 0 ∷ []) replies refl (omega arith) refl

bcast_other_example :
    (w' : Boxes) × (bcast mailbox 1 no_shmem middle (4 ∷ 5 ∷ []) (0 ∷ []) 0 replies
      ≡ ok (7 ∷ [], w'))
    × Takes mailbox mailbox_matching replies bcast_tag ((9 ∷ []) ∷ []) w'
bcast_other_example =
    bcast_other_lem mailbox mailbox_matching 1 (omega arith) no_shmem middle (4 ∷ 5 ∷ []) (0 ∷ []) 0
      (7 ∷ []) ((9 ∷ []) ∷ []) replies refl (omega arith) (omega arith) refl refl

abbrev scattered :
    (w' : Boxes) × (scatter mailbox 1 middle (7 ∷ 5 ∷ 9 ∷ []) (0 ∷ []) 1 1 replies
      ≡ ok (5 ∷ [], w'))
    × SendsAll mailbox mailbox_matching replies
        (to_peers middle (λ p. get_or parts p []) scatter_tag)
        w'
scattered =
    scatter_root_lem mailbox mailbox_matching 1 (omega arith) middle parts (0 ∷ []) 1 replies
      (omega arith) (omega arith) refl (refl, (refl, (refl, tt))) refl

scatter_root_example :
    (w' : Boxes) × (scatter mailbox 1 middle (7 ∷ 5 ∷ 9 ∷ []) (0 ∷ []) 1 1 replies
      ≡ ok (5 ∷ [], w'))
    × SendsAll mailbox mailbox_matching replies
        (to_peers middle (λ p. get_or parts p []) scatter_tag)
        w'
scatter_root_example =
    scatter_root_lem mailbox mailbox_matching 1 (omega arith) middle parts (0 ∷ []) 1 replies
      (omega arith) (omega arith) refl (refl, (refl, (refl, tt))) refl

gather-scatter_example :
    (w₂ : Boxes) × (gather mailbox 1 middle (5 ∷ []) (0 ∷ 0 ∷ 0 ∷ []) 1 1 scattered.0
      ≡ ok (7 ∷ 5 ∷ 9 ∷ [], w₂))
gather-scatter_example =
    gather-scatter mailbox mailbox_matching 1 (omega arith) middle parts (0 ∷ []) (0 ∷ 0 ∷ 0 ∷ [])
      (5 ∷ []) 1 (to_peers middle (λ p. get_or parts p []) scatter_tag) [] replies scattered.0
      (omega arith) (omega arith) refl (refl, (refl, (refl, tt))) refl refl scattered.1
      scattered.2.0 (ap (λ f. f gather_tag) scattered.2.1)

alltoall_example :
    (w' : Boxes) × (alltoall mailbox 1 middle (7 ∷ 5 ∷ 9 ∷ []) (0 ∷ 0 ∷ 0 ∷ []) 1 replies
      ≡ ok (7 ∷ 5 ∷ 9 ∷ [], w'))
    × Exchanges mailbox mailbox_matching replies
        (to_peers middle (λ p. get_or parts p []) alltoall_tag)
        alltoall_tag
        []
        w'
alltoall_example =
    alltoall_lem mailbox mailbox_matching 1 (omega arith) middle parts (0 ∷ 0 ∷ 0 ∷ []) 1
      ((7 ∷ []) ∷ (9 ∷ []) ∷ []) [] replies (omega arith) (omega arith) refl
      (refl, (refl, (refl, tt))) refl (refl, (refl, tt)) refl refl

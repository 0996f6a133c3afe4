-- ===== src/Tests/Fan.antt =====
-- Runs of the topology of the fan-in and fan-out benchmarks.
use osu_micro_benchmarks_rs.Prelude.{
  length, ◌≡◌, ◌≢◌, Option, some, List, [], ◌∷◌, arith, refl, replicate, true,
}
use osu_micro_benchmarks_rs.Rust.{ok}
use osu_micro_benchmarks_rs.Ucx.Mailbox.{mailbox}
use osu_micro_benchmarks_rs.Fan.Names.{Name}
use osu_micro_benchmarks_rs.Fan.{Numbering, number_nodes}
use osu_micro_benchmarks_rs.Fan.Exchange.{FanTopology, fan_init}
use osu_micro_benchmarks_rs.Fan.Exchange.Start.{fan_init_root_lem}
use osu_micro_benchmarks_rs.Fan.Numbers.Agreement.{Agrees, number_nodes_lem}
use osu_micro_benchmarks_rs.Tests.{root, no_shmem, inbox}

-- Two nodes, with two ranks each.
abbrev hosts : List Name
hosts = (98 ∷ []) ∷ (97 ∷ []) ∷ (98 ∷ []) ∷ (97 ∷ []) ∷ []

number_nodes_example :
    (r : Option Numbering) × (number_nodes (length hosts) hosts ≡ ok r) × Agrees hosts r
number_nodes_example = number_nodes_lem hosts

abbrev topology_of_two : FanTopology
topology_of_two = record { total_nodes = 2; ppn = 1; is_parent = true; ranks_queue = 1 ∷ [] }

-- The name of the other rank is in the box.
fan_init-root_example :
    fan_init mailbox 3 no_shmem (λ b. b) (98 ∷ []) root (inbox (replicate 9 (replicate 256 97)))
    ≢ ok (some topology_of_two, inbox [])
fan_init-root_example =
    fan_init_root_lem mailbox 3 no_shmem root refl (omega arith) (λ b. b) (98 ∷ [])
      (inbox (replicate 9 (replicate 256 97))) (inbox []) topology_of_two

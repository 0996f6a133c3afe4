-- ===== src/Tests/Pair.antt =====
-- Runs of the pair programs, on one rank of two.
use osu_micro_benchmarks_rs.Prelude.{
  ℕ, ◌≡◌, refl, true, not, List, [], ◌∷◌, ◌++◌, arith, ◌==◌, if◌then◌else◌,
}
use osu_micro_benchmarks_rs.Rust.{ok}
use osu_micro_benchmarks_rs.Ucx.Mailbox.{Boxes, mailbox, mailbox_matching}
use osu_micro_benchmarks_rs.Runtime.{Context}
use osu_micro_benchmarks_rs.Runtime.Loops.{flat}
use osu_micro_benchmarks_rs.Runtime.Slots.{to_peers}
use osu_micro_benchmarks_rs.Collective.Scalars.{barrier_tag}
use osu_micro_benchmarks_rs.Cli.{CliArgs, message_sizes, get_iterations, get_skip}
use osu_micro_benchmarks_rs.Output.{
  BenchmarkType, print_header, print_latency_header, print_bandwidth_header,
}
use osu_micro_benchmarks_rs.Bench.{Machine, finished}
use osu_micro_benchmarks_rs.Bench.Blocking.Reports.{at_root}
use osu_micro_benchmarks_rs.Bench.Pair.{latency_tag, main_ping_pong}
use osu_micro_benchmarks_rs.Bench.Pair.Trades.{to_partner}
use osu_micro_benchmarks_rs.Bench.Pair.Frame.{size_messages, rows}
use osu_micro_benchmarks_rs.Bench.Pair.Latency.{zeros, latency_row, main_ping_pong_lem}
use osu_micro_benchmarks_rs.Bench.Pair.Bandwidth.{main_bw}
use osu_micro_benchmarks_rs.Bench.Pair.Bandwidth.Windows.{bw_tag, bw_unit, bw_row, main_bw_lem}
use osu_micro_benchmarks_rs.Tests.{root, no_shmem}
use osu_micro_benchmarks_rs.Tests.Bench.{tiny, signals}
use osu_micro_benchmarks_rs.Tests.Floats.{two_floats}

-- One message of the barrier, and some of every other tag.
abbrev waiting : List (List ℕ) → Machine Boxes two_floats.Float
waiting ms = record {
  net = record { box = λ t. if t == barrier_tag then signals 1 else ms; log = [] };
  readings = 0;
  out = [];
}

-- Rank 1 of two, with windows of two messages.
abbrev receiver : Context
receiver = record root { rank = 1 }

abbrev narrow : CliArgs
narrow = record tiny { window_size = 2 }

main_ping_pong_example :
    (s' : Machine Boxes two_floats.Float) × (main_ping_pong mailbox 3 no_shmem two_floats
        (λ n. true)
        "Latency"
        latency_tag
        root
        tiny
        (waiting (zeros 1 ++ zeros 1))
      ≡ ok (finished, s'))
    × (s'.out
        ≡ ([]
            ++ at_root root (print_header "Latency" BenchmarkType.latency ++ print_latency_header))
          ++ rows tiny
              (latency_row mailbox mailbox_matching 3
                (omega arith)
                root
                (omega arith)
                (omega arith)
                latency_tag
                no_shmem
                two_floats
                (λ n. true)
                tiny)
              0
              (1 ∷ []))
    × (s'.net.log
        ≡ []
          ++ (to_peers root (λ peer. 0 ∷ []) barrier_tag
              ++ to_partner root latency_tag (flat (size_messages tiny zeros) (1 ∷ []))))
    × (s'.net.box latency_tag ≡ [])
unfolding message_sizes get_iterations get_skip
main_ping_pong_example =
    main_ping_pong_lem mailbox mailbox_matching 3 (omega arith) root (omega arith) (omega arith)
      latency_tag no_shmem two_floats (λ n. true) refl (omega arith) "Latency" tiny (1 ∷ [])
      (signals 1) [] [] (waiting (zeros 1 ++ zeros 1)) refl (refl, tt) refl refl refl

main_bw_example :
    (s' : Machine Boxes two_floats.Float) × (main_bw mailbox 3 no_shmem two_floats
        (λ n. true)
        "Bandwidth"
        receiver
        narrow
        (waiting (zeros 1 ++ zeros 1 ++ zeros 1 ++ zeros 1))
      ≡ ok (finished, s'))
    × (s'.out
        ≡ ([]
            ++ at_root receiver
                (print_header "Bandwidth" BenchmarkType.bandwidth ++ print_bandwidth_header))
          ++ rows narrow
              (bw_row mailbox mailbox_matching 3
                (omega arith)
                receiver
                (omega arith)
                (omega arith)
                no_shmem
                two_floats
                (λ n. true)
                narrow)
              0
              (1 ∷ []))
    × (s'.net.log
        ≡ []
          ++ (to_peers receiver (λ peer. 1 ∷ []) barrier_tag
              ++ to_partner receiver
                  (bw_tag (1 == 0))
                  (flat (size_messages narrow (bw_unit 2 (1 == 0))) (1 ∷ []))))
    × (s'.net.box (bw_tag (not (1 == 0))) ≡ [])
unfolding message_sizes get_iterations get_skip
main_bw_example =
    main_bw_lem mailbox mailbox_matching 3 (omega arith) receiver (omega arith) (omega arith)
      no_shmem two_floats (λ n. true) refl "Bandwidth" narrow (1 ∷ []) (signals 1) [] []
      (waiting (zeros 1 ++ zeros 1 ++ zeros 1 ++ zeros 1)) refl (refl, tt) refl refl refl

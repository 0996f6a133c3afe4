-- ===== src/Tests/Bench.antt =====
-- Runs of the benchmark programs, on rank 0 of two.
use osu_micro_benchmarks_rs.Prelude.{
  ℕ, zero, suc, length, ◌≡◌, refl, true, List, [], ◌∷◌, ◌++◌, arith, ◌==◌, if◌then◌else◌, replicate,
}
use osu_micro_benchmarks_rs.Rust.{ok}
use osu_micro_benchmarks_rs.Ucx.Mailbox.{Boxes, mailbox, mailbox_matching}
use osu_micro_benchmarks_rs.Collective.Scalars.{barrier_tag}
use osu_micro_benchmarks_rs.Cli.{CliArgs, default_args, message_sizes, get_iterations, get_skip}
use osu_micro_benchmarks_rs.Output.{
  BenchmarkType, print_header, print_latency_header, print_latency_row,
}
use osu_micro_benchmarks_rs.Bench.{Machine, finished}
use osu_micro_benchmarks_rs.Bench.Stock.{Arrivals, Batches}
use osu_micro_benchmarks_rs.Bench.Blocking.Reports.{reported}
use osu_micro_benchmarks_rs.Bench.Blocking.Barrier.{osu_barrier}
use osu_micro_benchmarks_rs.Bench.Blocking.Barrier.Timed.{osu_barrier_lem}
use osu_micro_benchmarks_rs.Bench.Blocking.Equal.{osu_bcast}
use osu_micro_benchmarks_rs.Bench.Blocking.Equal.Broadcast.{osu_bcast_root_lem}
use osu_micro_benchmarks_rs.Bench.Blocking.Sweeping.{rows}
use osu_micro_benchmarks_rs.Tests.{root, no_shmem}
use osu_micro_benchmarks_rs.Tests.Floats.{two_floats}

abbrev words : List (List ℕ)
words = replicate 1 (replicate 8 1)

abbrev pub signals : ℕ → List (List ℕ)
signals n = replicate n (1 ∷ [])

-- Single messages of one length, one for each of `k` batches.
one_each :
    (n k : ℕ) (m : List ℕ) (l : List (List ℕ)) → length m ≡ n → Batches 2 n k (replicate k m ++ l)
one_each n zero m l h = tt
one_each n (suc k) m l h = (m ∷ [], replicate k m ++ l, refl, (h, tt), refl, one_each n k m l h)

-- One message of the peer for each barrier, and words for the reductions.
abbrev machine : ℕ → Machine Boxes two_floats.Float
machine n = record {
  net = record { box = λ t. if t == barrier_tag then signals n else words; log = [] };
  readings = 0;
  out = [];
}

-- One word for each reduction.
abbrev arriving : Arrivals
arriving = record { low = words; high = words; total = words }

abbrev short : CliArgs
short = record default_args { iterations = 1; skip = 1 }

osu_barrier_example :
    (s' : Machine Boxes two_floats.Float) × (osu_barrier mailbox 1 no_shmem two_floats
        (λ n. true)
        root
        short
        (machine 4)
      ≡ ok (finished, s'))
    × (s'.out
        ≡ (print_header "Barrier" BenchmarkType.collective_latency ++ print_latency_header)
          ++ reported mailbox mailbox_matching 1
              (omega arith)
              root
              (omega arith)
              (omega arith)
              no_shmem
              two_floats
              (λ n. true)
              print_latency_row
              0
              true
              arriving)
    × (s'.readings ≡ 2)
osu_barrier_example =
    osu_barrier_lem mailbox mailbox_matching 1 (omega arith) root (omega arith) (omega arith)
      no_shmem refl two_floats (λ n. true) short arriving (machine 4) (omega arith)
      (
        one_each 1 4 (1 ∷ []) [] refl,
        one_each 8 1 (replicate 8 1) [] refl,
        one_each 8 1 (replicate 8 1) [] refl,
        one_each 8 1 (replicate 8 1) [] refl,
        one_each 8 1 (replicate 8 1) [] refl,
        (refl, refl, refl),
      )

abbrev pub tiny : CliArgs
tiny = record short { max_message_size = 1 }

osu_bcast-root_example :
    (s' : Machine Boxes two_floats.Float) × (osu_bcast mailbox 3 no_shmem two_floats
        (λ n. true)
        root
        tiny
        (machine 3)
      ≡ ok (finished, s'))
    × (s'.out
        ≡ (print_header "Bcast Latency" BenchmarkType.collective_latency ++ print_latency_header)
          ++ rows mailbox mailbox_matching 3
              (omega arith)
              root
              (omega arith)
              (omega arith)
              no_shmem
              refl
              two_floats
              (λ n. true)
              tiny
              0
              arriving
              (1 ∷ []))
unfolding message_sizes get_iterations get_skip
osu_bcast-root_example =
    osu_bcast_root_lem mailbox mailbox_matching 3 (omega arith) root (omega arith) (omega arith)
      no_shmem refl two_floats (λ n. true) refl tiny (1 ∷ []) arriving (machine 3) refl
      (
        one_each 1 3 (1 ∷ []) [] refl,
        one_each 8 1 (replicate 8 1) [] refl,
        one_each 8 1 (replicate 8 1) [] refl,
        one_each 8 1 (replicate 8 1) [] refl,
        one_each 8 1 (replicate 8 1) [] refl,
        (refl, refl, refl),
      )

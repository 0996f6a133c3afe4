-- ===== src/Bench/Blocking/Neighbor.antt =====
-- collective/src/bin: the programs for the collectives on a ring, where every rank has two neighbors.
use osu_micro_benchmarks_rs.Prelude.{ℕ, ◌+◌, ◌*◌, ◌%◌, false, List, replicate}
use osu_micro_benchmarks_rs.Rust.{Run}
use osu_micro_benchmarks_rs.Rust.Float.{F64}
use osu_micro_benchmarks_rs.Ucx.{Ucx}
use osu_micro_benchmarks_rs.Ucx.Openshmem.{Openshmem}
use osu_micro_benchmarks_rs.Runtime.{Context}
use osu_micro_benchmarks_rs.Collective.Neighbor.{
  neighbor_allgather, neighbor_allgatherv, neighbor_alltoall, neighbor_alltoallv,
  neighbor_alltoallw,
}
use osu_micro_benchmarks_rs.Cli.{CliArgs}
use osu_micro_benchmarks_rs.Output.{BenchmarkType}
use osu_micro_benchmarks_rs.Bench.{Machine, Ending}
use osu_micro_benchmarks_rs.Bench.Blocking.{
  fill_chunks, uniform_displs, receives, report_latency, main_latency, fill_rank,
}

module _ (u : Ucx) (f : F64) where
  open u use {World}
  open f use {Float}

  -- The chunk of a neighbor has the rank, one, and the neighbor's number.
  pub fill_neighbors : Context → ℕ → List ℕ → Run (Machine World Float) (List ℕ)
  fill_neighbors c size = fill_chunks 2 size (λ chunk. (c.rank + 1 + chunk) % 256)

module _ (u : Ucx) (fuel : ℕ) (o : Openshmem u.World) (f : F64) (clock : ℕ → f.Float) where
  open u use {World}
  open f use {Float}

  pub osu_neighbor_allgather : Context → CliArgs → Run (Machine World Float) Ending
  osu_neighbor_allgather c a =
      main_latency u fuel o f clock "Neighbor Allgather Latency" BenchmarkType.collective_latency
        (record {
          buffers = (replicate a.max_message_size 0, replicate (a.max_message_size * 2) 0);
          skips = λ size. false;
          fill = fill_rank u f c;
          send_part = λ size. size;
          recv_part = λ size. size * 2;
          call = λ size. receives (λ send recv. neighbor_allgather u fuel c send recv size);
          report = report_latency u fuel o f clock c;
        })
        c a

  pub osu_neighbor_allgatherv : Context → CliArgs → Run (Machine World Float) Ending
  osu_neighbor_allgatherv c a =
      main_latency u fuel o f clock "Neighbor Allgatherv Latency" BenchmarkType.collective_latency
        (record {
          buffers = (replicate a.max_message_size 0, replicate (a.max_message_size * 2) 0);
          skips = λ size. false;
          fill = fill_rank u f c;
          send_part = λ size. size;
          recv_part = λ size. size * 2;
          call = λ size. receives (λ send recv.
              neighbor_allgatherv u fuel c send recv size (replicate 2 size)
                (uniform_displs 2 size));
          report = report_latency u fuel o f clock c;
        })
        c a

  pub osu_neighbor_alltoall : Context → CliArgs → Run (Machine World Float) Ending
  osu_neighbor_alltoall c a =
      main_latency u fuel o f clock "Neighbor Alltoall Latency" BenchmarkType.collective_latency
        (record {
          buffers = (replicate (a.max_message_size * 2) 0, replicate (a.max_message_size * 2) 0);
          skips = λ size. false;
          fill = fill_neighbors u f c;
          send_part = λ size. size * 2;
          recv_part = λ size. size * 2;
          call = λ size. receives (λ send recv. neighbor_alltoall u fuel c send recv size);
          report = report_latency u fuel o f clock c;
        })
        c a

  pub osu_neighbor_alltoallv : Context → CliArgs → Run (Machine World Float) Ending
  osu_neighbor_alltoallv c a =
      main_latency u fuel o f clock "Neighbor Alltoallv Latency" BenchmarkType.collective_latency
        (record {
          buffers = (replicate (a.max_message_size * 2) 0, replicate (a.max_message_size * 2) 0);
          skips = λ size. false;
          fill = fill_neighbors u f c;
          send_part = λ size. size * 2;
          recv_part = λ size. size * 2;
          call = λ size. receives (λ send recv.
              neighbor_alltoallv u fuel c send recv (replicate 2 size) (uniform_displs 2 size)
                (replicate 2 size) (uniform_displs 2 size));
          report = report_latency u fuel o f clock c;
        })
        c a

  pub osu_neighbor_alltoallw : Context → CliArgs → Run (Machine World Float) Ending
  osu_neighbor_alltoallw c a =
      main_latency u fuel o f clock "Neighbor Alltoallw Latency" BenchmarkType.collective_latency
        (record {
          buffers = (replicate (a.max_message_size * 2) 0, replicate (a.max_message_size * 2) 0);
          skips = λ size. false;
          fill = fill_neighbors u f c;
          send_part = λ size. size * 2;
          recv_part = λ size. size * 2;
          call = λ size. receives (λ send recv.
              neighbor_alltoallw u fuel c send recv (replicate 2 size) (uniform_displs 2 size)
                (replicate 2 size) (uniform_displs 2 size));
          report = report_latency u fuel o f clock c;
        })
        c a

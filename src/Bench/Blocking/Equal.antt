-- ===== src/Bench/Blocking/Equal.antt =====
-- collective/src/bin: the programs for the collectives with one message size, `main` with
-- `run_benchmark`. Both buffers are allocated once, for the largest message.
pub mod Broadcast
use osu_micro_benchmarks_rs.Prelude.{ℕ, ◌*◌, ◌/◌, ◌%◌, false, not, ◌==◌, replicate}
use osu_micro_benchmarks_rs.Rust.{Run}
use osu_micro_benchmarks_rs.Rust.Float.{F64}
use osu_micro_benchmarks_rs.Ucx.{Ucx}
use osu_micro_benchmarks_rs.Ucx.Openshmem.{Openshmem}
use osu_micro_benchmarks_rs.Runtime.{Context}
use osu_micro_benchmarks_rs.Collective.Equal.{bcast, reduce, allgather, gather, scatter}
use osu_micro_benchmarks_rs.Collective.Variable.{alltoall}
use osu_micro_benchmarks_rs.Collective.Scattered.{reduce_scatter_block, reducescatter}
use osu_micro_benchmarks_rs.Cli.{CliArgs}
use osu_micro_benchmarks_rs.Output.{BenchmarkType}
use osu_micro_benchmarks_rs.Bench.{Machine, Ending}
use osu_micro_benchmarks_rs.Bench.Blocking.{
  receives, report_latency, main_latency, fill_rank, fill_pieces, fill_root,
}

module _ (u : Ucx) (fuel : ℕ) (o : Openshmem u.World) (f : F64) (clock : ℕ → f.Float) where
  open u use {World}
  open f use {Float}

  pub osu_allgather : Context → CliArgs → Run (Machine World Float) Ending
  osu_allgather c a =
      main_latency u fuel o f clock "Allgather Latency" BenchmarkType.collective_latency
        (record {
          buffers = (replicate a.max_message_size 0, replicate (a.max_message_size * c.size) 0);
          skips = λ size. false;
          fill = fill_rank u f c;
          send_part = λ size. size;
          recv_part = λ size. size * c.size;
          call = λ size. receives (λ send recv. allgather u fuel o c send recv size);
          report = report_latency u fuel o f clock c;
        })
        c a

  pub osu_alltoall : Context → CliArgs → Run (Machine World Float) Ending
  osu_alltoall c a =
      main_latency u fuel o f clock "Alltoall Latency" BenchmarkType.collective_latency
        (record {
          buffers = (
            replicate (a.max_message_size * c.size) 0,
            replicate (a.max_message_size * c.size) 0,
          );
          skips = λ size. false;
          fill = fill_pieces u f c;
          send_part = λ size. size * c.size;
          recv_part = λ size. size * c.size;
          call = λ size. receives (λ send recv. alltoall u fuel c send recv size);
          report = report_latency u fuel o f clock c;
        })
        c a

  pub osu_bcast : Context → CliArgs → Run (Machine World Float) Ending
  osu_bcast c a =
      main_latency u fuel o f clock "Bcast Latency" BenchmarkType.collective_latency
        (record {
          buffers = (replicate a.max_message_size 0, replicate a.max_message_size 0);
          skips = λ size. false;
          fill = fill_rank u f c;
          send_part = λ size. size;
          recv_part = λ size. size;
          call = λ size. receives (λ send recv. bcast u fuel o c send recv 0);
          report = report_latency u fuel o f clock c;
        })
        c a

  pub osu_reduce : Context → CliArgs → Run (Machine World Float) Ending
  osu_reduce c a =
      main_latency u fuel o f clock "Reduce Latency" BenchmarkType.collective_latency
        (record {
          buffers = (replicate a.max_message_size 0, replicate a.max_message_size 0);
          skips = λ size. false;
          fill = fill_rank u f c;
          send_part = λ size. size;
          recv_part = λ size. size;
          call = λ size. receives (λ send recv. reduce u fuel c send recv 0);
          report = report_latency u fuel o f clock c;
        })
        c a

  pub osu_gather : Context → CliArgs → Run (Machine World Float) Ending
  osu_gather c a =
      main_latency u fuel o f clock "Gather Latency" BenchmarkType.collective_latency
        (record {
          buffers = (replicate a.max_message_size 0, replicate (a.max_message_size * c.size) 0);
          skips = λ size. false;
          fill = fill_rank u f c;
          send_part = λ size. size;
          recv_part = λ size. size * c.size;
          call = λ size. receives (λ send recv. gather u fuel c send recv size 0);
          report = report_latency u fuel o f clock c;
        })
        c a

  pub osu_scatter : Context → CliArgs → Run (Machine World Float) Ending
  osu_scatter c a =
      main_latency u fuel o f clock "Scatter Latency" BenchmarkType.collective_latency
        (record {
          buffers = (replicate (a.max_message_size * c.size) 0, replicate a.max_message_size 0);
          skips = λ size. false;
          fill = fill_root u f c;
          send_part = λ size. size * c.size;
          recv_part = λ size. size;
          call = λ size. receives (λ send recv. scatter u fuel c send recv size 0);
          report = report_latency u fuel o f clock c;
        })
        c a

  pub osu_reduce_scatter : Context → CliArgs → Run (Machine World Float) Ending
  osu_reduce_scatter c a =
      main_latency u fuel o f clock "Reduce-scatter Latency" BenchmarkType.latency
        (record {
          buffers = (replicate a.max_message_size 0, replicate (a.max_message_size / c.size) 0);
          skips = λ size. not (size % c.size == 0);
          fill = fill_rank u f c;
          send_part = λ size. size;
          recv_part = λ size. size / c.size;
          call = λ size.
              receives
                (λ send recv. reducescatter u fuel c send recv (replicate c.size (size / c.size)));
          report = report_latency u fuel o f clock c;
        })
        c a

  pub osu_reduce_scatter_block : Context → CliArgs → Run (Machine World Float) Ending
  osu_reduce_scatter_block c a =
      main_latency u fuel o f clock "Reduce_scatter_block Latency" BenchmarkType.latency
        (record {
          buffers = (replicate a.max_message_size 0, replicate (a.max_message_size / c.size) 0);
          skips = λ size. not (size % c.size == 0);
          fill = fill_rank u f c;
          send_part = λ size. size;
          recv_part = λ size. size / c.size;
          call = λ size. receives (λ send recv. reduce_scatter_block u fuel c send recv size);
          report = report_latency u fuel o f clock c;
        })
        c a

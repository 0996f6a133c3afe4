-- ===== src/Bench/Blocking/Variable.antt =====
-- collective/src/bin: the programs for the collectives with counts and displacements, which are the
-- same for every rank here.
use osu_micro_benchmarks_rs.Prelude.{ℕ, ◌*◌, false, replicate}
use osu_micro_benchmarks_rs.Rust.{Run}
use osu_micro_benchmarks_rs.Rust.Float.{F64}
use osu_micro_benchmarks_rs.Ucx.{Ucx}
use osu_micro_benchmarks_rs.Ucx.Openshmem.{Openshmem}
use osu_micro_benchmarks_rs.Runtime.{Context}
use osu_micro_benchmarks_rs.Collective.Variable.{
  gatherv, scatterv, allgatherv, alltoallv, alltoallw,
}
use osu_micro_benchmarks_rs.Cli.{CliArgs}
use osu_micro_benchmarks_rs.Output.{BenchmarkType}
use osu_micro_benchmarks_rs.Bench.{Machine, Ending}
use osu_micro_benchmarks_rs.Bench.Blocking.{
  uniform_displs, receives, report_latency, main_latency, fill_rank, fill_pieces, fill_root,
}

module _ (u : Ucx) (fuel : ℕ) (o : Openshmem u.World) (f : F64) (clock : ℕ → f.Float) where
  open u use {World}
  open f use {Float}

  pub osu_allgatherv : Context → CliArgs → Run (Machine World Float) Ending
  osu_allgatherv c a =
      main_latency u fuel o f clock "Allgatherv Latency" BenchmarkType.collective_latency
        (record {
          buffers = (replicate a.max_message_size 0, replicate (a.max_message_size * c.size) 0);
          skips = λ size. false;
          fill = fill_rank u f c;
          send_part = λ size. size;
          recv_part = λ size. size * c.size;
          call = λ size. receives (λ send recv.
              allgatherv u fuel c send recv (replicate c.size size) (uniform_displs c.size size));
          report = report_latency u fuel o f clock c;
        })
        c a

  pub osu_gatherv : Context → CliArgs → Run (Machine World Float) Ending
  osu_gatherv c a =
      main_latency u fuel o f clock "Gatherv Latency" BenchmarkType.collective_latency
        (record {
          buffers = (replicate a.max_message_size 0, replicate (a.max_message_size * c.size) 0);
          skips = λ size. false;
          fill = fill_rank u f c;
          send_part = λ size. size;
          recv_part = λ size. size * c.size;
          call = λ size. receives (λ send recv.
              gatherv u fuel c send recv (replicate c.size size) (uniform_displs c.size size) 0);
          report = report_latency u fuel o f clock c;
        })
        c a

  pub osu_scatterv : Context → CliArgs → Run (Machine World Float) Ending
  osu_scatterv c a =
      main_latency u fuel o f clock "Scatterv Latency" BenchmarkType.collective_latency
        (record {
          buffers = (replicate (a.max_message_size * c.size) 0, replicate a.max_message_size 0);
          skips = λ size. false;
          fill = fill_root u f c;
          send_part = λ size. size * c.size;
          recv_part = λ size. size;
          call = λ size. receives (λ send recv.
              scatterv u fuel c send recv (replicate c.size size) (uniform_displs c.size size) 0);
          report = report_latency u fuel o f clock c;
        })
        c a

  pub osu_alltoallv : Context → CliArgs → Run (Machine World Float) Ending
  osu_alltoallv c a =
      main_latency u fuel o f clock "All-to-Allv Personalized Exchange Latency"
        BenchmarkType.collective_latency
        (record {
          buffers = (
            replicate (a.max_message_size * c.size) 0,
            replicate (a.max_message_size * c.size) 0,
          );
          skips = λ size. false;
          fill = fill_pieces u f c;
          send_part = λ size. size * c.size;
          recv_part = λ size. size * c.size;
          call = λ size. receives (λ send recv.
              alltoallv u fuel c send recv (replicate c.size size) (uniform_displs c.size size)
                (replicate c.size size) (uniform_displs c.size size));
          report = report_latency u fuel o f clock c;
        })
        c a

  pub osu_alltoallw : Context → CliArgs → Run (Machine World Float) Ending
  osu_alltoallw c a =
      main_latency u fuel o f clock "All-to-Allw Personalized Exchange Latency"
        BenchmarkType.collective_latency
        (record {
          buffers = (
            replicate (a.max_message_size * c.size) 0,
            replicate (a.max_message_size * c.size) 0,
          );
          skips = λ size. false;
          fill = fill_pieces u f c;
          send_part = λ size. size * c.size;
          recv_part = λ size. size * c.size;
          call = λ size. receives (λ send recv.
              alltoallw u fuel c send recv (replicate c.size size) (uniform_displs c.size size)
                (replicate c.size size) (uniform_displs c.size size));
          report = report_latency u fuel o f clock c;
        })
        c a

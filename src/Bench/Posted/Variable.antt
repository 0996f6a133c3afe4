-- ===== src/Bench/Posted/Variable.antt =====
-- collective/src/bin: the programs for the non-blocking collectives with counts. The message size is 0.
use osu_micro_benchmarks_rs.Prelude.{ℕ, ◌*◌, replicate}
use osu_micro_benchmarks_rs.Rust.{Run}
use osu_micro_benchmarks_rs.Rust.Float.{F64}
use osu_micro_benchmarks_rs.Ucx.{Ucx}
use osu_micro_benchmarks_rs.Ucx.Openshmem.{Openshmem}
use osu_micro_benchmarks_rs.Runtime.{Context}
use osu_micro_benchmarks_rs.Nonblocking.Variable.{
  iallgatherv, igatherv, iscatterv, ialltoallv, ialltoallw, ireduce_scatter, ireduce_scatter_block,
}
use osu_micro_benchmarks_rs.Cli.{CliArgs}
use osu_micro_benchmarks_rs.Bench.{Machine, Ending}
use osu_micro_benchmarks_rs.Bench.Blocking.{uniform_displs}
use osu_micro_benchmarks_rs.Bench.Posted.{main_empty}

module _ (u : Ucx) (fuel : ℕ) (o : Openshmem u.World) (f : F64) (clock : ℕ → f.Float) where
  open u use {World, Request}
  open f use {Float}

  pub osu_iallgatherv : Context → CliArgs → Run (Machine World Float) Ending
  osu_iallgatherv c a =
      main_empty u fuel o f clock "Non-blocking Allgatherv" c a (replicate (0 * c.size) 0)
        (λ recvbuf.
          iallgatherv u fuel c (replicate 0 0) recvbuf (replicate c.size 0)
            (uniform_displs c.size 0))

  pub osu_igatherv : Context → CliArgs → Run (Machine World Float) Ending
  osu_igatherv c a =
      main_empty u fuel o f clock "Non-blocking Gatherv" c a (replicate (0 * c.size) 0)
        (λ recvbuf. igatherv u fuel c (replicate 0 0) recvbuf 0 0 0)

  pub osu_iscatterv : Context → CliArgs → Run (Machine World Float) Ending
  osu_iscatterv c a =
      main_empty u fuel o f clock "Non-blocking Scatterv" c a (replicate 0 0) (λ recvbuf.
        iscatterv u fuel c (replicate (0 * c.size) 0) recvbuf (replicate c.size 0)
          (uniform_displs c.size 0) 0)

  pub osu_ialltoallv : Context → CliArgs → Run (Machine World Float) Ending
  osu_ialltoallv c a =
      main_empty u fuel o f clock "Non-blocking Alltoallv" c a (replicate (0 * c.size) 0)
        (λ recvbuf.
          ialltoallv u fuel c (replicate (0 * c.size) 0) recvbuf (replicate c.size 0)
            (replicate c.size 0) (uniform_displs c.size 0) (uniform_displs c.size 0))

  pub osu_ialltoallw : Context → CliArgs → Run (Machine World Float) Ending
  osu_ialltoallw c a =
      main_empty u fuel o f clock "Non-blocking Alltoallw" c a (replicate (0 * c.size) 0)
        (λ recvbuf.
          ialltoallw u fuel c (replicate (0 * c.size) 0) recvbuf (replicate c.size 0)
            (replicate c.size 0) (uniform_displs c.size 0) (uniform_displs c.size 0))

  pub osu_ireduce_scatter : Context → CliArgs → Run (Machine World Float) Ending
  osu_ireduce_scatter c a =
      main_empty u fuel o f clock "Non-blocking Reduce_scatter" c a (replicate 0 0) (λ recvbuf.
        ireduce_scatter u fuel c (replicate (0 * c.size) 0) recvbuf (replicate c.size 0))

  pub osu_ireduce_scatter_block : Context → CliArgs → Run (Machine World Float) Ending
  osu_ireduce_scatter_block c a =
      main_empty u fuel o f clock "Non-blocking Reduce_scatter_block" c a (replicate 0 0)
        (λ recvbuf. ireduce_scatter_block u fuel c (replicate (0 * c.size) 0) recvbuf 0)

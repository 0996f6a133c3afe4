-- ===== src/Bench/Posted/Equal.antt =====
-- collective/src/bin: the programs for the non-blocking collectives with one message size, `main` with
-- `run_benchmark`. The message size is 0.
use osu_micro_benchmarks_rs.Prelude.{ℕ, ◌*◌, [], replicate}
use osu_micro_benchmarks_rs.Rust.{Run}
use osu_micro_benchmarks_rs.Rust.Float.{F64}
use osu_micro_benchmarks_rs.Ucx.{Ucx}
use osu_micro_benchmarks_rs.Ucx.Openshmem.{Openshmem}
use osu_micro_benchmarks_rs.Runtime.{Context}
use osu_micro_benchmarks_rs.Nonblocking.Equal.{
  ibarrier, iallreduce, ibcast, iallgather, ireduce, iscatter, igather, ialltoall,
}
use osu_micro_benchmarks_rs.Cli.{CliArgs}
use osu_micro_benchmarks_rs.Bench.{Machine, Ending}
use osu_micro_benchmarks_rs.Bench.Posted.{bufferless, main_empty}

module _ (u : Ucx) (fuel : ℕ) (o : Openshmem u.World) (f : F64) (clock : ℕ → f.Float) where
  open u use {World, Request}
  open f use {Float}

  pub osu_ibarrier : Context → CliArgs → Run (Machine World Float) Ending
  osu_ibarrier c a =
      main_empty u fuel o f clock "Non-blocking Barrier" c a ([])
        (bufferless u fuel o f clock (ibarrier u fuel c))

  pub osu_iallreduce : Context → CliArgs → Run (Machine World Float) Ending
  osu_iallreduce c a =
      main_empty u fuel o f clock "Non-blocking Allreduce" c a ([])
        (bufferless u fuel o f clock (iallreduce u fuel o c c.rank))

  pub osu_ibcast : Context → CliArgs → Run (Machine World Float) Ending
  osu_ibcast c a =
      main_empty u fuel o f clock "Non-blocking Broadcast" c a (replicate 0 0)
        (λ recvbuf. ibcast u fuel o c (replicate 0 0) recvbuf 0)

  pub osu_iallgather : Context → CliArgs → Run (Machine World Float) Ending
  osu_iallgather c a =
      main_empty u fuel o f clock "Non-blocking Allgather" c a (replicate (0 * c.size) 0)
        (λ recvbuf. iallgather u fuel c (replicate 0 0) recvbuf 0)

  pub osu_ireduce : Context → CliArgs → Run (Machine World Float) Ending
  osu_ireduce c a =
      main_empty u fuel o f clock "Non-blocking Reduce" c a (replicate 0 0)
        (λ recvbuf. ireduce u fuel c (replicate 0 0) recvbuf 0 0)

  pub osu_igather : Context → CliArgs → Run (Machine World Float) Ending
  osu_igather c a =
      main_empty u fuel o f clock "Non-blocking Gather" c a (replicate (0 * c.size) 0)
        (λ recvbuf. igather u fuel c (replicate 0 0) recvbuf 0 0)

  pub osu_iscatter : Context → CliArgs → Run (Machine World Float) Ending
  osu_iscatter c a =
      main_empty u fuel o f clock "Non-blocking Scatter" c a (replicate 0 0)
        (λ recvbuf. iscatter u fuel c (replicate (0 * c.size) 0) recvbuf 0 0)

  pub osu_ialltoall : Context → CliArgs → Run (Machine World Float) Ending
  osu_ialltoall c a =
      main_empty u fuel o f clock "Non-blocking Alltoall" c a (replicate (0 * c.size) 0)
        (λ recvbuf. ialltoall u fuel c (replicate (0 * c.size) 0) recvbuf 0)

-- ===== src/Bench/Posted/Ring.antt =====
-- collective/src/bin: the programs for the non-blocking collectives on the ring.
use Prim.Native.String.{String}
use osu_micro_benchmarks_rs.Prelude.{ℕ, ◌*◌, ◌==◌, List, replicate}
use osu_micro_benchmarks_rs.Rust.{Run}
use osu_micro_benchmarks_rs.Rust.Float.{F64}
use osu_micro_benchmarks_rs.Ucx.{Ucx}
use osu_micro_benchmarks_rs.Ucx.Openshmem.{Openshmem}
use osu_micro_benchmarks_rs.Runtime.{Context}
use osu_micro_benchmarks_rs.Nonblocking.{OsuRequest, Recvbuf}
use osu_micro_benchmarks_rs.Nonblocking.Ring.{
  ineighbor_allgather, ineighbor_allgatherv, ineighbor_alltoall, ineighbor_alltoallv,
  ineighbor_alltoallw,
}
use osu_micro_benchmarks_rs.Cli.{CliArgs}
use osu_micro_benchmarks_rs.Bench.{Machine, Ending}
use osu_micro_benchmarks_rs.Bench.Blocking.{uniform_displs}
use osu_micro_benchmarks_rs.Bench.Posted.{main_posted, posted_size, counts_from}

module _ (u : Ucx) (fuel : ℕ) (o : Openshmem u.World) (f : F64) (clock : ℕ → f.Float) where
  open u use {World, Request}
  open f use {Float}

  -- The buffers are allocated anew for each count; the receive buffer has a piece for each rank. There
  -- are 18 counts.
  pub main_ring :
      String
      → Context
      → CliArgs
      → (ℕ → List ℕ → Run World (Recvbuf Request × OsuRequest Request))
      → Run (Machine World Float) Ending
  main_ring name c a start = main_posted u fuel o f clock name c (
      counts_from 18
        (λ size.
          posted_size u fuel o f clock (size == 0) c a size (replicate (c.size * size) 0)
            (start size))
        0)

  pub osu_ineighbor_allgather : Context → CliArgs → Run (Machine World Float) Ending
  osu_ineighbor_allgather c a =
      main_ring "Non-blocking Ineighbor_allgather" c a
        (λ size recvbuf. ineighbor_allgather u fuel c (replicate size 0) recvbuf size)

  pub osu_ineighbor_allgatherv : Context → CliArgs → Run (Machine World Float) Ending
  osu_ineighbor_allgatherv c a = main_ring "Non-blocking Ineighbor_allgatherv" c a (λ size recvbuf.
      ineighbor_allgatherv u fuel c (replicate size 0) recvbuf (replicate c.size size)
        (uniform_displs c.size size))

  pub osu_ineighbor_alltoall : Context → CliArgs → Run (Machine World Float) Ending
  osu_ineighbor_alltoall c a =
      main_ring "Non-blocking Ineighbor_alltoall" c a
        (λ size recvbuf. ineighbor_alltoall u fuel c (replicate (c.size * size) 0) recvbuf size)

  pub osu_ineighbor_alltoallv : Context → CliArgs → Run (Machine World Float) Ending
  osu_ineighbor_alltoallv c a = main_ring "Non-blocking Ineighbor_alltoallv" c a (λ size recvbuf.
      ineighbor_alltoallv u fuel c (replicate (c.size * size) 0) recvbuf (replicate c.size size)
        (replicate c.size size) (uniform_displs c.size size) (uniform_displs c.size size))

  pub osu_ineighbor_alltoallw : Context → CliArgs → Run (Machine World Float) Ending
  osu_ineighbor_alltoallw c a = main_ring "Non-blocking Ineighbor_alltoallw" c a (λ size recvbuf.
      ineighbor_alltoallw u fuel c (replicate (c.size * size) 0) recvbuf (replicate c.size size)
        (replicate c.size size) (uniform_displs c.size size) (uniform_displs c.size size))

-- ===== src/Bench/Blocking/Barrier.antt =====
-- collective/src/bin/osu_barrier.rs: one loop over warm-up and timed iterations.
pub mod Timed
use osu_micro_benchmarks_rs.Prelude.{ℕ, ◌+◌, ◌%◌, ◌^◌, ◌++◌, ltb, leb, if◌then◌else◌, range}
use osu_micro_benchmarks_rs.Rust.{Run, pure, ◌>>=◌, ◌>>◌}
use osu_micro_benchmarks_rs.Rust.Float.{F64}
use osu_micro_benchmarks_rs.Ucx.{Ucx}
use osu_micro_benchmarks_rs.Ucx.Openshmem.{Openshmem}
use osu_micro_benchmarks_rs.Runtime.{Context}
use osu_micro_benchmarks_rs.Collective.Scalars.{barrier}
use osu_micro_benchmarks_rs.Cli.{CliArgs}
use osu_micro_benchmarks_rs.Output.{BenchmarkType, print_header, print_latency_header}
use osu_micro_benchmarks_rs.Bench.{
  Machine, Ending, finished, exited, on_net, elapsed_us, on_root, for_all,
}
use osu_micro_benchmarks_rs.Bench.Blocking.{report_latency}

module _ (u : Ucx) (fuel : ℕ) (o : Openshmem u.World) (f : F64) (clock : ℕ → f.Float) where
  open u use {World}
  open f use {Float, add_f64, zero_f64}

  -- The body of the loop; `i` counts the iterations.
  pub barrier_turn : Context → ℕ → ℕ → Float → Run (Machine World Float) Float
  barrier_turn c skip i timer = do
    on_net (barrier u fuel o c)
    us ← elapsed_us clock
    (if leb skip i then on_net (barrier u fuel o c) >> pure (add_f64 timer us) else pure timer)

  pub osu_barrier : Context → CliArgs → Run (Machine World Float) Ending
  osu_barrier c a = do
    on_root c (print_header "Barrier" BenchmarkType.collective_latency ++ print_latency_header)
    (if ltb c.size 2 then pure (exited 1) else do
      on_net (barrier u fuel o c)
      timer ← for_all (range 0 ((a.iterations + a.skip) % 2 ^ 64)) (barrier_turn c a.skip) zero_f64
      report_latency u fuel o f clock c 0 a.iterations timer
      pure finished)

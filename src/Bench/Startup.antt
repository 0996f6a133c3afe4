-- ===== src/Bench/Startup.antt =====
-- startup/src/bin: the programs that greet, and that time the start-up. The start-up itself lies before
-- them; the first reading of the clock is its time.
use osu_micro_benchmarks_rs.Prelude.{ℕ, [], ◌∷◌, ◌++◌, ltb, if◌then◌else◌}
use osu_micro_benchmarks_rs.Rust.{Run, pure, ◌>>=◌, ◌>>◌}
use osu_micro_benchmarks_rs.Rust.Float.{F64}
use osu_micro_benchmarks_rs.Ucx.{Ucx}
use osu_micro_benchmarks_rs.Ucx.Openshmem.{Openshmem}
use osu_micro_benchmarks_rs.Runtime.{Context}
use osu_micro_benchmarks_rs.Collective.Scalars.{
  barrier, allreduce_min_f64, allreduce_max_f64, allreduce_sum_f64,
}
use osu_micro_benchmarks_rs.Output.{
  text, left_number, newline, BenchmarkType, print_header, print_latency_header, print_latency_row,
  print_newline,
}
use osu_micro_benchmarks_rs.Bench.{
  Machine, Ending, finished, exited, on_net, print, elapsed_us, on_root,
}

module _ (u : Ucx) (fuel : ℕ) (o : Openshmem u.World) (f : F64) (clock : ℕ → f.Float) where
  open u use {World}
  open f use {Float, div_f64, of_usize}

  pub osu_hello : Context → Run (Machine World Float) Ending
  osu_hello c = do
    on_net (barrier u fuel o c)
    on_root c (
        text "# OSU MPI Hello World Test v7.5.2 (Rust)"
        ∷ newline
        ∷ text "# Processes: "
        ∷ left_number 0 c.size
        ∷ newline
        ∷ [])
    on_net (barrier u fuel o c)
    print (
        text "Hello, World from process "
        ∷ left_number 0 c.rank
        ∷ text " of "
        ∷ left_number 0 c.size
        ∷ newline
        ∷ [])
    on_net (barrier u fuel o c)
    pure finished

  pub osu_init : Context → Run (Machine World Float) Ending
  osu_init c = do
    init_us ← elapsed_us clock
    (if ltb c.size 1 then pure (exited 1) else do
      on_net (barrier u fuel o c)
      min_t ← on_net (allreduce_min_f64 u fuel f c init_us)
      max_t ← on_net (allreduce_max_f64 u fuel f c init_us)
      sum_t ← on_net (allreduce_sum_f64 u fuel f c init_us)
      on_root c (
          print_header "Init" BenchmarkType.collective_latency
          ++ print_latency_header
          ++ print_latency_row 0 (div_f64 sum_t (of_usize c.size)) min_t max_t
          ++ print_newline)
      on_net (barrier u fuel o c)
      pure finished)

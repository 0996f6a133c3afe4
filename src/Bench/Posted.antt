-- ===== src/Bench/Posted.antt =====
-- collective/src/bin: the frame of the programs that time a non-blocking collective and its `wait`.
-- They differ in their buffers and in the call. The size of the message is 0 in all but the programs
-- on the ring, which go through the sizes 0, 1, 2, 4 to 65536.
pub mod Equal
pub mod Variable
pub mod Ring
use Prim.Native.String.{String}
use osu_micro_benchmarks_rs.Prelude.{
  ℕ, zero, suc, ◌+◌, ◌*◌, ◌%◌, ◌^◌, Bool, true, false, List, [], ◌∷◌, ◌++◌, ltb, leb, ◌==◌,
  if◌then◌else◌, range,
}
use osu_micro_benchmarks_rs.Rust.{Outcome, ok, panic, spin, Run, pure, lift, ◌>>=◌, ◌>>◌}
use osu_micro_benchmarks_rs.Rust.Float.{F64}
use osu_micro_benchmarks_rs.Ucx.{Ucx}
use osu_micro_benchmarks_rs.Ucx.Openshmem.{Openshmem}
use osu_micro_benchmarks_rs.Runtime.{Context}
use osu_micro_benchmarks_rs.Collective.Scalars.{barrier, allreduce_min_f64, allreduce_max_f64}
use osu_micro_benchmarks_rs.Nonblocking.{OsuRequest, Recvbuf, settled, contents, wait_request}
use osu_micro_benchmarks_rs.Cli.{CliArgs}
use osu_micro_benchmarks_rs.Output.{
  BenchmarkType, print_header, print_nbc_header, print_nbc_row, print_newline,
}
use osu_micro_benchmarks_rs.Bench.{
  Machine, Ending, finished, exited, on_net, elapsed_us, on_root, for_all,
}

-- `timer`, `tcomp_total`, `wait_total` and `init_total`
pub record Totals (F : Type 0) : Type 0 where
  pub timer : F
  pub tcomp : F
  pub wait : F
  pub init : F

abbrev pub max_count : ℕ
max_count = 65536

module _ (u : Ucx) (fuel : ℕ) (o : Openshmem u.World) (f : F64) (clock : ℕ → f.Float) where
  open u use {World, Request}
  open f use {Float, add_f64, sub_f64, div_f64, of_usize, zero_f64}

  -- A call that starts a collective on a receive buffer.
  abbrev pub Start : Type 0
  Start = List ℕ → Run World (Recvbuf Request × OsuRequest Request)

  -- `ibarrier` and `iallreduce` have no buffer.
  pub bufferless : Run World (OsuRequest Request) → Start
  bufferless call recvbuf = do q ← call; pure (settled recvbuf, q)

  -- The receive buffer, as it is now.
  pub read_back : Recvbuf Request → Run World (List ℕ)
  read_back b w = ok (contents u b w, w)

  abbrev pub no_time : Totals Float
  no_time = record { timer = zero_f64; tcomp = zero_f64; wait = zero_f64; init = zero_f64 }

  -- The body of the loop: the call, nothing in place of a computation, and the wait; the timed
  -- iterations are added up and end with a barrier.
  pub posted_turn :
      Context
      → Start
      → ℕ
      → ℕ
      → List ℕ × Totals Float
      → Run (Machine World Float) (List ℕ × Totals Float)
  posted_turn c start skip i (recvbuf, t) = do
    r ← on_net (start recvbuf)
    init_time ← elapsed_us clock
    comp_time ← elapsed_us clock
    _ ← on_net (wait_request u fuel (suc fuel) r.1)
    buf ← on_net (read_back r.0)
    wait_time ← elapsed_us clock
    us ← elapsed_us clock
    (if leb skip i
        then on_net (barrier u fuel o c)
          >> pure (
            buf,
            record {
              timer = add_f64 t.timer us;
              tcomp = add_f64 t.tcomp comp_time;
              wait = add_f64 t.wait wait_time;
              init = add_f64 t.init init_time;
            },
          )
        else pure (buf, t))

  -- The averages, two reductions whose results are not used, and the row of rank 0.
  pub report_posted :
      Bool → Context → CliArgs → ℕ → Totals Float → Run (Machine World Float) (Unit {0})
  report_posted header c a size t =
      let n = of_usize a.iterations in
      let overlap = div_f64 t.timer n in
      let init = div_f64 t.init n in
      do
        _ ← on_net (allreduce_min_f64 u fuel f c overlap)
        _ ← on_net (allreduce_max_f64 u fuel f c overlap)
        on_root c (
            (if header then print_nbc_header else [])
            ++ print_nbc_row size overlap (div_f64 t.tcomp n) (sub_f64 overlap init)
                (div_f64 t.wait n) init
            ++ print_newline)

  -- The loop for one message size, with its report.
  pub posted_size :
      Bool → Context → CliArgs → ℕ → List ℕ → Start → Run (Machine World Float) (Unit {0})
  posted_size header c a size recvbuf start = do
    r ←
        for_all (range 0 ((a.iterations + a.skip) % 2 ^ 64)) (posted_turn c start a.skip)
          (recvbuf, no_time)
    report_posted header c a size r.1

  -- The head of `main` and of `run_benchmark`, and the barrier before the loop.
  pub main_posted :
      String → Context → Run (Machine World Float) (Unit {0}) → Run (Machine World Float) Ending
  main_posted name c body = do
    on_root c (print_header name BenchmarkType.non_blocking_collective)
    (if ltb c.size 2 then pure (exited 1) else do on_net (barrier u fuel o c); body; pure finished)

  -- A program whose messages are empty.
  pub main_empty : String → Context → CliArgs → List ℕ → Start → Run (Machine World Float) Ending
  main_empty name c a recvbuf start = main_posted name c (posted_size true c a 0 recvbuf start)

-- `count = 1`, or `count *= 2`
pub next_count : ℕ → ℕ
next_count count = if count == 0 then 1 else count * 2

-- `count == 0 || count < max_count`: the loop goes on.
pub goes_on : ℕ → Bool
goes_on count = if count == 0 then true else ltb count max_count

-- The loop over the counts, by rounds: the test for the last one comes at its end.
pub counts_from : {M : Type 0} → ℕ → (ℕ → Run M (Unit {0})) → ℕ → Run M (Unit {0})
counts_from zero body count = λ s. spin
counts_from (suc n) body count =
    body count
    >> elim (goes_on count) [ true ↦ counts_from n body (next_count count) | false ↦ pure tt ]

-- ===== src/Bench/Onesided/Programs.antt =====
-- onesided/src/bin: the programs. `remote` is what the start-up exchanged: the address of a rank's region,
-- if there is a key for it.
use Prim.Native.String.{String}
use osu_micro_benchmarks_rs.Prelude.{
  ℕ, ◌-◌, ◌*◌, ◌%◌, ◌^◌, Option, List, ◌++◌, ◌==◌, if◌then◌else◌, range, replicate, map,
}
use osu_micro_benchmarks_rs.Rust.{Run, pure, lift, expect, ◌>>=◌, ◌>>◌}
use osu_micro_benchmarks_rs.Rust.Float.{F64}
use osu_micro_benchmarks_rs.Ucx.{Ucx}
use osu_micro_benchmarks_rs.Ucx.Openshmem.{Openshmem}
use osu_micro_benchmarks_rs.Ucx.Rma.{Rma}
use osu_micro_benchmarks_rs.Runtime.{Context}
use osu_micro_benchmarks_rs.Cli.{CliArgs, get_iterations, get_skip, message_sizes}
use osu_micro_benchmarks_rs.Output.{
  Piece, BenchmarkType, print_header, print_latency_header, print_bandwidth_header,
  print_bandwidth_avg, print_newline,
}
use osu_micro_benchmarks_rs.Bench.{
  Machine, Ending, finished, exited, on_net, elapsed_us, on_root, times, for_all,
}
use osu_micro_benchmarks_rs.Bench.Pair.{latency_size}
use osu_micro_benchmarks_rs.Bench.Pair.Bandwidth.{megabytes_per_second}
use osu_micro_benchmarks_rs.Bench.Onesided.{accepted, both_fenced, fenced, do_put_bw, do_get_bw}
use osu_micro_benchmarks_rs.Bench.Onesided.Atomics.{do_accumulate, do_fop, do_get_acc, do_cas}

-- The bytes of the put buffers.
abbrev pub pattern : ℕ → List ℕ
pattern size = map (λ i. i % 256) (range 0 size)

abbrev pub ones : ℕ → List ℕ
ones size = replicate size 1

module _ (u : Ucx) (r : Rma u) (fuel : ℕ) (o : Openshmem u.World) (f : F64) (clock : ℕ → f.Float)
    (remote : ℕ → Option ℕ) where
  open u use {World}
  open f use {Float, add_f64, mul_f64, of_usize, zero_f64}

  -- A program with a header and a body for each message size; it needs just two ranks.
  pub main_onesided :
      List (Piece Float)
      → (ℕ → Run (Machine World Float) (Unit {0}))
      → Context
      → CliArgs
      → Run (Machine World Float) Ending
  main_onesided header body c a = do
    on_root c header
    (if c.size == 2
        then (do
          sizes ← lift (message_sizes fuel a)
          for_all sizes (λ size _. body size) tt
          pure finished)
        else pure (exited 1))

  -- The programs that time single operations: from the size of the message and the remote address.
  pub main_operation :
      String
      → (Context → ℕ → ℕ → List ℕ → Run World (List ℕ))
      → Context
      → CliArgs
      → Run (Machine World Float) Ending
  main_operation name op c a =
      main_onesided (print_header name BenchmarkType.latency ++ print_latency_header)
        (λ size. do
          addr ← expect (remote (1 - c.rank))
          latency_size u fuel o f clock (fenced u r fuel c (op c size addr)) c a size)
        c a

  -- An operation that changes no local buffer.
  abbrev pub leaves : Run World (Unit {0}) → List ℕ → Run World (List ℕ)
  leaves op buf = op >> pure buf

  pub osu_put_latency : Context → CliArgs → Run (Machine World Float) Ending
  osu_put_latency =
      main_operation "MPI_Put Latency"
        (λ c size addr. leaves (accepted u r fuel (r.rma_put (1 - c.rank) (pattern size) addr)))

  pub osu_get_latency : Context → CliArgs → Run (Machine World Float) Ending
  osu_get_latency =
      main_operation "MPI_Get Latency"
        (λ c size addr. leaves (accepted u r fuel (r.rma_get (1 - c.rank) size addr)))

  pub osu_acc_latency : Context → CliArgs → Run (Machine World Float) Ending
  osu_acc_latency =
      main_operation "MPI_Accumulate Latency"
        (λ c size addr. leaves (do_accumulate u r fuel (1 - c.rank) (ones size) addr))

  pub osu_fop_latency : Context → CliArgs → Run (Machine World Float) Ending
  osu_fop_latency =
      main_operation "MPI_Fetch_and_op Latency"
        (λ c size addr. leaves (do_fop u r fuel (1 - c.rank) (ones size) addr))

  pub osu_cas_latency : Context → CliArgs → Run (Machine World Float) Ending
  osu_cas_latency =
      main_operation "MPI_Compare_and_swap Latency" (λ c size addr.
        leaves (do_cas u r fuel (1 - c.rank) (pattern size) (replicate size 0) addr))

  pub osu_get_acc_latency : Context → CliArgs → Run (Machine World Float) Ending
  osu_get_acc_latency =
      main_operation "MPI_Get_accumulate Latency"
        (λ c size addr. do_get_acc u r fuel (1 - c.rank) (ones size) addr)

  -- The body of the programs that time windows; `factor` counts the directions.
  pub window_size :
      (Context → (List ℕ → Run World (List ℕ)) → List ℕ → Run World (List ℕ))
      → (ℕ → List ℕ → ℕ → ℕ → ℕ → Run World (Unit {0}))
      → (Float → Float)
      → Context
      → CliArgs
      → ℕ
      → Run (Machine World Float) (Unit {0})
  window_size fence op factor c a size = do
    addr ← expect (remote (1 - c.rank))
    let buf = replicate (size * a.window_size % 2 ^ 64) 0
    let turn = fence c (leaves (op (1 - c.rank) buf size a.window_size addr)) buf >> pure tt
    times (get_skip a size) (λ _. on_net turn) tt
    total_us ←
        times (get_iterations a size)
          (λ total. do on_net turn; us ← elapsed_us clock; pure (add_f64 total us)) zero_f64
    let total_bytes =
        mul_f64 (mul_f64 (of_usize size) (of_usize a.window_size))
          (of_usize (get_iterations a size))
    on_root c (
        print_bandwidth_avg size
          (factor (megabytes_per_second u fuel o f clock total_bytes total_us))
        ++ print_newline)

  pub osu_put_bw : Context → CliArgs → Run (Machine World Float) Ending
  osu_put_bw c a =
      main_onesided
        (print_header "MPI_Put Bandwidth" BenchmarkType.bandwidth ++ print_bandwidth_header)
        (window_size (fenced u r fuel) (do_put_bw u r fuel) (λ x. x) c a) c a

  pub osu_get_bw : Context → CliArgs → Run (Machine World Float) Ending
  osu_get_bw c a =
      main_onesided
        (print_header "MPI_Get Bandwidth" BenchmarkType.bandwidth ++ print_bandwidth_header)
        (window_size (fenced u r fuel) (do_get_bw u r fuel) (λ x. x) c a) c a

  -- Both ranks put.
  pub osu_put_bibw : Context → CliArgs → Run (Machine World Float) Ending
  osu_put_bibw c a =
      main_onesided
        (print_header "MPI_Put Bi-directional Bandwidth" BenchmarkType.bandwidth
          ++ print_bandwidth_header)
        (window_size (λ c. both_fenced u r fuel) (do_put_bw u r fuel) (λ x. mul_f64 x (of_usize 2))
          c a)
        c a

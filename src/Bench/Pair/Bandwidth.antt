-- ===== src/Bench/Pair/Bandwidth.antt =====
-- pt2pt/src/bin: the programs that time windows of messages between ranks 0 and 1.
pub mod Windows
use Prim.Native.String.{String}
use osu_micro_benchmarks_rs.Prelude.{ℕ, zero, ◌-◌, List, [], ◌++◌, ◌==◌, if◌then◌else◌, replicate}
use osu_micro_benchmarks_rs.Rust.{Run, pure, ◌>>=◌, ◌>>◌}
use osu_micro_benchmarks_rs.Rust.Float.{F64}
use osu_micro_benchmarks_rs.Ucx.{Ucx}
use osu_micro_benchmarks_rs.Ucx.Openshmem.{Openshmem}
use osu_micro_benchmarks_rs.Runtime.{Context}
use osu_micro_benchmarks_rs.Collective.Scalars.{barrier}
use osu_micro_benchmarks_rs.Cli.{CliArgs, get_iterations, get_skip}
use osu_micro_benchmarks_rs.Timing.{TimingResult, new_result, add_sample}
use osu_micro_benchmarks_rs.Output.{
  BenchmarkType, print_header, print_bandwidth_header, print_bandwidth_avg, print_newline,
}
use osu_micro_benchmarks_rs.Bench.{Machine, Ending, on_net, elapsed_us, on_root, times}
use osu_micro_benchmarks_rs.Bench.Window.{
  post_sends, post_recvs, wait_all, send_window, recv_window,
}
use osu_micro_benchmarks_rs.Bench.Pair.{main_pair}

abbrev pub tag_0_to_1 : ℕ
tag_0_to_1 = 100

abbrev pub tag_1_to_0 : ℕ
tag_1_to_0 = 10

module _ (u : Ucx) (fuel : ℕ) where
  open u use {World}

  -- Rank 0 sends a window and takes the acknowledgement; rank 1 takes the window and sends it.
  pub do_bw_iteration : Context → List ℕ → ℕ → ℕ → Run World (Unit {0})
  do_bw_iteration c send_buf recv_len window =
      if c.rank == 0
      then send_window u fuel c (1 - c.rank) send_buf window
      else recv_window u fuel c (1 - c.rank) recv_len window

  -- A window in both directions, each with a tag of its own.
  pub do_bibw_iteration : Context → List ℕ → ℕ → ℕ → Run World (Unit {0})
  do_bibw_iteration c send_buf recv_len window = do
    recv_reqs ← post_recvs u fuel window recv_len (if c.rank == 0 then tag_1_to_0 else tag_0_to_1)
    send_reqs ←
        post_sends u fuel window c (1 - c.rank) send_buf
          (if c.rank == 0 then tag_0_to_1 else tag_1_to_0)
    wait_all u fuel send_reqs
    wait_all u fuel recv_reqs

module _ (u : Ucx) (fuel : ℕ) (o : Openshmem u.World) (f : F64) (clock : ℕ → f.Float) where
  open u use {World}
  open f use {Float, mul_f64, div_f64, of_usize}

  -- Megabytes in a second, from bytes and microseconds.
  pub megabytes_per_second : Float → Float → Float
  megabytes_per_second total_bytes total_us =
      div_f64 (div_f64 total_bytes (div_f64 total_us (of_usize 1_000_000))) (of_usize 1_000_000)

  -- The body of the loop over the message sizes: a timer for each iteration.
  pub bw_size : Context → CliArgs → ℕ → Run (Machine World Float) (Unit {0})
  bw_size c a size = do
    let turn = do_bw_iteration u fuel c (replicate size 0) size a.window_size
    times (get_skip a size) (λ _. on_net turn) tt
    r ←
        times (get_iterations a size)
          (λ r. do on_net turn; us ← elapsed_us clock; pure (add_sample f r us)) (new_result f)
    let total_bytes =
        mul_f64 (mul_f64 (of_usize size) (of_usize a.window_size))
          (of_usize (get_iterations a size))
    on_root c
        (print_bandwidth_avg size (megabytes_per_second total_bytes r.total_us) ++ print_newline)

  -- One timer for all iterations.
  pub bibw_size : Context → CliArgs → ℕ → Run (Machine World Float) (Unit {0})
  bibw_size c a size = do
    let turn = do_bibw_iteration u fuel c (replicate size 0) size a.window_size
    on_net (barrier u fuel o c)
    times (get_skip a size) (λ _. on_net turn) tt
    times (get_iterations a size) (λ _. on_net turn) tt
    us ← elapsed_us clock
    let total_bytes =
        mul_f64
          (mul_f64 (mul_f64 (of_usize size) (of_usize (get_iterations a size)))
            (of_usize a.window_size))
          (of_usize 2)
    on_root c (print_bandwidth_avg size (megabytes_per_second total_bytes us) ++ print_newline)

  pub main_bw : String → Context → CliArgs → Run (Machine World Float) Ending
  main_bw name c a =
      main_pair u fuel o f clock
        (print_header name BenchmarkType.bandwidth ++ print_bandwidth_header) [] (bw_size c a) c a

  pub osu_bw : Context → CliArgs → Run (Machine World Float) Ending
  osu_bw = main_bw "Bandwidth"

  pub osu_bw_persistent : Context → CliArgs → Run (Machine World Float) Ending
  osu_bw_persistent = main_bw "Bandwidth"

  pub osu_mbw_mr : Context → CliArgs → Run (Machine World Float) Ending
  osu_mbw_mr = main_bw "Multi-Buffer Multi-Recv Bandwidth"

  pub main_bibw : String → Context → CliArgs → Run (Machine World Float) Ending
  main_bibw name c a =
      main_pair u fuel o f clock
        (print_header name BenchmarkType.bi_bandwidth ++ print_bandwidth_header) [] (bibw_size c a)
        c a

  pub osu_bibw : Context → CliArgs → Run (Machine World Float) Ending
  osu_bibw = main_bibw "Bi-Directional Bandwidth"

  pub osu_bibw_persistent : Context → CliArgs → Run (Machine World Float) Ending
  osu_bibw_persistent = main_bibw "Bi-Directional Bandwidth"

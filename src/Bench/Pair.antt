-- ===== src/Bench/Pair.antt =====
-- pt2pt/src/bin: the programs that time messages between ranks 0 and 1. Here are their frame and those
-- that send one message to and fro.
pub mod Bandwidth
pub mod Trades
pub mod Frame
pub mod Latency
use Prim.Native.String.{String}
use osu_micro_benchmarks_rs.Prelude.{
  ℕ, ◌+◌, ◌-◌, ◌%◌, ◌^◌, List, [], ◌∷◌, ◌++◌, ltb, leb, ◌==◌, if◌then◌else◌, range, replicate,
}
use osu_micro_benchmarks_rs.Rust.{Run, pure, lift, ◌>>=◌, ◌>>◌}
use osu_micro_benchmarks_rs.Rust.Float.{F64}
use osu_micro_benchmarks_rs.Ucx.{Ucx}
use osu_micro_benchmarks_rs.Ucx.Openshmem.{Openshmem}
use osu_micro_benchmarks_rs.Runtime.{Context, progress, send, recv}
use osu_micro_benchmarks_rs.Collective.Scalars.{barrier}
use osu_micro_benchmarks_rs.Cli.{CliArgs, get_iterations, get_skip, message_sizes}
use osu_micro_benchmarks_rs.Timing.{TimingResult, new_result, add_sample}
use osu_micro_benchmarks_rs.Output.{
  Piece, text, left_number, newline, BenchmarkType, print_header, print_latency_header,
  print_latency_row, print_latency_avg, print_newline,
}
use osu_micro_benchmarks_rs.Bench.{
  Machine, Ending, finished, exited, on_net, elapsed_us, on_root, times, for_all,
}

abbrev pub latency_tag : ℕ
latency_tag = 0x1234_5678_9abc_def0

-- The tag of the variants.
abbrev pub variant_tag : ℕ
variant_tag = 1

abbrev pub num_threads : ℕ
num_threads = 1

module _ (u : Ucx) (fuel : ℕ) where
  open u use {World}

  -- Rank 0 sends the buffer and receives into it; rank 1 receives into its buffer and sends it back.
  pub ping_pong : ℕ → Context → List ℕ → Run World (List ℕ)
  ping_pong tag c buf =
      if c.rank == 0
      then (do send u fuel c (1 - c.rank) buf tag; progress u fuel; recv u fuel buf tag)
      else (do m ← recv u fuel buf tag; send u fuel c (1 - c.rank) m tag; pure m)

  -- The same with a send buffer of its own, which the other rank does not change.
  pub persistent_latency_iteration : ℕ → Context → List ℕ → List ℕ → Run World (List ℕ)
  persistent_latency_iteration tag c send_buf recv_buf =
      if c.rank == 0
      then (do send u fuel c (1 - c.rank) send_buf tag; progress u fuel; recv u fuel recv_buf tag)
      else (do m ← recv u fuel recv_buf tag; send u fuel c (1 - c.rank) send_buf tag; pure m)

  -- … with a barrier before it
  pub cold_ping_pong : Openshmem World → Context → List ℕ → Run World (List ℕ)
  cold_ping_pong o c buf = barrier u fuel o c >> ping_pong latency_tag c buf

module _ (u : Ucx) (fuel : ℕ) (o : Openshmem u.World) (f : F64) (clock : ℕ → f.Float) where
  open u use {World}
  open f use {Float, mul_f64, div_f64, of_usize}

  -- A timed iteration.
  pub timed_round :
      (List ℕ → Run World (List ℕ))
      → List ℕ × TimingResult Float
      → Run (Machine World Float) (List ℕ × TimingResult Float)
  timed_round call (buf, r) = do
    buf' ← on_net (call buf)
    us ← elapsed_us clock
    pure (buf', add_sample f r us)

  -- The loops over the warm-up and over the timed iterations of a message size.
  pub rounds :
      (List ℕ → Run World (List ℕ)) → CliArgs → ℕ → Run (Machine World Float) (TimingResult Float)
  rounds call a size = do
    buf ← times (get_skip a size) (λ buf. on_net (call buf)) (replicate size 0)
    r ← times (get_iterations a size) (timed_round call) (buf, new_result f)
    pure r.1

  -- The body of the loop over the message sizes: average, minimum and maximum on rank 0.
  pub latency_size :
      (List ℕ → Run World (List ℕ)) → Context → CliArgs → ℕ → Run (Machine World Float) (Unit {0})
  latency_size call c a size = do
    r ← rounds call a size
    on_root c (print_latency_row size r.avg_us r.min_us r.max_us ++ print_newline)

  -- A barrier before each exchange, and one timer around all of them; what the timer of an iteration
  -- says is dropped.
  pub cold_size : Context → CliArgs → ℕ → Run (Machine World Float) (Unit {0})
  cold_size c a size = do
    buf ← times (get_skip a size) (λ buf. on_net (cold_ping_pong u fuel o c buf)) (replicate size 0)
    times (get_iterations a size)
        (λ buf. do buf' ← on_net (cold_ping_pong u fuel o c buf); _ ← elapsed_us clock; pure buf')
        buf
    total ← elapsed_us clock
    on_root c (
        print_latency_avg size
          (div_f64 total (mul_f64 (of_usize 2) (of_usize (get_iterations a size))))
        ++ print_newline)

  -- The main thread's loop of the program with threads: those count iterations, and nothing reads
  -- what they count.
  pub threads_turn :
      Context
      → ℕ
      → ℕ
      → List ℕ × TimingResult Float
      → Run (Machine World Float) (List ℕ × TimingResult Float)
  threads_turn c skip i (buf, r) =
      if leb skip i
      then timed_round (ping_pong u fuel latency_tag c) (buf, r)
      else (do buf' ← on_net (ping_pong u fuel latency_tag c buf); pure (buf', r))

  pub threads_size : Context → CliArgs → ℕ → Run (Machine World Float) (Unit {0})
  threads_size c a size = do
    r ←
        for_all (range 0 ((get_iterations a size + get_skip a size) % 2 ^ 64))
          (threads_turn c (get_skip a size)) (replicate size 0, new_result f)
    on_root c (print_latency_avg size r.1.avg_us ++ print_newline)
    on_net (barrier u fuel o c)

  -- `run_benchmark`: two ranks take part, and the others return before the barrier.
  pub run_pair :
      List (Piece Float)
      → (ℕ → Run (Machine World Float) (Unit {0}))
      → Context
      → CliArgs
      → Run (Machine World Float) Ending
  run_pair intro body c a =
      if ltb c.size 2 then pure (exited 1) else if leb 2 c.rank then pure finished else do
        on_root c intro
        on_net (barrier u fuel o c)
        sizes ← lift (message_sizes fuel a)
        for_all sizes (λ size _. body size) tt
        pure finished

  -- `main`, from the context on
  pub main_pair :
      List (Piece Float)
      → List (Piece Float)
      → (ℕ → Run (Machine World Float) (Unit {0}))
      → Context
      → CliArgs
      → Run (Machine World Float) Ending
  main_pair header intro body c a = do on_root c header; run_pair intro body c a

  -- The programs that send one message to and fro.
  pub main_ping_pong : String → ℕ → Context → CliArgs → Run (Machine World Float) Ending
  main_ping_pong name tag c a =
      main_pair (print_header name BenchmarkType.latency ++ print_latency_header) []
        (latency_size (ping_pong u fuel tag c) c a) c a

  pub osu_latency : Context → CliArgs → Run (Machine World Float) Ending
  osu_latency = main_ping_pong "Latency" latency_tag

  pub osu_multi_lat : Context → CliArgs → Run (Machine World Float) Ending
  osu_multi_lat = main_ping_pong "Multi-message Latency" variant_tag

  pub osu_partitioned_latency : Context → CliArgs → Run (Machine World Float) Ending
  osu_partitioned_latency = main_ping_pong "Partitioned Latency" variant_tag

  pub osu_latency_persistent : Context → CliArgs → Run (Machine World Float) Ending
  osu_latency_persistent c a =
      main_pair (print_header "Latency" BenchmarkType.latency ++ print_latency_header) []
        (λ size.
          latency_size (persistent_latency_iteration u fuel variant_tag c (replicate size 0)) c a
            size)
        c a

  pub osu_latency_mp : Context → CliArgs → Run (Machine World Float) Ending
  osu_latency_mp c a =
      main_pair (print_header "Multi-process Latency" BenchmarkType.latency ++ print_latency_header)
        [] (cold_size c a) c a

  pub osu_latency_mt : Context → CliArgs → Run (Machine World Float) Ending
  osu_latency_mt c a =
      main_pair
        (print_header "Multi-threaded Latency" BenchmarkType.latency ++ print_latency_header)
        (text "# Number of Sender threads: "
          ∷ left_number 0 num_threads
          ∷ newline
          ∷ text "# Number of Receiver threads: "
          ∷ left_number 0 num_threads
          ∷ newline
          ∷ [])
        (threads_size c a) c a

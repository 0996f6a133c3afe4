-- ===== src/Bench/Fans.antt =====
-- congestion/src/bin: windows of messages between the first node and the first rank of each other.
use Prim.Native.String.{String}
use osu_micro_benchmarks_rs.Prelude.{
  ℕ, ◌+◌, ◌-◌, ◌%◌, ◌^◌, not, Option, none, some, List, [], ◌∷◌, ◌++◌, ltb, if◌then◌else◌,
  replicate,
}
use osu_micro_benchmarks_rs.Rust.{Run, pure, lift, ◌>>=◌, ◌>>◌}
use osu_micro_benchmarks_rs.Rust.Float.{F64}
use osu_micro_benchmarks_rs.Ucx.{Ucx}
use osu_micro_benchmarks_rs.Ucx.Openshmem.{Openshmem}
use osu_micro_benchmarks_rs.Runtime.{Context}
use osu_micro_benchmarks_rs.Collective.Scalars.{barrier, allreduce_sum_f64}
use osu_micro_benchmarks_rs.Collective.Columns.{get_at}
use osu_micro_benchmarks_rs.Cli.{CliArgs, get_iterations, get_skip, message_sizes}
use osu_micro_benchmarks_rs.Output.{
  BenchmarkType, print_header, print_bandwidth_header, print_bandwidth_avg, print_newline,
}
use osu_micro_benchmarks_rs.Fan.Names.{Name}
use osu_micro_benchmarks_rs.Fan.Exchange.{FanTopology, fan_init}
use osu_micro_benchmarks_rs.Bench.{
  Machine, Ending, finished, exited, on_net, elapsed_us, on_root, times, for_all,
}
use osu_micro_benchmarks_rs.Bench.Window.{send_window, recv_window}

-- Which way the data goes: to the first node, or from it.
pub data Direction : Type 0 where
  fan_in fan_out : Direction

-- The nodes that `(total_nodes - 1)` counts; `usize` wraps in the release build.
abbrev pub child_nodes : FanTopology → ℕ
child_nodes t = (t.total_nodes + 2 ^ 64 - 1) % 2 ^ 64

module _ (u : Ucx) (fuel : ℕ) where
  open u use {World}

  -- One call for each rank of the queue.
  pub each_rank : (ℕ → Run World (Unit {0})) → List ℕ → Run World (Unit {0})
  each_rank call [] = pure tt
  each_rank call (r ∷ rs) = call r >> each_rank call rs

  -- The call for the head of the queue.
  pub first_rank : (ℕ → Run World (Unit {0})) → List ℕ → Run World (Unit {0})
  first_rank call queue = do r ← lift (get_at queue 0); call r

  pub run_fan_in_send : Context → List ℕ → List ℕ → ℕ → Run World (Unit {0})
  run_fan_in_send c send_buf queue window =
      first_rank (λ p. send_window u fuel c p send_buf window) queue

  pub run_fan_in_recv : Context → ℕ → List ℕ → ℕ → Run World (Unit {0})
  run_fan_in_recv c recv_len queue window =
      each_rank (λ r. recv_window u fuel c r recv_len window) queue

  pub run_fan_out_send : Context → List ℕ → List ℕ → ℕ → Run World (Unit {0})
  run_fan_out_send c send_buf queue window =
      each_rank (λ r. send_window u fuel c r send_buf window) queue

  pub run_fan_out_recv : Context → ℕ → List ℕ → ℕ → Run World (Unit {0})
  run_fan_out_recv c recv_len queue window =
      first_rank (λ p. recv_window u fuel c p recv_len window) queue

  -- An iteration, by the role of the rank.
  pub fan_turn : Direction → FanTopology → Context → ℕ → ℕ → Run World (Unit {0})
  fan_turn Direction.fan_in t c size window =
      if not t.is_parent
      then run_fan_in_send c (replicate size 0) t.ranks_queue window
      else run_fan_in_recv c size t.ranks_queue window
  fan_turn Direction.fan_out t c size window =
      if t.is_parent
      then run_fan_out_send c (replicate size 0) t.ranks_queue window
      else run_fan_out_recv c size t.ranks_queue window

module _ (u : Ucx) (fuel : ℕ) (o : Openshmem u.World) (f : F64) (clock : ℕ → f.Float) where
  open u use {World}
  open f use {Float, add_f64, mul_f64, div_f64, of_usize, zero_f64}

  -- The time of all ranks, for one rank of a node; fan-in divides by the other nodes too.
  pub normalized_time : Direction → FanTopology → Float → Float
  normalized_time Direction.fan_in t total =
      div_f64 (div_f64 total (of_usize t.ppn)) (of_usize (child_nodes t))
  normalized_time Direction.fan_out t total = div_f64 total (of_usize t.ppn)

  pub fan_bandwidth : Direction → FanTopology → CliArgs → ℕ → Float → Float
  fan_bandwidth d t a size total =
      let bytes =
        mul_f64
          (mul_f64
            (mul_f64 (mul_f64 (of_usize size) (of_usize t.ppn)) (of_usize (get_iterations a size)))
            (of_usize a.window_size))
          (of_usize (child_nodes t)) in
      div_f64 (div_f64 bytes (div_f64 (normalized_time d t total) (of_usize 1_000_000)))
        (of_usize 1_000_000)

  -- The body of the loop over the message sizes.
  pub fan_size :
      Direction → FanTopology → Context → CliArgs → ℕ → Run (Machine World Float) (Unit {0})
  fan_size d t c a size = do
    on_net (barrier u fuel o c)
    times (get_skip a size) (λ _. on_net (fan_turn u fuel d t c size a.window_size)) tt
    total ←
        times (get_iterations a size)
          (λ total. do
            on_net (fan_turn u fuel d t c size a.window_size)
            us ← elapsed_us clock
            pure (add_f64 total us))
          zero_f64
    reduced ← on_net (allreduce_sum_f64 u fuel f c total)
    on_root c (print_bandwidth_avg size (fan_bandwidth d t a size reduced) ++ print_newline)

  -- `run_benchmark` from the topology on; `none` is the exit of `fan_init`.
  pub run_fan_on :
      Direction → Context → CliArgs → Option FanTopology → Run (Machine World Float) Ending
  run_fan_on d c a none = pure (exited 1)
  run_fan_on d c a (some t) = do
    on_net (barrier u fuel o c)
    sizes ← lift (message_sizes fuel a)
    for_all sizes (λ size _. fan_size d t c a size) tt
    pure finished

  -- `main`, from the context on, with the host name of this rank
  pub main_fan :
      Direction
      → String
      → (List ℕ → Name)
      → Name
      → Context
      → CliArgs
      → Run (Machine World Float) Ending
  main_fan d name lossy host c a = do
    on_root c (print_header name BenchmarkType.congestion_bw ++ print_bandwidth_header)
    (if ltb c.size 2
        then pure (exited 1)
        else do t ← on_net (fan_init u fuel o lossy host c); run_fan_on d c a t)

  pub osu_bw_fan_in : (List ℕ → Name) → Name → Context → CliArgs → Run (Machine World Float) Ending
  osu_bw_fan_in = main_fan Direction.fan_in "Bandwidth Fan-in"

  pub osu_bw_fan_out : (List ℕ → Name) → Name → Context → CliArgs → Run (Machine World Float) Ending
  osu_bw_fan_out = main_fan Direction.fan_out "Bandwidth Fan-out"

-- ===== src/Bench/Blocking.antt =====
-- collective/src/bin: the frame of the programs that time a blocking collective over the message
-- sizes. They differ in their buffers, in the pattern that they write to the send buffer, in the call
-- and in the report, and these are the fields of `Sweep`.
pub mod Equal
pub mod Variable
pub mod Neighbor
pub mod Allreduce
pub mod Barrier
pub mod Reports
pub mod Frame
pub mod Sweeping
pub mod Mains
use Prim.Native.String.{String}
use osu_micro_benchmarks_rs.Prelude.{
  ℕ, zero, suc, ◌+◌, ◌*◌, ◌%◌, Bool, List, [], ◌∷◌, ◌++◌, ltb, ◌==◌, if◌then◌else◌, length, range,
  map, min, drop, replicate,
}
use osu_micro_benchmarks_rs.Rust.{Outcome, ok, panic, spin, Run, pure, lift, ◌>>=◌, ◌>>◌}
use osu_micro_benchmarks_rs.Rust.Float.{F64}
use osu_micro_benchmarks_rs.Rust.Slice.{slice, copy_at}
use osu_micro_benchmarks_rs.Ucx.{Ucx}
use osu_micro_benchmarks_rs.Ucx.Openshmem.{Openshmem}
use osu_micro_benchmarks_rs.Runtime.{Context, set_at}
use osu_micro_benchmarks_rs.Collective.Scalars.{
  barrier, allreduce_min_f64, allreduce_max_f64, allreduce_sum_f64,
}
use osu_micro_benchmarks_rs.Cli.{CliArgs, get_iterations, get_skip, message_sizes}
use osu_micro_benchmarks_rs.Output.{
  Piece, BenchmarkType, print_header, print_latency_header, print_latency_row, print_newline,
}
use osu_micro_benchmarks_rs.Bench.{
  Machine, Ending, finished, exited, on_net, print, elapsed_us, on_root, times, for_all,
}

-- The send buffer and the receive buffer.
abbrev pub Buffers : Type 0
Buffers = List ℕ × List ℕ

-- `for item in buf.iter_mut().take(n) { *item = v }`
pub fill_prefix : ℕ → ℕ → List ℕ → List ℕ
fill_prefix n v buf = replicate (min n (length buf)) v ++ drop n buf

-- `for (i, item) in buf.iter_mut().enumerate().take(n) { *item = (i % 256) as u8 }`
pub fill_index : ℕ → List ℕ → List ℕ
fill_index n buf = map (λ i. i % 256) (range 0 (min n (length buf))) ++ drop n buf

-- `for chunk in 0..chunks { for i in 0..n { buf[chunk * n + i] = value(chunk) } }`
pub fill_chunks : {M : Type 0} → ℕ → ℕ → (ℕ → ℕ) → List ℕ → Run M (List ℕ)
fill_chunks chunks n value =
    for_all (range 0 chunks)
      (λ chunk. for_all (range 0 n) (λ i buf. lift (set_at buf (chunk * n + i) (value chunk))))

-- `vec![n; size]` and `(0..size).map(|i| i * n).collect()`
pub uniform_displs : ℕ → ℕ → List ℕ
uniform_displs size n = map (λ i. i * n) (range 0 size)

-- A call that changes its receive buffer alone.
pub receives : {W : Type 0} → (List ℕ → List ℕ → Run W (List ℕ)) → Buffers → Run W Buffers
receives call (send, recv) = do recv' ← call send recv; pure (send, recv')

-- What one program adds to the frame; `M` is the machine that it runs on, and `W` its network.
pub record Sweep (M W F : Type 0) : Type 0 where
  -- the two buffers at the start
  pub buffers : Buffers
  -- `continue` at the head of the loop
  pub skips : ℕ → Bool
  pub fill : ℕ → List ℕ → Run M (List ℕ)
  -- how much of the buffers is used for a message size
  pub send_part : ℕ → ℕ
  pub recv_part : ℕ → ℕ
  pub call : ℕ → Buffers → Run W Buffers
  -- from the message size, the iterations and the time
  pub report : ℕ → ℕ → F → Run M (Unit {0})

module _ (u : Ucx) (f : F64) where
  open u use {World}
  open f use {Float}

  -- Every byte of the message is the rank and one.
  pub fill_rank : Context → ℕ → List ℕ → Run (Machine World Float) (List ℕ)
  fill_rank c size buf = pure (fill_prefix size ((c.rank + 1) % 256) buf)

  -- Every byte of the piece for a peer is the peer and one.
  pub fill_pieces : Context → ℕ → List ℕ → Run (Machine World Float) (List ℕ)
  fill_pieces c size = fill_chunks c.size size (λ peer. (peer + 1) % 256)

  -- The root counts the bytes.
  pub fill_root : Context → ℕ → List ℕ → Run (Machine World Float) (List ℕ)
  fill_root c size buf = pure (if c.rank == 0 then fill_index (size * c.size) buf else buf)

module _ (u : Ucx) (fuel : ℕ) (o : Openshmem u.World) (f : F64) (clock : ℕ → f.Float) where
  open u use {World}
  open f use {Float, add_f64, div_f64, of_usize, zero_f64}

  abbrev pub Program : Type 0
  Program = Sweep (Machine World Float) World Float

  -- An iteration of the warm-up: the call, and a barrier.
  pub warm_up :
      Context → (Buffers → Run World Buffers) → Buffers → Run (Machine World Float) Buffers
  warm_up c call bufs = do bufs' ← on_net (call bufs); on_net (barrier u fuel o c); pure bufs'

  -- A timed iteration: the clock is read before the barrier.
  pub timed :
      Context
      → (Buffers → Run World Buffers)
      → Buffers × Float
      → Run (Machine World Float) (Buffers × Float)
  timed c call (bufs, timer) = do
    bufs' ← on_net (call bufs)
    us ← elapsed_us clock
    on_net (barrier u fuel o c)
    pure (bufs', add_f64 timer us)

  -- Minimum, maximum and average of a number over all ranks, which rank 0 prints.
  pub report_all :
      (ℕ → Float → Float → Float → List (Piece Float))
      → Context
      → ℕ
      → Float
      → Run (Machine World Float) (Unit {0})
  report_all row c size value = do
    low ← on_net (allreduce_min_f64 u fuel f c value)
    high ← on_net (allreduce_max_f64 u fuel f c value)
    total ← on_net (allreduce_sum_f64 u fuel f c value)
    on_root c (row size (div_f64 total (of_usize c.size)) low high ++ print_newline)

  pub report_latency : Context → ℕ → ℕ → Float → Run (Machine World Float) (Unit {0})
  report_latency c size iterations timer =
      report_all print_latency_row c size (div_f64 timer (of_usize iterations))

  -- The body of the loop over the message sizes.
  pub sweep_size : Program → Context → CliArgs → ℕ → Buffers → Run (Machine World Float) Buffers
  sweep_size p c a size bufs = if p.skips size then pure bufs else do
    sendbuf ← p.fill size bufs.0
    send ← lift (slice sendbuf 0 (p.send_part size))
    recv ← lift (slice bufs.1 0 (p.recv_part size))
    warm ← times (get_skip a size) (warm_up c (p.call size)) (send, recv)
    r ← times (get_iterations a size) (timed c (p.call size)) (warm, zero_f64)
    p.report size (get_iterations a size) r.1
    sendbuf' ← lift (copy_at sendbuf 0 (p.send_part size) r.0.0)
    recvbuf' ← lift (copy_at bufs.1 0 (p.recv_part size) r.0.1)
    pure (sendbuf', recvbuf')

  -- `run_benchmark`
  pub run_sweep : Program → Context → CliArgs → Run (Machine World Float) Ending
  run_sweep p c a = if ltb c.size 2 then pure (exited 1) else do
    on_net (barrier u fuel o c)
    sizes ← lift (message_sizes fuel a)
    for_all sizes (sweep_size p c a) p.buffers
    pure finished

  -- `main`, from the context on
  pub main_sweep :
      String
      → BenchmarkType
      → List (Piece Float)
      → Program
      → Context
      → CliArgs
      → Run (Machine World Float) Ending
  main_sweep name kind columns p c a = do
    on_root c (print_header name kind ++ columns)
    run_sweep p c a

  -- The programs that print latencies.
  pub main_latency :
      String → BenchmarkType → Program → Context → CliArgs → Run (Machine World Float) Ending
  main_latency name kind = main_sweep name kind print_latency_header

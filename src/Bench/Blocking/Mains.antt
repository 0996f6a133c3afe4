-- ===== src/Bench/Blocking/Mains.antt =====
-- From the loop over the sizes to the whole program.
use osu_micro_benchmarks_rs.Prelude.{
  ℕ, suc, ◌≤◌, ◌<◌, ◌≡◌, refl, false, List, ◌++◌, length, le→ltb_false,
}
use Prim.Native.String.{String}
use osu_micro_benchmarks_rs.Rust.{ok, ◌>>=◌, ◌>>◌}
use osu_micro_benchmarks_rs.Rust.Float.{F64}
use osu_micro_benchmarks_rs.Ucx.{Ucx, TagMatching}
use osu_micro_benchmarks_rs.Ucx.Openshmem.{Openshmem}
use osu_micro_benchmarks_rs.Runtime.{Context}
use osu_micro_benchmarks_rs.Cli.{CliArgs, message_sizes}
use osu_micro_benchmarks_rs.Output.{BenchmarkType, print_header, print_latency_header}
use osu_micro_benchmarks_rs.Bench.{Machine, finished}
use osu_micro_benchmarks_rs.Bench.Stock.{Arrivals, Stocked, barrier-Stocked}
use osu_micro_benchmarks_rs.Bench.Blocking.Frame.{Sends}
use osu_micro_benchmarks_rs.Bench.Blocking.Reports.{at_root, on_root_lem}
use osu_micro_benchmarks_rs.Bench.Blocking.Sweeping.{rows, barriers, Fit, sweep_all_lem}
use osu_micro_benchmarks_rs.Bench.Blocking.{
  Program, report_latency, run_sweep, main_sweep, main_latency,
}

module _ (u : Ucx) (T : TagMatching u) (fuel : ℕ) (enough : T.lag ≤ fuel) (c : Context)
    (h : c.rank < c.size) (many : 1 < c.size) (o : Openshmem u.World)
    (off : c.openshmem_initialized ≡ false) (f : F64) (clock : ℕ → f.Float) where
  open u use {World}
  open f use {Float}

  pub main_latency_lem :
      (name : String) (kind : BenchmarkType) (p : Program u fuel o f clock)
      (fills : (size : ℕ) (buf : List ℕ) (m : Machine World Float)
        → (buf' : List ℕ) × (p.fill size buf m ≡ ok (buf', m)) × (length buf' ≡ length buf))
      (sends : (size : ℕ)
        → Sends u T fuel enough c h many o off f clock
            (p.call size)
            (p.send_part size)
            (p.recv_part size))
      (reports : p.report ≡ report_latency u fuel o f clock c)
      (all_sizes : (size : ℕ) → p.skips size ≡ false) (a : CliArgs) (sizes : List ℕ) (q : Arrivals)
      (s : Machine World Float)
      → message_sizes fuel a ≡ ok sizes
      → Fit u T fuel enough c h many o off f clock p fills sends reports all_sizes
          (length p.buffers.0)
          (length p.buffers.1)
          sizes
      → Stocked u T c.size
          (suc (barriers u T fuel enough c h many o off f clock a sizes))
          (length sizes)
          q
          s.net
      → (s' : Machine World Float) × (main_latency u fuel o f clock name kind p c a s
          ≡ ok (finished, s'))
        × (s'.out
            ≡ (s.out ++ at_root c (print_header name kind ++ print_latency_header))
              ++ rows u T fuel enough c h many o off f clock a s.readings q sizes)
  unfolding main_latency main_sweep run_sweep
  main_latency_lem name kind p fills sends reports all_sizes a sizes q s listed fit stocked =
      let header = print_header name kind ++ print_latency_header in
      let (w₁, ran₁, left₁) =
        barrier-Stocked u T fuel enough c h many o
          (barriers u T fuel enough c h many o off f clock a sizes) (length sizes) q s.net off
          stocked in
      let s₁ = record s { net = w₁; out = s.out ++ at_root c header } in
      let (bufs, s₂, ran₂, out₂) =
        sweep_all_lem u T fuel enough c h many o off f clock p fills sends reports all_sizes a sizes
          (length p.buffers.0) (length p.buffers.1) q p.buffers s₁ fit refl refl left₁ in
      (
        s₂,
        rw (on_root_lem c header s, ◌>>◌, ◌>>=◌, le→ltb_false c.size 2 many, ran₁, listed, ran₂)
            refl,
        out₂,
      )

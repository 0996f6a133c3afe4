-- ===== src/Bench/Blocking/Allreduce.antt =====
-- collective/src/bin/osu_allreduce.rs, osu_allreduce_latency.rs and osu_allreduce_bw.rs: a reduction of
-- bytes that the programs carry themselves, and the three programs. The warm-up and the report are
-- those of the other programs.
use osu_micro_benchmarks_rs.Prelude.{
  ℕ, Bool, suc, ◌+◌, ◌*◌, true, false, Option, none, some, List, leb, if◌then◌else◌, replicate,
  zero,
}
use osu_micro_benchmarks_rs.Rust.{Run, pure, lift, ok, panic, spin, ◌>>=◌, ◌>>◌}
use osu_micro_benchmarks_rs.Rust.Slice.{copy_at, copy_from_slice}
use osu_micro_benchmarks_rs.Rust.Float.{F64}
use osu_micro_benchmarks_rs.Ucx.{Ucx}
use osu_micro_benchmarks_rs.Ucx.Openshmem.{Openshmem}
use osu_micro_benchmarks_rs.Runtime.{
  Context, progress, unwrap_or_false, send_to_peers, recv_from_peers,
}
use osu_micro_benchmarks_rs.Collective.Equal.{openshmem_allreduce, reduced}
use osu_micro_benchmarks_rs.Cli.{CliArgs}
use osu_micro_benchmarks_rs.Output.{BenchmarkType, print_bandwidth_header, print_bandwidth_row}
use osu_micro_benchmarks_rs.Bench.{Machine, Ending}
use osu_micro_benchmarks_rs.Bench.Blocking.{
  Buffers, receives, report_latency, main_latency, report_all, main_sweep, fill_rank,
}

-- The tags of the three programs.
abbrev pub allreduce_tag : ℕ
allreduce_tag = 0xABCDEF00

abbrev pub allreduce_bw_tag : ℕ
allreduce_bw_tag = 0xBADDEF00

abbrev pub allreduce_latency_tag : ℕ
allreduce_latency_tag = 0xBADDEF01

-- A team of UCC, which is not in the repository: it reduces a buffer in place. `allreduce` starts a
-- request or fails; `result` is what the buffer holds when the request is done.
pub record UccTeam (W R : Type 0) : Type 0 where
  pub allreduce : List ℕ → W → Option R × W
  pub test : R → W → Option Bool
  pub result : R → List ℕ → W → List ℕ

module _ (u : Ucx) (fuel : ℕ) where
  open u use {World}

  -- `allreduce_ucx_fallback`: an allgather, and the byte sums.
  pub allreduce_ucx_fallback : ℕ → Context → List ℕ → List ℕ → ℕ → Run World (List ℕ)
  allreduce_ucx_fallback tag c sendbuf recvbuf n =
      if leb c.size 1 then lift (copy_from_slice recvbuf sendbuf) else do
        own ← lift (copy_at (replicate (n * c.size) 0) (c.rank * n) (c.rank * n + n) sendbuf)
        send_to_peers u fuel c (λ peer. sendbuf) tag
        gathered ←
            recv_from_peers u fuel c n tag (λ peer m g. copy_at g (peer * n) (peer * n + n) m) own
        lift (reduced c gathered n recvbuf)

  -- `while !req.test().unwrap_or(false) { ctx.progress(); }`, by rounds
  pub wait_team : {R : Type 0} → UccTeam World R → ℕ → R → Run World (Unit {0})
  wait_team team zero r w = spin
  wait_team team (suc n) r w = elim (unwrap_or_false (team.test r w)) [
    | true ↦ ok (tt, w)
    | false ↦ elim (progress u fuel w) [
      | ok (x, w') ↦ wait_team team n r w'
      | panic ↦ panic
      | spin ↦ spin
    ]
  ]

  -- The team's call, with the UCX exchange if it fails.
  pub allreduce_team :
      {R : Type 0} → UccTeam World R → Context → List ℕ → List ℕ → ℕ → Run World Buffers
  allreduce_team team c sendbuf recvbuf n w =
      let (req, w') = team.allreduce sendbuf w in
      elim req [
        | some r ↦
            (do
              wait_team team fuel r
              sendbuf' ← λ w. ok (team.result r sendbuf w, w)
              recvbuf' ← lift (copy_from_slice recvbuf sendbuf')
              pure (sendbuf', recvbuf'))
              w'
        | none ↦
            (do
              recvbuf' ← allreduce_ucx_fallback allreduce_tag c sendbuf recvbuf n
              pure (sendbuf, recvbuf'))
              w'
      ]

  pub allreduce_blocking :
      {R : Type 0}
      → Option (UccTeam World R)
      → Openshmem World
      → Context
      → ℕ
      → Buffers
      → Run World Buffers
  allreduce_blocking ucc_team o c n (sendbuf, recvbuf) = do
    r ← openshmem_allreduce u fuel o c sendbuf recvbuf
    elim r.0 [
      | true ↦ pure (sendbuf, r.1)
      | false ↦ elim ucc_team [
        | some team ↦ allreduce_team team c sendbuf r.1 n
        | none ↦ (do
          recvbuf' ← allreduce_ucx_fallback allreduce_tag c sendbuf r.1 n
          pure (sendbuf, recvbuf'))
      ]
    ]

module _ (u : Ucx) (fuel : ℕ) (o : Openshmem u.World) (f : F64) (clock : ℕ → f.Float) where
  open u use {World}
  open f use {Float, mul_f64, div_f64, of_usize}

  pub osu_allreduce :
      {R : Type 0} → Option (UccTeam World R) → Context → CliArgs → Run (Machine World Float) Ending
  osu_allreduce ucc_team c a =
      main_latency u fuel o f clock "Allreduce" BenchmarkType.collective_latency
        (record {
          buffers = (replicate a.max_message_size 1, replicate a.max_message_size 0);
          skips = λ size. false;
          fill = λ size buf. pure buf;
          send_part = λ size. size;
          recv_part = λ size. size;
          call = λ size. allreduce_blocking u fuel ucc_team o c size;
          report = report_latency u fuel o f clock c;
        })
        c a

  pub osu_allreduce_latency : Context → CliArgs → Run (Machine World Float) Ending
  osu_allreduce_latency c a =
      main_latency u fuel o f clock "Allreduce Latency" BenchmarkType.collective_latency
        (record {
          buffers = (replicate a.max_message_size 0, replicate a.max_message_size 0);
          skips = λ size. false;
          fill = fill_rank u f c;
          send_part = λ size. size;
          recv_part = λ size. size;
          call = λ size.
              receives
                (λ send recv. allreduce_ucx_fallback u fuel allreduce_latency_tag c send recv size);
          report = report_latency u fuel o f clock c;
        })
        c a

  -- Bytes for each microsecond, over all ranks.
  pub report_bandwidth : Context → ℕ → ℕ → Float → Run (Machine World Float) (Unit {0})
  report_bandwidth c size iterations timer =
      report_all u fuel o f clock print_bandwidth_row c size
        (div_f64 (mul_f64 (of_usize size) (of_usize iterations)) timer)

  pub osu_allreduce_bw : Context → CliArgs → Run (Machine World Float) Ending
  osu_allreduce_bw c a =
      main_sweep u fuel o f clock "Allreduce BW" BenchmarkType.collective_bandwidth
        print_bandwidth_header
        (record {
          buffers = (replicate a.max_message_size 1, replicate a.max_message_size 0);
          skips = λ size. false;
          fill = λ size buf. pure buf;
          send_part = λ size. size;
          recv_part = λ size. size;
          call = λ size.
              receives
                (λ send recv. allreduce_ucx_fallback u fuel allreduce_bw_tag c send recv size);
          report = report_bandwidth c;
        })
        c a

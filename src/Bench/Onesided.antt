-- ===== src/Bench/Onesided.antt =====
-- onesided/src/bin: the programs that time operations on remote memory. Rank 0 works on the region of
-- rank 1 between two flushes, and rank 1 only flushes.
pub mod Atomics
pub mod Programs
pub mod Puts
use osu_micro_benchmarks_rs.Prelude.{
  ℕ, zero, suc, ◌+◌, ◌*◌, ◌%◌, ◌^◌, Bool, true, false, Option, none, some, List, ◌==◌,
  if◌then◌else◌, length, range,
}
use osu_micro_benchmarks_rs.Rust.{ok, panic, spin, Run, pure, lift, expect, ◌>>=◌, ◌>>◌}
use osu_micro_benchmarks_rs.Rust.Slice.{slice}
use osu_micro_benchmarks_rs.Ucx.{Ucx}
use osu_micro_benchmarks_rs.Ucx.Rma.{Rma}
use osu_micro_benchmarks_rs.Runtime.{Context, unwrap_or_false, wait}
use osu_micro_benchmarks_rs.Bench.{for_all}

module _ (u : Ucx) (r : Rma u) (fuel : ℕ) where
  open u use {World, Request, check_finished, progress}

  -- `.expect(…)` on an operation whose request is dropped
  abbrev pub accepted : (World → Bool × World) → Run World (Unit {0})
  accepted op w = elim (op w).0 [ true ↦ ok (tt, (op w).1) | false ↦ panic ]

  -- Flush the worker, and wait for what is outstanding.
  pub flush_blocking : Run World (Unit {0})
  flush_blocking w =
      let (req, w') = r.flush w in
      elim req [ some q ↦ elim q [ some x ↦ wait u fuel x w' | none ↦ ok (tt, w') ] | none ↦ panic ]

  -- The helper of the runtime passes an error over.
  pub flush_ep_blocking : Run World (Unit {0})
  flush_ep_blocking w =
      let (req, w') = r.flush w in
      elim req [
        | some q ↦ elim q [ some x ↦ wait u fuel x w' | none ↦ ok (tt, w') ]
        | none ↦ ok (tt, w')
      ]

  -- `while !req.check_finished().unwrap_or(false) { worker.progress(); }`, by rounds
  pub wait_fetch : ℕ → Request → Run World (Unit {0})
  wait_fetch zero q w = spin
  wait_fetch (suc n) q w = elim (unwrap_or_false (check_finished q w)) [
    | true ↦ ok (tt, w)
    | false ↦ wait_fetch n q (progress w).1
  ]

  -- An operation between two flushes. The state is the buffer that it may write to.
  pub both_fenced : (List ℕ → Run World (List ℕ)) → List ℕ → Run World (List ℕ)
  both_fenced op buf = do flush_blocking; buf' ← op buf; flush_blocking; pure buf'

  -- The body of an iteration: the operation on rank 0, and two flushes on rank 1.
  pub fenced : Context → (List ℕ → Run World (List ℕ)) → List ℕ → Run World (List ℕ)
  fenced c op buf =
      if c.rank == 0 then both_fenced op buf else (do flush_blocking; flush_blocking; pure buf)

  -- The operations of a window: piece `j` at its offset from the remote address.
  pub do_window : (List ℕ → ℕ → World → Bool × World) → List ℕ → ℕ → ℕ → ℕ → Run World (Unit {0})
  do_window op buf size window addr =
      for_all (range 0 window)
        (λ j _. do
          piece ← lift (slice buf (j * size) (j * size + size))
          accepted (op piece ((addr + j * size) % 2 ^ 64)))
        tt

  pub do_put_bw : ℕ → List ℕ → ℕ → ℕ → ℕ → Run World (Unit {0})
  do_put_bw dst = do_window (r.rma_put dst)

  -- What the gets bring into the pieces is not read.
  pub do_get_bw : ℕ → List ℕ → ℕ → ℕ → ℕ → Run World (Unit {0})
  do_get_bw dst = do_window (λ piece. r.rma_get dst (length piece))

-- ===== src/Bench/Onesided/Atomics.antt =====
-- onesided/src/bin: the operations that walk over a buffer in words of eight bytes. All of them work on
-- one remote address.
use osu_micro_benchmarks_rs.Prelude.{
  ℕ, ◌+◌, ◌-◌, ◌*◌, ◌/◌, ◌&&◌, List, ◌++◌, leb, ltb, ◌==◌, if◌then◌else◌, length, range, map, min,
  take, drop, replicate,
}
use mathlib.Core.List.{zip}
use osu_micro_benchmarks_rs.Rust.{Run, pure, lift, expect, ◌>>=◌, ◌>>◌}
use osu_micro_benchmarks_rs.Rust.Slice.{slice, copy_at}
use osu_micro_benchmarks_rs.Rust.Bytes.{to_le_bytes, from_le_bytes}
use osu_micro_benchmarks_rs.Rust.Chunks.{chunks}
use osu_micro_benchmarks_rs.Ucx.{Ucx}
use osu_micro_benchmarks_rs.Ucx.Rma.{Rma}
use osu_micro_benchmarks_rs.Bench.{for_all}
use osu_micro_benchmarks_rs.Bench.Onesided.{accepted, wait_fetch}

-- Up to eight bytes as a `u64`, with zeros behind them.
abbrev pub word : List ℕ → ℕ
word bytes = from_le_bytes (bytes ++ replicate (8 - length bytes) 0)

-- `chunks_exact(8)` and its `remainder()`
abbrev pub words_of : List ℕ → List ℕ
words_of buf = map from_le_bytes (chunks 8 (length buf / 8) buf)

abbrev pub remainder : List ℕ → List ℕ
remainder buf = drop (length buf / 8 * 8) buf

module _ (u : Ucx) (r : Rma u) (fuel : ℕ) where
  open u use {World}

  -- One operation for each word of the buffer, the rest padded; nothing for an empty buffer.
  pub each_word : (ℕ → Run World (Unit {0})) → List ℕ → Run World (Unit {0})
  each_word op buf =
      if length buf == 0 then pure tt else if leb (length buf) 8 then op (word buf) else do
        for_all (words_of buf) (λ operand _. op operand) tt
        (if length (remainder buf) == 0 then pure tt else op (word (remainder buf)))

  pub do_accumulate : ℕ → List ℕ → ℕ → Run World (Unit {0})
  do_accumulate dst buf addr =
      each_word (λ operand. accepted u r fuel (r.amo_add64 dst operand addr)) buf

  -- A fetch-and-add, waited for, with its reply.
  pub fetch_add : ℕ → ℕ → ℕ → Run World ℕ
  fetch_add dst addr operand = do
    q ← λ w. let (q, w') = r.amo_fadd64 dst operand addr w in expect q w'
    wait_fetch u r fuel fuel q
    λ w. pure (r.reply q w) w

  -- The replies are dropped.
  pub do_fop : ℕ → List ℕ → ℕ → Run World (Unit {0})
  do_fop dst buf addr = each_word (λ operand. fetch_add dst addr operand >> pure tt) buf

  -- The replies go to the places of their operands.
  pub do_get_acc : ℕ → List ℕ → ℕ → List ℕ → Run World (List ℕ)
  do_get_acc dst buf addr compare_buf =
      let n = length buf in
      let at = n / 8 * 8 in
      if n == 0
      then pure compare_buf
      else if leb n 8
      then (do
        reply ← fetch_add dst addr (word buf)
        lift (copy_at compare_buf 0 n (take n (to_le_bytes 8 reply))))
      else do
        buf' ←
            for_all (range 0 (n / 8))
              (λ i b. do
                operand ← lift (slice buf (i * 8) (i * 8 + 8))
                reply ← fetch_add dst addr (from_le_bytes operand)
                lift (copy_at b (i * 8) (i * 8 + 8) (to_le_bytes 8 reply)))
              compare_buf
        (if ltb at n
            then (do
              reply ← fetch_add dst addr (word (remainder buf))
              let k = min (length (remainder buf)) (length buf' - at)
              lift (copy_at buf' at (at + k) (take k (to_le_bytes 8 reply))))
            else pure buf')

  -- The words of the replacement, each with that of the expected value; the two are of one length.
  pub do_cas : ℕ → List ℕ → List ℕ → ℕ → Run World (Unit {0})
  do_cas dst replacement expected addr =
      let swap = λ (e v : ℕ). accepted u r fuel (r.amo_cswap64 dst e v addr) in
      if length replacement == 0
      then pure tt
      else if leb (length replacement) 8
      then swap (word expected) (word replacement)
      else do
        for_all (zip (words_of replacement) (words_of expected)) (λ (v, e) _. swap e v) tt
        (if (length (remainder replacement) == 0) && (length (remainder expected) == 0)
            then pure tt
            else swap (word (remainder expected)) (word (remainder replacement)))

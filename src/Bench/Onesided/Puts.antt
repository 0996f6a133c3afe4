-- ===== src/Bench/Onesided/Puts.antt =====
-- A window of puts covers a part of the remote region piece by piece.
use osu_micro_benchmarks_rs.Prelude.{
  ℕ, zero, suc, ◌+◌, ◌*◌, ◌-◌, ◌%◌, ◌^◌, ◌≤◌, ◌<◌, ◌≡◌, refl, ◌∙◌, sym, ap, List, [], ◌∷◌, ◌++◌,
  arith, length, range, map, take, drop, append-nil, append_assoc,
}
use osu_micro_benchmarks_rs.Rust.{ok, lift, ◌>>=◌}
use osu_micro_benchmarks_rs.Rust.Slice.{slice}
use osu_micro_benchmarks_rs.Rust.Chunks.{slice_lem, chunk_fits}
use osu_micro_benchmarks_rs.Ucx.{Ucx}
use osu_micro_benchmarks_rs.Ucx.Rma.{Rma, Put, PutLog}
use osu_micro_benchmarks_rs.Bench.{for_all}
use osu_micro_benchmarks_rs.Bench.Onesided.{accepted, do_window, do_put_bw}

-- Piece `j` of the buffer, at its offset from the remote address.
abbrev pub piece : ℕ → List ℕ → ℕ → ℕ → ℕ → Put
piece dst buf size addr j = record {
  target = dst;
  address = addr + j * size;
  bytes = take size (drop (j * size) buf);
}

module _ (u : Ucx) (r : Rma u) (fuel : ℕ) (L : PutLog u r) where
  open u use {World}

  turns_lem :
      (dst : ℕ) (buf : List ℕ) (size addr i k : ℕ) (w : World)
      → (i + k) * size ≤ length buf
      → addr + (i + k) * size < 2 ^ 64
      → (w' : World) × (for_all
            (range i k)
            (λ j (x : Unit {0}). lift (slice buf (j * size) (j * size + size)) >>= λ p.
              accepted u r fuel (r.rma_put dst p ((addr + j * size) % 2 ^ 64)))
            tt
            w
          ≡ ok (tt, w'))
        × (L.puts w' ≡ L.puts w ++ map (piece dst buf size addr) (range i k))
  unfolding for_all
  turns_lem dst buf size addr i zero w fits low = (w, refl, sym (append-nil (L.puts w)))
  turns_lem dst buf size addr i (suc k) w fits low =
      let within : i * size + size ≤ (i + suc k) * size =
        chunk_fits i size (i + suc k) (omega arith) in
      let next : suc i + k ≡ i + suc k = omega arith in
      let end : i * size + size - i * size ≡ size = omega arith in
      let at : (addr + i * size) % 2 ^ 64 ≡ addr + i * size = omega arith in
      let p = piece dst buf size addr i in
      let cut : slice buf (i * size) (i * size + size) ≡ ok p.bytes =
        slice_lem buf (i * size) (i * size + size) (omega arith) (omega arith)
        ∙ ap (λ (n : ℕ). ok (take n (drop (i * size) buf))) end in
      let w₁ = (r.rma_put dst p.bytes p.address w).1 in
      let (w₂, ran, puts) = turns_lem dst buf size addr (suc i) k w₁ (rw next fits) (rw next low) in
      (
        w₂,
        rw (cut, ◌>>=◌, at, L.put_accepted dst p.bytes p.address w, at) ran,
        puts
            ∙ ap (λ l. l ++ map (piece dst buf size addr) (range (suc i) k))
                (L.put_logged dst p.bytes p.address w)
            ∙ append_assoc (L.puts w) (p ∷ []) (map (piece dst buf size addr) (range (suc i) k)),
      )

  -- A window of puts ends without a panic, if the buffer has the bytes of the window and its addresses
  -- do not wrap. It puts the pieces of the buffer in order, each once, and each directly behind the
  -- one before it.
  pub do_put_bw_lem :
      (dst : ℕ) (buf : List ℕ) (size window addr : ℕ) (w : World)
      → window * size ≤ length buf
      → addr + window * size < 2 ^ 64
      → (w' : World) × (do_put_bw u r fuel dst buf size window addr w ≡ ok (tt, w'))
        × (L.puts w' ≡ L.puts w ++ map (piece dst buf size addr) (range 0 window))
  unfolding do_put_bw do_window
  do_put_bw_lem dst buf size window addr w fits low =
      let e : 0 + window ≡ window = omega arith in
      turns_lem dst buf size addr 0 window w (rw e fits) (rw e low)

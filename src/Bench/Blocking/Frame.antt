-- ===== src/Bench/Blocking/Frame.antt =====
-- The frame of the sweeps, for a call that takes no message of its own, such as those of a root that
-- only sends: it ends, and prints one row for each message size.
use osu_micro_benchmarks_rs.Prelude.{
  ℕ, zero, suc, ◌+◌, ◌≤◌, ◌<◌, ◌≡◌, refl, ◌∙◌, ap, subst, false, arith, range, map, foldl, length,
}
use osu_micro_benchmarks_rs.Rust.{ok, Run, ◌>>=◌, ◌>>◌}
use osu_micro_benchmarks_rs.Rust.Float.{F64}
use osu_micro_benchmarks_rs.Ucx.{Ucx, TagMatching}
use osu_micro_benchmarks_rs.Ucx.Openshmem.{Openshmem}
use osu_micro_benchmarks_rs.Runtime.{Context}
use osu_micro_benchmarks_rs.Bench.{Machine, times}
use osu_micro_benchmarks_rs.Bench.Stock.{Arrivals, Stocked, Stocked-same, barrier-Stocked}
use osu_micro_benchmarks_rs.Bench.Blocking.{Buffers, warm_up, timed}

module _ (u : Ucx) (T : TagMatching u) (fuel : ℕ) (enough : T.lag ≤ fuel) (c : Context)
    (h : c.rank < c.size) (many : 1 < c.size) (o : Openshmem u.World)
    (off : c.openshmem_initialized ≡ false) (f : F64) (clock : ℕ → f.Float) where
  open u use {World}
  open f use {Float, add_f64, div_f64, of_usize, zero_f64}

  -- A call that ends, leaves the incoming messages alone, and keeps the lengths of the buffers.
  abbrev pub Sends : (Buffers → Run World Buffers) → ℕ → ℕ → Type 0
  Sends call m n =
      (bufs : Buffers) (w : World)
      → length bufs.0 ≡ m
      → length bufs.1 ≡ n
      → (bufs' : Buffers) × (w' : World) × (call bufs w ≡ ok (bufs', w'))
        × (T.incoming w' ≡ T.incoming w)
        × (length bufs'.0 ≡ m)
        × (length bufs'.1 ≡ n)

  -- The readings of `n` timers from number `i` on, added to a timer from the left.
  abbrev pub added : Float → ℕ → ℕ → Float
  added timer i n = foldl add_f64 timer (map clock (range i n))

  module _ (call : Buffers → Run World Buffers) (m n : ℕ) (sends : Sends call m n) where
    pub warm_lem :
        (k b r : ℕ) (q : Arrivals) (bufs : Buffers) (s : Machine World Float)
        → length bufs.0 ≡ m
        → length bufs.1 ≡ n
        → Stocked u T c.size (k + b) r q s.net
        → (bufs' : Buffers) × (w : World) × (times k (warm_up u fuel o f clock c call) bufs s
            ≡ ok (bufs', record s { net = w }))
          × (length bufs'.0 ≡ m)
          × (length bufs'.1 ≡ n)
          × Stocked u T c.size b r q w
    unfolding times warm_up
    warm_lem zero b r q bufs s lm ln stocked =
        let e : zero + b ≡ b = omega arith in
        (bufs, s.net, refl, lm, ln, subst (λ (j : ℕ). Stocked u T c.size j r q s.net) e stocked)
    warm_lem (suc k) b r q bufs s lm ln stocked =
        let e : suc k + b ≡ suc (k + b) = omega arith in
        let (bufs₁, w₁, ran₁, same, lm₁, ln₁) = sends bufs s.net lm ln in
        let (w₂, ran₂, left₂) = barrier-Stocked u T fuel enough c h many o (k + b) r q w₁ off (
          Stocked-same u T c.size (suc (k + b)) r q s.net w₁ same
            (subst (λ (j : ℕ). Stocked u T c.size j r q s.net) e stocked)) in
        let (bufs₃, w₃, ran₃, lm₃, ln₃, left₃) =
          warm_lem k b r q bufs₁ (record s { net = w₂ }) lm₁ ln₁ left₂ in
        (bufs₃, w₃, rw (ran₁, ◌>>=◌, ran₂, ◌>>◌) ran₃, lm₃, ln₃, left₃)

    pub timed_lem :
        (k b r : ℕ) (q : Arrivals) (bufs : Buffers) (timer : Float) (s : Machine World Float)
        → length bufs.0 ≡ m
        → length bufs.1 ≡ n
        → Stocked u T c.size (k + b) r q s.net
        → (bufs' : Buffers) × (s' : Machine World Float) × (times k
              (timed u fuel o f clock c call)
              (bufs, timer)
              s
            ≡ ok ((bufs', added timer s.readings k), s'))
          × (s'.out ≡ s.out)
          × (s'.readings ≡ s.readings + k)
          × (length bufs'.0 ≡ m)
          × (length bufs'.1 ≡ n)
          × Stocked u T c.size b r q s'.net
    unfolding times timed
    timed_lem zero b r q bufs timer s lm ln stocked =
        let e : zero + b ≡ b = omega arith in
        (
          bufs,
          s,
          refl,
          refl,
          omega arith,
          lm,
          ln,
          subst (λ (j : ℕ). Stocked u T c.size j r q s.net) e stocked,
        )
    timed_lem (suc k) b r q bufs timer s lm ln stocked =
        let e : suc k + b ≡ suc (k + b) = omega arith in
        let (bufs₁, w₁, ran₁, same, lm₁, ln₁) = sends bufs s.net lm ln in
        let (w₂, ran₂, left₂) = barrier-Stocked u T fuel enough c h many o (k + b) r q w₁ off (
          Stocked-same u T c.size (suc (k + b)) r q s.net w₁ same
            (subst (λ (j : ℕ). Stocked u T c.size j r q s.net) e stocked)) in
        let s₂ = record s { net = w₂; readings = s.readings + 1 } in
        let (bufs₃, s₃, ran₃, out₃, read₃, lm₃, ln₃, left₃) =
          timed_lem k b r q bufs₁ (add_f64 timer (clock s.readings)) s₂ lm₁ ln₁ left₂ in
        let next : s.readings + 1 ≡ suc s.readings = omega arith in
        (
          bufs₃,
          s₃,
          rw (ran₁, ◌>>=◌, ran₂, ◌>>◌) ran₃
              ∙ ap (λ (j : ℕ). ok ((bufs₃, added (add_f64 timer (clock s.readings)) j k), s₃)) next,
          out₃,
          omega arith,
          lm₃,
          ln₃,
          left₃,
        )

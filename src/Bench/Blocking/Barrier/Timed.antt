-- ===== src/Bench/Blocking/Barrier/Timed.antt =====
-- The barrier program: it ends, and its latency is the mean of the readings of the timed iterations.
use osu_micro_benchmarks_rs.Prelude.{
  ℕ, zero, suc, ◌+◌, ◌%◌, ◌^◌, ◌≤◌, ◌<◌, ◌≡◌, refl, ◌∙◌, ap, subst, false, ◌++◌, arith, range, map,
  foldl, le→leb, lt→leb_false, le→ltb_false,
}
use osu_micro_benchmarks_rs.Rust.{ok, ◌>>=◌, ◌>>◌, >>=-ok}
use osu_micro_benchmarks_rs.Rust.Float.{F64}
use osu_micro_benchmarks_rs.Ucx.{Ucx, TagMatching}
use osu_micro_benchmarks_rs.Ucx.Openshmem.{Openshmem}
use osu_micro_benchmarks_rs.Runtime.{Context}
use osu_micro_benchmarks_rs.Cli.{CliArgs}
use osu_micro_benchmarks_rs.Output.{
  BenchmarkType, print_header, print_latency_header, print_latency_row,
}
use osu_micro_benchmarks_rs.Bench.{Machine, finished, for_all}
use osu_micro_benchmarks_rs.Bench.Loops.{range-append, for_all-append}
use osu_micro_benchmarks_rs.Bench.Stock.{Arrivals, Stocked, barrier-Stocked}
use osu_micro_benchmarks_rs.Bench.Blocking.Reports.{
  at_root, on_root_lem, reported, report_latency_lem,
}
use osu_micro_benchmarks_rs.Bench.Blocking.Barrier.{barrier_turn, osu_barrier}

module _ (u : Ucx) (T : TagMatching u) (fuel : ℕ) (enough : T.lag ≤ fuel) (c : Context)
    (h : c.rank < c.size) (many : 1 < c.size) (o : Openshmem u.World)
    (off : c.openshmem_initialized ≡ false) (f : F64) (clock : ℕ → f.Float) where
  open u use {World}
  open f use {Float, add_f64, div_f64, of_usize, zero_f64}

  -- What a loop leaves alone, and the readings and messages that it uses.
  abbrev pub Runs : Machine World Float → ℕ → ℕ → ℕ → Arrivals → Machine World Float → Type 0
  Runs s n b r q s' =
      (s'.out ≡ s.out) × (s'.readings ≡ s.readings + n) × Stocked u T c.size b r q s'.net

  turn_warm :
      (skip i b r : ℕ) (q : Arrivals) (timer : Float) (s : Machine World Float)
      → i < skip
      → Stocked u T c.size (suc b) r q s.net
      → (s' : Machine World Float) × (barrier_turn u fuel o f clock c skip i timer s
          ≡ ok (timer, s'))
        × Runs s 1 b r q s'
  unfolding barrier_turn
  turn_warm skip i b r q timer s lt stocked =
      let (w, ran, left) = barrier-Stocked u T fuel enough c h many o b r q s.net off stocked in
      (
        record s { net = w; readings = s.readings + 1 },
        rw (ran, ◌>>◌, ◌>>=◌, lt→leb_false skip i lt) refl,
        (refl, refl, left),
      )

  turn_timed :
      (skip i b r : ℕ) (q : Arrivals) (timer : Float) (s : Machine World Float)
      → skip ≤ i
      → Stocked u T c.size (suc (suc b)) r q s.net
      → (s' : Machine World Float) × (barrier_turn u fuel o f clock c skip i timer s
          ≡ ok (add_f64 timer (clock s.readings), s'))
        × Runs s 1 b r q s'
  unfolding barrier_turn
  turn_timed skip i b r q timer s le stocked =
      let (w, ran, left) =
        barrier-Stocked u T fuel enough c h many o (suc b) r q s.net off stocked in
      let (w', ran', left') = barrier-Stocked u T fuel enough c h many o b r q w off left in
      (
        record s { net = w'; readings = s.readings + 1 },
        rw (ran, ◌>>◌, ◌>>=◌, le→leb skip i le, ran') refl,
        (refl, refl, left'),
      )

  warm_lem :
      (skip n i b r : ℕ) (q : Arrivals) (timer : Float) (s : Machine World Float)
      → i + n ≤ skip
      → Stocked u T c.size (n + b) r q s.net
      → (s' : Machine World Float) × (for_all
            (range i n)
            (barrier_turn u fuel o f clock c skip)
            timer
            s
          ≡ ok (timer, s'))
        × Runs s n b r q s'
  unfolding for_all
  warm_lem skip zero i b r q timer s le stocked =
      let e : zero + b ≡ b = omega arith in
      (s, refl, (refl, omega arith, subst (λ (k : ℕ). Stocked u T c.size k r q s.net) e stocked))
  warm_lem skip (suc n) i b r q timer s le stocked =
      let e : suc n + b ≡ suc (n + b) = omega arith in
      let (s₁, ran₁, (out₁, read₁, left₁)) =
        turn_warm skip i (n + b) r q timer s (omega arith)
          (subst (λ (k : ℕ). Stocked u T c.size k r q s.net) e stocked) in
      let (s₂, ran₂, (out₂, read₂, left₂)) =
        warm_lem skip n (suc i) b r q timer s₁ (omega arith) left₁ in
      (
        s₂,
        >>=-ok (barrier_turn u fuel o f clock c skip i timer) _ s ran₁ ∙ ran₂,
        (out₂ ∙ out₁, omega arith, left₂),
      )

  -- The readings of `n` timers from number `i` on, added to a timer from the left.
  abbrev pub timed_sum : Float → ℕ → ℕ → Float
  timed_sum timer i n = foldl add_f64 timer (map clock (range i n))

  timed_lem :
      (skip n i b r : ℕ) (q : Arrivals) (timer : Float) (s : Machine World Float)
      → skip ≤ i
      → Stocked u T c.size (n + n + b) r q s.net
      → (s' : Machine World Float) × (for_all
            (range i n)
            (barrier_turn u fuel o f clock c skip)
            timer
            s
          ≡ ok (timed_sum timer s.readings n, s'))
        × Runs s n b r q s'
  unfolding for_all
  timed_lem skip zero i b r q timer s le stocked =
      let e : zero + zero + b ≡ b = omega arith in
      (s, refl, (refl, omega arith, subst (λ (k : ℕ). Stocked u T c.size k r q s.net) e stocked))
  timed_lem skip (suc n) i b r q timer s le stocked =
      let e : suc n + suc n + b ≡ suc (suc (n + n + b)) = omega arith in
      let (s₁, ran₁, (out₁, read₁, left₁)) =
        turn_timed skip i (n + n + b) r q timer s le
          (subst (λ (k : ℕ). Stocked u T c.size k r q s.net) e stocked) in
      let (s₂, ran₂, (out₂, read₂, left₂)) =
        timed_lem skip n (suc i) b r q (add_f64 timer (clock s.readings)) s₁ (omega arith) left₁ in
      let next : s₁.readings ≡ suc s.readings = omega arith in
      (
        s₂,
        >>=-ok (barrier_turn u fuel o f clock c skip i timer) _ s ran₁
            ∙ ran₂
            ∙ ap (λ (j : ℕ). ok (timed_sum (add_f64 timer (clock s.readings)) j n, s₂)) next,
        (out₂ ∙ out₁, omega arith, left₂),
      )

  loop_lem :
      (skip n b r : ℕ) (q : Arrivals) (s : Machine World Float)
      → Stocked u T c.size (skip + (n + n + b)) r q s.net
      → (s' : Machine World Float) × (for_all
            (range 0 (skip + n))
            (barrier_turn u fuel o f clock c skip)
            zero_f64
            s
          ≡ ok (timed_sum zero_f64 (s.readings + skip) n, s'))
        × Runs s (skip + n) b r q s'
  loop_lem skip n b r q s stocked =
      let (s₁, ran₁, (out₁, read₁, left₁)) =
        warm_lem skip skip 0 (n + n + b) r q zero_f64 s (omega arith) stocked in
      let (s₂, ran₂, (out₂, read₂, left₂)) =
        timed_lem skip n (0 + skip) b r q zero_f64 s₁ (omega arith) left₁ in
      (
        s₂,
        ap (λ l. for_all l (barrier_turn u fuel o f clock c skip) zero_f64 s)
              (range-append 0 skip n)
            ∙ for_all-append (range 0 skip) (range (0 + skip) n)
                (barrier_turn u fuel o f clock c skip) zero_f64 zero_f64 s s₁ ran₁
            ∙ ran₂
            ∙ ap (λ (j : ℕ). ok (timed_sum zero_f64 j n, s₂)) read₁,
        (out₂ ∙ out₁, omega arith, left₂),
      )

  -- In a job of two or more ranks, openshmem off, a message of each peer is incoming for the barrier at
  -- the start, for that of each warm-up iteration, for both of each timed one, and for the reductions
  -- of one report; `q` has those of the minimum, the maximum and the sum, in the order of their
  -- arrival. Then the barrier program ends. On rank 0 it prints the header and one row: the sum divided
  -- by the number of ranks, the minimum and the maximum of the mean of the own readings of the timed
  -- iterations and of the values in the first message of each peer. Other ranks print nothing. The
  -- number of iterations does not wrap.
  pub osu_barrier_lem :
      (a : CliArgs) (q : Arrivals) (s : Machine World Float)
      → a.iterations + a.skip < 2 ^ 64
      → Stocked u T c.size (suc (a.skip + (a.iterations + a.iterations + 0))) 1 q s.net
      → (s' : Machine World Float) × (osu_barrier u fuel o f clock c a s ≡ ok (finished, s'))
        × (s'.out
            ≡ (s.out
                ++ at_root c (
                    print_header "Barrier" BenchmarkType.collective_latency
                    ++ print_latency_header))
              ++ reported u T fuel enough c h many o f clock print_latency_row 0
                  (div_f64
                    (timed_sum zero_f64 (s.readings + a.skip) a.iterations)
                    (of_usize a.iterations))
                  q)
        × (s'.readings ≡ s.readings + (a.skip + a.iterations))
  unfolding osu_barrier
  osu_barrier_lem a q s fits stocked =
      let header =
        print_header "Barrier" BenchmarkType.collective_latency ++ print_latency_header in
      let s₀ = record s { out = s.out ++ at_root c header } in
      let (w₁, ran₁, left₁) =
        barrier-Stocked u T fuel enough c h many o (a.skip + (a.iterations + a.iterations + 0)) 1 q
          s.net off stocked in
      let s₁ = record s₀ { net = w₁ } in
      let (s₂, ran₂, (out₂, read₂, left₂)) = loop_lem a.skip a.iterations 0 1 q s₁ left₁ in
      let (w₃, ran₃, left₃) =
        report_latency_lem u T fuel enough c h many o f clock 0 a.iterations
          (timed_sum zero_f64 (s.readings + a.skip) a.iterations) 0 0 q s₂ left₂ in
      let rounds : (a.iterations + a.skip) % 2 ^ 64 ≡ a.skip + a.iterations = omega arith in
      let row =
        reported u T fuel enough c h many o f clock print_latency_row 0
          (div_f64 (timed_sum zero_f64 (s.readings + a.skip) a.iterations) (of_usize a.iterations))
          q in
      (
        record s₂ { net = w₃; out = s₂.out ++ row },
        rw
            (
              on_root_lem c header s,
              ◌>>◌,
              ◌>>=◌,
              le→ltb_false c.size 2 many,
              ran₁,
              rounds,
              ran₂,
              ran₃,
            )
            refl,
        ap (λ l. l ++ row) out₂,
        read₂,
      )

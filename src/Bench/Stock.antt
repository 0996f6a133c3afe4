-- ===== src/Bench/Stock.antt =====
-- What the network must bring for a benchmark to go on: for every barrier and every reduction one
-- message from each peer. A step of the program takes one batch of messages of its tag.
use osu_micro_benchmarks_rs.Prelude.{
  ℕ, zero, suc, ◌-◌, ◌≤◌, ◌<◌, ◌≡◌, ◌≢◌, refl, ◌∙◌, sym, ap, subst, false, List, [], ◌∷◌, ◌++◌,
  arith, length, foldl, take, drop,
}
use osu_micro_benchmarks_rs.Rust.{ok}
use osu_micro_benchmarks_rs.Rust.Chunks.{Sized}
use osu_micro_benchmarks_rs.Rust.Float.{F64}
use osu_micro_benchmarks_rs.Ucx.{Ucx, Send, TagMatching}
use osu_micro_benchmarks_rs.Ucx.Openshmem.{Openshmem}
use osu_micro_benchmarks_rs.Runtime.{Context}
use osu_micro_benchmarks_rs.Runtime.Slots.{Exchanges}
use osu_micro_benchmarks_rs.Collective.Scalars.{
  barrier_tag, reduce_u64_tag, min_tag, max_tag, sum_tag, barrier, allreduce_min_f64,
  allreduce_max_f64, allreduce_sum_f64,
}
use osu_micro_benchmarks_rs.Collective.Scalars.Reduction.{barrier_lem}
use osu_micro_benchmarks_rs.Collective.Scalars.Exchanged.{floats, min-Sized, max-Sized, sum-Sized}

-- `k` times a message of `n` bytes from each peer.
abbrev pub Batches : ℕ → ℕ → ℕ → List (List ℕ) → Type 0
Batches size n zero l = Unit
Batches size n (suc k) l =
    (ms : List (List ℕ)) × (rest : List (List ℕ)) × (l ≡ ms ++ rest)
    × Sized n ms
    × (suc (length ms) ≡ size)
    × Batches size n k rest

-- The messages of a report's three reductions, each in the order of its arrival.
pub record Arrivals : Type 0 where
  pub low : List (List ℕ)
  pub high : List (List ℕ)
  pub total : List (List ℕ)

-- The messages of one report: the first one of each peer.
abbrev pub batch : ℕ → List (List ℕ) → List (List ℕ)
batch size l = take (size - 1) l

-- What is left after one report.
abbrev pub later : ℕ → Arrivals → Arrivals
later size q = record {
  low = drop (size - 1) q.low;
  high = drop (size - 1) q.high;
  total = drop (size - 1) q.total;
}

batch-append :
    (k : ℕ) (l ms rest : List (List ℕ))
    → l ≡ ms ++ rest
    → suc (length ms) ≡ suc k
    → (ms ≡ take k l) × (rest ≡ drop k l)
batch-append k l ms rest e n =
    let (t, d) = go k ms rest n in (t ∙ ap (take k) (sym e), d ∙ ap (drop k) (sym e))
  where
    go :
        (k : ℕ) (ms rest : List (List ℕ))
        → suc (length ms) ≡ suc k
        → (ms ≡ take k (ms ++ rest)) × (rest ≡ drop k (ms ++ rest))
    go zero [] rest n = (refl, refl)
    go zero (m ∷ ms) rest n = absurd (omega (arith, n))
    go (suc k) [] rest n = absurd (omega (arith, n))
    go (suc k) (m ∷ ms) rest n = let (t, d) = go k ms rest (omega (arith, n)) in (ap (◌∷◌ m) t, d)

batch_lem :
    (size : ℕ) (l ms rest : List (List ℕ))
    → l ≡ ms ++ rest
    → suc (length ms) ≡ size
    → (ms ≡ batch size l) × (rest ≡ drop (size - 1) l)
batch_lem size l ms rest e n = batch-append (size - 1) l ms rest e (omega (arith, n))

module _ (u : Ucx) (T : TagMatching u) where
  open u use {World}

  abbrev pub Supply : ℕ → ℕ → ℕ → ℕ → World → Type 0
  Supply size n k tag w = Batches size n k (T.incoming w tag)

  -- The incoming messages of the three reductions.
  abbrev pub Arriving : Arrivals → World → Type 0
  Arriving q w =
      (T.incoming w min_tag ≡ q.low)
      × (T.incoming w max_tag ≡ q.high)
      × (T.incoming w sum_tag ≡ q.total)

  -- Messages for `b` barriers and `r` reports, each with a minimum, a maximum and a sum, which are
  -- those of `q`.
  abbrev pub Stocked : ℕ → ℕ → ℕ → Arrivals → World → Type 0
  Stocked size b r q w =
      Supply size 1 b barrier_tag w
      × Supply size 8 r reduce_u64_tag w
      × Supply size 8 r min_tag w
      × Supply size 8 r max_tag w
      × Supply size 8 r sum_tag w
      × Arriving q w

  pub Supply-kept :
      (w w' : World) (l : List Send) (tag t size n k : ℕ) (rest : List (List ℕ))
      → Exchanges u T w l tag rest w'
      → t ≢ tag
      → Supply size n k t w
      → Supply size n k t w'
  Supply-kept w w' l tag t size n k rest (_, _, same) ne s =
      subst (Batches size n k) (sym (same t ne)) s

  pub Supply-left :
      (w w' : World) (l : List Send) (tag size n k : ℕ) (rest : List (List ℕ))
      → Exchanges u T w l tag rest w'
      → Batches size n k rest
      → Supply size n k tag w'
  Supply-left w w' l tag size n k rest (_, left, _) s = subst (Batches size n k) (sym left) s

  pub Stocked-same :
      (size b r : ℕ) (q : Arrivals) (w w' : World)
      → T.incoming w' ≡ T.incoming w
      → Stocked size b r q w
      → Stocked size b r q w'
  Stocked-same size b r q w w' e (s₀, s₁, s₂, s₃, s₄, (a₁, a₂, a₃)) = (
    subst (λ i. Batches size 1 b (i barrier_tag)) (sym e) s₀,
    subst (λ i. Batches size 8 r (i reduce_u64_tag)) (sym e) s₁,
    subst (λ i. Batches size 8 r (i min_tag)) (sym e) s₂,
    subst (λ i. Batches size 8 r (i max_tag)) (sym e) s₃,
    subst (λ i. Batches size 8 r (i sum_tag)) (sym e) s₄,
    (ap (λ i. i min_tag) e ∙ a₁, ap (λ i. i max_tag) e ∙ a₂, ap (λ i. i sum_tag) e ∙ a₃),
  )

module _ (u : Ucx) (T : TagMatching u) (fuel : ℕ) (enough : T.lag ≤ fuel) (c : Context)
    (h : c.rank < c.size) (many : 1 < c.size) where
  open u use {World}

  pub barrier-Stocked :
      (o : Openshmem World) (b r : ℕ) (q : Arrivals) (w : World)
      → c.openshmem_initialized ≡ false
      → Stocked u T c.size (suc b) r q w
      → (w' : World) × (barrier u fuel o c w ≡ ok (tt, w')) × Stocked u T c.size b r q w'
  barrier-Stocked o b r q w off ((ms, rest, i, sized, e, left), s₁, s₂, s₃, s₄, (a₁, a₂, a₃)) =
      let (w', ran, x) = barrier_lem u T fuel enough o c ms rest w off h many sized e i in
      (
        w',
        ran,
        (
          Supply-left u T w w' _ barrier_tag c.size 1 b rest x left,
          Supply-kept u T w w' _ barrier_tag reduce_u64_tag c.size 8 r rest x (omega arith) s₁,
          Supply-kept u T w w' _ barrier_tag min_tag c.size 8 r rest x (omega arith) s₂,
          Supply-kept u T w w' _ barrier_tag max_tag c.size 8 r rest x (omega arith) s₃,
          Supply-kept u T w w' _ barrier_tag sum_tag c.size 8 r rest x (omega arith) s₄,
          (
            x.2 min_tag (omega arith) ∙ a₁,
            x.2 max_tag (omega arith) ∙ a₂,
            x.2 sum_tag (omega arith) ∙ a₃,
          ),
        ),
      )

  module _ (f : F64) where
    open f use {Float, min_f64, max_f64, add_f64, infinity, neg_infinity, zero_f64}

    -- The three reductions of a report, one after the other.
    pub reductions-Stocked :
        (value : Float) (b r : ℕ) (q : Arrivals) (w : World)
        → Stocked u T c.size b (suc r) q w
        → (w₁ w₂ w₃ : World) × (allreduce_min_f64 u fuel f c value w
            ≡ ok (foldl min_f64 infinity (floats c f value (batch c.size q.low)), w₁))
          × (allreduce_max_f64 u fuel f c value w₁
              ≡ ok (foldl max_f64 neg_infinity (floats c f value (batch c.size q.high)), w₂))
          × (allreduce_sum_f64 u fuel f c value w₂
              ≡ ok (foldl add_f64 zero_f64 (floats c f value (batch c.size q.total)), w₃))
          × Stocked u T c.size b r (later c.size q) w₃
    reductions-Stocked value b r q w
          (
            s₀,
            (ms₁, r₁, i₁, z₁, e₁, t₁),
            (ms₂, r₂, i₂, z₂, e₂, t₂),
            (ms₃, r₃, i₃, z₃, e₃, t₃),
            (ms₄, r₄, i₄, z₄, e₄, t₄),
            (a₂, a₃, a₄),
          ) =
        let (_, _, v, w₁, low, x, y) =
          min-Sized u T fuel enough c h many f value ms₁ r₁ ms₂ r₂ w z₁ e₁ i₁ z₂ e₂ i₂ in
        let (_, w₂, high, p) =
          max-Sized u T fuel enough c h many f value ms₃ r₃ w₁ z₃ e₃
            (y.2 max_tag (omega arith) ∙ x.2 max_tag (omega arith) ∙ i₃) in
        let (_, w₃, total, q') = sum-Sized u T fuel enough c h many f value ms₄ r₄ w₂ z₄ e₄ (
          p.2 sum_tag (omega arith) ∙ y.2 sum_tag (omega arith) ∙ x.2 sum_tag (omega arith) ∙ i₄) in
        let kept = λ (t : ℕ) (a : t ≢ min_tag) (d : t ≢ max_tag) (g : t ≢ sum_tag).
          q'.2 t g ∙ p.2 t d ∙ y.2 t a in
        let (f₂, d₂) = batch_lem c.size q.low ms₂ r₂ (sym a₂ ∙ i₂) e₂ in
        let (f₃, d₃) = batch_lem c.size q.high ms₃ r₃ (sym a₃ ∙ i₃) e₃ in
        let (f₄, d₄) = batch_lem c.size q.total ms₄ r₄ (sym a₄ ∙ i₄) e₄ in
        let left₂ = q'.2 min_tag (omega arith) ∙ p.2 min_tag (omega arith) ∙ y.1 in
        let left₃ = q'.2 max_tag (omega arith) ∙ p.1 in
        (
          w₁,
          w₂,
          w₃,
          low ∙ ap (λ ms. ok (foldl min_f64 infinity (floats c f value ms), w₁)) f₂,
          high ∙ ap (λ ms. ok (foldl max_f64 neg_infinity (floats c f value ms), w₂)) f₃,
          total ∙ ap (λ ms. ok (foldl add_f64 zero_f64 (floats c f value ms), w₃)) f₄,
          (
            subst (Batches c.size 1 b)
                (sym (
                  kept barrier_tag (omega arith) (omega arith) (omega arith)
                  ∙ x.2 barrier_tag (omega arith)))
                s₀,
            subst (Batches c.size 8 r)
                (sym (kept reduce_u64_tag (omega arith) (omega arith) (omega arith) ∙ x.1)) t₁,
            subst (Batches c.size 8 r) (sym left₂) t₂,
            subst (Batches c.size 8 r) (sym left₃) t₃,
            subst (Batches c.size 8 r) (sym q'.1) t₄,
            (left₂ ∙ d₂, left₃ ∙ d₃, q'.1 ∙ d₄),
          ),
        )

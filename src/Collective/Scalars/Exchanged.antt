-- ===== src/Collective/Scalars/Exchanged.antt =====
-- The reductions of one number when nothing is known of the messages but their length: they end, and
-- say which words they reduce.
use osu_micro_benchmarks_rs.Prelude.{
  ℕ, suc, ◌%◌, ◌^◌, ◌≤◌, ◌<◌, ◌≡◌, refl, ◌∙◌, List, ◌++◌, arith, length, map, foldl, sum, insert_at,
  lt→leb_false,
}
use osu_micro_benchmarks_rs.Rust.{ok, ◌>>=◌}
use osu_micro_benchmarks_rs.Rust.Bytes.{from_le_bytes}
use osu_micro_benchmarks_rs.Rust.Chunks.{Sized}
use osu_micro_benchmarks_rs.Rust.Float.{F64}
use osu_micro_benchmarks_rs.Ucx.{Ucx, Send, TagMatching}
use osu_micro_benchmarks_rs.Runtime.{Context}
use osu_micro_benchmarks_rs.Runtime.Fill.{vals}
use osu_micro_benchmarks_rs.Runtime.Slots.{Exchanges}
use osu_micro_benchmarks_rs.Collective.Scalars.{
  reduce_u64_tag, min_tag, max_tag, sum_tag, allreduce_u64, allreduce_min_f64, allreduce_max_f64,
  allreduce_sum_f64,
}
use osu_micro_benchmarks_rs.Collective.Scalars.Reduction.{
  exchange_words-Sized, own_slot, own_slot_lem,
}

-- The words of all ranks, the own one in its place.
abbrev pub slots : Context → ℕ → List (List ℕ) → List ℕ
slots c value ms = insert_at c.rank value (vals from_le_bytes ms)

-- The same as floats.
abbrev pub floats : Context → (f : F64) → f.Float → List (List ℕ) → List f.Float
floats c f value ms = map f.from_bits (slots c (f.to_bits value) ms)

module _ (u : Ucx) (T : TagMatching u) (fuel : ℕ) (enough : T.lag ≤ fuel) (c : Context)
    (h : c.rank < c.size) (many : 1 < c.size) where
  open u use {World}

  pub allreduce_u64-Sized :
      (value : ℕ) (ms rest : List (List ℕ)) (w : World)
      → Sized 8 ms
      → suc (length ms) ≡ c.size
      → T.incoming w reduce_u64_tag ≡ ms ++ rest
      → (x : ℕ) × (l : List Send) × (w' : World) × (allreduce_u64 u fuel c value w ≡ ok (x, w'))
        × Exchanges u T w l reduce_u64_tag rest w'
  unfolding allreduce_u64
  allreduce_u64-Sized value ms rest w sized e i =
      let (own, l, g) = own_slot_lem u T fuel enough c value h in
      let (w', exchanged, done) =
        exchange_words-Sized u T fuel enough c value reduce_u64_tag
          (own_slot u T fuel enough c value) ms rest w h l g sized e i in
      (
        sum (slots c value ms) % 2 ^ 64,
        _,
        w',
        rw (lt→leb_false c.size 1 many, own, exchanged, ◌>>=◌) refl,
        done,
      )

  module _ (f : F64) where
    open f use {
      Float, to_bits, from_bits, min_f64, max_f64, add_f64, infinity, neg_infinity, zero_f64,
    }

    pub max-Sized :
        (value : Float) (ms rest : List (List ℕ)) (w : World)
        → Sized 8 ms
        → suc (length ms) ≡ c.size
        → T.incoming w max_tag ≡ ms ++ rest
        → (l : List Send) × (w' : World) × (allreduce_max_f64 u fuel f c value w
            ≡ ok (foldl max_f64 neg_infinity (floats c f value ms), w'))
          × Exchanges u T w l max_tag rest w'
    unfolding allreduce_max_f64
    max-Sized value ms rest w sized e i =
        let (own, l, g) = own_slot_lem u T fuel enough c (to_bits value) h in
        let (w', exchanged, done) =
          exchange_words-Sized u T fuel enough c (to_bits value) max_tag
            (own_slot u T fuel enough c (to_bits value)) ms rest w h l g sized e i in
        (_, w', rw (own, lt→leb_false c.size 1 many, exchanged, ◌>>=◌) refl, done)

    pub sum-Sized :
        (value : Float) (ms rest : List (List ℕ)) (w : World)
        → Sized 8 ms
        → suc (length ms) ≡ c.size
        → T.incoming w sum_tag ≡ ms ++ rest
        → (l : List Send) × (w' : World) × (allreduce_sum_f64 u fuel f c value w
            ≡ ok (foldl add_f64 zero_f64 (floats c f value ms), w'))
          × Exchanges u T w l sum_tag rest w'
    unfolding allreduce_sum_f64
    sum-Sized value ms rest w sized e i =
        let (own, l, g) = own_slot_lem u T fuel enough c (to_bits value) h in
        let (w', exchanged, done) =
          exchange_words-Sized u T fuel enough c (to_bits value) sum_tag
            (own_slot u T fuel enough c (to_bits value)) ms rest w h l g sized e i in
        (_, w', rw (own, lt→leb_false c.size 1 many, exchanged, ◌>>=◌) refl, done)

    -- Two exchanges, of which the first is for nothing.
    pub min-Sized :
        (value : Float) (ms rest ms' rest' : List (List ℕ)) (w : World)
        → Sized 8 ms
        → suc (length ms) ≡ c.size
        → T.incoming w reduce_u64_tag ≡ ms ++ rest
        → Sized 8 ms'
        → suc (length ms') ≡ c.size
        → T.incoming w min_tag ≡ ms' ++ rest'
        → (l l' : List Send) × (w₁ w' : World) × (allreduce_min_f64 u fuel f c value w
            ≡ ok (foldl min_f64 infinity (floats c f value ms'), w'))
          × Exchanges u T w l reduce_u64_tag rest w₁
          × Exchanges u T w₁ l' min_tag rest' w'
    unfolding allreduce_min_f64
    min-Sized value ms rest ms' rest' w sized e i sized' e' i' =
        let (own, l, g) = own_slot_lem u T fuel enough c (to_bits value) h in
        let (x, l₁, w₁, summed, done₁) = allreduce_u64-Sized (to_bits value) ms rest w sized e i in
        let (w₂, exchanged, done₂) =
          exchange_words-Sized u T fuel enough c (to_bits value) min_tag
            (own_slot u T fuel enough c (to_bits value)) ms' rest' w₁ h l g sized' e'
            (done₁.2 min_tag (omega arith) ∙ i') in
        (
          l₁,
          _,
          w₁,
          w₂,
          rw (summed, own, lt→leb_false c.size 1 many, exchanged, ◌>>=◌) refl,
          done₁,
          done₂,
        )

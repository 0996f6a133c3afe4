-- ===== src/Collective/Scalars/Floats.antt =====
-- What the reductions of one float return.
use osu_micro_benchmarks_rs.Prelude.{
  ℕ, zero, suc, ◌≤◌, ◌<◌, ◌≡◌, ◌∙◌, sym, ap, List, [], ◌∷◌, ◌++◌, arith, length, insert_at,
  length-map, map, foldl, lt→leb_false, Permᴰ, foldl-Permᴰ, insert_at-Permᴰ, append_assoc,
}
use mathlib.Core.List.Permᴰ
use osu_micro_benchmarks_rs.Rust.{ok, ◌>>=◌}
use osu_micro_benchmarks_rs.Rust.Bytes.{to_le_bytes}
use osu_micro_benchmarks_rs.Rust.Float.{F64, F64Laws}
use osu_micro_benchmarks_rs.Ucx.{Ucx, TagMatching}
use osu_micro_benchmarks_rs.Runtime.{Context}
use osu_micro_benchmarks_rs.Runtime.Slots.{to_peers, Exchanges}
use osu_micro_benchmarks_rs.Collective.Scalars.{
  reduce_u64_tag, min_tag, max_tag, sum_tag, allreduce_min_f64, allreduce_max_f64,
  allreduce_sum_f64,
}
use osu_micro_benchmarks_rs.Collective.Scalars.Reduction.{
  Words, exchange_words_lem, own_slot, own_slot_lem, allreduce_u64_lem,
}

module _ (f : F64) (laws : F64Laws f) where
  open f use {
    Float, to_bits, from_bits, min_f64, max_f64, add_f64, infinity, neg_infinity, zero_f64,
  }

  -- The bytes of floats, as they travel.
  abbrev pub float_bytes : List Float → List (List ℕ)
  float_bytes xs = map (to_le_bytes 8) (map to_bits xs)

  bits-Words : (xs : List Float) → Words (map to_bits xs)
  bits-Words [] = tt
  bits-Words (x ∷ xs) = (laws.bits_lt x, bits-Words xs)

  pub from_bits-insert_at :
      (k : ℕ) (v : Float) (xs : List Float)
      → map from_bits (insert_at k (to_bits v) (map to_bits xs)) ≡ insert_at k v xs
  from_bits-insert_at zero v [] = ap (λ t. t ∷ []) (laws.from_bits-to_bits v)
  from_bits-insert_at zero v (x ∷ xs) =
      rw (laws.from_bits-to_bits v) (ap (◌∷◌ v) (from_bits-insert_at zero x xs))
  from_bits-insert_at (suc k) v [] = ap (λ t. t ∷ []) (laws.from_bits-to_bits v)
  from_bits-insert_at (suc k) v (x ∷ xs) =
      rw (laws.from_bits-to_bits x) (ap (◌∷◌ x) (from_bits-insert_at k v xs))

  min-right_comm : (z x y : Float) → min_f64 (min_f64 z x) y ≡ min_f64 (min_f64 z y) x
  min-right_comm z x y =
      laws.min_assoc z x y ∙ ap (min_f64 z) (laws.min_comm x y) ∙ sym (laws.min_assoc z y x)

  max-right_comm : (z x y : Float) → max_f64 (max_f64 z x) y ≡ max_f64 (max_f64 z y) x
  max-right_comm z x y =
      laws.max_assoc z x y ∙ ap (max_f64 z) (laws.max_comm x y) ∙ sym (laws.max_assoc z y x)

  module _ (u : Ucx) (T : TagMatching u) (fuel : ℕ) (enough : T.lag ≤ fuel) where
    open u use {World}

    -- With `value` on this rank and `xs` on the others, as their messages arrive, a rank of a job of
    -- two or more returns the maximum over the floats `vs` of all ranks. `max` is assumed
    -- associative and commutative, as it is where no value is a NaN.
    pub allreduce_max_f64_lem :
        (c : Context) (value : Float) (xs vs : List Float) (rest : List (List ℕ)) (w : World)
        → c.rank < c.size
        → 1 < c.size
        → suc (length xs) ≡ c.size
        → Permᴰ (value ∷ xs) vs
        → T.incoming w max_tag ≡ float_bytes xs ++ rest
        → (w' : World) × (allreduce_max_f64 u fuel f c value w
            ≡ ok (foldl max_f64 neg_infinity vs, w'))
          × Exchanges u T w
              (to_peers c (λ peer. to_le_bytes 8 (to_bits value)) max_tag)
              max_tag
              rest
              w'
    unfolding allreduce_max_f64
    allreduce_max_f64_lem c value xs vs rest w h many e p i =
        let (own, l, g) = own_slot_lem u T fuel enough c (to_bits value) h in
        let (w', exchanged, done) =
          exchange_words_lem u T fuel enough c (to_bits value) max_tag
            (own_slot u T fuel enough c (to_bits value)) (map to_bits xs) rest w h l g
            (bits-Words xs) (ap suc (length-map xs to_bits) ∙ e) i in
        (
          w',
          rw (own, lt→leb_false c.size 1 many, exchanged, ◌>>=◌)
              (ap (λ l. ok (foldl max_f64 neg_infinity l, w')) (from_bits-insert_at c.rank value xs)
                ∙ ap (λ t. ok (t, w'))
                    (foldl-Permᴰ max_f64 max-right_comm neg_infinity
                      (Permᴰ.trans (insert_at-Permᴰ c.rank value xs) p))),
          done,
        )

    -- The sum of floats is taken from the left over the slots of the ranks: the own value in its
    -- place, and the others' in the order in which their messages arrived.
    pub allreduce_sum_f64_lem :
        (c : Context) (value : Float) (xs : List Float) (rest : List (List ℕ)) (w : World)
        → c.rank < c.size
        → 1 < c.size
        → suc (length xs) ≡ c.size
        → T.incoming w sum_tag ≡ float_bytes xs ++ rest
        → (w' : World) × (allreduce_sum_f64 u fuel f c value w
            ≡ ok (foldl add_f64 zero_f64 (insert_at c.rank value xs), w'))
          × Exchanges u T w
              (to_peers c (λ peer. to_le_bytes 8 (to_bits value)) sum_tag)
              sum_tag
              rest
              w'
    unfolding allreduce_sum_f64
    allreduce_sum_f64_lem c value xs rest w h many e i =
        let (own, l, g) = own_slot_lem u T fuel enough c (to_bits value) h in
        let (w', exchanged, done) =
          exchange_words_lem u T fuel enough c (to_bits value) sum_tag
            (own_slot u T fuel enough c (to_bits value)) (map to_bits xs) rest w h l g
            (bits-Words xs) (ap suc (length-map xs to_bits) ∙ e) i in
        (
          w',
          rw (own, lt→leb_false c.size 1 many, exchanged, ◌>>=◌)
              (ap (λ l. ok (foldl add_f64 zero_f64 l, w')) (from_bits-insert_at c.rank value xs)),
          done,
        )

    -- The minimum, which comes after a reduction of the bits whose result is dropped: that one needs
    -- a message of its own from each peer, here the words `ys`. The rank sends its bits to each peer
    -- twice, under the two tags, and takes the messages of both.
    pub allreduce_min_f64_lem :
        (c : Context) (value : Float) (ys : List ℕ) (xs vs : List Float)
        → (rest_u64 rest : List (List ℕ)) (w : World) → c.rank < c.size
        → 1 < c.size
        → Words ys
        → suc (length ys) ≡ c.size
        → suc (length xs) ≡ c.size
        → Permᴰ (value ∷ xs) vs
        → T.incoming w reduce_u64_tag ≡ map (to_le_bytes 8) ys ++ rest_u64
        → T.incoming w min_tag ≡ float_bytes xs ++ rest
        → (w' : World) × (allreduce_min_f64 u fuel f c value w ≡ ok (foldl min_f64 infinity vs, w'))
          × (T.sent w'
              ≡ T.sent w
                ++ (to_peers c (λ peer. to_le_bytes 8 (to_bits value)) reduce_u64_tag
                    ++ to_peers c (λ peer. to_le_bytes 8 (to_bits value)) min_tag))
          × (T.incoming w' reduce_u64_tag ≡ rest_u64)
          × (T.incoming w' min_tag ≡ rest)
    unfolding allreduce_min_f64
    allreduce_min_f64_lem c value ys xs vs rest_u64 rest w h many words k e p j i =
        let (own, l, g) = own_slot_lem u T fuel enough c (to_bits value) h in
        let (w₁, summed, (sent₁, left₁, same₁)) =
          allreduce_u64_lem u T fuel enough c (to_bits value) ys (to_bits value ∷ ys) rest_u64 w h
            many words k (Permᴰ.refl _) j in
        let (w₂, exchanged, (sent₂, left₂, same₂)) =
          exchange_words_lem u T fuel enough c (to_bits value) min_tag
            (own_slot u T fuel enough c (to_bits value)) (map to_bits xs) rest w₁ h l g
            (bits-Words xs) (ap suc (length-map xs to_bits) ∙ e)
            (same₁ min_tag (omega arith) ∙ i) in
        (
          w₂,
          rw (summed, own, lt→leb_false c.size 1 many, exchanged, ◌>>=◌)
              (ap (λ l. ok (foldl min_f64 infinity l, w₂)) (from_bits-insert_at c.rank value xs)
                ∙ ap (λ t. ok (t, w₂))
                    (foldl-Permᴰ min_f64 min-right_comm infinity
                      (Permᴰ.trans (insert_at-Permᴰ c.rank value xs) p))),
          sent₂
              ∙ ap (λ l. l ++ to_peers c (λ peer. to_le_bytes 8 (to_bits value)) min_tag) sent₁
              ∙ append_assoc (T.sent w) _ _,
          same₂ reduce_u64_tag (omega arith) ∙ left₁,
          left₂,
        )

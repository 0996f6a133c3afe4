-- ===== src/Collective/Scalars/Reduction.antt =====
-- What the reductions of one number return: the reduction over all ranks, in whatever order the
-- messages of the peers arrive.
use osu_micro_benchmarks_rs.Prelude.{
  ℕ, zero, suc, ◌%◌, ◌^◌, ◌≤◌, ◌<◌, ◌≡◌, refl, ◌∙◌, ap, List, [], ◌∷◌, ◌++◌, arith, length,
  replicate, set, get_or, insert_at, length-set, length-replicate, length-map, map, sum,
  lt→leb_false, lt→ltb, Permᴰ, insert_at-Permᴰ, sum-Permᴰ, if_false, false,
}
use osu_micro_benchmarks_rs.Rust.{ok, ◌>>=◌, ◌>>◌}
use osu_micro_benchmarks_rs.Rust.Chunks.{Sized}
use osu_micro_benchmarks_rs.Rust.Bytes.{
  to_le_bytes, from_le_bytes, length-to_le_bytes, from_le_bytes-to_le_bytes,
}
use osu_micro_benchmarks_rs.Ucx.{Ucx, TagMatching}
use osu_micro_benchmarks_rs.Ucx.Openshmem.{Openshmem}
use osu_micro_benchmarks_rs.Runtime.{Context, set_at}
use osu_micro_benchmarks_rs.Runtime.Fill.{vals}
use osu_micro_benchmarks_rs.Runtime.Slots.{
  to_peers, Exchanges, Exchanges-intro, send_to_peers_lem, recv_from_peers_lem,
}
use osu_micro_benchmarks_rs.Collective.Scalars.{
  barrier_tag, reduce_u64_tag, barrier_ucx, barrier, exchange_words, allreduce_u64,
}

-- Values that a `u64` holds.
abbrev pub Words : List ℕ → Type 0
Words [] = Unit
Words (x ∷ xs) = (x < 256 ^ 8) × Words xs

words-Sized : (xs : List ℕ) → Sized 8 (map (to_le_bytes 8) xs)
words-Sized [] = tt
words-Sized (x ∷ xs) = (length-to_le_bytes 8 x, words-Sized xs)

vals-Words : (xs : List ℕ) → Words xs → vals from_le_bytes (map (to_le_bytes 8) xs) ≡ xs
vals-Words [] h = refl
vals-Words (x ∷ xs) h = rw (from_le_bytes-to_le_bytes 8 x h.0) (ap (◌∷◌ x) (vals-Words xs h.1))

set_at_lem :
    {A : Type 0} (xs : List A) (i : ℕ) (v : A) → i < length xs → set_at xs i v ≡ ok (set xs i v)
set_at_lem xs i v h = rw (lt→ltb i (length xs) h)

get_or-set :
    {A : Type 0} (xs : List A) (i : ℕ) (v d : A) → i < length xs → get_or (set xs i v) i d ≡ v
get_or-set [] i v d h = absurd (omega arith)
get_or-set (x ∷ xs) zero v d h = refl
get_or-set (x ∷ xs) (suc i) v d h = get_or-set xs i v d (omega arith)

get_or-replicate : (i n : ℕ) (t : Unit {0}) → get_or (replicate n t) i t ≡ t
get_or-replicate i zero t = refl
get_or-replicate zero (suc n) t = refl
get_or-replicate (suc i) (suc n) t = get_or-replicate i n t

module _ (u : Ucx) (T : TagMatching u) (fuel : ℕ) (enough : T.lag ≤ fuel) where
  open u use {World}

  -- Whatever the eight bytes of each message say.
  pub exchange_words-Sized :
      (c : Context) (value tag : ℕ) (gathered : List ℕ) (ms rest : List (List ℕ)) (w : World)
      → c.rank < c.size
      → length gathered ≡ c.size
      → get_or gathered c.rank value ≡ value
      → Sized 8 ms
      → suc (length ms) ≡ c.size
      → T.incoming w tag ≡ ms ++ rest
      → (w' : World) × (exchange_words u fuel c value tag gathered w
          ≡ ok (insert_at c.rank value (vals from_le_bytes ms), w'))
        × Exchanges u T w (to_peers c (λ peer. to_le_bytes 8 value) tag) tag rest w'
  unfolding exchange_words
  exchange_words-Sized c value tag gathered ms rest w h l g sized e i =
      let (w₁, sent, sends) =
        send_to_peers_lem u T fuel enough c (λ peer. to_le_bytes 8 value) tag w in
      let (w₂, received, takes) =
        recv_from_peers_lem u T fuel enough from_le_bytes (λ g. g) (λ _. Unit) 8 tag
          (λ peer m g. set_at g peer (from_le_bytes m))
          (λ p m cs lt _ _. (set_at_lem cs p (from_le_bytes m) lt, tt)) c gathered value ms rest w₁
          h l g tt sized e (ap (λ f. f tag) sends.1 ∙ i) in
      (w₂, rw (sent, ◌>>◌, ◌>>=◌) received, Exchanges-intro u T w w₁ w₂ _ tag rest sends takes)

  pub exchange_words_lem :
      (c : Context) (value tag : ℕ) (gathered xs : List ℕ) (rest : List (List ℕ)) (w : World)
      → c.rank < c.size
      → length gathered ≡ c.size
      → get_or gathered c.rank value ≡ value
      → Words xs
      → suc (length xs) ≡ c.size
      → T.incoming w tag ≡ map (to_le_bytes 8) xs ++ rest
      → (w' : World) × (exchange_words u fuel c value tag gathered w
          ≡ ok (insert_at c.rank value xs, w'))
        × Exchanges u T w (to_peers c (λ peer. to_le_bytes 8 value) tag) tag rest w'
  exchange_words_lem c value tag gathered xs rest w h l g words e i =
      let (w', exchanged, done) =
        exchange_words-Sized c value tag gathered (map (to_le_bytes 8) xs) rest w h l g
          (words-Sized xs) (ap suc (length-map xs (to_le_bytes 8)) ∙ e) i in
      (w', exchanged ∙ ap (λ v. ok (insert_at c.rank value v, w')) (vals-Words xs words), done)

  -- The slots as they are filled in before the exchange.
  abbrev pub own_slot : Context → ℕ → List ℕ
  own_slot c value = set (replicate c.size 0) c.rank value

  pub own_slot_lem :
      (c : Context) (value : ℕ)
      → c.rank < c.size
      → (set_at (replicate c.size 0) c.rank value ≡ ok (own_slot c value))
        × (length (own_slot c value) ≡ c.size)
        × (get_or (own_slot c value) c.rank value ≡ value)
  own_slot_lem c value h =
      let lt : c.rank < length (replicate c.size 0) = rw (length-replicate {A = ℕ} c.size 0) h in
      (
        set_at_lem (replicate c.size 0) c.rank value lt,
        length-set (replicate c.size 0) c.rank value ∙ length-replicate {A = ℕ} c.size 0,
        get_or-set (replicate c.size 0) c.rank value value lt,
      )

  -- The barrier of a job of two or more ranks returns once it has taken one message of its tag from
  -- each peer; it has then sent one message to each peer. The flag of openshmem is off.
  pub barrier_lem :
      (o : Openshmem World) (c : Context) (ms rest : List (List ℕ)) (w : World)
      → c.openshmem_initialized ≡ false
      → c.rank < c.size
      → 1 < c.size
      → Sized 1 ms
      → suc (length ms) ≡ c.size
      → T.incoming w barrier_tag ≡ ms ++ rest
      → (w' : World) × (barrier u fuel o c w ≡ ok (tt, w'))
        × Exchanges u T w (to_peers c (λ peer. c.rank % 256 ∷ []) barrier_tag) barrier_tag rest w'
  unfolding barrier barrier_ucx
  barrier_lem o c ms rest w off h many sized e i =
      let (w₁, sent, sends) =
        send_to_peers_lem u T fuel enough c (λ peer. c.rank % 256 ∷ []) barrier_tag w in
      let (w₂, received, takes) =
        recv_from_peers_lem u T fuel enough (λ m. tt) (λ g. tt) (λ _. Unit) 1 barrier_tag
          (λ peer m g. ok g) (λ p m cs lt _ _. (refl, tt)) c (replicate c.size tt) tt ms rest w₁ h
          (length-replicate c.size tt) (get_or-replicate c.rank c.size tt) tt sized e
          (ap (λ f. f barrier_tag) sends.1 ∙ i) in
      (
        w₂,
        if_false _ _ off ∙ rw (lt→leb_false c.size 1 many, sent, ◌>>◌, ◌>>=◌) received,
        Exchanges-intro u T w w₁ w₂ _ barrier_tag rest sends takes,
      )

  -- With the value `value` on this rank and the values `xs` on the others, in the order in which
  -- their messages arrive, a rank of a job of two or more returns the sum of the values `vs` of all
  -- ranks, wrapped to 64 bits. It sends its value once to each other rank, and takes their messages.
  pub allreduce_u64_lem :
      (c : Context) (value : ℕ) (xs vs : List ℕ) (rest : List (List ℕ)) (w : World)
      → c.rank < c.size
      → 1 < c.size
      → Words xs
      → suc (length xs) ≡ c.size
      → Permᴰ (value ∷ xs) vs
      → T.incoming w reduce_u64_tag ≡ map (to_le_bytes 8) xs ++ rest
      → (w' : World) × (allreduce_u64 u fuel c value w ≡ ok (sum vs % 2 ^ 64, w'))
        × Exchanges u T w
            (to_peers c (λ peer. to_le_bytes 8 value) reduce_u64_tag)
            reduce_u64_tag
            rest
            w'
  unfolding allreduce_u64
  allreduce_u64_lem c value xs vs rest w h many words e p i =
      let (own, l, g) = own_slot_lem c value h in
      let (w', exchanged, done) =
        exchange_words_lem c value reduce_u64_tag (own_slot c value) xs rest w h l g words e i in
      (
        w',
        rw (lt→leb_false c.size 1 many, own, exchanged, ◌>>=◌)
            (ap (λ (n : ℕ). ok (n % 2 ^ 64, w'))
              (sum-Permᴰ (Permᴰ.trans (insert_at-Permᴰ c.rank value xs) p))),
        done,
      )

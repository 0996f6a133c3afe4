-- ===== src/Collective/Scattered/Counts.antt =====
-- The reduce-scatter with a count for each rank: what each rank ends with.
use osu_micro_benchmarks_rs.Prelude.{
  ℕ, zero, suc, ◌+◌, ◌≤◌, ◌<◌, ◌≡◌, refl, ◌∙◌, ap, some, List, [], ◌∷◌, ◌++◌, arith, length, range,
  get_or, get_elem?, insert_at, take, sum, lt→leb_false, Permᴰ, insert_at-Permᴰ,
}
use osu_micro_benchmarks_rs.Rust.{ok, ◌>>=◌}
use osu_micro_benchmarks_rs.Rust.Chunks.{Sized, flatten}
use osu_micro_benchmarks_rs.Ucx.{Ucx, TagMatching}
use osu_micro_benchmarks_rs.Runtime.{Context}
use osu_micro_benchmarks_rs.Runtime.Slots.{to_peers}
use osu_micro_benchmarks_rs.Collective.Columns.{get_at}
use osu_micro_benchmarks_rs.Collective.Columns.Sums.{byte_sums, byte_sums-Permᴰ}
use osu_micro_benchmarks_rs.Collective.Equal.Reduce.{insert_at-Sized, length-insert_at}
use osu_micro_benchmarks_rs.Collective.Scattered.{
  displacements, sum_piece, reducescatter, reducescatter_tag,
}
use osu_micro_benchmarks_rs.Collective.Scattered.Pieces.{sum_piece_lem, gather_all_lem}

get_elem?-displacements :
    (d : ℕ) (counts : List ℕ) (r : ℕ)
    → r < length counts
    → get_elem? (displacements d counts) r ≡ some (d + sum (take r counts))
unfolding displacements
get_elem?-displacements d [] r h = absurd (omega arith)
get_elem?-displacements d (c ∷ counts) zero h = ap some (omega arith)
get_elem?-displacements d (c ∷ counts) (suc r) h =
    get_elem?-displacements (d + c) counts r (omega arith) ∙ ap some (omega arith)

get_elem?-get_or : (xs : List ℕ) (i : ℕ) → i < length xs → get_elem? xs i ≡ some (get_or xs i 0)
get_elem?-get_or [] i h = absurd (omega arith)
get_elem?-get_or (x ∷ xs) zero h = refl
get_elem?-get_or (x ∷ xs) (suc i) h = get_elem?-get_or xs i (omega arith)

-- The piece of a rank lies in a buffer of all pieces.
sum-take :
    (counts : List ℕ) (r : ℕ)
    → r < length counts
    → sum (take r counts) + get_or counts r 0 ≤ sum counts
sum-take [] r h = absurd (omega arith)
sum-take (c ∷ counts) zero h = omega arith
sum-take (c ∷ counts) (suc r) h = omega (arith, sum-take counts r (omega arith))

module _ (u : Ucx) (T : TagMatching u) (fuel : ℕ) (enough : T.lag ≤ fuel) where
  open u use {World}

  -- In a job of two or more, with a count for each rank, a rank ends with the bytes of its own piece of
  -- the sums: the piece that begins where those of the ranks before it end, each byte added over the
  -- buffers `cs` of all ranks, modulo 256, whatever the order in which the messages `ms` arrive.
  pub reducescatter_lem :
      (c : Context) (sendbuf recvbuf counts : List ℕ) (ms cs rest : List (List ℕ)) (w : World)
      → c.rank < c.size
      → 1 < c.size
      → length counts ≡ c.size
      → length sendbuf ≡ sum counts
      → length recvbuf ≡ get_or counts c.rank 0
      → Sized (sum counts) ms
      → suc (length ms) ≡ c.size
      → Permᴰ (sendbuf ∷ ms) cs
      → T.incoming w reducescatter_tag ≡ ms ++ rest
      → (w' : World) × (reducescatter u fuel c sendbuf recvbuf counts w
          ≡ ok (byte_sums (range (sum (take c.rank counts)) (get_or counts c.rank 0)) cs, w'))
        × (T.sent w' ≡ T.sent w ++ to_peers c (λ peer. sendbuf) reducescatter_tag)
        × (T.incoming w' reducescatter_tag ≡ rest)
  unfolding reducescatter
  reducescatter_lem c sendbuf recvbuf counts ms cs rest w h many k len size s e p i =
      let n = sum counts in
      let offset = sum (take c.rank counts) in
      let own = get_or counts c.rank 0 in
      let all = insert_at c.rank sendbuf ms in
      let lt : c.rank < length counts = omega (arith, k, h) in
      let (w', gathered, sent, left) =
        gather_all_lem u T fuel enough c sendbuf n reducescatter_tag ms rest w h len s e i in
      let begins : get_at (displacements 0 counts) c.rank ≡ ok offset =
        rw (get_at, get_elem?-displacements 0 counts c.rank lt) (ap ok (omega arith)) in
      let counted : get_at counts c.rank ≡ ok own =
        rw (get_at, get_elem?-get_or counts c.rank lt) refl in
      let summed : sum_piece c (flatten all) n offset own recvbuf
          ≡ ok (byte_sums (range offset own) cs) =
        sum_piece_lem c n offset own all recvbuf (insert_at-Sized n c.rank sendbuf ms len s)
          (length-insert_at c.rank sendbuf ms ∙ e) (sum-take counts c.rank lt) size
        ∙ ap ok (
            byte_sums-Permᴰ (range offset own)
              (Permᴰ.trans (insert_at-Permᴰ c.rank sendbuf ms) p)) in
      (
        w',
        rw (lt→leb_false c.size 1 many, gathered, ◌>>=◌, begins, counted, summed) refl,
        sent,
        left,
      )

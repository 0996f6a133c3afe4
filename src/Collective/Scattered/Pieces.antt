-- ===== src/Collective/Scattered/Pieces.antt =====
-- The reduce-scatter of blocks: what each rank ends with.
use osu_micro_benchmarks_rs.Prelude.{
  ℕ, zero, suc, ◌+◌, ◌*◌, ◌/◌, ◌≤◌, ◌<◌, ◌≡◌, refl, ◌∙◌, sym, ap, List, [], ◌∷◌, ◌++◌, arith,
  length, range, replicate, set, insert_at, length-replicate, length-set, le→leb, lt→leb_false,
  Permᴰ, insert_at-Permᴰ, append-nil,
}
use native.Mathlib.Nat.{mul-le-mul_right, mul-div-le}
use osu_micro_benchmarks_rs.Rust.{ok, ◌>>=◌, ◌>>◌}
use osu_micro_benchmarks_rs.Rust.Slice.{copy_at}
use osu_micro_benchmarks_rs.Rust.Chunks.{
  Sized, flatten, chunks, chunks_lem, copy_chunk, copy_at-flatten, set-Sized,
}
use osu_micro_benchmarks_rs.Ucx.{Ucx, TagMatching}
use osu_micro_benchmarks_rs.Runtime.{Context, send_wait, for_peers}
use osu_micro_benchmarks_rs.Runtime.Wait.{drop_all, send_wait_lem}
use osu_micro_benchmarks_rs.Runtime.Loops.{SendsAll, for_peers_lem, All, range-All}
use osu_micro_benchmarks_rs.Runtime.Fill.{length-others, fill_all}
use osu_micro_benchmarks_rs.Runtime.Slots.{to_peers}
use osu_micro_benchmarks_rs.Collective.Columns.Sums.{byte_sums, byte_sums-Permᴰ, sum_bytes_lem}
use osu_micro_benchmarks_rs.Collective.Equal.Gathering.{vals_id, get_or-set_chunk}
use osu_micro_benchmarks_rs.Collective.Equal.Reduce.{insert_at-Sized, length-insert_at}
use osu_micro_benchmarks_rs.Collective.Variable.Arrivals.{post_all_lem, collect_all_lem}
use osu_micro_benchmarks_rs.Collective.Scattered.{
  wrap_u64, sum_piece, gather_all, reduce_scatter_block, reduce_scatter_block_tag,
}

range-All_between : (i n k : ℕ) → i + n ≤ k → All (λ p. p < k) (range i n)
range-All_between i zero k h = tt
range-All_between i (suc n) k h = (omega arith, range-All_between (suc i) n k (omega arith))

pub sum_piece_lem :
    (c : Context) (n offset len : ℕ) (cs : List (List ℕ)) (recvbuf : List ℕ)
    → Sized n cs
    → length cs ≡ c.size
    → offset + len ≤ n
    → length recvbuf ≡ len
    → sum_piece c (flatten cs) n offset len recvbuf ≡ ok (byte_sums (range offset len) cs)
unfolding sum_piece
sum_piece_lem c n offset len cs recvbuf s l inside e =
    let sums =
      sum_bytes_lem wrap_u64 (λ a. omega arith) n cs s c.size (range offset len) (sym l)
        (range-All_between offset len n inside) in
    rw (
      le→leb len (length recvbuf) (omega (arith, e)),
      sums,
      drop_all len recvbuf (sym e),
      append-nil,
    )

-- The piece of a rank lies in a buffer of `n` bytes.
piece_inside : (rank size n : ℕ) → rank < size → rank * (n / size) + n / size ≤ n
piece_inside rank size n h =
    let whole : suc rank * (n / size) ≤ size * (n / size) = mul-le-mul_right (n / size) h in
    omega (arith, whole, mul-div-le n size)

module _ (u : Ucx) (T : TagMatching u) (fuel : ℕ) (enough : T.lag ≤ fuel) where
  open u use {World}

  send_wait_to_peers_lem :
      (c : Context) (msg : List ℕ) (tag : ℕ) (w : World)
      → (w' : World) × (for_peers c.rank
            (range 0 c.size)
            (λ peer. send_wait u fuel c peer msg tag)
            w
          ≡ ok (tt, w'))
        × SendsAll u T w (to_peers c (λ peer. msg) tag) w'
  send_wait_to_peers_lem c msg tag w =
      for_peers_lem u T c.rank c.size (λ p. send_wait u fuel c p msg tag)
        (λ p. record { dst = p; tag = tag; msg = msg } ∷ [])
        (λ p w h _. send_wait_lem u T fuel enough c p msg tag w h) (range 0 c.size) w
        (range-All 0 c.size c.size (omega arith))

  write_slot :
      (n p : ℕ) (m : List ℕ) (cs : List (List ℕ))
      → p < length cs
      → length m ≡ n
      → Sized n cs
      → copy_at (flatten cs) (p * n) ((p + 1) * n) m ≡ ok (flatten (set cs p m))
  write_slot n p m cs lt e s =
      ap (λ k. copy_at (flatten cs) (p * n) k m) (omega arith) ∙ copy_at-flatten n cs p s lt m e

  -- The gathered buffers: the own one in the place of the rank, the others as they arrive.
  pub gather_all_lem :
      (c : Context) (sendbuf : List ℕ) (n tag : ℕ) (ms rest : List (List ℕ)) (w : World)
      → c.rank < c.size
      → length sendbuf ≡ n
      → Sized n ms
      → suc (length ms) ≡ c.size
      → T.incoming w tag ≡ ms ++ rest
      → (w' : World) × (gather_all u fuel c sendbuf n tag w
          ≡ ok (flatten (insert_at c.rank sendbuf ms), w'))
        × (T.sent w' ≡ T.sent w ++ to_peers c (λ peer. sendbuf) tag)
        × (T.incoming w' tag ≡ rest)
  unfolding gather_all
  gather_all_lem c sendbuf n tag ms rest w h len s e i =
      let zeros : List ℕ = replicate (n * c.size) 0 in
      let whole : length zeros ≡ c.size * n =
        length-replicate {A = ℕ} (n * c.size) 0 ∙ omega arith in
      let (joined, sized, counted) = chunks_lem n c.size zeros whole in
      let cs = set (chunks n c.size zeros) c.rank sendbuf in
      let counted_too : length cs ≡ c.size =
        length-set (chunks n c.size zeros) c.rank sendbuf ∙ counted in
      let own : copy_at zeros (c.rank * n) ((c.rank + 1) * n) sendbuf ≡ ok (flatten cs) =
        ap (λ k. copy_at zeros (c.rank * n) k sendbuf) (omega arith)
        ∙ copy_chunk n c.size c.rank zeros sendbuf whole h len in
      let ps = range 0 c.size in
      let (rs, w₁, posted, matches, (left, _, sent₁)) =
        post_all_lem u T fuel enough c.rank n tag ps (flatten cs) ms rest w
          (omega (arith, e, length-others c.rank 0 c.size (omega arith) (omega (arith, h)))) i s in
      let (w₂, sent, (logged, kept)) = send_wait_to_peers_lem c sendbuf tag w₁ in
      let (w₃, collected, (quiet_in, quiet_sent)) =
        collect_all_lem u T fuel enough c.rank n c.size (λ p m g. copy_at g (p * n) ((p + 1) * n) m)
          (write_slot n) ps rs ms cs w₂ matches (range-All 0 c.size c.size (omega arith)) s
          (set-Sized n c.rank sendbuf _ len sized) counted_too in
      (
        w₃,
        rw (own, ◌>>=◌, ◌>>◌, posted, sent) collected
            ∙ ap (λ l. ok (flatten l, w₃))
                (fill_all (λ m. m) c.rank c.size cs sendbuf ms counted_too e h
                    (get_or-set_chunk (chunks n c.size zeros) c.rank sendbuf sendbuf (rw counted h))
                  ∙ ap (insert_at c.rank sendbuf) (vals_id ms)),
        quiet_sent ∙ logged ∙ ap (λ l. l ++ to_peers c (λ peer. sendbuf) tag) sent₁,
        ap (λ f. f tag) (quiet_in ∙ kept) ∙ left,
      )

  -- In a job of two or more, a rank ends with the bytes of its own piece of the sums: byte `i` of it is
  -- byte `rank * (elemcount / size) + i`, added over the buffers `cs` of all ranks, modulo 256,
  -- whatever the order in which the messages `ms` of the peers arrive.
  pub reduce_scatter_block_lem :
      (c : Context) (sendbuf recvbuf : List ℕ) (n : ℕ) (ms cs rest : List (List ℕ)) (w : World)
      → c.rank < c.size
      → 1 < c.size
      → length sendbuf ≡ n
      → length recvbuf ≡ n / c.size
      → Sized n ms
      → suc (length ms) ≡ c.size
      → Permᴰ (sendbuf ∷ ms) cs
      → T.incoming w reduce_scatter_block_tag ≡ ms ++ rest
      → (w' : World) × (reduce_scatter_block u fuel c sendbuf recvbuf n w
          ≡ ok (byte_sums (range (c.rank * (n / c.size)) (n / c.size)) cs, w'))
        × (T.sent w' ≡ T.sent w ++ to_peers c (λ peer. sendbuf) reduce_scatter_block_tag)
        × (T.incoming w' reduce_scatter_block_tag ≡ rest)
  unfolding reduce_scatter_block
  reduce_scatter_block_lem c sendbuf recvbuf n ms cs rest w h many len size s e p i =
      let k = n / c.size in
      let all = insert_at c.rank sendbuf ms in
      let (w', gathered, sent, left) =
        gather_all_lem c sendbuf n reduce_scatter_block_tag ms rest w h len s e i in
      let summed : sum_piece c (flatten all) n (c.rank * k) k recvbuf
          ≡ ok (byte_sums (range (c.rank * k) k) cs) =
        sum_piece_lem c n (c.rank * k) k all recvbuf (insert_at-Sized n c.rank sendbuf ms len s)
          (length-insert_at c.rank sendbuf ms ∙ e) (piece_inside c.rank c.size n h) size
        ∙ ap ok (
            byte_sums-Permᴰ (range (c.rank * k) k)
              (Permᴰ.trans (insert_at-Permᴰ c.rank sendbuf ms) p)) in
      (w', rw (lt→leb_false c.size 1 many, gathered, ◌>>=◌, summed) refl, sent, left)

-- ===== src/Collective/Equal/Reduce.antt =====
-- The reduction of byte buffers to the root.
use osu_micro_benchmarks_rs.Prelude.{
  ℕ, zero, suc, ◌+◌, ◌*◌, ◌≤◌, ◌<◌, ◌≡◌, refl, ◌∙◌, sym, ap, List, [], ◌∷◌, ◌++◌, arith, length,
  range, replicate, insert_at, min, length-replicate, lt→leb_false, ◌==◌, if◌then◌else◌, Bool, true,
  false, Permᴰ, insert_at-Permᴰ, append-nil,
}
use osu_micro_benchmarks_rs.Rust.{ok, pure, lift, ◌>>=◌, ◌>>◌}
use osu_micro_benchmarks_rs.Rust.Slice.{copy_at}
use osu_micro_benchmarks_rs.Rust.Chunks.{
  Sized, flatten, chunks, chunks_lem, copy_chunk, copy_at-flatten,
}
use osu_micro_benchmarks_rs.Ucx.{Ucx, TagMatching}
use osu_micro_benchmarks_rs.Runtime.{Context}
use osu_micro_benchmarks_rs.Runtime.Wait.{drop_all}
use osu_micro_benchmarks_rs.Runtime.Loops.{range-All}
use osu_micro_benchmarks_rs.Runtime.Slots.{to_peers, Exchanges, Exchanges-intro, send_to_peers_lem}
use osu_micro_benchmarks_rs.Collective.Columns.Sums.{byte_sums, byte_sums-Permᴰ, sum_bytes_lem}
use osu_micro_benchmarks_rs.Collective.Equal.{reduce_tag, wrap_u16, reduced, reduce}
use osu_micro_benchmarks_rs.Collective.Equal.Gathering.{recv_chunks_lem}

pub insert_at-Sized :
    (n r : ℕ) (own : List ℕ) (ms : List (List ℕ))
    → length own ≡ n
    → Sized n ms
    → Sized n (insert_at r own ms)
insert_at-Sized n zero own ms e s = (e, s)
insert_at-Sized n (suc r) own [] e s = (e, tt)
insert_at-Sized n (suc r) own (m ∷ ms) e s = (s.0, insert_at-Sized n r own ms e s.1)

pub length-insert_at :
    (r : ℕ) (own : List ℕ) (ms : List (List ℕ)) → length (insert_at r own ms) ≡ suc (length ms)
length-insert_at zero own ms = refl
length-insert_at (suc r) own [] = refl
length-insert_at (suc r) own (m ∷ ms) = ap suc (length-insert_at r own ms)

pub length-byte_sums : (is : List ℕ) (cs : List (List ℕ)) → length (byte_sums is cs) ≡ length is
length-byte_sums [] cs = refl
length-byte_sums (i ∷ is) cs = ap suc (length-byte_sums is cs)

pub length-range : (i n : ℕ) → length (range i n) ≡ n
length-range i zero = refl
length-range i (suc n) = ap suc (length-range (suc i) n)

reduced_lem :
    (c : Context) (n : ℕ) (cs : List (List ℕ)) (recvbuf : List ℕ)
    → Sized n cs
    → length cs ≡ c.size
    → length recvbuf ≡ n
    → reduced c (flatten cs) n recvbuf ≡ ok (byte_sums (range 0 n) cs)
unfolding reduced
reduced_lem c n cs recvbuf s l e =
    let whole : min n (length recvbuf) ≡ n = omega arith in
    let sums =
      sum_bytes_lem wrap_u16 (λ a. omega arith) n cs s c.size (range 0 n) (sym l)
        (range-All 0 n n (omega arith)) in
    let covered = length-byte_sums (range 0 n) cs ∙ length-range 0 n ∙ sym e in
    rw (
      reduced,
      whole,
      sums,
      drop_all (length (byte_sums (range 0 n) cs)) recvbuf covered,
      append-nil,
    )

module _ (u : Ucx) (T : TagMatching u) (fuel : ℕ) (enough : T.lag ≤ fuel) where
  open u use {World}

  -- Every rank sends its bytes to all others and gathers theirs. In a job of two or more the root ends
  -- with the sum of every byte over the buffers `cs` of all ranks, modulo 256, in whatever order the
  -- messages `ms` arrive; the buffer of any other rank stays as it was.
  pub reduce_lem :
      (c : Context) (sendbuf recvbuf : List ℕ) (root : ℕ) (ms cs rest : List (List ℕ)) (w : World)
      → c.rank < c.size
      → 1 < c.size
      → length recvbuf ≡ length sendbuf
      → Sized (length sendbuf) ms
      → suc (length ms) ≡ c.size
      → Permᴰ (sendbuf ∷ ms) cs
      → T.incoming w reduce_tag ≡ ms ++ rest
      → (w' : World) × (reduce u fuel c sendbuf recvbuf root w
          ≡ ok (if c.rank == root then byte_sums (range 0 (length sendbuf)) cs else recvbuf, w'))
        × Exchanges u T w (to_peers c (λ peer. sendbuf) reduce_tag) reduce_tag rest w'
  unfolding reduce
  reduce_lem c sendbuf recvbuf root ms cs rest w h many size s e p i =
      let n = length sendbuf in
      let zeros : List ℕ = replicate (n * c.size) 0 in
      let whole : length zeros ≡ c.size * n = length-replicate (n * c.size) 0 ∙ omega arith in
      let (joined, sized, counted) = chunks_lem n c.size zeros whole in
      let (w₁, sent, sends) = send_to_peers_lem u T fuel enough c (λ peer. sendbuf) reduce_tag w in
      let (w₂, received, takes) =
        recv_chunks_lem u T fuel enough n reduce_tag
          (λ peer m g. copy_at g (peer * n) (peer * n + n) m)
          (λ p m cs lt e s. copy_at-flatten n cs p s lt m e) c (chunks n c.size zeros) sendbuf ms
          rest w₁ h counted sized refl s e (ap (λ f. f reduce_tag) sends.1 ∙ i) in
      let all = insert_at c.rank sendbuf ms in
      let on_root : reduced c (flatten all) n recvbuf ≡ ok (byte_sums (range 0 n) cs) =
        reduced_lem c n all recvbuf (insert_at-Sized n c.rank sendbuf ms refl s)
          (length-insert_at c.rank sendbuf ms ∙ e) size
        ∙ ap ok (byte_sums-Permᴰ (range 0 n) (Permᴰ.trans (insert_at-Permᴰ c.rank sendbuf ms) p)) in
      (
        w₂,
        rw
            (
              lt→leb_false c.size 1 many,
              sent,
              ◌>>◌,
              ◌>>=◌,
              copy_chunk n c.size c.rank zeros sendbuf whole h refl,
              received,
            )
            (finish c root (flatten all) recvbuf (byte_sums (range 0 n) cs) w₂ on_root),
        Exchanges-intro u T w w₁ w₂ _ reduce_tag rest sends takes,
      )
    where
      finish :
          (c : Context) (root : ℕ) (all recvbuf sums : List ℕ) (w : World)
          → reduced c all (length sendbuf) recvbuf ≡ ok sums
          → (if c.rank == root then lift (reduced c all (length sendbuf) recvbuf) else pure recvbuf)
              w
            ≡ ok (if c.rank == root then sums else recvbuf, w)
      finish c root all recvbuf sums w e = rw e (branch (c.rank == root))
        where
          branch :
              (b : Bool)
              → (if b then lift (ok sums) else pure recvbuf) w ≡ ok (if b then sums else recvbuf, w)
          branch true = refl
          branch false = refl

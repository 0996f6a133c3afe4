-- ===== src/Collective/Equal/Gathering.antt =====
-- Where the messages of the peers come to lie: allgather, and gather on the root.
use osu_micro_benchmarks_rs.Prelude.{
  ℕ, zero, suc, ◌+◌, ◌*◌, ◌≤◌, ◌<◌, ◌≡◌, refl, ◌∙◌, sym, ap, false, List, [], ◌∷◌, ◌++◌, arith,
  length, set, get_or, insert_at, length-set, le→leb, lt→leb_false, if_false, if_true, eq→==,
}
use osu_micro_benchmarks_rs.Rust.{Outcome, ok, ◌>>=◌, ◌>>◌}
use osu_micro_benchmarks_rs.Rust.Slice.{copy_at}
use osu_micro_benchmarks_rs.Rust.Chunks.{
  Sized, flatten, chunks, chunks_lem, copy_chunk, copy_at-flatten, set-Sized, chunk-le-length,
  get_or-Sized,
}
use osu_micro_benchmarks_rs.Ucx.{Ucx, TagMatching}
use osu_micro_benchmarks_rs.Ucx.Openshmem.{Openshmem}
use osu_micro_benchmarks_rs.Runtime.{Context, recv_from_peers}
use osu_micro_benchmarks_rs.Runtime.Wait.{Takes}
use osu_micro_benchmarks_rs.Runtime.Fill.{vals}
use osu_micro_benchmarks_rs.Runtime.Pick.{except, insert_at-except, except-Sized, length-except}
use osu_micro_benchmarks_rs.Runtime.Slots.{
  to_peers, Exchanges, Exchanges-intro, send_to_peers_lem, recv_from_peers_lem,
}
use osu_micro_benchmarks_rs.Collective.Equal.{
  allgather_tag, gather_tag, copy_if_fits, allgather_ucx, allgather, gather,
}

pub vals_id : (ms : List (List ℕ)) → vals (λ m. m) ms ≡ ms
vals_id [] = refl
vals_id (m ∷ ms) = ap (◌∷◌ m) (vals_id ms)

pub get_or-set_chunk :
    (cs : List (List ℕ)) (i : ℕ) (v d : List ℕ) → i < length cs → get_or (set cs i v) i d ≡ v
get_or-set_chunk [] i v d h = absurd (omega arith)
get_or-set_chunk (x ∷ cs) zero v d h = refl
get_or-set_chunk (x ∷ cs) (suc i) v d h = get_or-set_chunk cs i v d (omega arith)

-- A chunk that lies in the buffer fits it.
copy_if_fits-flatten :
    (n p : ℕ) (m : List ℕ) (cs : List (List ℕ))
    → p < length cs
    → length m ≡ n
    → Sized n cs
    → copy_if_fits n (flatten cs) (p * n) m ≡ ok (flatten (set cs p m))
copy_if_fits-flatten n p m cs lt e s =
    if_true _ _ (le→leb (p * n + n) (length (flatten cs)) (chunk-le-length n cs p s lt))
    ∙ copy_at-flatten n cs p s lt m e

module _ (u : Ucx) (T : TagMatching u) (fuel : ℕ) (enough : T.lag ≤ fuel) where
  open u use {World}

  -- The loop of receives into a buffer of chunks, by `copy_at` or by `copy_if_fits`.
  pub recv_chunks_lem :
      (n tag : ℕ) (write : ℕ → List ℕ → List ℕ → Outcome (List ℕ))
      → ((p : ℕ) (m : List ℕ) (cs : List (List ℕ))
          → p < length cs
          → length m ≡ n
          → Sized n cs
          → write p m (flatten cs) ≡ ok (flatten (set cs p m)))
      → (c : Context) (cs : List (List ℕ)) (own : List ℕ) (ms rest : List (List ℕ)) (w : World)
      → c.rank < c.size
      → length cs ≡ c.size
      → Sized n cs
      → length own ≡ n
      → Sized n ms
      → suc (length ms) ≡ c.size
      → T.incoming w tag ≡ ms ++ rest
      → (w' : World) × (recv_from_peers u fuel c n tag write (flatten (set cs c.rank own)) w
          ≡ ok (flatten (insert_at c.rank own ms), w'))
        × Takes u T w tag rest w'
  recv_chunks_lem n tag write writes c cs own ms rest w h l sized len s e i =
      let (w', received, takes) =
        recv_from_peers_lem u T fuel enough (λ m. m) flatten (Sized n) n tag write
          (λ p m cs lt len s. (writes p m cs lt len s, set-Sized n p m cs len s)) c
          (set cs c.rank own) own ms rest w h (length-set cs c.rank own ∙ l)
          (get_or-set_chunk cs c.rank own own (rw l h)) (set-Sized n c.rank own cs len sized) s e
          i in
      (w', received ∙ ap (λ l. ok (flatten (insert_at c.rank own l), w')) (vals_id ms), takes)

  -- In a job of two or more, with openshmem off: the buffer comes to hold the own bytes in the slot of
  -- the rank, and the messages `ms` of the peers in the other slots, in the order of their arrival.
  -- The rank sends its bytes once to each peer.
  pub allgather_lem :
      (o : Openshmem World) (c : Context) (sendbuf recvbuf : List ℕ) (n : ℕ)
      (ms rest : List (List ℕ)) (w : World)
      → c.openshmem_initialized ≡ false
      → c.rank < c.size
      → 1 < c.size
      → length sendbuf ≡ n
      → length recvbuf ≡ c.size * n
      → Sized n ms
      → suc (length ms) ≡ c.size
      → T.incoming w allgather_tag ≡ ms ++ rest
      → (w' : World) × (allgather u fuel o c sendbuf recvbuf n w
          ≡ ok (flatten (insert_at c.rank sendbuf ms), w'))
        × Exchanges u T w (to_peers c (λ peer. sendbuf) allgather_tag) allgather_tag rest w'
  unfolding allgather allgather_ucx
  allgather_lem o c sendbuf recvbuf n ms rest w off h many len size s e i =
      let (joined, sized, counted) = chunks_lem n c.size recvbuf size in
      let (w₁, sent, sends) =
        send_to_peers_lem u T fuel enough c (λ peer. sendbuf) allgather_tag w in
      let (w₂, received, takes) =
        recv_chunks_lem n allgather_tag (λ peer m g. copy_at g (peer * n) (peer * n + n) m)
          (λ p m cs lt e s. copy_at-flatten n cs p s lt m e) c (chunks n c.size recvbuf) sendbuf ms
          rest w₁ h counted sized len s e (ap (λ f. f allgather_tag) sends.1 ∙ i) in
      (
        w₂,
        if_false _ _ off
            ∙ rw
                (
                  lt→leb_false c.size 1 many,
                  copy_chunk n c.size c.rank recvbuf sendbuf size h len,
                  sent,
                  ◌>>◌,
                  ◌>>=◌,
                )
                received,
        Exchanges-intro u T w w₁ w₂ _ allgather_tag rest sends takes,
      )

  -- With the buffers `cs` of the ranks of the job, and the messages of the peers in the order of
  -- their ranks, every rank ends with all buffers, one after the other.
  pub allgather_in_order :
      (o : Openshmem World) (c : Context) (recvbuf : List ℕ) (n : ℕ) (cs rest : List (List ℕ))
      (w : World)
      → c.openshmem_initialized ≡ false
      → c.rank < c.size
      → 1 < c.size
      → length cs ≡ c.size
      → Sized n cs
      → length recvbuf ≡ c.size * n
      → T.incoming w allgather_tag ≡ except c.rank cs ++ rest
      → (w' : World) × (allgather u fuel o c (get_or cs c.rank []) recvbuf n w
          ≡ ok (flatten cs, w'))
  allgather_in_order o c recvbuf n cs rest w off h many l sized size i =
      let lt : c.rank < length cs = rw l h in
      let (w', gathered, _) =
        allgather_lem o c (get_or cs c.rank []) recvbuf n (except c.rank cs) rest w off h many
          (get_or-Sized n c.rank cs sized lt) size (except-Sized n c.rank cs sized)
          (length-except c.rank cs lt ∙ l) i in
      (w', gathered ∙ ap (λ l. ok (flatten l, w')) (insert_at-except c.rank cs lt))

  -- The root of a gather ends with its own bytes in its slot, and the messages of the peers in the
  -- other slots in the order of their arrival. It sends nothing.
  pub gather_root_lem :
      (c : Context) (sendbuf recvbuf : List ℕ) (n : ℕ) (ms rest : List (List ℕ)) (w : World)
      → c.rank < c.size
      → 1 < c.size
      → length sendbuf ≡ n
      → length recvbuf ≡ c.size * n
      → Sized n ms
      → suc (length ms) ≡ c.size
      → T.incoming w gather_tag ≡ ms ++ rest
      → (w' : World) × (gather u fuel c sendbuf recvbuf n c.rank w
          ≡ ok (flatten (insert_at c.rank sendbuf ms), w'))
        × Takes u T w gather_tag rest w'
  unfolding gather
  gather_root_lem c sendbuf recvbuf n ms rest w h many len size s e i =
      let (joined, sized, counted) = chunks_lem n c.size recvbuf size in
      let (w', received, takes) =
        recv_chunks_lem n gather_tag (λ peer m g. copy_if_fits n g (peer * n) m)
          (copy_if_fits-flatten n) c (chunks n c.size recvbuf) sendbuf ms rest w h counted sized len
          s e i in
      (
        w',
        rw (lt→leb_false c.size 1 many, eq→== c.rank c.rank refl, ◌>>=◌)
            (rw
              (ap (λ b. copy_if_fits n b (c.rank * n) sendbuf) (sym joined)
                ∙ copy_if_fits-flatten n c.rank sendbuf (chunks n c.size recvbuf) (rw counted h) len
                    sized)
              received),
        takes,
      )

-- ===== src/Collective/Variable/Alltoall.antt =====
-- What alltoall sends, and where the messages of the peers come to lie.
use osu_micro_benchmarks_rs.Prelude.{
  ℕ, suc, ◌+◌, ◌*◌, ◌≤◌, ◌<◌, ◌≡◌, refl, ◌∙◌, sym, ap, true, false, inl, inr, List, [], ◌∷◌, ◌++◌,
  ◌==◌, arith, Bool-cases, length, range, replicate, set, get_or, insert_at, length-set,
  length-replicate, lt→leb_false, if_true, if_false,
}
use osu_micro_benchmarks_rs.Rust.{ok, lift, ◌>>=◌, ◌>>◌, >>=-ok}
use osu_micro_benchmarks_rs.Rust.Slice.{slice, copy_at}
use osu_micro_benchmarks_rs.Rust.Chunks.{
  Sized, flatten, chunks, chunks_lem, copy_at-flatten, set-Sized, get_or-Sized, slice-flatten,
}
use osu_micro_benchmarks_rs.Ucx.{Ucx, TagMatching}
use osu_micro_benchmarks_rs.Runtime.{Context, send}
use osu_micro_benchmarks_rs.Runtime.Wait.{Takes, send_lem, recv_lem}
use osu_micro_benchmarks_rs.Runtime.Loops.{others, All, range-All, SendsAll, for_peers_lem}
use osu_micro_benchmarks_rs.Runtime.Fill.{fill_all, length-others}
use osu_micro_benchmarks_rs.Runtime.Slots.{to_peers, recv_into-ok, Exchanges, Exchanges-intro}
use osu_micro_benchmarks_rs.Collective.Equal.Gathering.{vals_id, get_or-set_chunk}
use osu_micro_benchmarks_rs.Collective.Variable.{alltoall_tag, fold_each, alltoall_turn, alltoall}
use osu_micro_benchmarks_rs.Collective.Variable.Dealt.{dealt, range-Has, dealt-filled}

module _ (u : Ucx) (T : TagMatching u) (fuel : ℕ) (enough : T.lag ≤ fuel) where
  open u use {World}

  send_slot :
      (c : Context) (cs : List (List ℕ)) (n p : ℕ) (w : World)
      → length cs ≡ c.size
      → Sized n cs
      → p < c.size
      → (w' : World) × ((lift (slice (flatten cs) (p * n) ((p + 1) * n)) >>= λ piece.
              send u fuel c p piece alltoall_tag)
            w
          ≡ ok (tt, w'))
        × SendsAll u T w (record { dst = p; tag = alltoall_tag; msg = get_or cs p [] } ∷ []) w'
  send_slot c cs n p w l sized h =
      let (w', sent, sends) = send_lem u T fuel enough c p (get_or cs p []) alltoall_tag w h in
      let piece : slice (flatten cs) (p * n) ((p + 1) * n) ≡ ok (get_or cs p []) =
        ap (λ k. slice (flatten cs) (p * n) k) (omega arith)
        ∙ slice-flatten n cs p sized (rw l h) in
      (w', rw (piece, ◌>>=◌) sent, sends)

  -- One turn at a peer's rank, and one at the own rank.
  turn_other :
      (c : Context) (cs ds : List (List ℕ)) (n p : ℕ) (buf m : List ℕ) (ms : List (List ℕ))
      (w : World)
      → (p == c.rank) ≡ false
      → p < length ds
      → Sized n ds
      → length buf ≡ n
      → length m ≡ n
      → T.incoming w alltoall_tag ≡ m ∷ ms
      → (w' : World) × (alltoall_turn u fuel c (flatten cs) n p (flatten ds, buf) w
          ≡ ok ((flatten (set ds p m), m), w'))
        × Takes u T w alltoall_tag ms w'
  unfolding alltoall_turn
  turn_other c cs ds n p buf m ms w other lt s b e i =
      let (w', received, takes) = recv_lem u T fuel enough buf alltoall_tag w m ms i (e ∙ sym b) in
      (
        w',
        rw other (
            recv_into-ok u fuel alltoall_tag (λ p m g. copy_at g (p * n) (p * n + n) m) p
              (flatten ds) _ buf m w w' received (copy_at-flatten n ds p s lt m e)),
        takes,
      )

  turn_own :
      (c : Context) (cs ds : List (List ℕ)) (n p : ℕ) (buf : List ℕ) (w : World)
      → (p == c.rank) ≡ true
      → c.rank < length ds
      → c.rank < length cs
      → Sized n ds
      → Sized n cs
      → alltoall_turn u fuel c (flatten cs) n p (flatten ds, buf) w
        ≡ ok ((flatten (set ds c.rank (get_or cs c.rank [])), buf), w)
  unfolding alltoall_turn
  turn_own c cs ds n p buf w self lt lt' s t =
      rw
        (
          self,
          slice-flatten n cs c.rank t lt',
          copy_at-flatten n ds c.rank s lt (get_or cs c.rank []) (get_or-Sized n c.rank cs t lt'),
          ◌>>=◌,
        )
        refl

  -- The loop over all ranks: the own slot in its turn, the others as the messages arrive.
  turns_lem :
      (c : Context) (cs : List (List ℕ)) (n : ℕ) (ps : List ℕ) (ds : List (List ℕ)) (buf : List ℕ)
      → (ms rest : List (List ℕ)) (w : World) → c.rank < c.size
      → length cs ≡ c.size
      → length ds ≡ c.size
      → Sized n cs
      → Sized n ds
      → Sized n ms
      → length buf ≡ n
      → All (λ p. p < c.size) ps
      → length ms ≡ length (others c.rank ps)
      → T.incoming w alltoall_tag ≡ ms ++ rest
      → (w' : World) × (last : List ℕ) × (fold_each ps
            (alltoall_turn u fuel c (flatten cs) n)
            (flatten ds, buf)
            w
          ≡ ok ((flatten (dealt c.rank (get_or cs c.rank []) ps ms ds), last), w'))
        × Takes u T w alltoall_tag rest w'
  unfolding fold_each
  turns_lem c cs n [] ds buf [] rest w h k l s t r b a e i = (w, buf, refl, (i, λ t' _. refl, refl))
  turns_lem c cs n [] ds buf (m ∷ ms) rest w h k l s t r b a e i = absurd (omega arith)
  turns_lem c cs n (p ∷ ps) ds buf [] rest w h k l s t r b a e i = elim (Bool-cases (p == c.rank)) [
    | inl self ↦
        let own = get_or cs c.rank [] in
        let (w', last, ran, takes) =
          turns_lem c cs n ps (set ds c.rank own) buf [] rest w h k (length-set ds c.rank own ∙ l) s
            (set-Sized n c.rank own ds (get_or-Sized n c.rank cs s (rw k h)) t) r b a.1
            (e ∙ ap length (if_true _ _ self)) i in
        (
          w',
          last,
          >>=-ok (alltoall_turn u fuel c (flatten cs) n p (flatten ds, buf))
                (fold_each ps (alltoall_turn u fuel c (flatten cs) n)) w
                (turn_own c cs ds n p buf w self (rw l h) (rw k h) t s)
              ∙ ran
              ∙ ap (λ ds. ok ((flatten ds, last), w')) (sym (if_true _ _ self)),
          takes,
        )
    | inr other ↦ absurd (omega (arith, e ∙ ap length (if_false _ _ other)))
  ]
  turns_lem c cs n (p ∷ ps) ds buf (m ∷ ms) rest w h k l s t r b a e i =
      elim (Bool-cases (p == c.rank)) [
        | inl self ↦
            let own = get_or cs c.rank [] in
            let (w', last, ran, takes) =
              turns_lem c cs n ps (set ds c.rank own) buf (m ∷ ms) rest w h k
                (length-set ds c.rank own ∙ l) s
                (set-Sized n c.rank own ds (get_or-Sized n c.rank cs s (rw k h)) t) r b a.1
                (e ∙ ap length (if_true _ _ self)) i in
            (
              w',
              last,
              >>=-ok (alltoall_turn u fuel c (flatten cs) n p (flatten ds, buf))
                    (fold_each ps (alltoall_turn u fuel c (flatten cs) n)) w
                    (turn_own c cs ds n p buf w self (rw l h) (rw k h) t s)
                  ∙ ran
                  ∙ ap (λ ds. ok ((flatten ds, last), w')) (sym (if_true _ _ self)),
              takes,
            )
        | inr other ↦
            let (w₁, turned, (left, others₁, sent₁)) =
              turn_other c cs ds n p buf m (ms ++ rest) w other (rw l a.0) t b r.0 i in
            let (w₂, last, ran, (left₂, others₂, sent₂)) =
              turns_lem c cs n ps (set ds p m) m ms rest w₁ h k (length-set ds p m ∙ l) s
                (set-Sized n p m ds r.0 t) r.1 r.0 a.1
                (omega (arith, e ∙ ap length (if_false _ _ other))) left in
            (
              w₂,
              last,
              >>=-ok (alltoall_turn u fuel c (flatten cs) n p (flatten ds, buf))
                    (fold_each ps (alltoall_turn u fuel c (flatten cs) n)) w turned
                  ∙ ran
                  ∙ ap (λ ds. ok ((flatten ds, last), w₂)) (sym (if_false _ _ other)),
              (left₂, λ t' ne. others₂ t' ne ∙ others₁ t' ne, sent₂ ∙ sent₁),
            )
      ]

  -- In a job of two or more, with `sendbuf` made of one chunk for each rank: a rank sends to each other
  -- rank the chunk of that rank, and ends with its own chunk in its slot and the messages `ms` of the
  -- peers in the other slots, in the order of their arrival.
  pub alltoall_lem :
      (c : Context) (cs : List (List ℕ)) (recvbuf : List ℕ) (n : ℕ) (ms rest : List (List ℕ))
      (w : World)
      → c.rank < c.size
      → 1 < c.size
      → length cs ≡ c.size
      → Sized n cs
      → length recvbuf ≡ c.size * n
      → Sized n ms
      → suc (length ms) ≡ c.size
      → T.incoming w alltoall_tag ≡ ms ++ rest
      → (w' : World) × (alltoall u fuel c (flatten cs) recvbuf n w
          ≡ ok (flatten (insert_at c.rank (get_or cs c.rank []) ms), w'))
        × Exchanges u T w (to_peers c (λ p. get_or cs p []) alltoall_tag) alltoall_tag rest w'
  unfolding alltoall
  alltoall_lem c cs recvbuf n ms rest w h many k sized size s e i =
      let ps = range 0 c.size in
      let own = get_or cs c.rank [] in
      let ds = chunks n c.size recvbuf in
      let (joined, cut, counted) = chunks_lem n c.size recvbuf size in
      let met : length ms ≡ length (others c.rank ps) =
        omega (arith, e, length-others c.rank 0 c.size (omega arith) (omega (arith, h))) in
      let (w₁, sent, sends) =
        for_peers_lem u T c.rank c.size
          (λ p. lift (slice (flatten cs) (p * n) ((p + 1) * n)) >>= λ piece.
            send u fuel c p piece alltoall_tag)
          (λ p. record { dst = p; tag = alltoall_tag; msg = get_or cs p [] } ∷ [])
          (λ p w h _. send_slot c cs n p w k sized h) ps w
          (range-All 0 c.size c.size (omega arith)) in
      let (w₂, last, turned, takes) =
        turns_lem c cs n ps ds (replicate n 0) ms rest w₁ h k counted sized cut s
          (length-replicate n 0) (range-All 0 c.size c.size (omega arith)) met
          (ap (λ f. f alltoall_tag) sends.1 ∙ i) in
      let placed : dealt c.rank own ps ms ds ≡ insert_at c.rank own ms =
        dealt-filled c.rank own ps ms ds
          (range-Has c.rank 0 c.size (omega arith) (omega (arith, h))) met
        ∙ fill_all (λ m. m) c.rank c.size (set ds c.rank own) own ms
            (length-set ds c.rank own ∙ counted) e h
            (get_or-set_chunk ds c.rank own own (rw counted h))
        ∙ ap (insert_at c.rank own) (vals_id ms) in
      (
        w₂,
        ap (λ b. alltoall u fuel c (flatten cs) b n w) (sym joined)
            ∙ rw (lt→leb_false c.size 1 many, sent, ◌>>◌, ◌>>=◌, turned)
                (ap (λ l. ok (flatten l, w₂)) placed),
        Exchanges-intro u T w w₁ w₂ _ alltoall_tag rest sends takes,
      )

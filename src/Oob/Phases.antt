-- ===== src/Oob/Phases.antt =====
-- The three phases of the out-of-band allgather: what they post, send and collect.
use osu_micro_benchmarks_rs.Prelude.{
  ℕ, zero, suc, ◌+◌, ◌≤◌, ◌<◌, ◌≡◌, ◌≢◌, refl, ◌∙◌, sym, ap, subst, true, false, Option, none, some,
  List, [], ◌∷◌, ◌++◌, ◌==◌, inl, inr, arith, Bool-cases, length, range, replicate, set, get_or,
  map, length-set, length-replicate, if_true, if_false, append-nil, append_assoc,
}
use osu_micro_benchmarks_rs.Rust.{ok, ◌>>=◌, ◌>>◌}
use osu_micro_benchmarks_rs.Rust.Chunks.{Sized, flatten, copy_at-flatten, set-Sized}
use osu_micro_benchmarks_rs.Ucx.{Ucx, Send, TagMatching}
use osu_micro_benchmarks_rs.Runtime.{unwrap_or_false}
use osu_micro_benchmarks_rs.Runtime.Wait.{
  Quiet, Takes, try_recv_lem, unwrap_or_false-eq_true, drop_all,
}
use osu_micro_benchmarks_rs.Runtime.Loops.{others, flat, collect, All, SendsAll}
use osu_micro_benchmarks_rs.Runtime.Fill.{put}
use osu_micro_benchmarks_rs.Collective.Variable.Arrivals.{Matches}
use osu_micro_benchmarks_rs.Oob.{ucc_oob_tag_base, wait_polling, oob_post, oob_send, oob_collect}

-- Every rank of a list is above those before it.
abbrev pub Ascending : List ℕ → Type 0
Ascending [] = Unit
Ascending (p ∷ ps) = All (λ q. p < q) ps × Ascending ps

range-above : (p i n : ℕ) → p < i → All (λ q. p < q) (range i n)
range-above p i zero h = tt
range-above p i (suc n) h = (h, range-above p (suc i) n (omega arith))

pub range-Ascending : (i n : ℕ) → Ascending (range i n)
range-Ascending i zero = tt
range-Ascending i (suc n) = (range-above i (suc i) n (omega arith), range-Ascending (suc i) n)

module _ (u : Ucx) (T : TagMatching u) (fuel : ℕ) (enough : T.lag ≤ fuel) where
  open u use {World, Request, tag_send, check_finished, received, progress as poll}

  pub wait_polling_lem :
      (n : ℕ) (r : Request) (w : World)
      → T.Completes r
      → T.waiting r w < n
      → (w' : World) × (wait_polling u n r w ≡ ok (tt, w'))
        × (check_finished r w' ≡ some true)
        × Quiet u T w w'
  unfolding wait_polling
  wait_polling_lem zero r w ends h = absurd (omega arith)
  wait_polling_lem (suc n) r w ends h = elim (Bool-cases (unwrap_or_false (check_finished r w))) [
    | inl done ↦ (
      w,
      rw (done, wait_polling),
      unwrap_or_false-eq_true (check_finished r w) done,
      (refl, refl),
    )
    | inr more ↦
        let due = not_due r w ends more in
        let rest =
          wait_polling_lem n r (poll w).1 ends (omega (arith, T.progress_waiting r w, due)) in
        (
          rest.0,
          rw (more, wait_polling) rest.1,
          rest.2,
          (rest.3.0 ∙ T.progress_incoming w, rest.3.1 ∙ T.progress_sent w),
        )
  ]
    where
      not_due :
          (r : Request) (w : World)
          → T.Completes r
          → unwrap_or_false (check_finished r w) ≡ false
          → 0 < T.waiting r w
      not_due r w ends h = ground (arith, T.finished_when_due r w ends)

  -- A message of `cs` waits for each peer, in front of what else has the peer's tag.
  abbrev pub Waiting : World → ℕ → List ℕ → List (List ℕ) → Type 0
  Waiting w rank [] cs = Unit
  Waiting w rank (p ∷ ps) cs =
      (p ≢ rank
        → (rest : List (List ℕ)) × (T.incoming w (ucc_oob_tag_base + p) ≡ get_or cs p [] ∷ rest))
      × Waiting w rank ps cs

  pub Waiting-intro :
      (w : World) (rank size : ℕ) (ps : List ℕ) (cs : List (List ℕ))
      → ((p : ℕ)
          → p < size
          → p ≢ rank
          → (rest : List (List ℕ)) × (T.incoming w (ucc_oob_tag_base + p) ≡ get_or cs p [] ∷ rest))
      → All (λ p. p < size) ps
      → Waiting w rank ps cs
  Waiting-intro w rank size [] cs h a = tt
  Waiting-intro w rank size (p ∷ ps) cs h a = (h p a.0, Waiting-intro w rank size ps cs h a.1)

  -- Taking the message of one peer leaves those of the peers above it.
  Waiting-Takes :
      (w w' : World) (rank p : ℕ) (ps : List ℕ) (cs rest : List (List ℕ))
      → Takes u T w (ucc_oob_tag_base + p) rest w'
      → All (λ q. p < q) ps
      → Waiting w rank ps cs
      → Waiting w' rank ps cs
  Waiting-Takes w w' rank p [] cs rest takes a h = tt
  Waiting-Takes w w' rank p (q ∷ ps) cs rest takes a h = (
    λ ne.
        let (others_rest, e) = h.0 ne in
        (others_rest, takes.1 (ucc_oob_tag_base + q) (omega (arith, a.0)) ∙ e),
    Waiting-Takes w w' rank p ps cs rest takes a.1 h.1,
  )

  abbrev pub others_of : List (List ℕ) → ℕ → List ℕ → List (List ℕ)
  others_of cs rank ps = map (λ p. get_or cs p []) (others rank ps)

  -- The receives are all posted, each matched with the bytes of its peer.
  pub oob_post_lem :
      (rank n : ℕ) (ps : List ℕ) (cs : List (List ℕ)) (w : World)
      → Ascending ps
      → Waiting w rank ps cs
      → ((p : ℕ) → length (get_or cs p []) ≤ n)
      → (rs : List (Option Request)) × (w' : World) × (oob_post u fuel rank n ps w
          ≡ ok (some rs, w'))
        × Matches u T rank ps rs (others_of cs rank ps)
        × (T.sent w' ≡ T.sent w)
  unfolding oob_post
  oob_post_lem rank n [] cs w a h fits = ([], w, refl, tt, refl)
  oob_post_lem rank n (p ∷ ps) cs w a h fits = elim (Bool-cases (p == rank)) [
    | inl self ↦
        let (rs, w', ran, matches, sent) = oob_post_lem rank n ps cs w a.1 h.1 fits in
        (none ∷ rs, w', if_true _ _ self ∙ rw (ran, ◌>>=◌) refl, rw self (refl, matches), sent)
    | inr other ↦
        let (rest, e) = h.0 (λ q. ground arith) in
        let (r, w₁, got, same, ends, takes) =
          try_recv_lem u T fuel enough n (ucc_oob_tag_base + p) w (get_or cs p []) rest e
            (fits p) in
        let (rs, w₂, ran, matches, sent) =
          oob_post_lem rank n ps cs w₁ a.1 (Waiting-Takes w w₁ rank p ps cs rest takes a.0 h.1)
            fits in
        (
          some r ∷ rs,
          w₂,
          if_false _ _ other ∙ rw (got, ◌>>=◌, ran) refl,
          subst (Matches u T rank (p ∷ ps) (some r ∷ rs))
              (ap (map (λ p. get_or cs p [])) (sym (if_false _ _ other)))
              (other, same, ends, matches),
          sent ∙ takes.2,
        )
  ]

  -- The sends of one rank, all under its own tag.
  abbrev pub own_sends : ℕ → List ℕ → List ℕ → List Send
  own_sends rank src ps =
      flat (λ p. record { dst = p; tag = ucc_oob_tag_base + rank; msg = src } ∷ []) (others rank ps)

  oob_send_one :
      (rank p : ℕ) (src : List ℕ) (ps : List ℕ) (w : World)
      → (p == rank) ≡ false
      → (w₁ : World) × (oob_send u fuel rank src (p ∷ ps) w ≡ oob_send u fuel rank src ps w₁)
        × SendsAll u T w (record { dst = p; tag = ucc_oob_tag_base + rank; msg = src } ∷ []) w₁
  unfolding oob_send
  oob_send_one rank p src ps w other = accepted (tag_send p src (ucc_oob_tag_base + rank) w).0 refl
    where
      sent : World
      sent = (tag_send p src (ucc_oob_tag_base + rank) w).1

      sends :
          SendsAll u T w (record { dst = p; tag = ucc_oob_tag_base + rank; msg = src } ∷ []) sent
      sends = (
        T.send_logged p src (ucc_oob_tag_base + rank) w,
        T.send_keeps p src (ucc_oob_tag_base + rank) w,
      )

      accepted :
          (r : Option (Option Request))
          → (tag_send p src (ucc_oob_tag_base + rank) w).0 ≡ r
          → (w₁ : World) × (oob_send u fuel rank src (p ∷ ps) w ≡ oob_send u fuel rank src ps w₁)
            × SendsAll u T w (record { dst = p; tag = ucc_oob_tag_base + rank; msg = src } ∷ []) w₁
      accepted none e = absurd (T.send_accepted p src (ucc_oob_tag_base + rank) w e)
      accepted (some none) e = (sent, if_false _ _ other ∙ rw e refl, sends)
      accepted (some (some req)) e =
          let (w₂, waited, _, quiet) =
            wait_polling_lem fuel req sent
              (T.send_Completes p src (ucc_oob_tag_base + rank) w req e)
              (omega (arith, T.waiting-lt-lag req sent)) in
          (
            w₂,
            if_false _ _ other ∙ rw (e, ◌>>◌, ◌>>=◌, waited) refl,
            (quiet.1 ∙ sends.0, quiet.0 ∙ sends.1),
          )

  pub oob_send_lem :
      (rank : ℕ) (src ps : List ℕ) (w : World)
      → (w' : World) × (oob_send u fuel rank src ps w ≡ ok (true, w'))
        × SendsAll u T w (own_sends rank src ps) w'
  unfolding oob_send
  oob_send_lem rank src [] w = (w, refl, (sym (append-nil _), refl))
  oob_send_lem rank src (p ∷ ps) w = elim (Bool-cases (p == rank)) [
    | inl self ↦ rw self (oob_send_lem rank src ps w)
    | inr other ↦
        let (w₁, step, (s₁, i₁)) = oob_send_one rank p src ps w other in
        let (w₂, ran, (s₂, i₂)) = oob_send_lem rank src ps w₁ in
        (
          w₂,
          step ∙ ran,
          (
            s₂
                ∙ ap (λ l. l ++ own_sends rank src ps) s₁
                ∙ append_assoc (T.sent w) _ _
                ∙ ap
                    (λ l.
                      T.sent w
                      ++ flat
                          (λ p. record { dst = p; tag = ucc_oob_tag_base + rank; msg = src } ∷ [])
                          l)
                    (sym (if_false _ _ other)),
            i₂ ∙ i₁,
          ),
        )
  ]

  -- The waits end, and the bytes of each peer come into the place of the peer.
  pub oob_collect_lem :
      (rank n size : ℕ) (ps : List ℕ) (rs : List (Option Request)) (ms cs : List (List ℕ))
      (w : World)
      → Matches u T rank ps rs ms
      → All (λ p. p < size) ps
      → Sized n ms
      → Sized n cs
      → length cs ≡ size
      → (w' : World) × (oob_collect u fuel n ps rs (flatten cs) w
          ≡ ok (flatten (collect (put (λ m. m)) (others rank ps) ms cs), w'))
        × Quiet u T w w'
  unfolding oob_collect
  oob_collect_lem rank n size [] [] [] cs w h a s t l = (w, refl, (refl, refl))
  oob_collect_lem rank n size [] [] (m ∷ ms) cs w h a s t l = absurd h
  oob_collect_lem rank n size [] (r ∷ rs) ms cs w h a s t l = absurd h
  oob_collect_lem rank n size (p ∷ ps) [] ms cs w h a s t l = absurd h
  oob_collect_lem rank n size (p ∷ ps) (none ∷ rs) ms cs w h a s t l =
      rw h.0 (oob_collect_lem rank n size ps rs ms cs w h.1 a.1 s t l)
  oob_collect_lem rank n size (p ∷ ps) (some r ∷ rs) [] cs w h a s t l = absurd h
  oob_collect_lem rank n size (p ∷ ps) (some r ∷ rs) (m ∷ ms) cs w h a s t l =
      let (w₁, waited, finished, q₁) =
        wait_polling_lem fuel r w h.2 (omega (arith, T.waiting-lt-lag r w)) in
      let (w₂, ran, q₂) =
        oob_collect_lem rank n size ps rs ms (set cs p m) w₁ h.3 a.1 s.1 (set-Sized n p m cs s.0 t)
          (length-set cs p m ∙ l) in
      (
        w₂,
        rw (h.0, waited, ◌>>=◌, ◌>>◌, holds w₁ finished, copy_at-flatten n cs p t (rw l a.0) m s.0)
            ran,
        (q₂.0 ∙ q₁.0, q₂.1 ∙ q₁.1),
      )
    where
      holds : (w₁ : World) → check_finished r w₁ ≡ some true → received r (replicate n 0) w₁ ≡ m
      holds w₁ finished =
          let zeros = length-replicate {A = ℕ} n 0 in
          T.finished_filled r (replicate n 0) w₁ h.2 finished (rw h.1 (omega (arith, zeros, s.0)))
          ∙ rw h.1 (rw (drop_all (length m) (replicate n 0) (s.0 ∙ sym zeros), append-nil))

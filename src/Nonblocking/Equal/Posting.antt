-- ===== src/Nonblocking/Equal/Posting.antt =====
-- What the non-blocking collectives post: their messages, and a receive for each peer.
use osu_micro_benchmarks_rs.Prelude.{
  ℕ, suc, ◌≤◌, ◌<◌, ◌≡◌, refl, ◌∙◌, sym, ap, true, false, Option, none, some, List, [], ◌∷◌, ◌++◌,
  ◌==◌, inl, inr, arith, Bool-cases, length, range, if_true, if_false,
}
use osu_micro_benchmarks_rs.Rust.{Outcome, ok, ◌>>=◌, ◌>>◌}
use osu_micro_benchmarks_rs.Rust.Chunks.{Sized}
use osu_micro_benchmarks_rs.Ucx.{Ucx, TagMatching}
use osu_micro_benchmarks_rs.Runtime.{Context, send_to_peers, post_recv}
use osu_micro_benchmarks_rs.Runtime.Wait.{Takes, post_recv_lem}
use osu_micro_benchmarks_rs.Runtime.Loops.{others, All}
use osu_micro_benchmarks_rs.Runtime.Fill.{length-others}
use osu_micro_benchmarks_rs.Runtime.Slots.{to_peers, Exchanges, Exchanges-intro, send_to_peers_lem}
use osu_micro_benchmarks_rs.Nonblocking.{OsuRequest, post_recvs, posted}
use osu_micro_benchmarks_rs.Nonblocking.Requests.{pending, Balanced, AllComplete}
use osu_micro_benchmarks_rs.Nonblocking.Equal.{post_from_peers}

All-ok : (n : ℕ) (ps : List ℕ) → All (λ p. Outcome.ok n ≡ ok n) ps
All-ok n [] = tt
All-ok n (p ∷ ps) = (refl, All-ok n ps)

module _ (u : Ucx) (T : TagMatching u) (fuel : ℕ) (enough : T.lag ≤ fuel) where
  open u use {World, Request}

  post_recvs_self :
      (rank p tag : ℕ) (len : ℕ → Outcome ℕ) (ps : List ℕ) (w w' : World)
      {rs : List (Option Request)} {k : ℕ}
      → (p == rank) ≡ true
      → post_recvs u fuel rank len tag ps w ≡ ok ((rs, k), w')
      → post_recvs u fuel rank len tag (p ∷ ps) w ≡ ok ((none ∷ rs, k), w')
  unfolding post_recvs
  post_recvs_self rank p tag len ps w w' self ran = if_true _ _ self ∙ rw ran refl

  post_recvs_other :
      (rank p tag : ℕ) (len : ℕ → Outcome ℕ) (ps : List ℕ) (w w₁ w₂ : World) {n k : ℕ} {r : Request}
      {rs : List (Option Request)}
      → (p == rank) ≡ false
      → len p ≡ ok n
      → post_recv u fuel n tag w ≡ ok (r, w₁)
      → post_recvs u fuel rank len tag ps w₁ ≡ ok ((rs, k), w₂)
      → post_recvs u fuel rank len tag (p ∷ ps) w ≡ ok ((some r ∷ rs, suc k), w₂)
  unfolding post_recvs
  post_recvs_other rank p tag len ps w w₁ w₂ other known ran rest =
      if_false _ _ other ∙ rw (known, ran, ◌>>=◌, rest) refl

  -- One receive for each peer, in the order of the peers, if a message comes for each.
  pub post_recvs_lem :
      (rank tag n : ℕ) (len : ℕ → Outcome ℕ) (ps : List ℕ) (ms rest : List (List ℕ)) (w : World)
      → All (λ p. len p ≡ ok n) ps
      → Sized n ms
      → length ms ≡ length (others rank ps)
      → T.incoming w tag ≡ ms ++ rest
      → (rs : List (Option Request)) × (w' : World) × (post_recvs u fuel rank len tag ps w
          ≡ ok ((rs, length ms), w'))
        × (pending rs ≡ length ms)
        × AllComplete u T rs
        × Takes u T w tag rest w'
  unfolding post_recvs
  post_recvs_lem rank tag n len [] [] rest w a z l i =
      ([], w, refl, refl, tt, (i, λ t' _. refl, refl))
  post_recvs_lem rank tag n len [] (m ∷ ms) rest w a z l i = absurd (omega arith)
  post_recvs_lem rank tag n len (p ∷ ps) [] rest w a z l i = elim (Bool-cases (p == rank)) [
    | inl self ↦
        let (rs, w', ran, count, all, takes) =
          post_recvs_lem rank tag n len ps [] rest w a.1 z (l ∙ ap length (if_true _ _ self)) i in
        (none ∷ rs, w', post_recvs_self rank p tag len ps w w' self ran, count, all, takes)
    | inr other ↦ absurd (omega (arith, l ∙ ap length (if_false _ _ other)))
  ]
  post_recvs_lem rank tag n len (p ∷ ps) (m ∷ ms) rest w a z l i = elim (Bool-cases (p == rank)) [
    | inl self ↦
        let (rs, w', ran, count, all, takes) =
          post_recvs_lem rank tag n len ps (m ∷ ms) rest w a.1 z (l ∙ ap length (if_true _ _ self))
            i in
        (none ∷ rs, w', post_recvs_self rank p tag len ps w w' self ran, count, all, takes)
    | inr other ↦
        let (r, w₁, ran, _, ends, (left, others₁, sent₁)) =
          post_recv_lem u T fuel enough n tag w m (ms ++ rest) i (omega (arith, z.0)) in
        let (rs, w₂, ran₂, count, all, (left₂, others₂, sent₂)) =
          post_recvs_lem rank tag n len ps ms rest w₁ a.1 z.1
            (omega (arith, l ∙ ap length (if_false _ _ other))) left in
        (
          some r ∷ rs,
          w₂,
          post_recvs_other rank p tag len ps w w₁ w₂ other a.0 ran ran₂,
          ap suc count,
          (ends, all),
          (left₂, λ t' ne. others₂ t' ne ∙ others₁ t' ne, sent₂ ∙ sent₁),
        )
  ]

  -- The exchange that a non-blocking collective starts: its messages are sent, and a receive is
  -- posted for each peer, which the handle counts.
  pub exchange_posted_lem :
      (c : Context) (msg : ℕ → List ℕ) (len tag : ℕ) (ms rest : List (List ℕ)) (w : World)
      → c.rank < c.size
      → suc (length ms) ≡ c.size
      → T.incoming w tag ≡ ms ++ rest
      → Sized len ms
      → (q : OsuRequest Request) × (w' : World) × ((send_to_peers u fuel c msg tag
              >> post_from_peers u fuel c len tag)
            w
          ≡ ok (q, w'))
        × Balanced q
        × (q.has_worker ≡ true)
        × (pending q.recv_reqs ≡ length ms)
        × AllComplete u T q.recv_reqs
        × Exchanges u T w (to_peers c msg tag) tag rest w'
  unfolding post_from_peers posted
  exchange_posted_lem c msg len tag ms rest w h e i sized =
      let ps = range 0 c.size in
      let (w₁, sent, sends) = send_to_peers_lem u T fuel enough c msg tag w in
      let (rs, w₂, ran, count, all, takes) =
        post_recvs_lem c.rank tag len (λ p. ok len) ps ms rest w₁ (All-ok len ps) sized
          (omega (arith, e, length-others c.rank 0 c.size (omega arith) (omega (arith, h))))
          (ap (λ f. f tag) sends.1 ∙ i) in
      (
        posted u fuel (rs, length ms),
        w₂,
        rw (sent, ◌>>◌, ◌>>=◌, ran) refl,
        (sym count, λ f. absurd (cc)),
        refl,
        count,
        all,
        Exchanges-intro u T w w₁ w₂ _ tag rest sends takes,
      )

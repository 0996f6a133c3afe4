-- ===== src/Collective/Variable/Arrivals.antt =====
-- The collectives that post all their receives first: what each request was matched with, and what
-- the buffer holds once all of them are waited for.
use osu_micro_benchmarks_rs.Prelude.{
  ℕ, ◌≤◌, ◌<◌, ◌≡◌, refl, ◌∙◌, sym, ap, true, false, Option, none, some, List, [], ◌∷◌, ◌++◌, ◌==◌,
  inl, inr, arith, Bool-cases, length, replicate, set, length-set, length-replicate, if_true,
  if_false, append-nil,
}
use osu_micro_benchmarks_rs.Rust.{Outcome, ok, pure, ◌>>=◌, ◌>>◌}
use osu_micro_benchmarks_rs.Rust.Chunks.{Sized, flatten, set-Sized}
use osu_micro_benchmarks_rs.Ucx.{Ucx, TagMatching}
use osu_micro_benchmarks_rs.Runtime.{try_recv}
use osu_micro_benchmarks_rs.Runtime.Wait.{Takes, Quiet, wait_lem, drop_all, try_recv_lem}
use osu_micro_benchmarks_rs.Runtime.Loops.{others, collect, All}
use osu_micro_benchmarks_rs.Runtime.Fill.{put}
use osu_micro_benchmarks_rs.Collective.Variable.{post_all, collect_all}

module _ (u : Ucx) (T : TagMatching u) where
  open u use {World, Request}

  -- The requests of the peers in turn, matched with the messages in turn; none for the own rank.
  abbrev pub Matches : ℕ → List ℕ → List (Option Request) → List (List ℕ) → Type 0
  Matches rank [] [] [] = Unit
  Matches rank [] [] (m ∷ ms) = ⊥
  Matches rank [] (r ∷ rs) ms = ⊥
  Matches rank (p ∷ ps) [] ms = ⊥
  Matches rank (p ∷ ps) (none ∷ rs) ms = ((p == rank) ≡ true) × Matches rank ps rs ms
  Matches rank (p ∷ ps) (some r ∷ rs) [] = ⊥
  Matches rank (p ∷ ps) (some r ∷ rs) (m ∷ ms) =
      ((p == rank) ≡ false) × (T.message r ≡ m) × T.Completes r × Matches rank ps rs ms

module _ (u : Ucx) (T : TagMatching u) (fuel : ℕ) (enough : T.lag ≤ fuel) where
  open u use {World, Request, received, check_finished}

  post_all_self :
      {S : Type 0} (rank p n tag : ℕ) (ps : List ℕ) (s : S) (w w' : World)
      {rs : List (Option Request)}
      → (p == rank) ≡ true
      → post_all u fuel rank (λ peer. ok n) tag pure ps s w ≡ ok ((rs, s), w')
      → post_all u fuel rank (λ peer. ok n) tag pure (p ∷ ps) s w ≡ ok ((none ∷ rs, s), w')
  unfolding post_all
  post_all_self rank p n tag ps s w w' self ran = rw (self, ran, ◌>>=◌) refl

  post_all_other :
      {S : Type 0} (rank p n tag : ℕ) (ps : List ℕ) (s : S) (w w₁ w₂ : World) {r : Request}
      {rs : List (Option Request)}
      → (p == rank) ≡ false
      → try_recv u fuel n tag w ≡ ok (some (some r), w₁)
      → post_all u fuel rank (λ peer. ok n) tag pure ps s w₁ ≡ ok ((rs, s), w₂)
      → post_all u fuel rank (λ peer. ok n) tag pure (p ∷ ps) s w ≡ ok ((some r ∷ rs, s), w₂)
  unfolding post_all
  post_all_other rank p n tag ps s w w₁ w₂ other ran rest = rw (other, ran, ◌>>=◌, rest) refl

  -- If a message comes for each peer, each request is matched with one.
  pub post_all_lem :
      {S : Type 0} (rank n tag : ℕ) (ps : List ℕ) (s : S) (ms rest : List (List ℕ)) (w : World)
      → length ms ≡ length (others rank ps)
      → T.incoming w tag ≡ ms ++ rest
      → Sized n ms
      → (rs : List (Option Request)) × (w' : World) × (post_all u fuel rank
            (λ peer. ok n)
            tag
            pure
            ps
            s
            w
          ≡ ok ((rs, s), w'))
        × Matches u T rank ps rs ms
        × Takes u T w tag rest w'
  unfolding post_all
  post_all_lem rank n tag [] s [] rest w l i z = ([], w, refl, tt, (i, λ t' _. refl, refl))
  post_all_lem rank n tag [] s (m ∷ ms) rest w l i z = absurd (omega arith)
  post_all_lem rank n tag (p ∷ ps) s [] rest w l i z = elim (Bool-cases (p == rank)) [
    | inl self ↦
        let (rs, w', ran, matches, takes) =
          post_all_lem rank n tag ps s [] rest w (l ∙ ap length (if_true _ _ self)) i z in
        (none ∷ rs, w', post_all_self rank p n tag ps s w w' self ran, (self, matches), takes)
    | inr other ↦ absurd (omega (arith, l ∙ ap length (if_false _ _ other)))
  ]
  post_all_lem rank n tag (p ∷ ps) s (m ∷ ms) rest w l i z = elim (Bool-cases (p == rank)) [
    | inl self ↦
        let (rs, w', ran, matches, takes) =
          post_all_lem rank n tag ps s (m ∷ ms) rest w (l ∙ ap length (if_true _ _ self)) i z in
        (none ∷ rs, w', post_all_self rank p n tag ps s w w' self ran, (self, matches), takes)
    | inr other ↦
        let (r, w₁, ran, same, ends, (left, others₁, sent₁)) =
          try_recv_lem u T fuel enough n tag w m (ms ++ rest) i (omega (arith, z.0)) in
        let (rs, w₂, ran₂, matches, (left₂, others₂, sent₂)) =
          post_all_lem rank n tag ps s ms rest w₁
            (omega (arith, l ∙ ap length (if_false _ _ other))) left z.1 in
        (
          some r ∷ rs,
          w₂,
          post_all_other rank p n tag ps s w w₁ w₂ other ran ran₂,
          (other, same, ends, matches),
          (left₂, λ t' ne. others₂ t' ne ∙ others₁ t' ne, sent₂ ∙ sent₁),
        )
  ]

  -- The loop of waits ends, and stores the messages in turn in a buffer of chunks.
  pub collect_all_lem :
      (rank n size : ℕ) (write : ℕ → List ℕ → List ℕ → Outcome (List ℕ))
      → ((p : ℕ) (m : List ℕ) (cs : List (List ℕ))
          → p < length cs
          → length m ≡ n
          → Sized n cs
          → write p m (flatten cs) ≡ ok (flatten (set cs p m)))
      → (ps : List ℕ) (rs : List (Option Request)) (ms cs : List (List ℕ)) (w : World)
      → Matches u T rank ps rs ms
      → All (λ p. p < size) ps
      → Sized n ms
      → Sized n cs
      → length cs ≡ size
      → (w' : World) × (collect_all u fuel (λ peer. ok n) write ps rs (flatten cs) w
          ≡ ok (flatten (collect (put (λ m. m)) (others rank ps) ms cs), w'))
        × Quiet u T w w'
  unfolding collect_all
  collect_all_lem rank n size write writes [] [] [] cs w h a s t l = (w, refl, (refl, refl))
  collect_all_lem rank n size write writes [] [] (m ∷ ms) cs w h a s t l = absurd h
  collect_all_lem rank n size write writes [] (r ∷ rs) ms cs w h a s t l = absurd h
  collect_all_lem rank n size write writes (p ∷ ps) [] ms cs w h a s t l = absurd h
  collect_all_lem rank n size write writes (p ∷ ps) (none ∷ rs) ms cs w h a s t l =
      rw h.0 (collect_all_lem rank n size write writes ps rs ms cs w h.1 a.1 s t l)
  collect_all_lem rank n size write writes (p ∷ ps) (some r ∷ rs) [] cs w h a s t l = absurd h
  collect_all_lem rank n size write writes (p ∷ ps) (some r ∷ rs) (m ∷ ms) cs w h a s t l =
      let (w₁, waited, finished, q₁) = wait_lem u T fuel enough r w h.2 in
      let (w₂, ran, q₂) =
        collect_all_lem rank n size write writes ps rs ms (set cs p m) w₁ h.3 a.1 s.1
          (set-Sized n p m cs s.0 t) (length-set cs p m ∙ l) in
      (
        w₂,
        rw (h.0, waited, ◌>>=◌, ◌>>◌, holds w₁ finished, writes p m cs (rw l a.0) s.0 t) ran,
        (q₂.0 ∙ q₁.0, q₂.1 ∙ q₁.1),
      )
    where
      holds : (w₁ : World) → check_finished r w₁ ≡ some true → received r (replicate n 0) w₁ ≡ m
      holds w₁ finished =
          let zeros = length-replicate {A = ℕ} n 0 in
          T.finished_filled r (replicate n 0) w₁ h.2 finished (rw h.1 (omega (arith, zeros, s.0)))
          ∙ rw h.1 (rw (drop_all (length m) (replicate n 0) (s.0 ∙ sym zeros), append-nil))

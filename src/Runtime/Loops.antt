-- ===== src/Runtime/Loops.antt =====
-- The rank loops: what the loop of sends puts on the network, and what the loop of receives
-- collects, whichever messages arrive first.
use osu_micro_benchmarks_rs.Prelude.{
  ℕ, zero, suc, ◌+◌, ◌≤◌, ◌<◌, ◌≡◌, ◌≢◌, refl, ◌∙◌, sym, ap, fun_ext, List, [], ◌∷◌, ◌++◌, arith,
  Bool-cases, range, ◌==◌, if◌then◌else◌, inl, inr, append-nil, append_assoc,
}
use osu_micro_benchmarks_rs.Rust.{ok, Run, pure, ◌>>=◌, >>=-ok}
use osu_micro_benchmarks_rs.Ucx.{Ucx, Send, TagMatching}
use osu_micro_benchmarks_rs.Runtime.{for_peers, fold_peers}
use osu_micro_benchmarks_rs.Runtime.Wait.{Takes}

-- The peers that a loop visits.
abbrev pub others : ℕ → List ℕ → List ℕ
others rank [] = []
others rank (p ∷ ps) = if p == rank then others rank ps else p ∷ others rank ps

-- The sends of a loop, in its order.
abbrev pub flat : {A : Type 0} → (ℕ → List A) → List ℕ → List A
flat f [] = []
flat f (p ∷ ps) = f p ++ flat f ps

-- One message for each peer, each as `P` says.
abbrev pub Feed : (ℕ → List ℕ → Type 0) → List ℕ → List (List ℕ) → Type 0
Feed P [] [] = Unit
Feed P [] (m ∷ ms) = ⊥
Feed P (p ∷ ps) [] = ⊥
Feed P (p ∷ ps) (m ∷ ms) = P p m × Feed P ps ms

-- The messages are stored in the order of the peers.
abbrev pub collect : {S : Type 0} → (ℕ → List ℕ → S → S) → List ℕ → List (List ℕ) → S → S
collect store [] ms s = s
collect store (p ∷ ps) [] s = s
collect store (p ∷ ps) (m ∷ ms) s = collect store ps ms (store p m s)

abbrev pub All : (ℕ → Type 0) → List ℕ → Type 0
All P [] = Unit
All P (p ∷ ps) = P p × All P ps

pub range-All : (i n k : ℕ) → i + n ≤ k → All (λ p. p < k) (range i n)
range-All i zero k h = tt
range-All i (suc n) k h = (omega arith, range-All (suc i) n k (omega arith))

-- The same loop over the peers alone.
fold_all : {W S : Type 0} → List ℕ → (ℕ → S → Run W S) → S → Run W S
fold_all [] body s = pure s
fold_all (p ∷ ps) body s = body p s >>= fold_all ps body

fold_peers-others :
    {W S : Type 0} (rank : ℕ) (ps : List ℕ) (body : ℕ → S → Run W S)
    → fold_peers rank ps body ≡ fold_all (others rank ps) body
unfolding fold_peers fold_all
fold_peers-others rank [] body = refl
fold_peers-others rank (p ∷ ps) body = fun_ext λ s. elim (Bool-cases (p == rank)) [
  | inl self ↦ rw self (ap (λ f. f s) (fold_peers-others rank ps body))
  | inr other ↦ rw other (ap (λ f. body p s >>= f) (fold_peers-others rank ps body))
]

module _ (u : Ucx) (T : TagMatching u) where
  open u use {World}

  abbrev pub SendsAll : World → List Send → World → Type 0
  SendsAll w l w' = (T.sent w' ≡ T.sent w ++ l) × (T.incoming w' ≡ T.incoming w)

  pub for_peers_lem :
      (rank size : ℕ) (body : ℕ → Run World (Unit {0})) (mk : ℕ → List Send)
      → ((p : ℕ) (w : World)
          → p < size
          → p ≢ rank
          → (w' : World) × (body p w ≡ ok (tt, w')) × SendsAll w (mk p) w')
      → (ps : List ℕ) (w : World) → All (λ p. p < size) ps
      → (w' : World) × (for_peers rank ps body w ≡ ok (tt, w'))
        × SendsAll w (flat mk (others rank ps)) w'
  unfolding for_peers
  for_peers_lem rank size body mk step [] w h = (w, refl, (sym (append-nil _), refl))
  for_peers_lem rank size body mk step (p ∷ ps) w h = elim (Bool-cases (p == rank)) [
    | inl self ↦ rw self (for_peers_lem rank size body mk step ps w h.1)
    | inr other ↦
        let (w₁, e, (s, i)) = step p w h.0 (λ q. ground arith) in
        let (w₂, e', (s', i')) = for_peers_lem rank size body mk step ps w₁ h.1 in
        rw other (
          w₂,
          >>=-ok (body p) (λ _. for_peers rank ps body) w e ∙ e',
          (s' ∙ ap (λ l. l ++ flat mk (others rank ps)) s ∙ append_assoc (T.sent w) _ _, i' ∙ i),
        )
  ]

  module _ {S C : Type 0} (conc : S → C) (I : S → Type 0) (P : ℕ → List ℕ → Type 0) (tag : ℕ)
      (body : ℕ → C → Run World C) (store : ℕ → List ℕ → S → S)
      (step : (p : ℕ) (m : List ℕ) (s : S) (w : World) (ms : List (List ℕ))
        → P p m
        → I s
        → T.incoming w tag ≡ m ∷ ms
        → (w' : World) × (body p (conc s) w ≡ ok (conc (store p m s), w'))
          × I (store p m s)
          × Takes u T w tag ms w') where
    fold_all_lem :
        (ps : List ℕ) (ms rest : List (List ℕ)) (s : S) (w : World)
        → Feed P ps ms
        → I s
        → T.incoming w tag ≡ ms ++ rest
        → (w' : World) × (fold_all ps body (conc s) w ≡ ok (conc (collect store ps ms s), w'))
          × I (collect store ps ms s)
          × Takes u T w tag rest w'
    unfolding fold_all
    fold_all_lem [] [] rest s w f i e = (w, refl, i, (e, λ t' _. refl, refl))
    fold_all_lem [] (m ∷ ms) rest s w f i e = absurd f
    fold_all_lem (p ∷ ps) [] rest s w f i e = absurd f
    fold_all_lem (p ∷ ps) (m ∷ ms) rest s w f i e =
        let (w₁, ran, i₁, (left, others₁, sent₁)) = step p m s w (ms ++ rest) f.0 i e in
        let (w₂, ran₂, i₂, (left₂, others₂, sent₂)) =
          fold_all_lem ps ms rest (store p m s) w₁ f.1 i₁ left in
        (
          w₂,
          >>=-ok (body p (conc s)) (fold_all ps body) w ran ∙ ran₂,
          i₂,
          (left₂, λ t' ne. others₂ t' ne ∙ others₁ t' ne, sent₂ ∙ sent₁),
        )

    pub fold_peers_lem :
        (rank : ℕ) (ps : List ℕ) (ms rest : List (List ℕ)) (s : S) (w : World)
        → Feed P (others rank ps) ms
        → I s
        → T.incoming w tag ≡ ms ++ rest
        → (w' : World) × (fold_peers rank ps body (conc s) w
            ≡ ok (conc (collect store (others rank ps) ms s), w'))
          × I (collect store (others rank ps) ms s)
          × Takes u T w tag rest w'
    fold_peers_lem rank ps ms rest s w f i e =
        rw (fold_peers-others rank ps body) (fold_all_lem (others rank ps) ms rest s w f i e)

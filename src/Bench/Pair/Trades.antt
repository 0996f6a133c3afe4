-- ===== src/Bench/Pair/Trades.antt =====
-- Turns of a pair: in each, a rank takes some messages of one tag and sends some to its partner.
use osu_micro_benchmarks_rs.Prelude.{
  ℕ, zero, suc, ◌+◌, ◌-◌, ◌≡◌, refl, ◌∙◌, sym, ap, List, [], ◌++◌, arith, map, append-nil,
  append_assoc, map-append,
}
use osu_micro_benchmarks_rs.Rust.{ok, Run, ◌>>=◌}
use osu_micro_benchmarks_rs.Ucx.{Ucx, Send, TagMatching}
use osu_micro_benchmarks_rs.Runtime.{Context}
use osu_micro_benchmarks_rs.Runtime.Slots.{Exchanges}
use osu_micro_benchmarks_rs.Bench.{Machine, on_net, times}
use osu_micro_benchmarks_rs.Bench.Window.Moves.{Exchanges-trans}

-- Messages to the other rank of the pair.
abbrev pub to_partner : Context → ℕ → List (List ℕ) → List Send
to_partner c tag = map (λ m. record { dst = 1 - c.rank; tag = tag; msg = m })

pub to_partner-append :
    (c : Context) (tag : ℕ) (l m : List (List ℕ))
    → to_partner c tag l ++ to_partner c tag m ≡ to_partner c tag (l ++ m)
to_partner-append c tag l m =
    let to : List ℕ → Send = λ x. record { dst = 1 - c.rank; tag = tag; msg = x } in
    sym (map-append to l m)

-- The messages of `k` turns.
abbrev pub batches : ℕ → List (List ℕ) → List (List ℕ)
batches zero l = []
batches (suc k) l = l ++ batches k l

-- `k` steps, over the numbers of the readings from `i` on.
abbrev pub steps : {R : Type 0} → (ℕ → R → R) → ℕ → ℕ → R → R
steps next i zero r = r
steps next i (suc k) r = steps next (suc i) k (next i r)

module _ (u : Ucx) (T : TagMatching u) (c : Context) (tag_in tag_out : ℕ) where
  open u use {World}

  -- With the messages `ins` next in line, a turn takes them and sends `outs`; `x` is what it keeps.
  abbrev pub Turn : {S : Type 0} → (S → Run World S) → S → List (List ℕ) → List (List ℕ) → Type 0
  Turn turn x ins outs =
      (rest : List (List ℕ)) (w : World)
      → T.incoming w tag_in ≡ ins ++ rest
      → (w' : World) × (turn x w ≡ ok (x, w'))
        × Exchanges u T w (to_partner c tag_out outs) tag_in rest w'

  pub trade_nothing :
      (w : World) (rest : List (List ℕ))
      → T.incoming w tag_in ≡ rest
      → Exchanges u T w [] tag_in rest w
  trade_nothing w rest i = (sym (append-nil (T.sent w)), i, λ t' ne. refl)

  -- Two trades in a row.
  pub trade_trans :
      (l m : List (List ℕ)) (w w₁ w₂ : World) (rest rest' : List (List ℕ))
      → Exchanges u T w (to_partner c tag_out l) tag_in rest w₁
      → Exchanges u T w₁ (to_partner c tag_out m) tag_in rest' w₂
      → Exchanges u T w (to_partner c tag_out (l ++ m)) tag_in rest' w₂
  trade_trans l m w w₁ w₂ rest rest' x y =
      let (s, left, same) =
        Exchanges-trans u T w w₁ w₂ (to_partner c tag_out l) (to_partner c tag_out m) tag_in rest
          rest' x y in
      (s ∙ ap (λ k. T.sent w ++ k) (to_partner-append c tag_out l m), left, same)

  module _ {S F : Type 0} (turn : S → Run World S) (x : S) (ins outs : List (List ℕ))
      (trades : Turn turn x ins outs) where
    -- The warm-up is `k` turns.
    pub warm_lem :
        (k : ℕ) (rest : List (List ℕ)) (s : Machine World F)
        → T.incoming s.net tag_in ≡ batches k ins ++ rest
        → (w : World) × (times k (λ y. on_net (turn y)) x s ≡ ok (x, record s { net = w }))
          × Exchanges u T s.net (to_partner c tag_out (batches k outs)) tag_in rest w
    unfolding times
    warm_lem zero rest s i = (s.net, refl, trade_nothing s.net rest i)
    warm_lem (suc k) rest s i =
        let (w₁, ran₁, x₁) =
          trades (batches k ins ++ rest) s.net (i ∙ append_assoc ins (batches k ins) rest) in
        let (w₂, ran₂, x₂) = warm_lem k rest (record s { net = w₁ }) x₁.1 in
        (
          w₂,
          rw (ran₁, ◌>>=◌) ran₂,
          trade_trans outs (batches k outs) s.net w₁ w₂ (batches k ins ++ rest) rest x₁ x₂,
        )

    -- A body that runs a turn, reads the clock and changes its own variables; `hold` adds to those what
    -- the turn keeps.
    pub timed_lem :
        {R B : Type 0} (body : B → Run (Machine World F) B) (hold : R → B) (next : ℕ → R → R)
        (runs : (r : R) (s : Machine World F) (w : World)
          → turn x s.net ≡ ok (x, w)
          → body (hold r) s
            ≡ ok (hold (next s.readings r), record s { net = w; readings = s.readings + 1 }))
        (k : ℕ) (r : R) (rest : List (List ℕ)) (s : Machine World F)
        → T.incoming s.net tag_in ≡ batches k ins ++ rest
        → (s' : Machine World F) × (times k body (hold r) s
            ≡ ok (hold (steps next s.readings k r), s'))
          × (s'.out ≡ s.out)
          × (s'.readings ≡ s.readings + k)
          × Exchanges u T s.net (to_partner c tag_out (batches k outs)) tag_in rest s'.net
    unfolding times
    timed_lem body hold next runs zero r rest s i =
        (s, refl, refl, omega arith, trade_nothing s.net rest i)
    timed_lem body hold next runs (suc k) r rest s i =
        let (w₁, ran₁, x₁) =
          trades (batches k ins ++ rest) s.net (i ∙ append_assoc ins (batches k ins) rest) in
        let s₁ = record s { net = w₁; readings = s.readings + 1 } in
        let (s₂, ran₂, out₂, read₂, x₂) =
          timed_lem body hold next runs k (next s.readings r) rest s₁ x₁.1 in
        let e : s.readings + 1 ≡ suc s.readings = omega arith in
        (
          s₂,
          rw (runs r s w₁ ran₁, ◌>>=◌) ran₂
              ∙ ap (λ (j : ℕ). ok (hold (steps next j k (next s.readings r)), s₂)) e,
          out₂,
          omega arith,
          trade_trans outs (batches k outs) s.net w₁ s₂.net (batches k ins ++ rest) rest x₁ x₂,
        )

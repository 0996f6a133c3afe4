-- ===== src/Runtime/Slots.antt =====
-- The exchange that the blocking collectives share: a rank sends to all its peers, and stores one
-- message for each peer in turn.
use osu_micro_benchmarks_rs.Prelude.{
  ℕ, suc, ◌≤◌, ◌<◌, ◌≡◌, ◌≢◌, refl, ◌∙◌, sym, ap, List, [], ◌∷◌, ◌++◌, arith, length, range,
  replicate, set, get_or, insert_at, length-set, length-replicate,
}
use osu_micro_benchmarks_rs.Rust.{Outcome, ok, pure, ◌>>=◌, >>=-ok}
use osu_micro_benchmarks_rs.Rust.Chunks.{Sized}
use osu_micro_benchmarks_rs.Ucx.{Ucx, Send, TagMatching}
use osu_micro_benchmarks_rs.Runtime.{
  Context, recv, fold_peers, recv_into, recv_from_peers, send, send_to_peers,
}
use osu_micro_benchmarks_rs.Runtime.Wait.{Takes, recv_lem, send_lem}
use osu_micro_benchmarks_rs.Runtime.Loops.{
  others, flat, Feed, All, collect, range-All, SendsAll, for_peers_lem, fold_peers_lem,
}
use osu_micro_benchmarks_rs.Runtime.Fill.{put, vals, fill_all, length-others}

others-All : (P : ℕ → Type 0) (rank : ℕ) (ps : List ℕ) → All P ps → All P (others rank ps)
others-All P rank [] h = tt
others-All P rank (p ∷ ps) h = ground (arith, others-All P rank ps h.1)

Feed-intro :
    (n size : ℕ) (ps : List ℕ) (ms : List (List ℕ))
    → All (λ p. p < size) ps
    → Sized n ms
    → length ms ≡ length ps
    → Feed (λ p m. (p < size) × (length m ≡ n)) ps ms
Feed-intro n size [] [] a s l = tt
Feed-intro n size [] (m ∷ ms) a s l = absurd (omega arith)
Feed-intro n size (p ∷ ps) [] a s l = absurd (omega arith)
Feed-intro n size (p ∷ ps) (m ∷ ms) a s l =
    ((a.0, s.0), Feed-intro n size ps ms a.1 s.1 (omega arith))

-- One message to each other rank, in the order of the ranks.
abbrev pub to_peers : Context → (ℕ → List ℕ) → ℕ → List Send
to_peers c msg tag =
    flat (λ p. record { dst = p; tag = tag; msg = msg p } ∷ []) (others c.rank (range 0 c.size))

module _ (u : Ucx) (T : TagMatching u) where
  open u use {World}

  -- A rank has sent the messages `l`, and has taken those of one tag up to `rest`.
  abbrev pub Exchanges : World → List Send → ℕ → List (List ℕ) → World → Type 0
  Exchanges w l tag rest w' =
      (T.sent w' ≡ T.sent w ++ l)
      × (T.incoming w' tag ≡ rest)
      × ((t' : ℕ) → t' ≢ tag → T.incoming w' t' ≡ T.incoming w t')

  pub Exchanges-intro :
      (w w₁ w₂ : World) (l : List Send) (tag : ℕ) (rest : List (List ℕ))
      → SendsAll u T w l w₁
      → Takes u T w₁ tag rest w₂
      → Exchanges w l tag rest w₂
  Exchanges-intro w w₁ w₂ l tag rest (s, i) (left, others_same, logged) =
      (logged ∙ s, left, λ t' ne. others_same t' ne ∙ ap (λ f. f t') i)

-- One turn of the loop of receives.
pub recv_into-ok :
    (u : Ucx) (fuel : ℕ) {C : Type 0} (tag : ℕ) (write : ℕ → List ℕ → C → Outcome C) (p : ℕ)
    (g g' : C) (buf m : List ℕ) (w w' : u.World)
    → recv u fuel buf tag w ≡ ok (m, w')
    → write p m g ≡ ok g'
    → recv_into u fuel tag write p (g, buf) w ≡ ok ((g', m), w')
unfolding recv_into
recv_into-ok u fuel tag write p g g' buf m w w' received written =
    rw (received, ◌>>=◌, written) refl

module _ (u : Ucx) (T : TagMatching u) (fuel : ℕ) (enough : T.lag ≤ fuel) where
  open u use {World}

  -- The sends of one rank to all others.
  pub send_to_peers_lem :
      (c : Context) (msg : ℕ → List ℕ) (tag : ℕ) (w : World)
      → (w' : World) × (send_to_peers u fuel c msg tag w ≡ ok (tt, w'))
        × SendsAll u T w (to_peers c msg tag) w'
  unfolding send_to_peers
  send_to_peers_lem c msg tag w =
      for_peers_lem u T c.rank c.size (λ p. send u fuel c p (msg p) tag)
        (λ p. record { dst = p; tag = tag; msg = msg p } ∷ [])
        (λ p w h _. send_lem u T fuel enough c p (msg p) tag w h) (range 0 c.size) w
        (range-All 0 c.size c.size (omega arith))

  module _ {A C : Type 0} (val : List ℕ → A) (conc : List A → C) (J : List A → Type 0) (n tag : ℕ)
      (write : ℕ → List ℕ → C → Outcome C)
      (writes : (p : ℕ) (m : List ℕ) (cs : List A)
        → p < length cs
        → length m ≡ n
        → J cs
        → (write p m (conc cs) ≡ ok (conc (set cs p (val m)))) × J (set cs p (val m))) where
    store : ℕ → List ℕ → List A × List ℕ → List A × List ℕ
    store p m s = (set s.0 p (val m), m)

    collect-store :
        (ps : List ℕ) (ms : List (List ℕ)) (s : List A × List ℕ)
        → (collect store ps ms s).0 ≡ collect (put val) ps ms s.0
    unfolding store
    collect-store [] ms s = refl
    collect-store (p ∷ ps) [] s = refl
    collect-store (p ∷ ps) (m ∷ ms) s = collect-store ps ms (store p m s)

    -- What the loop keeps: a slot for each rank, and a buffer of the messages' length.
    abbrev Kept : ℕ → List A × List ℕ → Type 0
    Kept size s = (length s.0 ≡ size) × (length s.1 ≡ n) × J s.0

    abbrev shown : List A × List ℕ → C × List ℕ
    shown s = (conc s.0, s.1)

    recv_into_lem :
        (size p : ℕ) (m : List ℕ) (s : List A × List ℕ) (w : World) (ms : List (List ℕ))
        → (p < size) × (length m ≡ n)
        → Kept size s
        → T.incoming w tag ≡ m ∷ ms
        → (w' : World) × (recv_into u fuel tag write p (shown s) w ≡ ok (shown (store p m s), w'))
          × Kept size (store p m s)
          × Takes u T w tag ms w'
    unfolding recv_into store
    recv_into_lem size p m s w ms (lt, len) (slots, buffer, j) i =
        let (w', received, takes) = recv_lem u T fuel enough s.1 tag w m ms i (len ∙ sym buffer) in
        let (written, j') = writes p m s.0 (rw slots lt) len j in
        (
          w',
          rw (received, recv_into, ◌>>=◌, written),
          (length-set s.0 p (val m) ∙ slots, len, j'),
          takes,
        )

    -- The slots afterwards: the own value in its place, the messages in the order of their arrival.
    pub recv_from_peers_lem :
        (c : Context) (cs : List A) (own : A) (ms rest : List (List ℕ)) (w : World)
        → c.rank < c.size
        → length cs ≡ c.size
        → get_or cs c.rank own ≡ own
        → J cs
        → Sized n ms
        → suc (length ms) ≡ c.size
        → T.incoming w tag ≡ ms ++ rest
        → (w' : World) × (recv_from_peers u fuel c n tag write (conc cs) w
            ≡ ok (conc (insert_at c.rank own (vals val ms)), w'))
          × Takes u T w tag rest w'
    unfolding recv_from_peers
    recv_from_peers_lem c cs own ms rest w h l g j s e i =
        let ps = range 0 c.size in
        let fed =
          Feed-intro n c.size (others c.rank ps) ms
            (others-All (λ p. p < c.size) c.rank ps (range-All 0 c.size c.size (omega arith))) s
            (omega (arith, length-others c.rank 0 c.size (omega arith) (omega arith))) in
        let (w', ran, _, takes) =
          fold_peers_lem u T shown (Kept c.size) (λ p m. (p < c.size) × (length m ≡ n)) tag
            (recv_into u fuel tag write) store (recv_into_lem c.size) c.rank ps ms rest
            (cs, replicate n 0) w fed (l, length-replicate n 0, j) i in
        (
          w',
          >>=-ok (fold_peers c.rank ps (recv_into u fuel tag write) (conc cs, replicate n 0))
                (λ r. pure r.0) w ran
              ∙ ap (λ r. ok (conc r, w'))
                  (collect-store (others c.rank ps) ms (cs, replicate n 0)
                    ∙ fill_all val c.rank c.size cs own ms l e h g),
          takes,
        )

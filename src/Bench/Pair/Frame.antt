-- ===== src/Bench/Pair/Frame.antt =====
-- The frame of the pair programs: from one message size to the whole program.
use osu_micro_benchmarks_rs.Prelude.{
  ℕ, suc, ◌+◌, ◌%◌, ◌≤◌, ◌<◌, ◌≡◌, ◌≢◌, refl, ◌∙◌, sym, ap, false, List, [], ◌∷◌, ◌++◌, arith, ◌==◌,
  Bool-cases, inl, inr, length, append-nil, append_assoc, le→ltb_false, lt→leb_false,
}
use osu_micro_benchmarks_rs.Rust.{ok, Run, ◌>>=◌, ◌>>◌, >>=-ok}
use osu_micro_benchmarks_rs.Rust.Float.{F64}
use osu_micro_benchmarks_rs.Rust.Chunks.{Sized}
use osu_micro_benchmarks_rs.Ucx.{Ucx, TagMatching}
use osu_micro_benchmarks_rs.Ucx.Openshmem.{Openshmem}
use osu_micro_benchmarks_rs.Runtime.{Context}
use osu_micro_benchmarks_rs.Runtime.Loops.{flat}
use osu_micro_benchmarks_rs.Runtime.Slots.{Exchanges, to_peers}
use osu_micro_benchmarks_rs.Collective.Scalars.{barrier_tag}
use osu_micro_benchmarks_rs.Collective.Scalars.Reduction.{barrier_lem}
use osu_micro_benchmarks_rs.Cli.{CliArgs, get_iterations, get_skip, message_sizes}
use osu_micro_benchmarks_rs.Output.{Piece}
use osu_micro_benchmarks_rs.Bench.{Machine, finished, on_root, for_all}
use osu_micro_benchmarks_rs.Bench.Blocking.Reports.{at_root, on_root_lem}
use osu_micro_benchmarks_rs.Bench.Pair.{run_pair, main_pair}
use osu_micro_benchmarks_rs.Bench.Pair.Trades.{to_partner, batches, trade_nothing, trade_trans}

-- Nothing to print.
on_root-nil : {W F : Type 0} (c : Context) (s : Machine W F) → on_root c [] s ≡ ok (tt, s)
on_root-nil c s = elim (Bool-cases (c.rank == 0)) [
  | inl root ↦ rw (root, append-nil) refl
  | inr other ↦ rw other refl
]

-- The messages of a message size in one direction: `unit` in each iteration, warm-up included.
abbrev pub size_messages : CliArgs → (ℕ → List (List ℕ)) → ℕ → List (List ℕ)
size_messages a unit n = batches (get_skip a n) (unit n) ++ batches (get_iterations a n) (unit n)

-- One row for each size, over readings that follow one another.
abbrev pub rows : {F : Type 0} → CliArgs → (ℕ → ℕ → List (Piece F)) → ℕ → List ℕ → List (Piece F)
rows a row i [] = []
rows a row i (n ∷ ns) = row n i ++ rows a row (i + get_iterations a n) ns

module _ (u : Ucx) (T : TagMatching u) (fuel : ℕ) (enough : T.lag ≤ fuel) (c : Context)
    (pair : c.rank < 2) (many : 1 < c.size) (tag_in tag_out : ℕ) (o : Openshmem u.World) (f : F64)
    (clock : ℕ → f.Float) (a : CliArgs) (ins outs : ℕ → List (List ℕ))
    (row : ℕ → ℕ → List (Piece f.Float)) (body : ℕ → Run (Machine u.World f.Float) (Unit {0})) where
  open u use {World}
  open f use {Float}

  -- What a message size does, with its messages next in line.
  abbrev pub SizedBody : Type 0
  SizedBody =
      (n : ℕ) (rest : List (List ℕ)) (s : Machine World Float)
      → T.incoming s.net tag_in ≡ ins n ++ rest
      → (s' : Machine World Float) × (body n s ≡ ok (tt, s'))
        × (s'.out ≡ s.out ++ row n s.readings)
        × (s'.readings ≡ s.readings + get_iterations a n)
        × Exchanges u T s.net (to_partner c tag_out (outs n)) tag_in rest s'.net

  module _ (each : SizedBody) where
    sizes_lem :
        (sizes : List ℕ) (rest : List (List ℕ)) (s : Machine World Float)
        → T.incoming s.net tag_in ≡ flat ins sizes ++ rest
        → (s' : Machine World Float) × (for_all sizes (λ size (x : Unit {0}). body size) tt s
            ≡ ok (tt, s'))
          × (s'.out ≡ s.out ++ rows a row s.readings sizes)
          × Exchanges u T s.net (to_partner c tag_out (flat outs sizes)) tag_in rest s'.net
    unfolding for_all
    sizes_lem [] rest s i =
        (s, refl, sym (append-nil s.out), trade_nothing u T c tag_in tag_out s.net rest i)
    sizes_lem (n ∷ ns) rest s i =
        let (s₁, ran₁, out₁, read₁, x₁) =
          each n (flat ins ns ++ rest) s (i ∙ append_assoc (ins n) (flat ins ns) rest) in
        let (s₂, ran₂, out₂, x₂) = sizes_lem ns rest s₁ x₁.1 in
        (
          s₂,
          >>=-ok (body n) _ s ran₁ ∙ ran₂,
          out₂
              ∙ ap (λ k. k ++ rows a row s₁.readings ns) out₁
              ∙ append_assoc s.out (row n s.readings) (rows a row s₁.readings ns)
              ∙ ap (λ (j : ℕ). s.out ++ (row n s.readings ++ rows a row j ns)) read₁,
          trade_trans u T c tag_in tag_out (outs n) (flat outs ns) s.net s₁.net s₂.net
              (flat ins ns ++ rest) rest x₁ x₂,
        )

    pub main_pair_lem :
        (off : c.openshmem_initialized ≡ false) (other : tag_in ≢ barrier_tag)
        (header : List (Piece Float)) (sizes : List ℕ) (ms rest rest' : List (List ℕ))
        (s : Machine World Float)
        → message_sizes fuel a ≡ ok sizes
        → Sized 1 ms
        → suc (length ms) ≡ c.size
        → T.incoming s.net barrier_tag ≡ ms ++ rest'
        → T.incoming s.net tag_in ≡ flat ins sizes ++ rest
        → (s' : Machine World Float) × (main_pair u fuel o f clock header [] body c a s
            ≡ ok (finished, s'))
          × (s'.out ≡ (s.out ++ at_root c header) ++ rows a row s.readings sizes)
          × (T.sent s'.net
              ≡ T.sent s.net
                ++ (to_peers c (λ peer. c.rank % 256 ∷ []) barrier_tag
                    ++ to_partner c tag_out (flat outs sizes)))
          × (T.incoming s'.net tag_in ≡ rest)
    unfolding main_pair run_pair
    main_pair_lem off other header sizes ms rest rest' s listed sized e bars i =
        let s₀ : Machine World Float = record s { out = s.out ++ at_root c header } in
        let (w₁, ran₁, (sent₁, _, same₁)) =
          barrier_lem u T fuel enough o c ms rest' s.net off (omega arith) many sized e bars in
        let (s₂, ran₂, out₂, (sent₂, left₂, _)) =
          sizes_lem sizes rest (record s₀ { net = w₁ }) (same₁ tag_in other ∙ i) in
        (
          s₂,
          rw
              (
                on_root_lem c header s,
                ◌>>◌,
                ◌>>=◌,
                le→ltb_false c.size 2 many,
                lt→leb_false 2 c.rank pair,
                on_root-nil c s₀,
                ran₁,
                listed,
                ran₂,
              )
              refl,
          out₂,
          sent₂
              ∙ ap (λ l. l ++ to_partner c tag_out (flat outs sizes)) sent₁
              ∙ append_assoc (T.sent s.net) _ _,
          left₂,
        )

-- ===== src/Bench/Pair/Latency.antt =====
-- The programs that send one message to and fro: each of the two ranks sends what the other one waits
-- for, and the program ends.
use Prim.Native.String.{String}
use osu_micro_benchmarks_rs.Prelude.{
  ℕ, suc, ◌+◌, ◌-◌, ◌%◌, ◌≤◌, ◌<◌, ◌≡◌, ◌≢◌, refl, ◌∙◌, ap, false, List, [], ◌∷◌, ◌++◌, arith, ◌==◌,
  Bool-cases, inl, inr, length, replicate, append_assoc,
}
use osu_micro_benchmarks_rs.Rust.{ok, ◌>>=◌, ◌>>◌}
use osu_micro_benchmarks_rs.Rust.Float.{F64}
use osu_micro_benchmarks_rs.Rust.Chunks.{Sized}
use osu_micro_benchmarks_rs.Ucx.{Ucx, TagMatching}
use osu_micro_benchmarks_rs.Ucx.Openshmem.{Openshmem}
use osu_micro_benchmarks_rs.Runtime.{Context}
use osu_micro_benchmarks_rs.Runtime.Loops.{flat}
use osu_micro_benchmarks_rs.Runtime.Wait.{send_lem, recv_lem, progress_lem}
use osu_micro_benchmarks_rs.Runtime.Slots.{Exchanges-intro, to_peers}
use osu_micro_benchmarks_rs.Collective.Scalars.{barrier_tag}
use osu_micro_benchmarks_rs.Cli.{CliArgs, get_iterations, get_skip, message_sizes}
use osu_micro_benchmarks_rs.Timing.{TimingResult, new_result, add_sample}
use osu_micro_benchmarks_rs.Output.{
  Piece, BenchmarkType, print_header, print_latency_header, print_latency_row, print_newline,
}
use osu_micro_benchmarks_rs.Bench.{Machine, finished}
use osu_micro_benchmarks_rs.Bench.Blocking.Reports.{at_root, on_root_lem}
use osu_micro_benchmarks_rs.Bench.Window.Moves.{Takes-then-sends}
use osu_micro_benchmarks_rs.Bench.Pair.{
  ping_pong, timed_round, rounds, latency_size, main_ping_pong,
}
use osu_micro_benchmarks_rs.Bench.Pair.Trades.{
  to_partner, batches, steps, Turn, trade_trans, warm_lem, timed_lem,
}
use osu_micro_benchmarks_rs.Bench.Pair.Frame.{size_messages, rows, SizedBody, main_pair_lem}

-- One message of zeros.
abbrev pub zeros : ℕ → List (List ℕ)
zeros n = replicate n 0 ∷ []

module _ (u : Ucx) (T : TagMatching u) (fuel : ℕ) (enough : T.lag ≤ fuel) (c : Context)
    (pair : c.rank < 2) (many : 1 < c.size) (tag : ℕ) where
  open u use {World}

  -- One exchange, when the message to come is the one that this rank holds.
  ping_pong_lem : (z : List ℕ) → Turn u T c tag tag (ping_pong u fuel tag c) z (z ∷ []) (z ∷ [])
  unfolding ping_pong
  ping_pong_lem z rest w i = elim (Bool-cases (c.rank == 0)) [
    | inl first ↦
        let (w₁, ran₁, (s₁, i₁)) = send_lem u T fuel enough c (1 - c.rank) z tag w (omega arith) in
        let (w₂, ran₂, (i₂, s₂), _) = progress_lem u T fuel enough w₁ in
        let (w₃, ran₃, takes) =
          recv_lem u T fuel enough z tag w₂ z rest (ap (λ f. f tag) (i₂ ∙ i₁) ∙ i) refl in
        (
          w₃,
          rw (first, ran₁, ◌>>◌, ◌>>=◌, ran₂) ran₃,
          Exchanges-intro u T w w₂ w₃ _ tag rest (s₂ ∙ s₁, i₂ ∙ i₁) takes,
        )
    | inr second ↦
        let (w₁, ran₁, takes) = recv_lem u T fuel enough z tag w z rest i refl in
        let (w₂, ran₂, (s₂, i₂)) = send_lem u T fuel enough c (1 - c.rank) z tag w₁ (omega arith) in
        (
          w₂,
          rw (second, ran₁, ◌>>◌, ◌>>=◌, ran₂) refl,
          Takes-then-sends u T w w₁ w₂ _ tag rest takes s₂ i₂,
        )
  ]

  module _ (o : Openshmem World) (f : F64) (clock : ℕ → f.Float) where
    open f use {Float}

    -- The statistics of `k` readings from number `i` on.
    abbrev pub sampled : ℕ → ℕ → TimingResult Float
    sampled i k = steps (λ j r. add_sample f r (clock j)) i k (new_result f)

    -- The row of a message size, from its readings.
    abbrev pub latency_row : CliArgs → ℕ → ℕ → List (Piece Float)
    latency_row a size i =
        let r = sampled i (get_iterations a size) in
        at_root c (print_latency_row size r.avg_us r.min_us r.max_us ++ print_newline)

    timed_round_lem :
        (z : List ℕ) (r : TimingResult Float) (s : Machine World Float) (w : World)
        → ping_pong u fuel tag c z s.net ≡ ok (z, w)
        → timed_round u fuel o f clock (ping_pong u fuel tag c) (z, r) s
          ≡ ok (
            (z, add_sample f r (clock s.readings)),
            record s { net = w; readings = s.readings + 1 },
          )
    unfolding timed_round
    timed_round_lem z r s w ran = rw (ran, ◌>>=◌) refl

    size_lem :
        (a : CliArgs)
        → SizedBody u T fuel enough c pair many tag tag o f clock a
            (size_messages a zeros)
            (size_messages a zeros)
            (latency_row a)
            (latency_size u fuel o f clock (ping_pong u fuel tag c) c a)
    unfolding latency_size rounds
    size_lem a n rest s i =
        let z : List ℕ = replicate n 0 in
        let k = get_iterations a n in
        let before = batches (get_skip a n) (zeros n) in
        let timed = batches k (zeros n) in
        let (w₁, ran₁, x₁) =
          warm_lem u T c tag tag (ping_pong u fuel tag c) z (zeros n) (zeros n) (ping_pong_lem z)
            (get_skip a n) (timed ++ rest) s (i ∙ append_assoc before timed rest) in
        let (s₂, ran₂, out₂, read₂, x₂) =
          timed_lem u T c tag tag (ping_pong u fuel tag c) z (zeros n) (zeros n) (ping_pong_lem z)
            (timed_round u fuel o f clock (ping_pong u fuel tag c)) (λ r. (z, r))
            (λ j r. add_sample f r (clock j)) (timed_round_lem z) k (new_result f) rest
            (record s { net = w₁ }) x₁.1 in
        let r = sampled s.readings k in
        let row = print_latency_row n r.avg_us r.min_us r.max_us ++ print_newline in
        (
          record s₂ { out = s₂.out ++ at_root c row },
          rw (ran₁, ◌>>=◌, ran₂, on_root_lem c row s₂) refl,
          ap (λ l. l ++ at_root c row) out₂,
          read₂,
          trade_trans u T c tag tag before timed s.net w₁ s₂.net (timed ++ rest) rest x₁ x₂,
        )

    -- Rank 0 or 1 of a job of two or more, openshmem off, with a message of its barrier from each other
    -- rank, with messages of zeros to come from the other rank of the pair, one for each iteration of
    -- each size, warm-up included, and with a list of message sizes that ends. The program ends. It has
    -- sent the messages of the barrier, and then to the other rank of the pair just the messages that
    -- this one is taken to wait for. On rank 0 it prints its header and one row for each size, in
    -- order: the average, minimum and maximum of the readings of that size's timed iterations.
    pub main_ping_pong_lem :
        (off : c.openshmem_initialized ≡ false) (other : tag ≢ barrier_tag) (name : String)
        (a : CliArgs) (sizes : List ℕ) (ms rest rest' : List (List ℕ)) (s : Machine World Float)
        → message_sizes fuel a ≡ ok sizes
        → Sized 1 ms
        → suc (length ms) ≡ c.size
        → T.incoming s.net barrier_tag ≡ ms ++ rest'
        → T.incoming s.net tag ≡ flat (size_messages a zeros) sizes ++ rest
        → (s' : Machine World Float) × (main_ping_pong u fuel o f clock name tag c a s
            ≡ ok (finished, s'))
          × (s'.out
              ≡ (s.out
                  ++ at_root c (print_header name BenchmarkType.latency ++ print_latency_header))
                ++ rows a (latency_row a) s.readings sizes)
          × (T.sent s'.net
              ≡ T.sent s.net
                ++ (to_peers c (λ peer. c.rank % 256 ∷ []) barrier_tag
                    ++ to_partner c tag (flat (size_messages a zeros) sizes)))
          × (T.incoming s'.net tag ≡ rest)
    unfolding main_ping_pong
    main_ping_pong_lem off other name a =
        main_pair_lem u T fuel enough c pair many tag tag o f clock a (size_messages a zeros)
          (size_messages a zeros) (latency_row a) _ (size_lem a) off other _

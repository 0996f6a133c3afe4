-- ===== src/Bench/Pair/Bandwidth/Windows.antt =====
-- The programs that send windows one way: the sender sends what the receiver waits for, and gets its
-- acknowledgements.
use Prim.Native.String.{String}
use osu_micro_benchmarks_rs.Prelude.{
  ℕ, zero, suc, ◌-◌, ◌%◌, ◌≤◌, ◌<◌, ◌≡◌, ◌≢◌, refl, ◌∙◌, ap, subst, sym, Bool, true, false, not,
  List, [], ◌∷◌, ◌++◌, arith, ◌==◌, length, replicate, map, append_assoc, length-replicate,
}
use osu_micro_benchmarks_rs.Rust.{ok, ◌>>=◌, ◌>>◌}
use osu_micro_benchmarks_rs.Rust.Float.{F64}
use osu_micro_benchmarks_rs.Rust.Chunks.{Sized}
use osu_micro_benchmarks_rs.Ucx.{Ucx, TagMatching}
use osu_micro_benchmarks_rs.Ucx.Openshmem.{Openshmem}
use osu_micro_benchmarks_rs.Runtime.{Context}
use osu_micro_benchmarks_rs.Runtime.Loops.{flat}
use osu_micro_benchmarks_rs.Runtime.Slots.{Exchanges, to_peers}
use osu_micro_benchmarks_rs.Collective.Scalars.{barrier_tag}
use osu_micro_benchmarks_rs.Cli.{CliArgs, get_iterations, get_skip, message_sizes}
use osu_micro_benchmarks_rs.Timing.{TimingResult, new_result, add_sample}
use osu_micro_benchmarks_rs.Output.{
  Piece, BenchmarkType, print_header, print_bandwidth_header, print_bandwidth_avg, print_newline,
}
use osu_micro_benchmarks_rs.Bench.{Machine, finished, on_net, elapsed_us}
use osu_micro_benchmarks_rs.Bench.Blocking.Reports.{at_root, on_root_lem}
use osu_micro_benchmarks_rs.Bench.Window.{data_tag, ack_tag, recv_window}
use osu_micro_benchmarks_rs.Bench.Window.Moves.{send_window_lem, recv_window_lem}
use osu_micro_benchmarks_rs.Bench.Pair.Bandwidth.{
  do_bw_iteration, megabytes_per_second, bw_size, main_bw,
}
use osu_micro_benchmarks_rs.Bench.Pair.Trades.{
  to_partner, batches, steps, Turn, trade_trans, warm_lem, timed_lem,
}
use osu_micro_benchmarks_rs.Bench.Pair.Frame.{size_messages, rows, SizedBody, main_pair_lem}

-- What the sender (`true`) and the receiver (`false`) send: the tag, and the messages of an iteration.
abbrev pub bw_tag : Bool → ℕ
bw_tag true = data_tag
bw_tag false = ack_tag

abbrev pub bw_unit : ℕ → Bool → ℕ → List (List ℕ)
bw_unit window true n = replicate window (replicate n 0)
bw_unit window false n = (0 ∷ []) ∷ []

bw_tag-ne_barrier : (b : Bool) → bw_tag b ≢ barrier_tag
bw_tag-ne_barrier true = omega arith
bw_tag-ne_barrier false = omega arith

replicate-Sized : (k : ℕ) (m : List ℕ) (n : ℕ) → length m ≡ n → Sized n (replicate k m)
replicate-Sized zero m n e = tt
replicate-Sized (suc k) m n e = (e, replicate-Sized k m n e)

map-replicate :
    {A B : Type 0} (f : A → B) (n : ℕ) (x : A) → map f (replicate n x) ≡ replicate n (f x)
map-replicate f zero x = refl
map-replicate f (suc n) x = ap (λ l. f x ∷ l) (map-replicate f n x)

module _ (u : Ucx) (T : TagMatching u) (fuel : ℕ) (enough : T.lag ≤ fuel) (c : Context)
    (pair : c.rank < 2) (many : 1 < c.size) where
  open u use {World}

  -- An iteration of the sender, and one of the receiver.
  do_bw_iteration-Turn :
      (window n : ℕ) (b : Bool)
      → (c.rank == 0) ≡ b
      → Turn u T c
          (bw_tag (not b))
          (bw_tag b)
          (λ (x : Unit {0}). do_bw_iteration u fuel c (replicate n 0) n window)
          tt
          (bw_unit window (not b) n)
          (bw_unit window b n)
  unfolding do_bw_iteration
  do_bw_iteration-Turn window n true e rest w i =
      let (w', ran, x) =
        send_window_lem u T fuel enough c (1 - c.rank) (replicate n 0) window (0 ∷ []) rest w
          (omega arith) i (omega arith) in
      (
        w',
        rw e ran,
        subst (λ l. Exchanges u T w l ack_tag rest w') (sym (map-replicate _ window _)) x,
      )
  do_bw_iteration-Turn window n false e rest w i =
      let z : List ℕ = replicate n 0 in
      let (w', ran, x) =
        recv_window_lem u T fuel enough c (1 - c.rank) n (replicate window z) rest w (omega arith) i
          (replicate-Sized window z n (length-replicate {0} n 0)) in
      (
        w',
        rw e (
            subst (λ (k : ℕ). recv_window u fuel c (1 - c.rank) n k w ≡ ok (tt, w'))
              (length-replicate {0} window z) ran),
        x,
      )

  module _ (o : Openshmem World) (f : F64) (clock : ℕ → f.Float) where
    open f use {Float, mul_f64, of_usize}

    -- The statistics of `k` readings from number `i` on.
    abbrev pub sampled : ℕ → ℕ → TimingResult Float
    sampled i k = steps (λ j r. add_sample f r (clock j)) i k (new_result f)

    -- The row of a message size: all bytes of the timed iterations over the sum of their readings.
    abbrev pub bw_row : CliArgs → ℕ → ℕ → List (Piece Float)
    bw_row a size i =
        let k = get_iterations a size in
        let bytes = mul_f64 (mul_f64 (of_usize size) (of_usize a.window_size)) (of_usize k) in
        at_root c (
          print_bandwidth_avg size
            (megabytes_per_second u fuel o f clock bytes (sampled i k).total_us)
          ++ print_newline)

    size_lem :
        (a : CliArgs) (b : Bool)
        → (c.rank == 0) ≡ b
        → SizedBody u T fuel enough c pair many
            (bw_tag (not b))
            (bw_tag b)
            o
            f
            clock
            a
            (size_messages a (bw_unit a.window_size (not b)))
            (size_messages a (bw_unit a.window_size b))
            (bw_row a)
            (bw_size u fuel o f clock c a)
    unfolding bw_size
    size_lem a b e n rest s i =
        let k = get_iterations a n in
        let unit_in = bw_unit a.window_size (not b) n in
        let unit_out = bw_unit a.window_size b n in
        let turn = do_bw_iteration u fuel c (replicate n 0) n a.window_size in
        let trades = do_bw_iteration-Turn a.window_size n b e in
        let (w₁, ran₁, x₁) =
          warm_lem u T c (bw_tag (not b)) (bw_tag b) (λ (x : Unit {0}). turn) tt unit_in unit_out
            trades (get_skip a n) (batches k unit_in ++ rest) s
            (i ∙ append_assoc (batches (get_skip a n) unit_in) (batches k unit_in) rest) in
        let (s₂, ran₂, out₂, read₂, x₂) =
          timed_lem u T c (bw_tag (not b)) (bw_tag b) (λ (x : Unit {0}). turn) tt unit_in unit_out
            trades (λ r. on_net turn >> (elapsed_us clock >>= λ us m. ok (add_sample f r us, m)))
            (λ r. r) (λ j r. add_sample f r (clock j)) (λ r m w ran. rw (ran, ◌>>◌, ◌>>=◌) refl) k
            (new_result f) rest (record s { net = w₁ }) x₁.1 in
        let bytes = mul_f64 (mul_f64 (of_usize n) (of_usize a.window_size)) (of_usize k) in
        let row =
          print_bandwidth_avg n
            (megabytes_per_second u fuel o f clock bytes (sampled s.readings k).total_us)
          ++ print_newline in
        (
          record s₂ { out = s₂.out ++ at_root c row },
          rw (ran₁, ◌>>◌, ◌>>=◌, ran₂, on_root_lem c row s₂) refl,
          ap (λ l. l ++ at_root c row) out₂,
          read₂,
          trade_trans u T c (bw_tag (not b)) (bw_tag b) (batches (get_skip a n) unit_out)
              (batches k unit_out) s.net w₁ s₂.net (batches k unit_in ++ rest) rest x₁ x₂,
        )

    -- Rank 0 or 1 of a job of two or more, openshmem off, with a message of its barrier from each other
    -- rank, with the messages that its partner sends in all iterations of all sizes, warm-up included
    -- (windows of zeros from rank 0, and one byte for each window from rank 1), and with a list of
    -- message sizes that ends. The program ends. It has sent the messages of the barrier, and then to
    -- its partner just what that one is taken to wait for. On rank 0 it prints its header and one row
    -- for each size, in order: the megabytes in a second, from the bytes of the timed iterations and
    -- the sum of their readings.
    pub main_bw_lem :
        (off : c.openshmem_initialized ≡ false) (name : String) (a : CliArgs) (sizes : List ℕ)
        (ms rest rest' : List (List ℕ)) (s : Machine World Float)
        → message_sizes fuel a ≡ ok sizes
        → Sized 1 ms
        → suc (length ms) ≡ c.size
        → T.incoming s.net barrier_tag ≡ ms ++ rest'
        → T.incoming s.net (bw_tag (not (c.rank == 0)))
          ≡ flat (size_messages a (bw_unit a.window_size (not (c.rank == 0)))) sizes ++ rest
        → (s' : Machine World Float) × (main_bw u fuel o f clock name c a s ≡ ok (finished, s'))
          × (s'.out
              ≡ (s.out
                  ++ at_root c
                      (print_header name BenchmarkType.bandwidth ++ print_bandwidth_header))
                ++ rows a (bw_row a) s.readings sizes)
          × (T.sent s'.net
              ≡ T.sent s.net
                ++ (to_peers c (λ peer. c.rank % 256 ∷ []) barrier_tag
                    ++ to_partner c
                        (bw_tag (c.rank == 0))
                        (flat (size_messages a (bw_unit a.window_size (c.rank == 0))) sizes)))
          × (T.incoming s'.net (bw_tag (not (c.rank == 0))) ≡ rest)
    unfolding main_bw
    main_bw_lem off name a =
        main_pair_lem u T fuel enough c pair many (bw_tag (not (c.rank == 0)))
          (bw_tag (c.rank == 0)) o f clock a _ _ (bw_row a) _ (size_lem a (c.rank == 0) refl) off
          (bw_tag-ne_barrier (not (c.rank == 0))) _

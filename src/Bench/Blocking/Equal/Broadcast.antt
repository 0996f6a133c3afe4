-- ===== src/Bench/Blocking/Equal/Broadcast.antt =====
-- The broadcast program on its root.
use osu_micro_benchmarks_rs.Prelude.{
  ℕ, suc, ◌+◌, ◌%◌, ◌≤◌, ◌<◌, ◌≡◌, refl, ◌∙◌, sym, ap, false, List, [], ◌∷◌, ◌++◌, arith, length,
  replicate, min, drop, length-append, length-replicate, length-drop,
}
use osu_micro_benchmarks_rs.Rust.{ok, ◌>>=◌}
use osu_micro_benchmarks_rs.Rust.Float.{F64}
use osu_micro_benchmarks_rs.Ucx.{Ucx, TagMatching}
use osu_micro_benchmarks_rs.Ucx.Openshmem.{Openshmem}
use osu_micro_benchmarks_rs.Runtime.{Context}
use osu_micro_benchmarks_rs.Collective.Equal.{bcast}
use osu_micro_benchmarks_rs.Collective.Equal.Rooted.{bcast_root_lem}
use osu_micro_benchmarks_rs.Cli.{CliArgs, message_sizes}
use osu_micro_benchmarks_rs.Cli.Sizes.{Within, message_sizes-Within}
use osu_micro_benchmarks_rs.Output.{BenchmarkType, print_header, print_latency_header}
use osu_micro_benchmarks_rs.Bench.{Machine, finished}
use osu_micro_benchmarks_rs.Bench.Stock.{Arrivals, Stocked}
use osu_micro_benchmarks_rs.Bench.Blocking.Frame.{Sends}
use osu_micro_benchmarks_rs.Bench.Blocking.Reports.{at_root}
use osu_micro_benchmarks_rs.Bench.Blocking.Sweeping.{rows, barriers, Fit}
use osu_micro_benchmarks_rs.Bench.Blocking.Mains.{main_latency_lem}
use osu_micro_benchmarks_rs.Bench.Blocking.{
  Program, fill_prefix, fill_rank, receives, report_latency,
}
use osu_micro_benchmarks_rs.Bench.Blocking.Equal.{osu_bcast}

length-fill_prefix : (n v : ℕ) (buf : List ℕ) → length (fill_prefix n v buf) ≡ length buf
unfolding fill_prefix
length-fill_prefix n v buf = omega (
  arith,
  length-append {0} (replicate (min n (length buf)) v) (drop n buf),
  length-replicate {0} (min n (length buf)) v,
  length-drop {0} n buf,
)

module _ (u : Ucx) (T : TagMatching u) (fuel : ℕ) (enough : T.lag ≤ fuel) (c : Context)
    (h : c.rank < c.size) (many : 1 < c.size) (o : Openshmem u.World)
    (off : c.openshmem_initialized ≡ false) (f : F64) (clock : ℕ → f.Float)
    (root : c.rank ≡ 0) where
  open u use {World}
  open f use {Float}

  fill_rank_lem :
      (size : ℕ) (buf : List ℕ) (m : Machine World Float)
      → (buf' : List ℕ) × (fill_rank u f c size buf m ≡ ok (buf', m)) × (length buf' ≡ length buf)
  unfolding fill_rank
  fill_rank_lem size buf m =
      (fill_prefix size ((c.rank + 1) % 256) buf, refl, length-fill_prefix size _ buf)

  bcast_sends :
      (size : ℕ)
      → Sends u T fuel enough c h many o off f clock
          (receives (λ send recv. bcast u fuel o c send recv 0))
          size
          size
  unfolding receives
  bcast_sends size bufs w lm ln =
      let (w', ran, (sent, same)) =
        bcast_root_lem u T fuel enough o c bufs.0 bufs.1 w off many (lm ∙ sym ln) in
      let ran₀ : bcast u fuel o c bufs.0 bufs.1 0 w ≡ ok (bufs.0, w') =
        ap (λ (k : ℕ). bcast u fuel o c bufs.0 bufs.1 k w) (sym root) ∙ ran in
      ((bufs.0, bufs.0), w', rw (ran₀, ◌>>=◌) refl, same, lm, lm)

  abbrev bcast_program : CliArgs → Program u fuel o f clock
  bcast_program a = record {
    buffers = (replicate a.max_message_size 0, replicate a.max_message_size 0);
    skips = λ size. false;
    fill = fill_rank u f c;
    send_part = λ size. size;
    recv_part = λ size. size;
    call = λ size. receives (λ send recv. bcast u fuel o c send recv 0);
    report = report_latency u fuel o f clock c;
  }

  Within-Fit :
      (a : CliArgs) (m n : ℕ) (sizes : List ℕ)
      → m ≡ a.max_message_size
      → n ≡ a.max_message_size
      → Within a.max_message_size sizes
      → Fit u T fuel enough c h many o off f clock
          (bcast_program a)
          fill_rank_lem
          bcast_sends
          refl
          (λ size. refl)
          m
          n
          sizes
  Within-Fit a m n [] em en w = tt
  Within-Fit a m n (x ∷ xs) em en w = (omega arith, omega arith, Within-Fit a m n xs em en w.1)

  -- On rank 0 of a job of two or more, openshmem off, with a list of message sizes that ends. For the
  -- barriers (one at the start and one for each iteration, warm-up included) and for the reductions of
  -- each report a message of each peer is incoming; `q` has those of the minimum, the maximum and the
  -- sum, in the order of their arrival. Then the broadcast program ends. It prints its header and then
  -- one row for each message size, in order: the sum divided by the number of ranks, the minimum and
  -- the maximum of the mean of the own readings of that size's timed iterations and of the values in
  -- the next message of each peer, the first ones for the first size.
  pub osu_bcast_root_lem :
      (a : CliArgs) (sizes : List ℕ) (q : Arrivals) (s : Machine World Float)
      → message_sizes fuel a ≡ ok sizes
      → Stocked u T c.size
          (suc (barriers u T fuel enough c h many o off f clock a sizes))
          (length sizes)
          q
          s.net
      → (s' : Machine World Float) × (osu_bcast u fuel o f clock c a s ≡ ok (finished, s'))
        × (s'.out
            ≡ (s.out
                ++ at_root c (
                    print_header "Bcast Latency" BenchmarkType.collective_latency
                    ++ print_latency_header))
              ++ rows u T fuel enough c h many o off f clock a s.readings q sizes)
  unfolding osu_bcast
  osu_bcast_root_lem a sizes q s listed stocked =
      main_latency_lem u T fuel enough c h many o off f clock "Bcast Latency"
        BenchmarkType.collective_latency (bcast_program a) fill_rank_lem bcast_sends refl
        (λ size. refl) a sizes q s listed
        (Within-Fit a _ _ sizes (length-replicate {0} a.max_message_size 0)
          (length-replicate {0} a.max_message_size 0) (message_sizes-Within fuel a sizes listed))
        stocked

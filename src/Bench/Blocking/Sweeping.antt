-- ===== src/Bench/Blocking/Sweeping.antt =====
-- A sweep whose call takes no message of its own ends, and prints one row for each message size.
use osu_micro_benchmarks_rs.Prelude.{
  ℕ, suc, ◌+◌, ◌-◌, ◌≤◌, ◌<◌, ◌≡◌, refl, ◌∙◌, sym, ap, ap₂, false, List, [], ◌∷◌, ◌++◌, arith,
  length, take, drop, length-append, length-take, length-drop, append_assoc, append-nil,
}
use osu_micro_benchmarks_rs.Rust.{ok, ◌>>=◌, ◌>>◌, >>=-ok}
use osu_micro_benchmarks_rs.Rust.Float.{F64}
use osu_micro_benchmarks_rs.Rust.Slice.{slice, copy_at}
use osu_micro_benchmarks_rs.Rust.Chunks.{slice_lem, copy_at_lem}
use osu_micro_benchmarks_rs.Ucx.{Ucx, TagMatching}
use osu_micro_benchmarks_rs.Ucx.Openshmem.{Openshmem}
use osu_micro_benchmarks_rs.Runtime.{Context}
use osu_micro_benchmarks_rs.Cli.{CliArgs, get_iterations, get_skip}
use osu_micro_benchmarks_rs.Output.{Piece, print_latency_row}
use osu_micro_benchmarks_rs.Bench.{Machine, for_all}
use osu_micro_benchmarks_rs.Bench.Stock.{Arrivals, later, Stocked}
use osu_micro_benchmarks_rs.Bench.Blocking.Frame.{Sends, added, warm_lem, timed_lem}
use osu_micro_benchmarks_rs.Bench.Blocking.Reports.{reported, report_latency_lem}
use osu_micro_benchmarks_rs.Bench.Blocking.{Buffers, Program, report_latency, sweep_size}

-- A prefix of a buffer, and writing it back.
slice_prefix :
    (buf : List ℕ) (k : ℕ)
    → k ≤ length buf
    → (slice buf 0 k ≡ ok (take k buf)) × (length (take k buf) ≡ k)
slice_prefix buf k h =
    let e : k - 0 ≡ k = omega arith in
    (
      slice_lem buf 0 k (omega arith) h ∙ ap (λ (j : ℕ). ok (take j buf)) e,
      omega (arith, length-take {0} k buf),
    )

copy_prefix :
    (buf src : List ℕ) (k : ℕ)
    → k ≤ length buf
    → length src ≡ k
    → (copy_at buf 0 k src ≡ ok (src ++ drop k buf)) × (length (src ++ drop k buf) ≡ length buf)
copy_prefix buf src k h e = (
  copy_at_lem buf 0 k src (omega arith) h (omega arith),
  omega (arith, length-append {0} src (drop k buf), length-drop {0} k buf),
)

module _ (u : Ucx) (T : TagMatching u) (fuel : ℕ) (enough : T.lag ≤ fuel) (c : Context)
    (h : c.rank < c.size) (many : 1 < c.size) (o : Openshmem u.World)
    (off : c.openshmem_initialized ≡ false) (f : F64) (clock : ℕ → f.Float) where
  open u use {World}
  open f use {Float, add_f64, div_f64, of_usize, zero_f64}

  -- The row for one message size: the mean of `k` readings from number `i` on, reduced over the ranks.
  abbrev pub size_row : ℕ → ℕ → ℕ → Arrivals → List (Piece Float)
  size_row size i k q =
      reported u T fuel enough c h many o f clock print_latency_row size
        (div_f64 (added u T fuel enough c h many o off f clock zero_f64 i k) (of_usize k)) q

  -- One row for each size, in order, over readings and messages that follow one another.
  abbrev pub rows : CliArgs → ℕ → Arrivals → List ℕ → List (Piece Float)
  rows a i q [] = []
  rows a i q (n ∷ ns) =
      size_row n i (get_iterations a n) q ++ rows a (i + get_iterations a n) (later c.size q) ns

  -- The barriers of the loop: one for each iteration.
  abbrev pub barriers : CliArgs → List ℕ → ℕ
  barriers a [] = 0
  barriers a (n ∷ ns) = get_skip a n + (get_iterations a n + barriers a ns)

  module _ (p : Program u fuel o f clock)
      (fills : (size : ℕ) (buf : List ℕ) (m : Machine World Float)
        → (buf' : List ℕ) × (p.fill size buf m ≡ ok (buf', m)) × (length buf' ≡ length buf))
      (sends : (size : ℕ)
        → Sends u T fuel enough c h many o off f clock
            (p.call size)
            (p.send_part size)
            (p.recv_part size))
      (reports : p.report ≡ report_latency u fuel o f clock c)
      (all_sizes : (size : ℕ) → p.skips size ≡ false) where
    sweep_size_lem :
        (a : CliArgs) (size b r : ℕ) (q : Arrivals) (bufs : Buffers) (s : Machine World Float)
        → p.send_part size ≤ length bufs.0
        → p.recv_part size ≤ length bufs.1
        → Stocked u T c.size (get_skip a size + (get_iterations a size + b)) (suc r) q s.net
        → (bufs' : Buffers) × (s' : Machine World Float) × (sweep_size u fuel o f clock p c a size
              bufs s
            ≡ ok (bufs', s'))
          × (s'.out ≡ s.out ++ size_row size s.readings (get_iterations a size) q)
          × (s'.readings ≡ s.readings + get_iterations a size)
          × (length bufs'.0 ≡ length bufs.0)
          × (length bufs'.1 ≡ length bufs.1)
          × Stocked u T c.size b r (later c.size q) s'.net
    unfolding sweep_size
    sweep_size_lem a size b r q bufs s fit₀ fit₁ stocked =
        let k = get_iterations a size in
        let m = p.send_part size in
        let n = p.recv_part size in
        let (buf, filled, len) = fills size bufs.0 s in
        let fit : m ≤ length buf = omega arith in
        let (send, ls) = slice_prefix buf m fit in
        let (recv, lr) = slice_prefix bufs.1 n fit₁ in
        let (bufs₁, w₁, ran₁, lm₁, ln₁, left₁) =
          warm_lem u T fuel enough c h many o off f clock (p.call size) m n (sends size)
            (get_skip a size) (k + b) (suc r) q (take m buf, take n bufs.1) s ls lr stocked in
        let (bufs₂, s₂, ran₂, out₂, read₂, lm₂, ln₂, left₂) =
          timed_lem u T fuel enough c h many o off f clock (p.call size) m n (sends size) k b
            (suc r) q bufs₁ zero_f64 (record s { net = w₁ }) lm₁ ln₁ left₁ in
        let timer = added u T fuel enough c h many o off f clock zero_f64 s.readings k in
        let (w₃, ran₃, left₃) =
          report_latency_lem u T fuel enough c h many o f clock size k timer b r q s₂ left₂ in
        let (back₀, l₀) = copy_prefix buf bufs₂.0 m fit lm₂ in
        let (back₁, l₁) = copy_prefix bufs.1 bufs₂.1 n fit₁ ln₂ in
        let row = size_row size s.readings k q in
        (
          (bufs₂.0 ++ drop m buf, bufs₂.1 ++ drop n bufs.1),
          record s₂ { net = w₃; out = s₂.out ++ row },
          rw
              (
                all_sizes size,
                filled,
                ◌>>=◌,
                send,
                recv,
                ran₁,
                ran₂,
                reports,
                ran₃,
                ◌>>◌,
                back₀,
                back₁,
              )
              refl,
          ap (λ l. l ++ row) out₂,
          read₂,
          l₀ ∙ len,
          l₁,
          left₃,
        )

    -- All sizes fit into the buffers.
    abbrev pub Fit : ℕ → ℕ → List ℕ → Type 0
    Fit m n [] = Unit
    Fit m n (x ∷ xs) = (p.send_part x ≤ m) × (p.recv_part x ≤ n) × Fit m n xs

    pub sweep_all_lem :
        (a : CliArgs) (sizes : List ℕ) (m n : ℕ) (q : Arrivals) (bufs : Buffers)
        (s : Machine World Float)
        → Fit m n sizes
        → length bufs.0 ≡ m
        → length bufs.1 ≡ n
        → Stocked u T c.size (barriers a sizes) (length sizes) q s.net
        → (bufs' : Buffers) × (s' : Machine World Float) × (for_all sizes
              (sweep_size u fuel o f clock p c a)
              bufs
              s
            ≡ ok (bufs', s'))
          × (s'.out ≡ s.out ++ rows a s.readings q sizes)
    unfolding for_all
    sweep_all_lem a [] m n q bufs s fit lm ln stocked = (bufs, s, refl, sym (append-nil s.out))
    sweep_all_lem a (x ∷ xs) m n q bufs s fit lm ln stocked =
        let (bufs₁, s₁, ran₁, out₁, read₁, l₀, l₁, left₁) =
          sweep_size_lem a x (barriers a xs) (length xs) q bufs s (omega arith) (omega arith)
            stocked in
        let (bufs₂, s₂, ran₂, out₂) =
          sweep_all_lem a xs m n (later c.size q) bufs₁ s₁ fit.2 (l₀ ∙ lm) (l₁ ∙ ln) left₁ in
        let row = size_row x s.readings (get_iterations a x) q in
        (
          bufs₂,
          s₂,
          >>=-ok (sweep_size u fuel o f clock p c a x bufs) _ s ran₁ ∙ ran₂,
          out₂
              ∙ ap₂ (λ l (i : ℕ). l ++ rows a i (later c.size q) xs) out₁ read₁
              ∙ append_assoc s.out row _,
        )

-- ===== src/Bench/Blocking/Reports.antt =====
-- What a report prints: one row on rank 0, with the reductions over all ranks.
use osu_micro_benchmarks_rs.Prelude.{
  ℕ, suc, ◌≤◌, ◌<◌, ◌≡◌, refl, List, [], ◌++◌, ◌==◌, inl, inr, Bool-cases, if◌then◌else◌, foldl,
  append-nil,
}
use osu_micro_benchmarks_rs.Rust.{ok, ◌>>=◌}
use osu_micro_benchmarks_rs.Rust.Float.{F64}
use osu_micro_benchmarks_rs.Ucx.{Ucx, TagMatching}
use osu_micro_benchmarks_rs.Ucx.Openshmem.{Openshmem}
use osu_micro_benchmarks_rs.Runtime.{Context}
use osu_micro_benchmarks_rs.Collective.Scalars.Exchanged.{floats}
use osu_micro_benchmarks_rs.Output.{Piece, print_newline, print_latency_row}
use osu_micro_benchmarks_rs.Bench.{Machine, on_root}
use osu_micro_benchmarks_rs.Bench.Stock.{Arrivals, batch, later, Stocked, reductions-Stocked}
use osu_micro_benchmarks_rs.Bench.Blocking.{report_all, report_latency}

-- What rank 0 prints and the other ranks do not.
abbrev pub at_root : {F : Type 0} → Context → List (Piece F) → List (Piece F)
at_root c pieces = if c.rank == 0 then pieces else []

pub on_root_lem :
    {W F : Type 0} (c : Context) (pieces : List (Piece F)) (s : Machine W F)
    → on_root c pieces s ≡ ok (tt, record s { out = s.out ++ at_root c pieces })
on_root_lem c pieces s = elim (Bool-cases (c.rank == 0)) [
  | inl root ↦ rw root refl
  | inr other ↦ rw (other, append-nil) refl
]

module _ (u : Ucx) (T : TagMatching u) (fuel : ℕ) (enough : T.lag ≤ fuel) (c : Context)
    (h : c.rank < c.size) (many : 1 < c.size) (o : Openshmem u.World) (f : F64)
    (clock : ℕ → f.Float) where
  open u use {World}
  open f use {Float, min_f64, max_f64, add_f64, div_f64, of_usize, infinity, neg_infinity, zero_f64}

  -- The row of a report: the reductions of the own value and of the first message of each peer.
  abbrev pub reported :
      (ℕ → Float → Float → Float → List (Piece Float)) → ℕ → Float → Arrivals → List (Piece Float)
  reported row size value q = at_root c (
      row size
        (div_f64 (foldl add_f64 zero_f64 (floats c f value (batch c.size q.total)))
          (of_usize c.size))
        (foldl min_f64 infinity (floats c f value (batch c.size q.low)))
        (foldl max_f64 neg_infinity (floats c f value (batch c.size q.high)))
      ++ print_newline)

  pub report_all_lem :
      (row : ℕ → Float → Float → Float → List (Piece Float)) (size : ℕ) (value : Float) (b r : ℕ)
      (q : Arrivals) (s : Machine World Float)
      → Stocked u T c.size b (suc r) q s.net
      → (w : World) × (report_all u fuel o f clock row c size value s
          ≡ ok (tt, record s { net = w; out = s.out ++ reported row size value q }))
        × Stocked u T c.size b r (later c.size q) w
  unfolding report_all
  report_all_lem row size value b r q s stocked =
      let (w₁, w₂, w₃, low, high, total, left) =
        reductions-Stocked u T fuel enough c h many f value b r q s.net stocked in
      (w₃, rw (low, high, total, ◌>>=◌) (on_root_lem c _ (record s { net = w₃ })), left)

  pub report_latency_lem :
      (size iterations : ℕ) (timer : Float) (b r : ℕ) (q : Arrivals) (s : Machine World Float)
      → Stocked u T c.size b (suc r) q s.net
      → (w : World) × (report_latency u fuel o f clock c size iterations timer s
          ≡ ok (
            tt,
            record s {
              net = w;
              out =
                  s.out ++ reported print_latency_row size (div_f64 timer (of_usize iterations)) q;
            },
          ))
        × Stocked u T c.size b r (later c.size q) w
  unfolding report_latency
  report_latency_lem size iterations timer b r q s stocked =
      report_all_lem print_latency_row size (div_f64 timer (of_usize iterations)) b r q s stocked

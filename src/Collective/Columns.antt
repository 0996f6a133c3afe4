-- ===== src/Collective/Columns.antt =====
-- common/src/runtime/collective_blocking.rs: the byte sums over the gathered buffers of all ranks.
pub mod Sums
use osu_micro_benchmarks_rs.Prelude.{
  ℕ, ◌+◌, ◌*◌, ◌%◌, Option, none, some, List, [], ◌∷◌, get_elem?, range,
}
use osu_micro_benchmarks_rs.Rust.{Outcome, ok, panic, spin}

-- `v[i]`
abbrev pub get_at : List ℕ → ℕ → Outcome ℕ
get_at xs i = elim (get_elem? xs i) [ some x ↦ ok x | none ↦ panic ]

-- `for peer in peers { sum += gathered[peer * stride + i] as … }`; `wrap` is the width of the sum.
pub column_sum : (ℕ → ℕ) → List ℕ → ℕ → ℕ → List ℕ → ℕ → Outcome ℕ
column_sum wrap gathered stride i [] acc = ok acc
column_sum wrap gathered stride i (r ∷ rs) acc = elim (get_at gathered (r * stride + i)) [
  | ok x ↦ column_sum wrap gathered stride i rs (wrap (acc + x))
  | panic ↦ panic
  | spin ↦ spin
]

-- The bytes `(sum % 256) as u8` for each index of a list.
pub sum_bytes : (ℕ → ℕ) → List ℕ → ℕ → ℕ → List ℕ → Outcome (List ℕ)
sum_bytes wrap gathered stride size [] = ok []
sum_bytes wrap gathered stride size (i ∷ is) =
    elim (column_sum wrap gathered stride i (range 0 size) 0) [
      | ok s ↦ elim (sum_bytes wrap gathered stride size is) [
        | ok bs ↦ ok (s % 256 ∷ bs)
        | panic ↦ panic
        | spin ↦ spin
      ]
      | panic ↦ panic
      | spin ↦ spin
    ]

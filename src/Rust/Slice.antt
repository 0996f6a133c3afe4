-- ===== src/Rust/Slice.antt =====
-- Slices of bytes: `buf[a..b]` and `buf[a..b].copy_from_slice(src)`, with the panics of both.
use osu_micro_benchmarks_rs.Prelude.{
  ℕ, ◌+◌, ◌-◌, ◌&&◌, List, ◌++◌, leb, ◌==◌, if◌then◌else◌, length, take, drop,
}
use osu_micro_benchmarks_rs.Rust.{Outcome, ok, panic, spin}

-- `&buf[a..b]`
unfoldable pub slice : List ℕ → ℕ → ℕ → Outcome (List ℕ)
slice buf a b = if leb a b && leb b (length buf) then ok (take (b - a) (drop a buf)) else panic

-- `buf[a..b].copy_from_slice(src)`: the new value of `buf`.
unfoldable pub copy_at : List ℕ → ℕ → ℕ → List ℕ → Outcome (List ℕ)
copy_at buf a b src =
    if leb a b && leb b (length buf) && (length src == b - a)
    then ok (take a buf ++ src ++ drop b buf)
    else panic

-- `buf.copy_from_slice(src)`
unfoldable pub copy_from_slice : List ℕ → List ℕ → Outcome (List ℕ)
copy_from_slice buf src = if length src == length buf then ok src else panic

-- `dst[d..d + k].copy_from_slice(&src[s..s + k])`
abbrev pub move_bytes : List ℕ → ℕ → List ℕ → ℕ → ℕ → Outcome (List ℕ)
move_bytes dst d src s k = elim (slice src s (s + k)) [
  | ok piece ↦ copy_at dst d (d + k) piece
  | panic ↦ panic
  | spin ↦ spin
]

-- The same behind the test that both slices lie in their buffers.
abbrev pub move_if_fits : List ℕ → ℕ → List ℕ → ℕ → ℕ → Outcome (List ℕ)
move_if_fits dst d src s k =
    if leb (s + k) (length src) && leb (d + k) (length dst)
    then move_bytes dst d src s k
    else ok dst

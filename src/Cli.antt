-- ===== src/Cli.antt =====
-- common/src/cli.rs: the numeric arguments, the backend flags, and the list of message sizes.
pub mod Sizes
use osu_micro_benchmarks_rs.Prelude.{
  ℕ, zero, suc, ◌+◌, ◌*◌, ◌%◌, ◌^◌, Bool, true, false, Option, none, some, List, [], ◌∷◌, leb, ◌==◌,
  if◌then◌else◌,
}
use osu_micro_benchmarks_rs.Rust.{Outcome, ok, panic, spin}

abbrev pub large_message_size : ℕ
large_message_size = 8192

-- The arguments that the modelled code reads.
pub record CliArgs : Type 0 where
  pub min_message_size : ℕ
  pub max_message_size : ℕ
  pub iterations : ℕ
  pub message_size_incr : ℕ
  pub skip : ℕ
  pub window_size : ℕ
  pub ucc : Bool
  pub no_ucc : Bool

abbrev pub default_args : CliArgs
default_args = record {
  min_message_size = 1;
  max_message_size = 1_048_576;
  iterations = 10_000;
  message_size_incr = 2;
  skip = 100;
  window_size = 64;
  ucc = false;
  no_ucc = false;
}

-- `true` forces UCC, `false` forbids it, `none` leaves it to the context.
pub ucc_backend : CliArgs → Option Bool
ucc_backend a = if a.ucc then some true else if a.no_ucc then some false else none

unfoldable pub get_iterations : CliArgs → ℕ → ℕ
get_iterations a msg_size = a.iterations

unfoldable pub get_skip : CliArgs → ℕ → ℕ
get_skip a msg_size = a.skip

-- The size after `size`; `usize` has 64 bits and wraps in the release build.
unfoldable pub next_size : ℕ → ℕ → ℕ
next_size incr size =
    if size == 0
    then 1
    else if leb size large_message_size
    then (size * incr) % 2 ^ 64
    else (size + incr) % 2 ^ 64

-- `while size <= max { sizes.push(size); … }`, by rounds.
unfoldable pub sizes_from : ℕ → ℕ → ℕ → ℕ → Outcome (List ℕ)
unfolding next_size
sizes_from zero incr max size = spin
sizes_from (suc n) incr max size = elim (leb size max) [
  | true ↦ elim (sizes_from n incr max (next_size incr size)) [
    | ok sizes ↦ ok (size ∷ sizes)
    | panic ↦ panic
    | spin ↦ spin
  ]
  | false ↦ ok []
]

unfoldable pub message_sizes : ℕ → CliArgs → Outcome (List ℕ)
unfolding sizes_from
message_sizes fuel a = sizes_from fuel a.message_size_incr a.max_message_size a.min_message_size

-- ===== src/Tests/Sizes.antt =====
-- Lists of message sizes.
use osu_micro_benchmarks_rs.Prelude.{◌+◌, ◌*◌, ℕ, ◌≤◌, ◌<◌, ◌≡◌, refl, List, ◌∷◌, arith}
use osu_micro_benchmarks_rs.Rust.{ok, spin}
use osu_micro_benchmarks_rs.Cli.{CliArgs, default_args, message_sizes, sizes_from}
use osu_micro_benchmarks_rs.Cli.Sizes.{
  Grows, Rises, message_sizes_rise, message_sizes_never_end, evenly, sizes_from_linear,
}

abbrev small_args : CliArgs
small_args = record default_args { max_message_size = 8 }

abbrev small_grows : Grows 2 8
small_grows = record {
  at_least_two = omega arith;
  no_wrap_product = omega arith;
  no_wrap_sum = omega arith;
}

abbrev large_grows : Grows 2 8200
large_grows = record {
  at_least_two = omega arith;
  no_wrap_product = omega arith;
  no_wrap_sum = omega arith;
}

message_sizes_rise_example :
    (rest : List ℕ) × (message_sizes 10 small_args ≡ ok (1 ∷ rest)) × Rises 8 1 (1 ∷ rest)
message_sizes_rise_example =
    message_sizes_rise small_args 10 small_grows (omega arith) (omega arith)

message_sizes_never_end_example :
    message_sizes 50 (record default_args { message_size_incr = 1 }) ≡ spin
message_sizes_never_end_example =
    message_sizes_never_end (record default_args { message_size_incr = 1 }) 50 refl (omega arith)
      (omega arith) (omega arith)

sizes_from_linear_example :
    (k : ℕ) × (sizes_from 6 2 8200 8196 ≡ ok (evenly 2 8196 k))
    × (8200 < 8196 + k * 2)
    × (8196 + k * 2 ≤ 8202)
sizes_from_linear_example =
    sizes_from_linear 2 8200 6 8196 large_grows (omega arith) (omega arith) (omega arith)

-- ===== src/Tests/Floats.antt =====
-- Runs of the reductions of floats and of the timing results, with two floats only.
use osu_micro_benchmarks_rs.Prelude.{
  foldl, ℕ, ◌<◌, ◌^◌, ◌≡◌, refl, Bool, true, false, ◌&&◌, ◌||◌, [], ◌∷◌, ◌++◌, map, arith, not,
  ◌==◌,
}
use mathlib.Core.List.Permᴰ
use osu_micro_benchmarks_rs.Rust.{ok}
use osu_micro_benchmarks_rs.Rust.Bytes.{to_le_bytes}
use osu_micro_benchmarks_rs.Rust.Float.{F64, F64Laws}
use osu_micro_benchmarks_rs.Ucx.Mailbox.{Boxes, mailbox, mailbox_matching}
use osu_micro_benchmarks_rs.Runtime.Slots.{to_peers, Exchanges}
use osu_micro_benchmarks_rs.Collective.Scalars.{
  allreduce_min_f64, allreduce_max_f64, allreduce_sum_f64, min_tag, max_tag, sum_tag,
  reduce_u64_tag,
}
use osu_micro_benchmarks_rs.Collective.Scalars.Floats.{
  allreduce_max_f64_lem, allreduce_sum_f64_lem, allreduce_min_f64_lem,
}
use osu_micro_benchmarks_rs.Timing.{new_result, add_sample, average}
use osu_micro_benchmarks_rs.Timing.Samples.{add_sample_lem}
use osu_micro_benchmarks_rs.Tests.{middle, inbox}

abbrev bit : Bool → ℕ
bit false = 0
bit true = 1

abbrev pub two_floats : F64
two_floats = record {
  Float = Bool;
  to_bits = bit;
  from_bits = λ n. not (n == 0);
  min_f64 = ◌&&◌;
  max_f64 = ◌||◌;
  add_f64 = ◌||◌;
  infinity = true;
  neg_infinity = false;
  zero_f64 = false;
  sub_f64 = λ x y. x;
  mul_f64 = ◌&&◌;
  div_f64 = λ x y. x;
  of_usize = λ n. not (n == 0);
  largest = true;
  smallest = false;
}

bit-lt : (x : Bool) → bit x < 256 ^ 8
bit-lt true = omega arith
bit-lt false = omega arith

bit-back : (x : Bool) → not (bit x == 0) ≡ x
bit-back true = refl
bit-back false = refl

and_assoc : (x y z : Bool) → ((x && y) && z) ≡ (x && (y && z))
and_assoc true y z = refl
and_assoc false y z = refl

and_comm : (x y : Bool) → (x && y) ≡ (y && x)
and_comm true true = refl
and_comm true false = refl
and_comm false true = refl
and_comm false false = refl

or_assoc : (x y z : Bool) → ((x || y) || z) ≡ (x || (y || z))
or_assoc true y z = refl
or_assoc false y z = refl

or_comm : (x y : Bool) → (x || y) ≡ (y || x)
or_comm true true = refl
or_comm true false = refl
or_comm false true = refl
or_comm false false = refl

abbrev two_floats_laws : F64Laws two_floats
two_floats_laws = record {
  bits_lt = bit-lt;
  from_bits-to_bits = bit-back;
  min_assoc = and_assoc;
  min_comm = and_comm;
  max_assoc = or_assoc;
  max_comm = or_comm;
}

abbrev floats : Boxes
floats = inbox (map (to_le_bytes 8) (1 ∷ 0 ∷ []))

allreduce_max_f64_example :
    (w' : Boxes) × (allreduce_max_f64 mailbox 1 two_floats middle false floats ≡ ok (true, w'))
    × Exchanges mailbox mailbox_matching floats
        (to_peers middle (λ peer. to_le_bytes 8 0) max_tag)
        max_tag
        []
        w'
allreduce_max_f64_example =
    allreduce_max_f64_lem two_floats two_floats_laws mailbox mailbox_matching 1 (omega arith) middle
      false (true ∷ false ∷ []) (false ∷ true ∷ false ∷ []) [] floats (omega arith) (omega arith)
      refl (Permᴰ.refl _) refl

allreduce_sum_f64_example :
    (w' : Boxes) × (allreduce_sum_f64 mailbox 1 two_floats middle false floats ≡ ok (true, w'))
    × Exchanges mailbox mailbox_matching floats
        (to_peers middle (λ peer. to_le_bytes 8 0) sum_tag)
        sum_tag
        []
        w'
allreduce_sum_f64_example =
    allreduce_sum_f64_lem two_floats two_floats_laws mailbox mailbox_matching 1 (omega arith) middle
      false (true ∷ false ∷ []) [] floats (omega arith) (omega arith) refl refl

allreduce_min_f64_example :
    (w' : Boxes) × (allreduce_min_f64 mailbox 1 two_floats middle true floats ≡ ok (false, w'))
    × (w'.log
        ≡ to_peers middle (λ peer. to_le_bytes 8 1) reduce_u64_tag
          ++ to_peers middle (λ peer. to_le_bytes 8 1) min_tag)
    × (w'.box reduce_u64_tag ≡ [])
    × (w'.box min_tag ≡ [])
allreduce_min_f64_example =
    allreduce_min_f64_lem two_floats two_floats_laws mailbox mailbox_matching 1 (omega arith) middle
      true (1 ∷ 0 ∷ []) (true ∷ false ∷ []) (true ∷ true ∷ false ∷ []) [] [] floats (omega arith)
      (omega arith) (omega arith, (omega arith, tt)) refl refl (Permᴰ.refl _) refl refl

add_sample_example :
    (foldl (add_sample two_floats) (new_result two_floats) (true ∷ false ∷ [])
      ≡ record { min_us = false; max_us = true; avg_us = true; total_us = true; count = 2 })
    × (average two_floats
          (foldl (add_sample two_floats) (new_result two_floats) (true ∷ false ∷ []))
        ≡ true)
    × (average two_floats (new_result two_floats) ≡ false)
add_sample_example = add_sample_lem two_floats true (false ∷ []) (omega arith)

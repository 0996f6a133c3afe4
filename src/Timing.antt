-- ===== src/Timing.antt =====
-- common/src/timing.rs: the running statistics of a benchmark. The clock is left to the programs.
pub mod Samples
use osu_micro_benchmarks_rs.Prelude.{ℕ, ◌+◌, ◌%◌, ◌^◌, ◌==◌, if◌then◌else◌}
use osu_micro_benchmarks_rs.Rust.Float.{F64}

pub record TimingResult (F : Type 0) : Type 0 where
  pub min_us : F
  pub max_us : F
  pub avg_us : F
  pub total_us : F
  pub count : ℕ

module _ (f : F64) where
  open f use {Float, min_f64, max_f64, add_f64, div_f64, of_usize, zero_f64, largest, smallest}

  -- `TimingResult::new`
  pub new_result : TimingResult Float
  new_result = record {
    min_us = largest;
    max_us = smallest;
    avg_us = zero_f64;
    total_us = zero_f64;
    count = 0;
  }

  -- `TimingResult::add`
  pub add_sample : TimingResult Float → Float → TimingResult Float
  add_sample t us =
      let total = add_f64 t.total_us us in
      let count = (t.count + 1) % 2 ^ 64 in
      record {
        min_us = min_f64 t.min_us us;
        max_us = max_f64 t.max_us us;
        avg_us = div_f64 total (of_usize count);
        total_us = total;
        count = count;
      }

  pub average : TimingResult Float → Float
  average t = if t.count == 0 then zero_f64 else t.avg_us

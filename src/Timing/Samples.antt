-- ===== src/Timing/Samples.antt =====
-- The statistics after any number of samples.
use osu_micro_benchmarks_rs.Prelude.{
  ℕ, suc, ◌+◌, ◌^◌, ◌<◌, ◌≡◌, refl, ◌∙◌, ap, List, [], ◌∷◌, foldl, length, arith, ne→==_false,
  if_false,
}
use osu_micro_benchmarks_rs.Rust.Float.{F64}
use osu_micro_benchmarks_rs.Timing.{TimingResult, new_result, add_sample, average}

module _ (f : F64) where
  open f use {Float, min_f64, max_f64, add_f64, div_f64, of_usize, zero_f64, largest, smallest}

  -- The statistics of samples that come after others, `n` in all.
  abbrev counted : TimingResult Float → Float → List Float → ℕ → TimingResult Float
  counted t us rest n =
      let total = foldl add_f64 t.total_us (us ∷ rest) in
      record {
        min_us = foldl min_f64 t.min_us (us ∷ rest);
        max_us = foldl max_f64 t.max_us (us ∷ rest);
        avg_us = div_f64 total (of_usize n);
        total_us = total;
        count = n;
      }

  samples_after :
      (t : TimingResult Float) (us : Float) (rest : List Float)
      → t.count + length (us ∷ rest) < 2 ^ 64
      → foldl (add_sample f) t (us ∷ rest) ≡ counted t us rest (t.count + length (us ∷ rest))
  unfolding add_sample
  samples_after t us [] h = ap (counted t us []) (omega arith)
  samples_after t us (x ∷ rest) h =
      samples_after (add_sample f t us) x rest (omega arith)
      ∙ ap (counted t us (x ∷ rest)) (omega arith)

  -- After one sample or more, fewer than 2 ^ 64, a result holds the minimum, the maximum and the sum
  -- over all samples, taken from the left, their number, and the sum divided by that number, which is
  -- also its average. The average of a new result is zero.
  pub add_sample_lem :
      (us : Float) (rest : List Float)
      → length (us ∷ rest) < 2 ^ 64
      → (foldl (add_sample f) (new_result f) (us ∷ rest) ≡ record {
        min_us = foldl min_f64 largest (us ∷ rest);
        max_us = foldl max_f64 smallest (us ∷ rest);
        avg_us = div_f64 (foldl add_f64 zero_f64 (us ∷ rest)) (of_usize (length (us ∷ rest)));
        total_us = foldl add_f64 zero_f64 (us ∷ rest);
        count = length (us ∷ rest);
      })
        × (average f (foldl (add_sample f) (new_result f) (us ∷ rest))
            ≡ div_f64 (foldl add_f64 zero_f64 (us ∷ rest)) (of_usize (length (us ∷ rest))))
        × (average f (new_result f) ≡ zero_f64)
  unfolding new_result average
  add_sample_lem us rest h =
      let all =
        samples_after (new_result f) us rest (omega (arith, h))
        ∙ ap (counted (new_result f) us rest) (omega arith) in
      (
        all,
        ap (average f) all
            ∙ if_false _ _ (ne→==_false (suc (length rest)) 0 (λ e. absurd (omega (arith, e)))),
        refl,
      )

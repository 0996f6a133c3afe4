-- ===== src/Rust/Float.antt =====
-- `f64`, of which the source uses no more than this. Its values are a parameter: what is proved of
-- a reduction of floats names the laws of `F64Laws` that it needs.
use osu_micro_benchmarks_rs.Prelude.{ℕ, ◌<◌, ◌^◌, ◌≡◌}

pub record F64 : Type 1 where
  pub Float : Type 0
  pub to_bits : Float → ℕ
  pub from_bits : ℕ → Float
  pub min_f64 : Float → Float → Float
  pub max_f64 : Float → Float → Float
  pub add_f64 : Float → Float → Float
  pub infinity : Float
  pub neg_infinity : Float
  pub zero_f64 : Float
  pub sub_f64 : Float → Float → Float
  pub mul_f64 : Float → Float → Float
  pub div_f64 : Float → Float → Float
  pub of_usize : ℕ → Float
  -- `f64::MAX` and `f64::MIN`
  pub largest : Float
  pub smallest : Float

module _ (f : F64) where
  open f use {Float, to_bits, from_bits, min_f64, max_f64, infinity, neg_infinity}

  -- A float is its 64 bits; `min` and `max` are a semilattice on values that are no NaN.
  pub record F64Laws : Type 0 where
    pub bits_lt : (x : Float) → to_bits x < 256 ^ 8
    pub from_bits-to_bits : (x : Float) → from_bits (to_bits x) ≡ x
    pub min_assoc : (x y z : Float) → min_f64 (min_f64 x y) z ≡ min_f64 x (min_f64 y z)
    pub min_comm : (x y : Float) → min_f64 x y ≡ min_f64 y x
    pub max_assoc : (x y z : Float) → max_f64 (max_f64 x y) z ≡ max_f64 x (max_f64 y z)
    pub max_comm : (x y : Float) → max_f64 x y ≡ max_f64 y x

-- ===== src/Prelude/Perms.antt =====
-- Folds that do not see the order of a list.
use mathlib.Core.List.{Permᴰ}
use mathlib.Core.List.Permᴰ
use mathlib.Core.Path.{◌≡◌, refl, ap, ◌∙◌}
use mathlib.Core.List.{List, [], ◌∷◌, foldl}
use native.Mathlib.Omega.{arith}
use Prim.Native.Nat.{ℕ, zero, suc}
use osu_micro_benchmarks_rs.Prelude.Lists.{sum, insert_at}

module _ {A B : Type 0} (f : B → A → B)
    (f_comm : (z : B) (x y : A) → f (f z x) y ≡ f (f z y) x) where
  pub foldl-Permᴰ : {xs ys : List A} (z : B) → Permᴰ xs ys → foldl f z xs ≡ foldl f z ys
  foldl-Permᴰ z Permᴰ.nil = refl
  foldl-Permᴰ z (Permᴰ.cons {a} {b} {l₁} {l₂} e p) = rw e (foldl-Permᴰ (f z b) p)
  foldl-Permᴰ z (Permᴰ.swap {a} {b} {a'} {b'} {l} e e') =
      rw (e, e') (ap (λ t. foldl f t l) (f_comm z b' a'))
  foldl-Permᴰ z (Permᴰ.trans p q) = foldl-Permᴰ z p ∙ foldl-Permᴰ z q

module _ {A : Type 0} where
  pub insert_at-Permᴰ : (k : ℕ) (v : A) (xs : List A) → Permᴰ (insert_at k v xs) (v ∷ xs)
  insert_at-Permᴰ zero v xs = Permᴰ.refl (v ∷ xs)
  insert_at-Permᴰ (suc k) v [] = Permᴰ.refl (v ∷ [])
  insert_at-Permᴰ (suc k) v (x ∷ xs) =
      Permᴰ.trans (Permᴰ.cons refl (insert_at-Permᴰ k v xs)) (Permᴰ.swap refl refl)

pub sum-Permᴰ : {xs ys : List ℕ} → Permᴰ xs ys → sum xs ≡ sum ys
sum-Permᴰ Permᴰ.nil = refl
sum-Permᴰ (Permᴰ.cons e p) = omega (arith, e, sum-Permᴰ p)
sum-Permᴰ (Permᴰ.swap e e') = omega (arith, e, e')
sum-Permᴰ (Permᴰ.trans p q) = sum-Permᴰ p ∙ sum-Permᴰ q

-- ===== src/Bench/Loops.antt =====
-- The counted loops of the programs: one after another, and a rule for a body that is run `n` times.
use osu_micro_benchmarks_rs.Prelude.{
  ℕ, zero, suc, ◌+◌, ◌≡◌, refl, ◌∙◌, sym, ap, fun_ext, List, [], ◌∷◌, ◌++◌, arith, range,
}
use osu_micro_benchmarks_rs.Rust.{Outcome, ok, panic, spin, Run, ◌>>=◌, >>=-ok}
use osu_micro_benchmarks_rs.Bench.{times, for_all}

pub range-append : (i n k : ℕ) → range i (n + k) ≡ range i n ++ range (i + n) k
range-append i zero k =
    let e : zero + k ≡ k = omega arith in
    let e' : i ≡ i + zero = omega arith in ap (range i) e ∙ ap (λ (j : ℕ). range j k) e'
range-append i (suc n) k =
    let e : suc n + k ≡ suc (n + k) = omega arith in
    let e' : suc i + n ≡ i + suc n = omega arith in
    ap (range i) e
    ∙ ap (◌∷◌ i) (range-append (suc i) n k ∙ ap (λ (j : ℕ). range (suc i) n ++ range j k) e')

>>=_assoc :
    {W A B C : Type 0} (m : Run W A) (f : A → Run W B) (g : B → Run W C) (w : W)
    → ((m >>= f) >>= g) w ≡ (m >>= λ a. f a >>= g) w
>>=_assoc {W = W} {A = A} m f g w = by_outcome (m w)
  where
    by_outcome :
        (r : Outcome (A × W))
        → (((λ (v : W). r) >>= f) >>= g) w ≡ ((λ (v : W). r) >>= λ a. f a >>= g) w
    by_outcome (ok (a, w')) = refl
    by_outcome panic = refl
    by_outcome spin = refl

for_all-bind :
    {M S A : Type 0} (xs ys : List A) (body : A → S → Run M S) (s : S) (m : M)
    → for_all (xs ++ ys) body s m ≡ (for_all xs body s >>= for_all ys body) m
unfolding for_all
for_all-bind [] ys body s m = refl
for_all-bind (x ∷ xs) ys body s m =
    ap (λ k. (body x s >>= k) m) (fun_ext λ s'. fun_ext λ m'. for_all-bind xs ys body s' m')
    ∙ sym (>>=_assoc (body x s) (for_all xs body) (for_all ys body) m)

-- A loop over two lists, the first of which ends well.
pub for_all-append :
    {M S A : Type 0} (xs ys : List A) (body : A → S → Run M S) (s s' : S) (m m' : M)
    → for_all xs body s m ≡ ok (s', m')
    → for_all (xs ++ ys) body s m ≡ for_all ys body s' m'
for_all-append xs ys body s s' m m' e =
    for_all-bind xs ys body s m ∙ >>=-ok (for_all xs body s) (for_all ys body) m e

-- A body that keeps `P`, which says how many rounds are left.
pub times_lem :
    {M S : Type 0} (P : ℕ → S → M → Type 0) (body : S → Run M S)
    → ((k : ℕ) (s : S) (m : M)
        → P (suc k) s m
        → (s' : S) × (m' : M) × (body s m ≡ ok (s', m')) × P k s' m')
    → (n : ℕ) (s : S) (m : M) → P n s m
    → (s' : S) × (m' : M) × (times n body s m ≡ ok (s', m')) × P 0 s' m'
unfolding times
times_lem P body step zero s m p = (s, m, refl, p)
times_lem P body step (suc n) s m p =
    let (s₁, m₁, e, p₁) = step n s m p in
    let (s₂, m₂, e', p₂) = times_lem P body step n s₁ m₁ p₁ in
    (s₂, m₂, >>=-ok (body s) (times n body) m e ∙ e', p₂)

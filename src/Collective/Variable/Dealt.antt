-- ===== src/Collective/Variable/Dealt.antt =====
-- Slots that are filled rank by rank, the own one among them: the order of the own copy does not
-- matter.
use osu_micro_benchmarks_rs.Prelude.{
  ℕ, zero, suc, ◌+◌, ◌≤◌, ◌<◌, ◌≡◌, ◌≢◌, refl, ◌∙◌, sym, ap, true, false, ◌⊎◌, inl, inr, List, [],
  ◌∷◌, ◌==◌, if◌then◌else◌, arith, Bool-cases, length, range, set, if_true, if_false,
}
use osu_micro_benchmarks_rs.Runtime.Loops.{others, collect}
use osu_micro_benchmarks_rs.Runtime.Fill.{put}

set-set {ℓ} : {A : Type ℓ} (xs : List A) (i : ℕ) (v : A) → set (set xs i v) i v ≡ set xs i v
set-set [] i v = refl
set-set (x ∷ xs) zero v = refl
set-set (x ∷ xs) (suc i) v = ap (◌∷◌ x) (set-set xs i v)

set-set_comm {ℓ} :
    {A : Type ℓ} (xs : List A) (i j : ℕ) (v v' : A)
    → i ≢ j
    → set (set xs i v) j v' ≡ set (set xs j v') i v
set-set_comm [] i j v v' h = refl
set-set_comm (x ∷ xs) zero zero v v' h = absurd (h refl)
set-set_comm (x ∷ xs) zero (suc j) v v' h = refl
set-set_comm (x ∷ xs) (suc i) zero v v' h = refl
set-set_comm (x ∷ xs) (suc i) (suc j) v v' h =
    ap (◌∷◌ x) (set-set_comm xs i j v v' (λ e. h (ap suc e)))

-- The own slot in its turn, the others from the messages.
abbrev pub dealt : ℕ → List ℕ → List ℕ → List (List ℕ) → List (List ℕ) → List (List ℕ)
dealt rank own [] ms ds = ds
dealt rank own (p ∷ ps) [] ds =
    if p == rank then dealt rank own ps [] (set ds rank own) else dealt rank own ps [] ds
dealt rank own (p ∷ ps) (m ∷ ms) ds =
    if p == rank
    then dealt rank own ps (m ∷ ms) (set ds rank own)
    else dealt rank own ps ms (set ds p m)

abbrev pub filled : ℕ → List ℕ → List (List ℕ) → List (List ℕ) → List (List ℕ)
filled rank ps ms ds = collect (put (λ m. m)) (others rank ps) ms ds

-- Once the own slot is filled, its turn changes nothing.
dealt-set :
    (rank : ℕ) (own : List ℕ) (ps : List ℕ) (ms ds : List (List ℕ))
    → length ms ≡ length (others rank ps)
    → dealt rank own ps ms (set ds rank own) ≡ filled rank ps ms (set ds rank own)
dealt-set rank own [] ms ds l = refl
dealt-set rank own (p ∷ ps) [] ds l = elim (Bool-cases (p == rank)) [
  | inl self ↦
      rw (self, set-set ds rank own)
        (dealt-set rank own ps [] ds (l ∙ ap length (if_true _ _ self)))
  | inr other ↦ absurd (omega (arith, l ∙ ap length (if_false _ _ other)))
]
dealt-set rank own (p ∷ ps) (m ∷ ms) ds l = elim (Bool-cases (p == rank)) [
  | inl self ↦
      rw (self, set-set ds rank own)
        (dealt-set rank own ps (m ∷ ms) ds (l ∙ ap length (if_true _ _ self)))
  | inr other ↦
      let comm = set-set_comm ds rank p own m (λ e. ground arith) in
      rw other (
        ap (dealt rank own ps ms) comm
        ∙ dealt-set rank own ps ms (set ds p m) (omega (arith, l ∙ ap length (if_false _ _ other)))
        ∙ sym (ap (filled rank ps ms) comm))
]

abbrev pub Has : ℕ → List ℕ → Type 0
Has rank [] = ⊥
Has rank (p ∷ ps) = ((p == rank) ≡ true) ⊎ Has rank ps

pub range-Has : (rank i n : ℕ) → i ≤ rank → rank < i + n → Has rank (range i n)
range-Has rank i zero h k = absurd (omega arith)
range-Has rank i (suc n) h k = elim (Bool-cases (i == rank)) [
  | inl self ↦ inl self
  | inr other ↦ inr (range-Has rank (suc i) n (ground arith) (omega arith))
]

-- The own slot may be filled in front of the others.
pub dealt-filled :
    (rank : ℕ) (own : List ℕ) (ps : List ℕ) (ms ds : List (List ℕ))
    → Has rank ps
    → length ms ≡ length (others rank ps)
    → dealt rank own ps ms ds ≡ filled rank ps ms (set ds rank own)
dealt-filled rank own [] ms ds h l = absurd h
dealt-filled rank own (p ∷ ps) [] ds h l = elim (Bool-cases (p == rank)) [
  | inl self ↦ rw self (dealt-set rank own ps [] ds (l ∙ ap length (if_true _ _ self)))
  | inr other ↦ absurd (omega (arith, l ∙ ap length (if_false _ _ other)))
]
dealt-filled rank own (p ∷ ps) (m ∷ ms) ds h l = elim (Bool-cases (p == rank)) [
  | inl self ↦ rw self (dealt-set rank own ps (m ∷ ms) ds (l ∙ ap length (if_true _ _ self)))
  | inr other ↦ rw other (
      dealt-filled rank own ps ms (set ds p m) (later h other)
        (omega (arith, l ∙ ap length (if_false _ _ other)))
      ∙ sym (ap (filled rank ps ms) (set-set_comm ds rank p own m (λ e. ground arith))))
]
  where
    later : ((p == rank) ≡ true) ⊎ Has rank ps → (p == rank) ≡ false → Has rank ps
    later (inl e) f = absurd (cc)
    later (inr h) f = h

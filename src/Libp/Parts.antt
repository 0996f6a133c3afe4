-- ===== src/Libp/Parts.antt =====
-- Splitting at colons and joining: they are inverse, and a text in the list is a part of the whole.
use osu_micro_benchmarks_rs.Prelude.{
  ◌≡◌, refl, ◌∙◌, ap, Bool, true, false, List, [], ◌∷◌, ◌++◌, ◌==◌, ◌||◌, arith, Bool-cases, inl,
  inr,
}
use osu_micro_benchmarks_rs.Fan.Names.{same_name, same_name_refl}
use osu_micro_benchmarks_rs.Libp.{
  Text, colon, starts_with, contains, parts, split, join_rest, join, without,
}

abbrev pub ColonFree : Text → Type 0
ColonFree [] = Unit
ColonFree (x ∷ xs) = ((x == colon) ≡ false) × ColonFree xs

-- No text of the list is `p`.
abbrev pub Misses : Text → List Text → Type 0
Misses p [] = Unit
Misses p (e ∷ es) = (same_name e p ≡ false) × Misses p es

or-false : (a b : Bool) → (a || b) ≡ false → (a ≡ false) × (b ≡ false)
or-false true b e = absurd (cc)
or-false false b e = (refl, e)

pub join-split : (t : Text) → join (split t) ≡ t
unfolding join split parts join_rest
join-split [] = refl
join-split (x ∷ xs) = elim (Bool-cases (x == colon)) [
  | inl at ↦
      let is_colon : colon ≡ x = ground arith in
      rw at (ap (λ k. colon ∷ k) (join-split xs) ∙ ap (λ k. k ∷ xs) is_colon)
  | inr other ↦ rw other (ap (λ k. x ∷ k) (join-split xs))
]

-- A colon-free text has one part.
pub parts-ColonFree : (t : Text) → ColonFree t → parts t ≡ (t, [])
unfolding parts
parts-ColonFree [] free = refl
parts-ColonFree (x ∷ xs) free = rw (free.0, parts-ColonFree xs free.1) refl

pub parts-append :
    (t p : Text) → ColonFree p → parts (t ++ (colon ∷ p)) ≡ ((parts t).0, (parts t).1 ++ (p ∷ []))
unfolding parts
parts-append [] p free = rw (parts-ColonFree p free) refl
parts-append (x ∷ xs) p free = elim (Bool-cases (x == colon)) [
  | inl at ↦ rw (at, parts-append xs p free) refl
  | inr other ↦ rw (other, parts-append xs p free) refl
]

-- A text that has another in front.
starts-first : (t p : Text) → starts_with t p ≡ false → same_name (parts t).0 p ≡ false
unfolding starts_with parts same_name
starts-first t [] miss = absurd (cc)
starts-first [] (y ∷ p) miss = refl
starts-first (x ∷ xs) (y ∷ p) miss = ground (arith, starts-first xs p)

parts-Misses :
    (t p : Text) → contains t p ≡ false → (same_name (parts t).0 p ≡ false) × Misses p (parts t).1
unfolding contains parts
parts-Misses [] p miss = (starts-first [] p miss, tt)
parts-Misses (x ∷ xs) p miss =
    let (front, back) = or-false (starts_with (x ∷ xs) p) (contains xs p) miss in
    let (first, others) = parts-Misses xs p back in
    (
      starts-first (x ∷ xs) p front,
      elim (Bool-cases (x == colon)) [
        | inl at ↦ rw at (first, others)
        | inr other ↦ rw other others
      ],
    )

pub split-Misses : (t p : Text) → contains t p ≡ false → Misses p (split t)
unfolding split
split-Misses t p miss = parts-Misses t p miss

pub without-append : (p : Text) (es : List Text) → Misses p es → without p (es ++ (p ∷ [])) ≡ es
unfolding without
without-append p [] m = rw (same_name_refl p) refl
without-append p (e ∷ es) m = rw (m.0, without-append p es m.1) refl

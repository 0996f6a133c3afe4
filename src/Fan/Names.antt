-- ===== src/Fan/Names.antt =====
-- Host names as `String`s: their bytes, with the comparison of `str` and a stable sort by it.
use osu_micro_benchmarks_rs.Prelude.{
  ℕ, ◌≡◌, refl, Bool, true, false, ◌&&◌, List, [], ◌∷◌, ltb, ◌==◌, if◌then◌else◌, arith, ◌⊎◌, inl,
  inr, Bool-cases,
}

abbrev pub Name : Type 0
Name = List ℕ

-- `a <= b`, byte by byte.
unfoldable pub name_le : Name → Name → Bool
name_le [] b = true
name_le (x ∷ a) [] = false
name_le (x ∷ a) (y ∷ b) = if ltb x y then true else if x == y then name_le a b else false

-- `a == b`
unfoldable pub same_name : Name → Name → Bool
same_name [] [] = true
same_name [] (y ∷ b) = false
same_name (x ∷ a) [] = false
same_name (x ∷ a) (y ∷ b) = x == y && same_name a b

pub same_name_refl : (a : Name) → same_name a a ≡ true
unfolding same_name
same_name_refl [] = refl
same_name_refl (x ∷ a) = ground (arith, same_name_refl a)

pub same_name→eq : (a b : Name) → same_name a b ≡ true → a ≡ b
unfolding same_name
same_name→eq [] [] e = refl
same_name→eq [] (y ∷ b) e = absurd (cc)
same_name→eq (x ∷ a) [] e = absurd (cc)
same_name→eq (x ∷ a) (y ∷ b) e = ground (arith, same_name→eq a b)

pub name_le_total : (a b : Name) → name_le a b ≡ false → name_le b a ≡ true
unfolding name_le
name_le_total [] b e = absurd (cc)
name_le_total (x ∷ a) [] e = refl
name_le_total (x ∷ a) (y ∷ b) e = ground (arith, name_le_total a b)

pub name_le_trans : (a b d : Name) → name_le a b ≡ true → name_le b d ≡ true → name_le a d ≡ true
unfolding name_le
name_le_trans [] b d e k = refl
name_le_trans (x ∷ a) [] d e k = absurd (cc)
name_le_trans (x ∷ a) (y ∷ b) [] e k = absurd (cc)
name_le_trans (x ∷ a) (y ∷ b) (z ∷ d) e k = ground (arith, name_le_trans a b d)

pub name_le_antisym : (a b : Name) → name_le a b ≡ true → name_le b a ≡ true → a ≡ b
unfolding name_le
name_le_antisym [] [] e k = refl
name_le_antisym [] (y ∷ b) e k = absurd (cc)
name_le_antisym (x ∷ a) [] e k = absurd (cc)
name_le_antisym (x ∷ a) (y ∷ b) e k = ground (arith, name_le_antisym a b)

-- A rank with its host name.
abbrev pub Entry : Type 0
Entry = Name × ℕ

-- `sort_by(|a, b| a.0.cmp(&b.0))`, which is stable: equal names keep their order.
unfoldable pub insert_entry : Entry → List Entry → List Entry
insert_entry e [] = e ∷ []
insert_entry e (x ∷ xs) = if name_le e.0 x.0 then e ∷ x ∷ xs else x ∷ insert_entry e xs

unfoldable pub sort_by_name : List Entry → List Entry
unfolding insert_entry
sort_by_name [] = []
sort_by_name (e ∷ es) = insert_entry e (sort_by_name es)

abbrev pub AllIn : (Entry → Type 0) → List Entry → Type 0
AllIn P [] = Unit
AllIn P (e ∷ es) = P e × AllIn P es

abbrev pub Sorted : List Entry → Type 0
Sorted [] = Unit
Sorted (e ∷ es) = AllIn (λ x. name_le e.0 x.0 ≡ true) es × Sorted es

abbrev pub Occurs : Entry → List Entry → Type 0
Occurs e [] = ⊥
Occurs e (x ∷ xs) = (e ≡ x) ⊎ Occurs e xs

pub AllIn-map :
    (P Q : Entry → Type 0) (es : List Entry) → ((e : Entry) → P e → Q e) → AllIn P es → AllIn Q es
AllIn-map P Q [] f a = tt
AllIn-map P Q (e ∷ es) f a = (f e a.0, AllIn-map P Q es f a.1)

pub AllIn-insert_entry :
    (P : Entry → Type 0) (e : Entry) (es : List Entry)
    → P e
    → AllIn P es
    → AllIn P (insert_entry e es)
unfolding insert_entry
AllIn-insert_entry P e [] p a = (p, tt)
AllIn-insert_entry P e (x ∷ xs) p a = elim (Bool-cases (name_le e.0 x.0)) [
  | inl front ↦ rw front (p, a)
  | inr behind ↦ rw behind (a.0, AllIn-insert_entry P e xs p a.1)
]

pub AllIn-sort_by_name :
    (P : Entry → Type 0) (es : List Entry) → AllIn P es → AllIn P (sort_by_name es)
unfolding sort_by_name
AllIn-sort_by_name P [] a = tt
AllIn-sort_by_name P (e ∷ es) a =
    AllIn-insert_entry P e (sort_by_name es) a.0 (AllIn-sort_by_name P es a.1)

insert_entry-Sorted : (e : Entry) (es : List Entry) → Sorted es → Sorted (insert_entry e es)
unfolding insert_entry
insert_entry-Sorted e [] s = (tt, tt)
insert_entry-Sorted e (x ∷ xs) s = elim (Bool-cases (name_le e.0 x.0)) [
  | inl front ↦ rw front (
    (
      front,
      AllIn-map (λ y. name_le x.0 y.0 ≡ true) (λ y. name_le e.0 y.0 ≡ true) xs
          (λ y le. name_le_trans e.0 x.0 y.0 front le) s.0,
    ),
    s,
  )
  | inr behind ↦ rw behind (
    AllIn-insert_entry (λ y. name_le x.0 y.0 ≡ true) e xs (name_le_total e.0 x.0 behind) s.0,
    insert_entry-Sorted e xs s.1,
  )
]

pub sort_by_name-Sorted : (es : List Entry) → Sorted (sort_by_name es)
unfolding sort_by_name
sort_by_name-Sorted [] = tt
sort_by_name-Sorted (e ∷ es) = insert_entry-Sorted e (sort_by_name es) (sort_by_name-Sorted es)

Occurs-insert_entry :
    (a e : Entry) (es : List Entry) → (a ≡ e) ⊎ Occurs a es → Occurs a (insert_entry e es)
unfolding insert_entry
Occurs-insert_entry a e [] o = o
Occurs-insert_entry a e (x ∷ xs) o = elim (Bool-cases (name_le e.0 x.0)) [
  | inl front ↦ rw front o
  | inr behind ↦ rw behind (elim o [
    | inl here ↦ inr (Occurs-insert_entry a e xs (inl here))
    | inr there ↦ elim there [
      | inl first ↦ inl first
      | inr later ↦ inr (Occurs-insert_entry a e xs (inr later))
    ]
  ])
]

pub Occurs-sort_by_name : (a : Entry) (es : List Entry) → Occurs a es → Occurs a (sort_by_name es)
unfolding sort_by_name
Occurs-sort_by_name a [] o = o
Occurs-sort_by_name a (e ∷ es) o =
    Occurs-insert_entry a e (sort_by_name es)
      (elim o [ inl here ↦ inl here | inr there ↦ inr (Occurs-sort_by_name a es there) ])

-- ===== src/Fan/Numbers/Counts.antt =====
-- How many ranks a host has, in the list of names and in the sorted list.
use osu_micro_benchmarks_rs.Prelude.{
  ℕ, suc, ◌<◌, ◌≡◌, ◌≢◌, refl, ◌∙◌, ap, subst, true, false, List, [], ◌∷◌, inl, inr, Bool-cases,
  if◌then◌else◌,
}
use osu_micro_benchmarks_rs.Fan.Names.{
  Name, Entry, AllIn, same_name, same_name_refl, same_name→eq, name_le, name_le_antisym,
  insert_entry, sort_by_name,
}
use osu_micro_benchmarks_rs.Fan.{entries}

-- How many entries have a name, and how many ranks.
abbrev pub entries_of : Name → List Entry → ℕ
entries_of n [] = 0
entries_of n (e ∷ es) = let rest = entries_of n es in if same_name e.0 n then suc rest else rest

abbrev pub ranks_on : Name → List Name → ℕ
ranks_on n [] = 0
ranks_on n (h ∷ hs) = let rest = ranks_on n hs in if same_name h n then suc rest else rest

-- Two names that occur differently often.
abbrev pub Uneven : (Name → ℕ) → Type 0
Uneven count = (a b : Name) × (0 < count a) × (0 < count b) × (count a ≢ count b)

pub differ : (a b : Name) → a ≢ b → same_name a b ≡ false
differ a b ne = elim (Bool-cases (same_name a b)) [
  | inl same ↦ absurd (ne (same_name→eq a b same))
  | inr other ↦ other
]

pub differ-ne : (a b : Name) → same_name a b ≡ false → a ≢ b
differ-ne a b e q =
    let same : same_name a b ≡ true =
      subst (λ (n : Name). same_name a n ≡ true) q (same_name_refl a) in
    cc

-- A name in front of a sorted list that begins with another name is not in the list.
pub gone :
    (b x : Name) (es : List Entry)
    → x ≢ b
    → name_le b x ≡ true
    → AllIn (λ e. name_le x e.0 ≡ true) es
    → entries_of b es ≡ 0
gone b x [] ne le a = refl
gone b x (e ∷ es) ne le a =
    let other : same_name e.0 b ≡ false =
      differ e.0 b
        (λ q. ne (name_le_antisym x b (subst (λ (n : Name). name_le x n ≡ true) q a.0) le)) in
    rw other (gone b x es ne le a.1)

entries_of-insert_entry :
    (n : Name) (e : Entry) (es : List Entry)
    → entries_of n (insert_entry e es) ≡ entries_of n (e ∷ es)
unfolding insert_entry
entries_of-insert_entry n e [] = refl
entries_of-insert_entry n e (x ∷ xs) = elim (Bool-cases (name_le e.0 x.0)) [
  | inl front ↦ rw front refl
  | inr behind ↦
      let rest = entries_of-insert_entry n e xs in
      rw behind (elim (Bool-cases (same_name x.0 n)) [
        | inl same ↦
            rw (same, rest)
              (elim (Bool-cases (same_name e.0 n)) [
                | inl same' ↦ rw same' refl
                | inr other' ↦ rw other' refl
              ])
        | inr other ↦ rw (other, rest) refl
      ])
]

pub entries_of-sort_by_name :
    (n : Name) (es : List Entry) → entries_of n (sort_by_name es) ≡ entries_of n es
unfolding sort_by_name
entries_of-sort_by_name n [] = refl
entries_of-sort_by_name n (e ∷ es) =
    entries_of-insert_entry n e (sort_by_name es)
    ∙ ap (λ (k : ℕ). if same_name e.0 n then suc k else k) (entries_of-sort_by_name n es)

pub entries_of-entries :
    (n : Name) (hs : List Name) (k : ℕ) → entries_of n (entries hs k) ≡ ranks_on n hs
unfolding entries
entries_of-entries n [] k = refl
entries_of-entries n (h ∷ hs) k =
    ap (λ (j : ℕ). if same_name h n then suc j else j) (entries_of-entries n hs (suc k))

-- ===== src/Fan/Numbers/Refusal.antt =====
-- When the numbering refuses a job: two hosts have different numbers of ranks.
use osu_micro_benchmarks_rs.Prelude.{
  ℕ, suc, ◌+◌, ◌<◌, ◌≡◌, ◌≢◌, refl, ◌∙◌, sym, ap, subst, fun_ext, true, false, Option, none, some,
  List, [], ◌∷◌, arith, inl, inr, ◌⊎◌, Option-cases, Bool-cases,
}
use osu_micro_benchmarks_rs.Rust.{ok}
use osu_micro_benchmarks_rs.Fan.Names.{
  Name, Entry, AllIn, Sorted, same_name, same_name_refl, same_name→eq, name_le, name_le_trans,
  name_le_antisym, sort_by_name, sort_by_name-Sorted,
}
use osu_micro_benchmarks_rs.Fan.{
  Numbering, entries, new_node, turn, place, assign, blank, number_nodes,
}
use osu_micro_benchmarks_rs.Fan.Numbers.{assign-cases}
use osu_micro_benchmarks_rs.Fan.Numbers.Counts.{
  entries_of, ranks_on, Uneven, differ, differ-ne, gone, entries_of-sort_by_name,
  entries_of-entries,
}

turn-none :
    (p name : Name) (t : Numbering)
    → turn (some p) name t ≡ none
    → (same_name name p ≡ false) × (fp : ℕ) × (t.first_ppn ≡ some fp) × (fp ≢ t.local_rank)
unfolding turn new_node
turn-none p name t e = elim (Bool-cases (same_name name p)) [
  | inl same ↦ let kept : some t ≡ none = sym (rw (same, turn) refl) ∙ e in absurd (cc)
  | inr other ↦ elim (Option-cases t.first_ppn) [
    | inl first ↦ absurd (ground arith)
    | inr (fp, known) ↦ (other, fp, known, λ q. ground arith)
  ]
]

turn-some :
    (p name : Name) (t t₁ : Numbering)
    → turn (some p) name t ≡ some t₁
    → ((same_name name p ≡ true) × (t₁ ≡ t))
      ⊎ ((same_name name p ≡ false)
          × (t₁.local_rank ≡ 0)
          × ((t₁.first_ppn ≡ t.first_ppn) ⊎ (t₁.first_ppn ≡ some t.local_rank)))
unfolding turn new_node
turn-some p name t t₁ e = elim (Bool-cases (same_name name p)) [
  | inl same ↦ let kept : some t ≡ some t₁ = sym (rw (same, turn) refl) ∙ e in inl (same, cc)
  | inr other ↦ elim (Option-cases t.first_ppn) [
    | inl first ↦ inr (other, ground arith, inr (ground arith))
    | inr (fp, known) ↦ inr (other, ground arith, inl (ground arith))
  ]
]

place_counts :
    (r : ℕ) (t t' : Numbering)
    → place r t ≡ ok t'
    → (t'.local_rank ≡ t.local_rank + 1) × (t'.first_ppn ≡ t.first_ppn)
unfolding place
place_counts r t t' e = (ground arith, ground arith)

-- The rank count of a first node, and the names that are still to come.
abbrev First : (Name → ℕ) → Option ℕ → Type 0
First count none = Unit
First count (some fp) = (a : Name) × (0 < fp) × (count a ≡ fp)

abbrev Unseen : (Name → ℕ) → Name → List Entry → Type 0
Unseen count b es = (n : Name) → name_le b n ≡ true → n ≢ b → entries_of n es ≡ count n

Unseen-next :
    (count : Name → ℕ) (b name : Name) (r : ℕ) (es : List Entry)
    → name_le b name ≡ true
    → Unseen count b ((name, r) ∷ es)
    → Unseen count name es
Unseen-next count b name r es le unseen n le' ne =
    let back = λ (q : n ≡ b).
      ne
        (q ∙ sym (name_le_antisym name b (subst (λ (m : Name). name_le name m ≡ true) q le') le)) in
    let other : same_name name n ≡ false = differ name n (λ q. ne (sym q)) in
    let drops : entries_of n ((name, r) ∷ es) ≡ entries_of n es = rw other refl in
    sym drops ∙ unseen n (name_le_trans b name n le le') back

refused_lem :
    (count : Name → ℕ) (b : Name) (es : List Entry) (t : Numbering)
    → Sorted es
    → AllIn (λ e. name_le b e.0 ≡ true) es
    → t.local_rank + entries_of b es ≡ count b
    → 0 < t.local_rank
    → First count t.first_ppn
    → Unseen count b es
    → assign (some b) es t ≡ ok none
    → Uneven count
unfolding assign
refused_lem count b [] t s a here pos first unseen e = absurd (cc)
refused_lem count b ((name, r) ∷ es) t s a here pos first unseen e =
    elim (assign-cases (some b) name r es t none e) [
      | inl (stop, refused) ↦
          let (other, fp, known, ne) = turn-none b name t stop in
          let ends = group_ends other in
          let (c, pos', total) = subst (First count) known first in
          (c, b, omega arith, omega arith, λ q. ne (omega arith))
      | inr (t₁, t₂, turned, placed, ran) ↦
          let (rank₂, first₂) = place_counts r t₁ t₂ placed in
          let next = Unseen-next count b name r es a.0 unseen in
          elim (turn-some b name t t₁ turned) [
            | inl (same, kept) ↦
                let eq : name ≡ b = same_name→eq name b same in
                let counted : entries_of b ((name, r) ∷ es) ≡ suc (entries_of b es) =
                  rw same refl in
                let rank₁ : t₁.local_rank ≡ t.local_rank =
                  ap (λ (x : Numbering). x.local_rank) kept in
                let here' : t₂.local_rank + entries_of b es ≡ count b = omega arith in
                refused_lem count name es t₂ s.1 s.0
                  (subst (λ (n : Name). t₂.local_rank + entries_of n es ≡ count n) (sym eq) here')
                  (omega arith)
                  (subst (First count) (sym (first₂ ∙ ap (λ (x : Numbering). x.first_ppn) kept))
                    first)
                  next ran
            | inr (other, zero_rank, firsts) ↦
                let ends = group_ends other in
                let counted : entries_of name ((name, r) ∷ es) ≡ suc (entries_of name es) =
                  rw (same_name_refl name) refl in
                let total : entries_of name ((name, r) ∷ es) ≡ count name =
                  unseen name a.0 (differ-ne name b other) in
                let first' : First count t₂.first_ppn = elim firsts [
                  | inl same ↦ subst (First count) (sym (first₂ ∙ same)) first
                  | inr new ↦
                      subst (First count) (sym (first₂ ∙ new))
                        (as_first t.local_rank (b, pos, ends))
                ] in
                refused_lem count name es t₂ s.1 s.0 (omega arith) (omega arith) first' next ran
          ]
    ]
  where
    as_first : (n : ℕ) → (a : Name) × (0 < n) × (count a ≡ n) → First count (some n)
    as_first n x = x

    -- The entries of `b` are all behind.
    group_ends : same_name name b ≡ false → count b ≡ t.local_rank
    group_ends other =
        let rest : entries_of b es ≡ 0 = gone b name es (differ-ne name b other) a.0 s.0 in
        let dropped : entries_of b ((name, r) ∷ es) ≡ entries_of b es = rw other refl in omega arith

started_lem :
    (L : List Entry) (n : ℕ)
    → Sorted L
    → assign none L (blank n) ≡ ok none
    → Uneven (λ (m : Name). entries_of m L)
unfolding assign turn
started_lem [] n s e = absurd (cc)
started_lem ((name, r) ∷ es) n s e = elim (assign-cases none name r es (blank n) none e) [
  | inl (stop, refused) ↦ absurd (cc)
  | inr (t₁, t₂, turned, placed, ran) ↦
      let (rank₂, first₂) = place_counts r t₁ t₂ placed in
      let zero_rank : t₁.local_rank ≡ 0 = cc in
      let no_first : t₁.first_ppn ≡ none = cc in
      let count = λ (m : Name). entries_of m ((name, r) ∷ es) in
      let counted : entries_of name ((name, r) ∷ es) ≡ suc (entries_of name es) =
        rw (same_name_refl name) refl in
      refused_lem count name es t₂ s.1 s.0 (omega arith) (omega arith)
        (subst (First count) (sym (first₂ ∙ no_first)) tt)
        (λ m le ne.
          let other : same_name name m ≡ false = differ name m (λ q. ne (sym q)) in rw other refl)
        ran
]

-- A job is refused only if two hosts have different numbers of ranks.
pub refusal_lem :
    (names : List Name) (size : ℕ)
    → number_nodes size names ≡ ok none
    → Uneven (λ (n : Name). ranks_on n names)
unfolding number_nodes
refusal_lem names size e =
    let L = sort_by_name (entries names 0) in
    let counts : (λ (n : Name). entries_of n L) ≡ (λ (n : Name). ranks_on n names) =
      fun_ext (λ n. entries_of-sort_by_name n (entries names 0) ∙ entries_of-entries n names 0) in
    subst Uneven counts (started_lem L size (sort_by_name-Sorted (entries names 0)) e)

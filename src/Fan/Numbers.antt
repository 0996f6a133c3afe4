-- ===== src/Fan/Numbers.antt =====
-- The numbering of the nodes: the steps of its loop.
pub mod Loop
pub mod Counts
pub mod Refusal
pub mod Agreement
use osu_micro_benchmarks_rs.Prelude.{
  ℕ, zero, suc, ◌+◌, ◌≤◌, ◌<◌, ◌≡◌, ◌≢◌, ◌↔◌, refl, ◌∙◌, sym, ap, subst, Bool, true, false, Option,
  none, some, List, [], ◌∷◌, arith, ltb, ◌==◌, length, replicate, set, get_or, inl, inr, ◌⊎◌,
  Bool-cases, length-set, length-replicate, if◌then◌else◌,
}
use osu_micro_benchmarks_rs.Rust.{Outcome, ok, panic, spin}
use osu_micro_benchmarks_rs.Runtime.{set_at}
use osu_micro_benchmarks_rs.Fan.Names.{
  Name, Entry, AllIn, AllIn-map, AllIn-insert_entry, AllIn-sort_by_name, Sorted, Occurs, same_name,
  same_name_refl, same_name→eq, name_le, name_le_antisym, insert_entry, sort_by_name,
  sort_by_name-Sorted, Occurs-sort_by_name,
}
use osu_micro_benchmarks_rs.Fan.{
  Numbering, entries, new_node, turn, place, assign, blank, number_nodes,
}

get_or-set_same : (xs : List ℕ) (i v : ℕ) → i < length xs → get_or (set xs i v) i 0 ≡ v
get_or-set_same [] i v h = absurd (omega arith)
get_or-set_same (x ∷ xs) zero v h = refl
get_or-set_same (x ∷ xs) (suc i) v h = get_or-set_same xs i v (omega arith)

get_or-set_other : (xs : List ℕ) (i j v : ℕ) → j ≢ i → get_or (set xs i v) j 0 ≡ get_or xs j 0
get_or-set_other [] i j v ne = refl
get_or-set_other (x ∷ xs) zero zero v ne = absurd (ne refl)
get_or-set_other (x ∷ xs) zero (suc j) v ne = refl
get_or-set_other (x ∷ xs) (suc i) zero v ne = refl
get_or-set_other (x ∷ xs) (suc i) (suc j) v ne = get_or-set_other xs i j v (λ e. ne (ap suc e))

-- The number of a rank's node.
abbrev pub node_of : Numbering → ℕ → ℕ
node_of t r = get_or t.node_ids r 0

-- The head of the loop keeps the number if the name is the same, and takes the next one if not.
turn_lem :
    (p name : Name) (t t' : Numbering)
    → turn (some p) name t ≡ some t'
    → (t'.node_ids ≡ t.node_ids)
      × (((same_name name p ≡ true) × (t'.num_nodes ≡ t.num_nodes))
          ⊎ ((same_name name p ≡ false) × (t.num_nodes < t'.num_nodes)))
unfolding turn new_node
turn_lem p name t t' e = elim (Bool-cases (same_name name p)) [
  | inl same ↦
      let kept : some t ≡ some t' = sym (rw (same, turn) refl) ∙ e in
      (ground arith, inl (same, ground arith))
  | inr other ↦ (ground arith, inr (other, ground arith))
]

place_lem :
    (r : ℕ) (t t' : Numbering)
    → place r t ≡ ok t'
    → (t'.node_ids ≡ set t.node_ids r t.num_nodes)
      × (t'.num_nodes ≡ t.num_nodes)
      × (r < length t.node_ids)
unfolding place
place_lem r t t' e = (ground arith, ground arith, ground arith)

-- An answer is a refusal at the head of the loop, or the answer of the rest of it.
assign-cases :
    (before : Option Name) (name : Name) (r : ℕ) (es : List Entry) (t : Numbering)
    (x : Option Numbering)
    → assign before ((name, r) ∷ es) t ≡ ok x
    → ((turn before name t ≡ none) × (x ≡ none))
      ⊎ ((t₁ t₂ : Numbering) × (turn before name t ≡ some t₁)
          × (place r t₁ ≡ ok t₂)
          × (assign (some name) es t₂ ≡ ok x))
unfolding assign
assign-cases before name r es t x e = turned (turn before name t) refl e
  where
    placed :
        (t₁ : Numbering) (y : Outcome Numbering)
        → place r t₁ ≡ y
        → turn before name t ≡ some t₁
        → (elim y as (λ _. Outcome (Option Numbering)) [
          | ok t₂ ↦ assign (some name) es t₂
          | panic ↦ panic
          | spin ↦ spin
        ])
          ≡ ok x
        → (t₁ t₂ : Numbering) × (turn before name t ≡ some t₁)
          × (place r t₁ ≡ ok t₂)
          × (assign (some name) es t₂ ≡ ok x)
    placed t₁ (ok t₂) q p e = (t₁, t₂, p, q, e)
    placed t₁ panic q p e = absurd (cc)
    placed t₁ spin q p e = absurd (cc)

    turned :
        (y : Option Numbering)
        → turn before name t ≡ y
        → (elim y as (λ _. Outcome (Option Numbering)) [
          | some t₁ ↦ elim (place r t₁) [
            | ok t₂ ↦ assign (some name) es t₂
            | panic ↦ panic
            | spin ↦ spin
          ]
          | none ↦ ok none
        ])
          ≡ ok x
        → ((turn before name t ≡ none) × (x ≡ none))
          ⊎ ((t₁ t₂ : Numbering) × (turn before name t ≡ some t₁)
              × (place r t₁ ≡ ok t₂)
              × (assign (some name) es t₂ ≡ ok x))
    turned (some t₁) p e = inr (placed t₁ (place r t₁) refl p e)
    turned none p e = inl (p, cc)

-- What a numbering of a list that is not empty went through.
assign-inv :
    (before : Option Name) (name : Name) (r : ℕ) (es : List Entry) (t t' : Numbering)
    → assign before ((name, r) ∷ es) t ≡ ok (some t')
    → (t₁ t₂ : Numbering) × (turn before name t ≡ some t₁)
      × (place r t₁ ≡ ok t₂)
      × (assign (some name) es t₂ ≡ ok (some t'))
assign-inv before name r es t t' e = elim (assign-cases before name r es t (some t') e) [
  | inl (stop, refused) ↦ absurd (cc)
  | inr went ↦ went
]

-- Rank `r` is in none of the entries.
abbrev pub Fresh : ℕ → List Entry → Type 0
Fresh r = AllIn (λ e. e.1 ≢ r)

abbrev pub Distinct : List Entry → Type 0
Distinct [] = Unit
Distinct (e ∷ es) = Fresh e.1 es × Distinct es

-- An entry has the number `k` if its name is `name`, and a greater one if not.
abbrev pub After : Numbering → Name → ℕ → Entry → Type 0
After t name k e = (e.0 ≡ name → node_of t e.1 ≡ k) × (e.0 ≢ name → k < node_of t e.1)

abbrev pub Apart : Numbering → List Entry → Type 0
Apart t [] = Unit
Apart t (e ∷ es) = AllIn (After t e.0 (node_of t e.1)) es × Apart t es

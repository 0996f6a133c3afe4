-- ===== src/Fan/Numbers/Agreement.antt =====
-- The numbering as a whole: it does not panic, and two ranks get one number just when they have one
-- host name.
use osu_micro_benchmarks_rs.Prelude.{
  ℕ, zero, suc, ◌+◌, ◌≤◌, ◌<◌, ◌≡◌, ◌≢◌, ◌↔◌, refl, ◌∙◌, sym, ap, subst, Option, none, some, List,
  [], ◌∷◌, arith, ◌==◌, length, set, get_or, inl, inr, ◌⊎◌, lt→ltb, Option-cases, Bool-cases,
  length-set, length-replicate,
}
use osu_micro_benchmarks_rs.Rust.{ok}
use osu_micro_benchmarks_rs.Fan.Names.{
  Name, Entry, AllIn, AllIn-insert_entry, AllIn-sort_by_name, Sorted, Occurs, same_name, name_le,
  insert_entry, sort_by_name, sort_by_name-Sorted, Occurs-sort_by_name,
}
use osu_micro_benchmarks_rs.Fan.{
  Numbering, entries, new_node, turn, place, assign, blank, number_nodes,
}
use osu_micro_benchmarks_rs.Fan.Numbers.{
  get_or-set_same, node_of, place_lem, assign-inv, Fresh, Distinct, Apart, After,
}
use osu_micro_benchmarks_rs.Fan.Numbers.Counts.{Uneven, ranks_on}
use osu_micro_benchmarks_rs.Fan.Numbers.Refusal.{refusal_lem}
use osu_micro_benchmarks_rs.Fan.Numbers.Loop.{assign_lem, Apart-SameNode}

insert_entry-Distinct :
    (e : Entry) (es : List Entry) → Fresh e.1 es → Distinct es → Distinct (insert_entry e es)
unfolding insert_entry
insert_entry-Distinct e [] f d = (tt, tt)
insert_entry-Distinct e (x ∷ xs) f d = elim (Bool-cases (name_le e.0 x.0)) [
  | inl front ↦ rw front (f, d)
  | inr behind ↦ rw behind (
    AllIn-insert_entry (λ y. y.1 ≢ x.1) e xs (λ q. f.0 (sym q)) d.0,
    insert_entry-Distinct e xs f.1 d.1,
  )
]

sort_by_name-Distinct : (es : List Entry) → Distinct es → Distinct (sort_by_name es)
unfolding sort_by_name
sort_by_name-Distinct [] d = tt
sort_by_name-Distinct (e ∷ es) d =
    insert_entry-Distinct e (sort_by_name es) (AllIn-sort_by_name (λ y. y.1 ≢ e.1) es d.0)
      (sort_by_name-Distinct es d.1)

entries-Fresh : (hs : List Name) (k r : ℕ) → r < k → Fresh r (entries hs k)
unfolding entries
entries-Fresh [] k r h = tt
entries-Fresh (x ∷ hs) k r h =
    (λ q. absurd (omega (arith, q)), entries-Fresh hs (suc k) r (omega arith))

entries-Distinct : (hs : List Name) (k : ℕ) → Distinct (entries hs k)
unfolding entries
entries-Distinct [] k = tt
entries-Distinct (x ∷ hs) k =
    (entries-Fresh hs (suc k) k (omega arith), entries-Distinct hs (suc k))

entries-AllIn : (hs : List Name) (k n : ℕ) → k + length hs ≤ n → AllIn (λ e. e.1 < n) (entries hs k)
unfolding entries
entries-AllIn [] k n h = tt
entries-AllIn (x ∷ hs) k n h = (omega arith, entries-AllIn hs (suc k) n (omega arith))

Occurs-entries :
    (hs : List Name) (k i : ℕ) → i < length hs → Occurs (get_or hs i [], k + i) (entries hs k)
unfolding entries
Occurs-entries [] k i h = absurd (omega arith)
Occurs-entries (x ∷ hs) k zero h = inl (ap (λ (j : ℕ). (x, j)) (omega arith))
Occurs-entries (x ∷ hs) k (suc i) h =
    let e : suc k + i ≡ k + suc i = omega arith in
    inr (
      subst (λ (j : ℕ). Occurs (get_or hs i [], j) (entries hs (suc k))) e
        (Occurs-entries hs (suc k) i (omega arith)))

first_turn :
    (L : List Entry) (t t' : Numbering)
    → Sorted L
    → Distinct L
    → assign none L t ≡ ok (some t')
    → Apart t' L
unfolding turn
first_turn [] t t' s d e = tt
first_turn ((n, r) ∷ es) t t' s d e =
    let (t₁, t₂, _, placed, ran) = assign-inv none n r es t t' e in
    let (ids₂, num₂, lt) = place_lem r t₁ t₂ placed in
    let (kept, after, apart) = assign_lem es n t₂ t' s.0 s.1 d.1 ran in
    let mine : node_of t' r ≡ t₂.num_nodes =
      kept r d.0
      ∙ ap (λ (l : List ℕ). get_or l r 0) ids₂
      ∙ get_or-set_same t₁.node_ids r t₁.num_nodes lt
      ∙ sym num₂ in
    (subst (λ (k : ℕ). AllIn (After t' n k) es) (sym mine) after, apart)

-- Both maps have a place for each of `n` ranks.
abbrev Wide : ℕ → Numbering → Type 0
Wide n t = (length t.node_ids ≡ n) × (length t.local_ranks ≡ n)

place-Wide :
    (n r : ℕ) (t : Numbering)
    → Wide n t
    → r < n
    → (t' : Numbering) × (place r t ≡ ok t') × Wide n t'
unfolding place
place-Wide n r t (a, b) h = (
  record t {
    node_ids = set t.node_ids r t.num_nodes;
    local_ranks = set t.local_ranks r t.local_rank;
    local_rank = t.local_rank + 1;
  },
  ground (arith, lt→ltb r (length t.node_ids), lt→ltb r (length t.local_ranks)),
  (length-set t.node_ids r t.num_nodes ∙ a, length-set t.local_ranks r t.local_rank ∙ b),
)

new_node-Wide :
    (n : ℕ) (t : Numbering)
    → Wide n t
    → (new_node t ≡ none) ⊎ ((t' : Numbering) × (new_node t ≡ some t') × Wide n t')
unfolding new_node
new_node-Wide n t wide = elim (Option-cases t.first_ppn) [
  | inl first ↦ inr (
    record t { first_ppn = some t.local_rank; num_nodes = t.num_nodes + 1; local_rank = 0 },
    rw (new_node, first) refl,
    wide,
  )
  | inr (fp, known) ↦ elim (Bool-cases (fp == t.local_rank)) [
    | inl same ↦ inr (
      record t { num_nodes = t.num_nodes + 1; local_rank = 0 },
      rw (new_node, known, same)
          (ap
            (λ (k : Option ℕ).
              some (record t { num_nodes = t.num_nodes + 1; local_rank = 0; first_ppn = k }))
            known),
      wide,
    )
    | inr other ↦ inl (rw (new_node, known, other) refl)
  ]
]

zero-add : (k : ℕ) → 0 + k ≡ k
zero-add k = omega arith

turn-Wide :
    (n : ℕ) (before : Option Name) (name : Name) (t : Numbering)
    → Wide n t
    → (turn before name t ≡ none) ⊎ ((t' : Numbering) × (turn before name t ≡ some t') × Wide n t')
unfolding turn new_node
turn-Wide n none name t wide = inr (t, refl, wide)
turn-Wide n (some p) name t wide = elim (Bool-cases (same_name name p)) [
  | inl same ↦ inr (t, rw same refl, wide)
  | inr other ↦ rw other (new_node-Wide n t wide)
]

assign-returns :
    (n : ℕ) (before : Option Name) (es : List Entry) (t : Numbering)
    → Wide n t
    → AllIn (λ e. e.1 < n) es
    → (r : Option Numbering) × (assign before es t ≡ ok r)
unfolding assign
assign-returns n before [] t wide a = (some t, refl)
assign-returns n before ((name, r) ∷ es) t wide a = elim (turn-Wide n before name t wide) [
  | inl stop ↦ (none, rw (assign, stop) refl)
  | inr (t₁, turned, wide₁) ↦
      let (t₂, placed, wide₂) = place-Wide n r t₁ wide₁ a.0 in
      let (x, ran) = assign-returns n (some name) es t₂ wide₂ a.1 in
      (x, rw (assign, turned, placed) ran)
]

-- What an answer says of the names: in a numbering two ranks are on one node just when they have one
-- name, and a refusal means that two names have different numbers of ranks.
abbrev pub Agrees : List Name → Option Numbering → Type 0
Agrees names none = Uneven (λ (n : Name). ranks_on n names)
Agrees names (some t) =
    (i j : ℕ)
    → i < length names
    → j < length names
    → (get_or names i [] ≡ get_or names j []) ↔ (node_of t i ≡ node_of t j)

number_nodes-Agrees :
    (names : List Name) (r : Option Numbering)
    → number_nodes (length names) names ≡ ok r
    → Agrees names r
unfolding number_nodes
number_nodes-Agrees names none e = refusal_lem names (length names) e
number_nodes-Agrees names (some t) e = λ i j hi hj.
    let L = sort_by_name (entries names 0) in
    let apart =
      first_turn L (blank (length names)) t (sort_by_name-Sorted (entries names 0))
        (sort_by_name-Distinct (entries names 0) (entries-Distinct names 0)) e in
    let at = λ (k : ℕ) (h : k < length names).
      subst (λ (m : ℕ). Occurs (get_or names k [], m) L) (zero-add k)
        (Occurs-sort_by_name (get_or names k [], 0 + k) (entries names 0)
          (Occurs-entries names 0 k h)) in
    Apart-SameNode t (get_or names i [], i) (get_or names j [], j) L apart (at i hi) (at j hj)

-- The numbering of the nodes neither panics nor loops. It refuses the job, and then two hosts have
-- different numbers of ranks, or it gives two ranks one number just when they have one host name.
pub number_nodes_lem :
    (names : List Name)
    → (r : Option Numbering) × (number_nodes (length names) names ≡ ok r) × Agrees names r
unfolding number_nodes
number_nodes_lem names =
    let n = length names in
    let (r, ran) =
      assign-returns n none (sort_by_name (entries names 0)) (blank n)
        (length-replicate {0} n 0, length-replicate {0} n 0)
        (AllIn-sort_by_name (λ e. e.1 < n) (entries names 0)
          (entries-AllIn names 0 n (omega arith))) in
    (r, ran, number_nodes-Agrees names r ran)

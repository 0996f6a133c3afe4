-- ===== src/Fan/Numbers/Loop.antt =====
-- The loop, by induction over the entries that are left.
use osu_micro_benchmarks_rs.Prelude.{
  ℕ, ◌<◌, ◌≡◌, ◌≢◌, ◌↔◌, refl, ◌∙◌, sym, ap, subst, true, false, some, List, [], ◌∷◌, arith, get_or,
  inl, inr, ◌⊎◌, Bool-cases,
}
use osu_micro_benchmarks_rs.Rust.{ok}
use osu_micro_benchmarks_rs.Fan.Names.{
  Name, Entry, AllIn, Sorted, Occurs, same_name, same_name_refl, same_name→eq, name_le,
  name_le_antisym,
}
use osu_micro_benchmarks_rs.Fan.{Numbering, assign}
use osu_micro_benchmarks_rs.Fan.Numbers.{
  get_or-set_same, get_or-set_other, node_of, turn_lem, place_lem, assign-inv, Fresh, Distinct,
  After, Apart,
}

AllIn-map₂ :
    (P Q R : Entry → Type 0) (es : List Entry)
    → ((e : Entry) → P e → Q e → R e)
    → AllIn P es
    → AllIn Q es
    → AllIn R es
AllIn-map₂ P Q R [] f p q = tt
AllIn-map₂ P Q R (e ∷ es) f p q = (f e p.0 q.0, AllIn-map₂ P Q R es f p.1 q.1)

not_same : (a b : Name) → same_name a b ≡ false → a ≢ b
not_same a b no_match e =
    let same : same_name a b ≡ true = ap (λ (d : Name). same_name a d) (sym e) ∙ same_name_refl a in
    cc

-- What follows the name `n` in a sorted list, seen from the name `p` before it.
shift-After :
    (t : Numbering) (p n : Name) (k k' : ℕ) (e : Entry)
    → name_le p n ≡ true
    → ((same_name n p ≡ true) × (k' ≡ k)) ⊎ ((same_name n p ≡ false) × (k < k'))
    → name_le n e.0 ≡ true
    → After t n k' e
    → After t p k e
shift-After t p n k k' e le (inl (same, eq)) le' (at, past) =
    let np : n ≡ p = same_name→eq n p same in
    (
      λ q. at (q ∙ sym np) ∙ eq,
      λ q. subst (λ (j : ℕ). j < node_of t e.1) eq (past (λ w. q (w ∙ np))),
    )
shift-After t p n k k' e le (inr (other, lt)) le' (at, past) =
    let ne = not_same n p other in
    (
      λ q. absurd (ne (name_le_antisym n p (subst (λ (d : Name). name_le n d ≡ true) q le') le)),
      λ q. elim (Bool-cases (same_name e.0 n)) [
        | inl same ↦ omega (arith, at (same_name→eq e.0 n same))
        | inr other ↦ omega (arith, past (not_same e.0 n other))
      ],
    )

pub assign_lem :
    (es : List Entry) (p : Name) (t t' : Numbering)
    → AllIn (λ e. name_le p e.0 ≡ true) es
    → Sorted es
    → Distinct es
    → assign (some p) es t ≡ ok (some t')
    → ((r : ℕ) → Fresh r es → node_of t' r ≡ node_of t r)
      × AllIn (After t' p t.num_nodes) es
      × Apart t' es
unfolding assign
assign_lem [] p t t' le s d e =
    let same : t ≡ t' = cc in (λ r _. ap (λ (x : Numbering). node_of x r) (sym same), tt, tt)
assign_lem ((n, r) ∷ es) p t t' le s d e =
    let (t₁, t₂, turned, placed, ran) = assign-inv (some p) n r es t t' e in
    let (ids₁, moved) = turn_lem p n t t₁ turned in
    let (ids₂, num₂, lt) = place_lem r t₁ t₂ placed in
    let (kept, after, apart) = assign_lem es n t₂ t' s.0 s.1 d.1 ran in
    let mine : node_of t' r ≡ t₁.num_nodes =
      kept r d.0
      ∙ ap (λ (l : List ℕ). get_or l r 0) ids₂
      ∙ get_or-set_same t₁.node_ids r t₁.num_nodes lt in
    let after₁ : AllIn (After t' n t₁.num_nodes) es =
      subst (λ (k : ℕ). AllIn (After t' n k) es) num₂ after in
    (
      λ x fresh.
          kept x fresh.1
          ∙ ap (λ (l : List ℕ). get_or l x 0) ids₂
          ∙ get_or-set_other t₁.node_ids r x t₁.num_nodes (λ q. fresh.0 (sym q))
          ∙ ap (λ (l : List ℕ). get_or l x 0) ids₁,
      (
        elim moved [
          | inl (same, eq) ↦ (λ q. mine ∙ eq, λ q. absurd (q (same_name→eq n p same)))
          | inr (other, up) ↦ (λ q. absurd (not_same n p other q), λ q. omega (arith, mine))
        ],
        AllIn-map₂ (λ x. name_le n x.0 ≡ true) (After t' n t₁.num_nodes) (After t' p t.num_nodes) es
            (λ x. shift-After t' p n t.num_nodes t₁.num_nodes x le.0 moved) s.0 after₁,
      ),
      (subst (λ (k : ℕ). AllIn (After t' n k) es) (sym mine) after₁, apart),
    )

-- The numbers of two entries are equal just when their names are.
abbrev pub SameNode : Numbering → Entry → Entry → Type 0
SameNode t a b = (a.0 ≡ b.0) ↔ (node_of t a.1 ≡ node_of t b.1)

After-SameNode : (t : Numbering) (a e : Entry) → After t a.0 (node_of t a.1) e → SameNode t a e
After-SameNode t a e (at, past) = (
  λ q. sym (at (sym q)),
  λ q. elim (Bool-cases (same_name e.0 a.0)) [
    | inl same ↦ sym (same_name→eq e.0 a.0 same)
    | inr other ↦ absurd (omega (arith, past (not_same e.0 a.0 other)))
  ],
)

AllIn-Occurs : (P : Entry → Type 0) (e : Entry) (es : List Entry) → AllIn P es → Occurs e es → P e
AllIn-Occurs P e [] a o = absurd o
AllIn-Occurs P e (x ∷ xs) a (inl here) = subst P (sym here) a.0
AllIn-Occurs P e (x ∷ xs) a (inr there) = AllIn-Occurs P e xs a.1 there

pub Apart-SameNode :
    (t : Numbering) (a b : Entry) (es : List Entry)
    → Apart t es
    → Occurs a es
    → Occurs b es
    → SameNode t a b
Apart-SameNode t a b [] apart o o' = absurd o
Apart-SameNode t a b (x ∷ xs) apart (inl p) (inl q) =
    subst (λ (y : Entry). SameNode t y b) (sym p)
      (subst (SameNode t x) (sym q) (λ _. refl, λ _. refl))
Apart-SameNode t a b (x ∷ xs) apart (inl p) (inr q) =
    subst (λ (y : Entry). SameNode t y b) (sym p)
      (After-SameNode t x b (AllIn-Occurs (After t x.0 (node_of t x.1)) b xs apart.0 q))
Apart-SameNode t a b (x ∷ xs) apart (inr p) (inl q) = subst (SameNode t a) (sym q) (
    let (f, g) = After-SameNode t x a (AllIn-Occurs (After t x.0 (node_of t x.1)) a xs apart.0 p) in
    (λ e. sym (f (sym e)), λ e. sym (g (sym e))))
Apart-SameNode t a b (x ∷ xs) apart (inr p) (inr q) = Apart-SameNode t a b xs apart.1 p q

-- ===== src/Cli/Sizes.antt =====
-- The list of message sizes: it ends, it rises, and it stays within its bounds; and when it does not end.
use osu_micro_benchmarks_rs.Prelude.{
  ℕ, zero, suc, ◌+◌, ◌-◌, ◌*◌, ◌^◌, ◌≤◌, ◌<◌, ◌≡◌, refl, ◌∙◌, sym, ap, subst, List, [], ◌∷◌, leb,
  le→leb, lt→leb_false, leb→le, leb_false→lt, Bool-cases, inl, inr, arith,
}
use osu_micro_benchmarks_rs.Rust.{Outcome, ok, panic, spin}
use osu_micro_benchmarks_rs.Cli.{CliArgs, next_size, sizes_from, message_sizes, large_message_size}

-- The sizes rise from `size` on, and none is above `max`.
abbrev pub Rises : ℕ → ℕ → List ℕ → Type 0
Rises max low [] = Unit
Rises max low (s ∷ ss) = (low ≤ s) × (s ≤ max) × Rises max (suc s) ss

-- The increments for which no size wraps.
pub record Grows (incr max : ℕ) : Type 0 where
  pub at_least_two : 2 ≤ incr
  pub no_wrap_product : large_message_size * incr < 2 ^ 64
  pub no_wrap_sum : max + incr < 2 ^ 64

small_product :
    (size incr : ℕ) → size ≤ large_message_size → size * incr ≤ large_message_size * incr
small_product size incr h = grind arith

product_grows : (size incr : ℕ) → 2 ≤ incr → size * 2 ≤ size * incr
product_grows size incr h = grind arith

next_size-lt : (incr max size : ℕ) → Grows incr max → size ≤ max → size < next_size incr size
unfolding next_size
next_size-lt incr max size g h =
    let two = g.at_least_two in
    let product = g.no_wrap_product in
    let total = g.no_wrap_sum in ground (arith, small_product size incr, product_grows size incr)

Rises-weaken : (max low low' : ℕ) (ss : List ℕ) → low ≤ low' → Rises max low' ss → Rises max low ss
Rises-weaken max low low' [] h r = tt
Rises-weaken max low low' (s ∷ ss) h r = (omega arith, r.1, r.2)

ok_injective : {A : Type 0} {x y : A} → ok x ≡ ok y → x ≡ y
ok_injective e = cc

-- A list in front of which `size` was put.
ok_cons :
    (size : ℕ) (ss : List ℕ) (r : Outcome (List ℕ))
    → (elim r as (λ _. Outcome (List ℕ)) [
      | ok sizes ↦ ok (size ∷ sizes)
      | panic ↦ panic
      | spin ↦ spin
    ])
      ≡ ok ss
    → (sizes : List ℕ) × (r ≡ ok sizes) × (size ∷ sizes ≡ ss)
ok_cons size ss (ok sizes) e = (sizes, refl, ok_injective e)
ok_cons size ss panic e = cc
ok_cons size ss spin e = cc

module _ (incr max : ℕ) (grows : Grows incr max) where
  sizes_from_lem :
      (n size : ℕ)
      → max + 1 - size < n
      → (ss : List ℕ) × (sizes_from n incr max size ≡ ok ss) × Rises max size ss
  unfolding sizes_from
  sizes_from_lem zero size h = absurd (omega arith)
  sizes_from_lem (suc n) size h = elim (Bool-cases (leb size max)) [
    | inl more ↦
        let up = next_size-lt incr max size grows (leb→le size max more) in
        let within = leb→le size max more in
        let (ss, ran, rises) = sizes_from_lem n (next_size incr size) (omega arith) in
        (
          size ∷ ss,
          rw (more, sizes_from, ran),
          (omega arith, within, Rises-weaken max (suc size) (next_size incr size) ss up rises),
        )
    | inr past ↦ ([], rw (past, sizes_from), tt)
  ]

  sizes_from-first :
      (n size : ℕ) (ss : List ℕ)
      → size ≤ max
      → sizes_from n incr max size ≡ ok ss
      → (rest : List ℕ) × (ss ≡ size ∷ rest)
  unfolding sizes_from
  sizes_from-first zero size ss h e = cc
  sizes_from-first (suc n) size ss h e =
      let (sizes, _, same) = ok_cons size ss _ (rw (le→leb size max h, sizes_from) at e) in
      (sizes, sym same)

-- Every size is within the maximum, whatever the increment.
abbrev pub Within : ℕ → List ℕ → Type 0
Within max [] = Unit
Within max (s ∷ ss) = (s ≤ max) × Within max ss

sizes_from-Within :
    (n incr max size : ℕ) (ss : List ℕ) → sizes_from n incr max size ≡ ok ss → Within max ss
unfolding sizes_from
sizes_from-Within zero incr max size ss e = cc
sizes_from-Within (suc n) incr max size ss e = elim (Bool-cases (leb size max)) [
  | inl more ↦
      let (sizes, ran, same) = ok_cons size ss _ (rw (more, sizes_from) at e) in
      subst (Within max) same
        (leb→le size max more, sizes_from-Within n incr max (next_size incr size) sizes ran)
  | inr last ↦
      let none_left : [] ≡ ss = ok_injective (rw (last, sizes_from) at e) in
      subst (Within max) none_left tt
]

pub message_sizes-Within :
    (fuel : ℕ) (a : CliArgs) (ss : List ℕ)
    → message_sizes fuel a ≡ ok ss
    → Within a.max_message_size ss
unfolding message_sizes
message_sizes-Within fuel a ss e =
    sizes_from-Within fuel a.message_size_incr a.max_message_size a.min_message_size ss e

-- With an increment of two or more, sizes that do not wrap, and a minimum that is not above the
-- maximum, the loop ends. Its sizes begin with the minimum, rise strictly, and stay within the
-- maximum. As many rounds as there are numbers up to the maximum are enough.
pub message_sizes_rise :
    (a : CliArgs) (fuel : ℕ)
    → Grows a.message_size_incr a.max_message_size
    → a.max_message_size + 1 < fuel
    → a.min_message_size ≤ a.max_message_size
    → (rest : List ℕ) × (message_sizes fuel a ≡ ok (a.min_message_size ∷ rest))
      × Rises a.max_message_size a.min_message_size (a.min_message_size ∷ rest)
unfolding message_sizes
message_sizes_rise a fuel g h le =
    let (ss, ran, rises) =
      sizes_from_lem a.message_size_incr a.max_message_size g fuel a.min_message_size
        (omega arith) in
    let (rest, e) =
      sizes_from-first a.message_size_incr a.max_message_size g fuel a.min_message_size ss le ran in
    (rest, ran ∙ ap ok e, subst (Rises a.max_message_size a.min_message_size) e rises)

next_size_small : (size : ℕ) → 0 < size → size ≤ large_message_size → next_size 1 size ≡ size
unfolding next_size
next_size_small size h k = ground arith

never :
    (n max size : ℕ)
    → 0 < size
    → size ≤ large_message_size
    → size ≤ max
    → sizes_from n 1 max size ≡ spin
unfolding sizes_from
never zero max size p s l = refl
never (suc n) max size p s l =
    rw (sizes_from, le→leb size max l, next_size_small size p s, never n max size p s l)

-- With an increment of one, and a minimum between one and the cutoff for large messages that is not
-- above the maximum, no number of rounds is enough: the loop never ends.
pub message_sizes_never_end :
    (a : CliArgs) (fuel : ℕ)
    → a.message_size_incr ≡ 1
    → 0 < a.min_message_size
    → a.min_message_size ≤ large_message_size
    → a.min_message_size ≤ a.max_message_size
    → message_sizes fuel a ≡ spin
unfolding message_sizes
message_sizes_never_end a fuel one pos small le =
    ap (λ (i : ℕ). sizes_from fuel i a.max_message_size a.min_message_size) one
    ∙ never fuel a.max_message_size a.min_message_size pos small le

next_size_large :
    (incr max size : ℕ)
    → Grows incr max
    → large_message_size < size
    → size ≤ max
    → next_size incr size ≡ size + incr
unfolding next_size
next_size_large incr max size g h k =
    let total = g.no_wrap_sum in rw (lt→leb_false size large_message_size h) (ground arith)

-- `k` sizes from `size` on, each larger than the one before it by the increment.
abbrev pub evenly : ℕ → ℕ → ℕ → List ℕ
evenly incr size zero = []
evenly incr size (suc k) = size ∷ evenly incr (size + incr) k

-- From a size above the cutoff, with an increment of two or more and sizes that do not wrap, the loop
-- ends, and its sizes go up by the increment itself, as many as there are up to the maximum: the last
-- one is within it, and one more increment is past it. As many rounds as there are numbers from the
-- size to the maximum, and one more, are enough.
pub sizes_from_linear :
    (incr max n size : ℕ)
    → Grows incr max
    → large_message_size < size
    → size ≤ max + incr
    → max + 1 - size < n
    → (k : ℕ) × (sizes_from n incr max size ≡ ok (evenly incr size k))
      × (max < size + k * incr)
      × (size + k * incr ≤ max + incr)
unfolding sizes_from
sizes_from_linear incr max zero size g h within k = absurd (omega arith)
sizes_from_linear incr max (suc n) size g h within enough = elim (Bool-cases (leb size max)) [
  | inl more ↦
      let le = leb→le size max more in
      let two = g.at_least_two in
      let step = next_size_large incr max size g h le in
      let (k, ran, over, last) =
        sizes_from_linear incr max n (next_size incr size) g (omega (arith, step))
          (omega (arith, step)) (omega (arith, step)) in
      (
        suc k,
        rw (more, sizes_from, ran) (ap (λ (s : ℕ). ok (size ∷ evenly incr s k)) step),
        omega (arith, over, step),
        omega (arith, last, step),
      )
  | inr past ↦
      let over = leb_false→lt size max past in
      (0, rw (past, sizes_from) refl, omega arith, omega arith)
]

-- ===== src/Nonblocking/Ring/Neighbors.antt =====
-- The ring of the neighbor collectives: whether a rank's destination receives from that rank.
use osu_micro_benchmarks_rs.Prelude.{
  ℕ, zero, suc, ◌-◌, ◌%◌, ◌^◌, ◌≤◌, ◌<◌, ◌≡◌, refl, ◌∙◌, ap, [], ◌∷◌, arith, lt→leb_false, ◌==◌,
  if◌then◌else◌, Bool-cases, inl, inr, ==→eq,
}
use native.Mathlib.Nat.{mod-eq_of_lt, mod-add-mod, mod-lt, mod_self}
use osu_micro_benchmarks_rs.Runtime.{Context}
use osu_micro_benchmarks_rs.Nonblocking.Ring.{prev_rank, next_rank, neighbor_ring}

pub prev_rank_lem :
    (size rank : ℕ) → suc rank < size → size ≤ 2 ^ 64 → prev_rank size (suc rank) ≡ rank
unfolding prev_rank
prev_rank_lem size rank h k = ap (λ n. n % size) (omega arith) ∙ mod-eq_of_lt (omega (arith, h))

-- The ranks before and after a rank of the ring; the one before rank 0 is the code's, on 64-bit words.
abbrev pub before : ℕ → ℕ → ℕ
before size zero = (2 ^ 64 - 1) % size
before size (suc rank) = rank

abbrev pub after : ℕ → ℕ → ℕ
after size rank = if suc rank == size then 0 else suc rank

pub prev_rank-before :
    (size rank : ℕ) → rank < size → size ≤ 2 ^ 64 → prev_rank size rank ≡ before size rank
unfolding prev_rank
prev_rank-before size zero h k = refl
prev_rank-before size (suc rank) h k = prev_rank_lem size rank h k

pub next_rank-after : (size rank : ℕ) → rank < size → next_rank size rank ≡ after size rank
unfolding next_rank
next_rank-after size rank h = elim (Bool-cases (suc rank == size)) [
  | inl last ↦
      let e = ==→eq (suc rank) size last in
      rw last (ap (λ n. n % size) (omega (arith, e)) ∙ mod_self size)
  | inr inner ↦
      let inside : suc rank < size = ground arith in
      rw inner (ap (λ n. n % size) (omega arith) ∙ mod-eq_of_lt inside)
]

-- In a ring of three ranks or more, a rank but the last one sends to the next rank, and that rank
-- receives from it alone.
pub neighbor_ring_lem :
    (c : Context)
    → 2 < c.size
    → c.size ≤ 2 ^ 64
    → suc c.rank < c.size
    → ((neighbor_ring c).1 ≡ suc c.rank ∷ [])
      × ((neighbor_ring (record c { rank = suc c.rank })).0 ≡ c.rank ∷ [])
unfolding neighbor_ring next_rank
neighbor_ring_lem c many small h = (
  rw (lt→leb_false c.size 2 many)
      (ap (λ r. r ∷ []) (ap (λ n. n % c.size) (omega arith) ∙ mod-eq_of_lt h)),
  rw (lt→leb_false c.size 2 many) (ap (λ r. r ∷ []) (prev_rank_lem c.size c.rank h small)),
)

-- The rank before rank 0, by the code's arithmetic on 64-bit words, has the remainder of 2 ^ 64 by the
-- size as its next rank: rank 0 only if the size divides 2 ^ 64.
pub next_rank-prev_rank_zero : (size : ℕ) → next_rank size (prev_rank size 0) ≡ 2 ^ 64 % size
unfolding next_rank prev_rank
next_rank-prev_rank_zero size = mod-add-mod (2 ^ 64 - 1) size 1

pub prev_rank-lt : (size rank : ℕ) → 0 < size → prev_rank size rank < size
unfolding prev_rank
prev_rank-lt size rank h = mod-lt _ h

pub next_rank-lt : (size rank : ℕ) → 0 < size → next_rank size rank < size
unfolding next_rank
next_rank-lt size rank h = mod-lt _ h

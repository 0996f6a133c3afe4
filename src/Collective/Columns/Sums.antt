-- ===== src/Collective/Columns/Sums.antt =====
-- The byte sums of a buffer of chunks: each is the sum of a column, modulo 256.
use osu_micro_benchmarks_rs.Prelude.{
  ℕ, zero, suc, ◌+◌, ◌*◌, ◌%◌, ◌<◌, ◌≡◌, refl, ◌∙◌, ap, some, List, [], ◌∷◌, ◌++◌, arith, length,
  range, get_or, get_elem?, sum, map, Permᴰ, sum-Permᴰ,
}
use mathlib.Core.List.Permᴰ
use osu_micro_benchmarks_rs.Rust.{ok}
use osu_micro_benchmarks_rs.Rust.Chunks.{Sized, flatten}
use osu_micro_benchmarks_rs.Runtime.Loops.{All, range-All}
use osu_micro_benchmarks_rs.Runtime.Pick.{pick_all}
use osu_micro_benchmarks_rs.Collective.Columns.{column_sum, sum_bytes}

-- The bytes at index `i` of all chunks, added.
abbrev pub column : ℕ → List (List ℕ) → ℕ
column i cs = sum (map (λ c. get_or c i 0) cs)

-- What a reduction of `n` bytes has to give: every column, modulo 256.
abbrev pub byte_sums : List ℕ → List (List ℕ) → List ℕ
byte_sums [] cs = []
byte_sums (i ∷ is) cs = column i cs % 256 ∷ byte_sums is cs

pub byte_sums-Permᴰ :
    (is : List ℕ) {cs ds : List (List ℕ)} → Permᴰ cs ds → byte_sums is cs ≡ byte_sums is ds
byte_sums-Permᴰ [] p = refl
byte_sums-Permᴰ (i ∷ is) {cs} {ds} p =
    let same : column i cs ≡ column i ds = sum-Permᴰ (Permᴰ.map (λ c. get_or c i 0) p) in
    rw (same, byte_sums-Permᴰ is p)

get_elem?-append_left :
    (xs ys : List ℕ) (i : ℕ) → i < length xs → get_elem? (xs ++ ys) i ≡ some (get_or xs i 0)
get_elem?-append_left [] ys i h = absurd (omega arith)
get_elem?-append_left (x ∷ xs) ys zero h = refl
get_elem?-append_left (x ∷ xs) ys (suc i) h = get_elem?-append_left xs ys i (omega arith)

get_elem?-append_right :
    (xs ys : List ℕ) (i k : ℕ) → i ≡ length xs + k → get_elem? (xs ++ ys) i ≡ get_elem? ys k
get_elem?-append_right [] ys i k h = let e : i ≡ k = omega arith in ap (λ (m : ℕ). get_elem? ys m) e
get_elem?-append_right (x ∷ xs) ys zero k h = absurd (omega arith)
get_elem?-append_right (x ∷ xs) ys (suc i) k h = get_elem?-append_right xs ys i k (omega arith)

get_elem?-flatten :
    (n : ℕ) (cs : List (List ℕ)) (p i j : ℕ)
    → Sized n cs
    → p < length cs
    → i < n
    → j ≡ p * n + i
    → get_elem? (flatten cs) j ≡ some (get_or (get_or cs p []) i 0)
get_elem?-flatten n [] p i j s h k e = absurd (omega arith)
get_elem?-flatten n (c ∷ cs) zero i j s h k e =
    let first : j ≡ i = omega arith in
    rw first (get_elem?-append_left c (flatten cs) i (omega (arith, s.0)))
get_elem?-flatten n (c ∷ cs) (suc p) i j s h k e =
    get_elem?-append_right c (flatten cs) j (p * n + i) (omega (arith, s.0))
    ∙ get_elem?-flatten n cs p i (p * n + i) s.1 (omega arith) k refl

module _ (wrap : ℕ → ℕ) (wraps : (a : ℕ) → wrap a % 256 ≡ a % 256) (n : ℕ) (cs : List (List ℕ))
    (sized : Sized n cs) where
  -- The sum that the code makes may wrap, and its last byte is that of the true sum.
  column_sum_lem :
      (i : ℕ) (ps : List ℕ) (acc : ℕ)
      → i < n
      → All (λ p. p < length cs) ps
      → (s : ℕ) × (column_sum wrap (flatten cs) n i ps acc ≡ ok s)
        × (s % 256 ≡ (acc + sum (map (λ p. get_or (get_or cs p []) i 0) ps)) % 256)
  unfolding column_sum
  column_sum_lem i [] acc h a = (acc, refl, omega arith)
  column_sum_lem i (p ∷ ps) acc h a =
      let x = get_or (get_or cs p []) i 0 in
      let (s, ran, low) = column_sum_lem i ps (wrap (acc + x)) h a.1 in
      (
        s,
        rw (get_elem?-flatten n cs p i (p * n + i) sized a.0 h refl, column_sum) ran,
        low ∙ omega (arith, wraps (acc + x)),
      )

  map-get_or :
      (i : ℕ) (ps : List ℕ)
      → map (λ p. get_or (get_or cs p []) i 0) ps
        ≡ map (λ c. get_or c i 0) (map (λ p. get_or cs p []) ps)
  map-get_or i [] = refl
  map-get_or i (p ∷ ps) = ap (◌∷◌ (get_or (get_or cs p []) i 0)) (map-get_or i ps)

  -- The bytes that the code computes for the indices `is` are the columns, modulo 256.
  pub sum_bytes_lem :
      (size : ℕ) (is : List ℕ)
      → size ≡ length cs
      → All (λ i. i < n) is
      → sum_bytes wrap (flatten cs) n size is ≡ ok (byte_sums is cs)
  unfolding sum_bytes
  sum_bytes_lem size [] e a = refl
  sum_bytes_lem size (i ∷ is) e a =
      let (s, ran, low) =
        column_sum_lem i (range 0 size) 0 a.0 (range-All 0 size (length cs) (omega arith)) in
      let all_columns : sum (map (λ p. get_or (get_or cs p []) i 0) (range 0 size)) ≡ column i cs =
        rw e (
          ap sum (
            map-get_or i (range 0 (length cs))
            ∙ ap (map (λ c. get_or c i 0)) (pick_all [] cs 0 refl))) in
      let byte : s % 256 ≡ column i cs % 256 =
        low ∙ ap (λ (t : ℕ). t % 256) (omega (arith, all_columns)) in
      rw (ran, sum_bytes, sum_bytes_lem size is e a.1, byte)

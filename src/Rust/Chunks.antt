-- ===== src/Rust/Chunks.antt =====
-- A buffer made of chunks of one length: copying into a chunk, and reading one.
use osu_micro_benchmarks_rs.Prelude.{
  ℕ, zero, suc, ◌+◌, ◌-◌, ◌*◌, ◌≤◌, ◌<◌, ◌≡◌, refl, ap, ◌∙◌, sym, List, [], ◌∷◌, ◌++◌, arith,
  length, take, drop, set, get_or, length-append, append_assoc, take-append_left, take-append_right,
  drop-append_left, min, length-drop, length-take, take-append-drop,
}
use osu_micro_benchmarks_rs.Rust.{ok}
use osu_micro_benchmarks_rs.Rust.Slice.{slice, copy_at}

abbrev pub flatten : List (List ℕ) → List ℕ
flatten [] = []
flatten (c ∷ cs) = c ++ flatten cs

-- Every chunk has length `n`.
abbrev pub Sized : ℕ → List (List ℕ) → Type 0
Sized n [] = Unit
Sized n (c ∷ cs) = (length c ≡ n) × Sized n cs

pub slice_lem :
    (buf : List ℕ) (a b : ℕ)
    → a ≤ b
    → b ≤ length buf
    → slice buf a b ≡ ok (take (b - a) (drop a buf))
unfolding slice
slice_lem buf a b h k = ground arith

pub copy_at_lem :
    (buf : List ℕ) (a b : ℕ) (src : List ℕ)
    → a ≤ b
    → b ≤ length buf
    → length src ≡ b - a
    → copy_at buf a b src ≡ ok (take a buf ++ src ++ drop b buf)
unfolding copy_at
copy_at_lem buf a b src h k e = ground arith

pub length-flatten : (n : ℕ) (cs : List (List ℕ)) → Sized n cs → length (flatten cs) ≡ length cs * n
length-flatten n [] s = omega arith
length-flatten n (c ∷ cs) s =
    omega (arith, length-append c (flatten cs), length-flatten n cs s.1, s.0)

pub set-Sized :
    (n p : ℕ) (src : List ℕ) (cs : List (List ℕ))
    → length src ≡ n
    → Sized n cs
    → Sized n (set cs p src)
set-Sized n p src [] e s = tt
set-Sized n zero src (c ∷ cs) e s = (e, s.1)
set-Sized n (suc p) src (c ∷ cs) e s = (s.0, set-Sized n p src cs e s.1)

-- Around chunk `p`, which starts at byte `k`.
chunk_write :
    (n : ℕ) (cs : List (List ℕ)) (p k : ℕ) (src : List ℕ)
    → Sized n cs
    → p < length cs
    → k ≡ p * n
    → take k (flatten cs) ++ src ++ drop (k + n) (flatten cs) ≡ flatten (set cs p src)
chunk_write n [] p k src s h e = absurd (omega arith)
chunk_write n (c ∷ cs) zero k src s h e =
    let none_before : k ≡ 0 = omega arith in
    rw none_before (ap (◌++◌ src) (drop-append_left c (flatten cs) _ 0 (omega (arith, s.0))))
chunk_write n (c ∷ cs) (suc p) k src s h e =
    rw
      (
        take-append_right c (flatten cs) k (p * n) (omega (arith, s.0)),
        drop-append_left c (flatten cs) (k + n) (p * n + n) (omega (arith, s.0)),
        append_assoc c (take (p * n) (flatten cs)) src,
        append_assoc c (take (p * n) (flatten cs) ++ src),
      )
      (ap (◌++◌ c) (chunk_write n cs p (p * n) src s.1 (omega arith) refl))

chunk_read :
    (n : ℕ) (cs : List (List ℕ)) (p k : ℕ)
    → Sized n cs
    → p < length cs
    → k ≡ p * n
    → take n (drop k (flatten cs)) ≡ get_or cs p []
chunk_read n [] p k s h e = absurd (omega arith)
chunk_read n (c ∷ cs) zero k s h e =
    let none_before : k ≡ 0 = omega arith in
    rw none_before (take-append_left c (flatten cs) n (omega (arith, s.0)))
chunk_read n (c ∷ cs) (suc p) k s h e =
    rw (drop-append_left c (flatten cs) k (p * n) (omega (arith, s.0)))
      (chunk_read n cs p (p * n) s.1 (omega arith) refl)

pub chunk_fits : (p n l : ℕ) → p < l → p * n + n ≤ l * n
chunk_fits p n l h = grind arith

module _ (n : ℕ) (cs : List (List ℕ)) (p : ℕ) (s : Sized n cs) (h : p < length cs) where
  pub chunk-le-length : p * n + n ≤ length (flatten cs)
  chunk-le-length = omega (arith, length-flatten n cs s, chunk_fits p n (length cs) h)

  pub copy_at-flatten :
      (src : List ℕ)
      → length src ≡ n
      → copy_at (flatten cs) (p * n) (p * n + n) src ≡ ok (flatten (set cs p src))
  copy_at-flatten src e =
      copy_at_lem (flatten cs) (p * n) (p * n + n) src (omega arith) chunk-le-length (omega arith)
      ∙ ap ok (chunk_write n cs p (p * n) src s h refl)

  pub slice-flatten : slice (flatten cs) (p * n) (p * n + n) ≡ ok (get_or cs p [])
  slice-flatten =
      slice_lem (flatten cs) (p * n) (p * n + n) (omega arith) chunk-le-length
      ∙ ap ok (
          ap (λ (k : ℕ). take k (drop (p * n) (flatten cs))) (omega arith)
          ∙ chunk_read n cs p (p * n) s h refl)

-- A place out of range is empty.
pub get_or-short : (n : ℕ) (cs : List (List ℕ)) → Sized n cs → (p : ℕ) → length (get_or cs p []) ≤ n
get_or-short n [] s p = omega arith
get_or-short n (c ∷ cs) s zero = omega (arith, s.0)
get_or-short n (c ∷ cs) s (suc p) = get_or-short n cs s.1 p

pub get_or-Sized :
    (n p : ℕ) (cs : List (List ℕ)) → Sized n cs → p < length cs → length (get_or cs p []) ≡ n
get_or-Sized n p [] s h = absurd (omega arith)
get_or-Sized n zero (c ∷ cs) s h = s.0
get_or-Sized n (suc p) (c ∷ cs) s h = get_or-Sized n p cs s.1 (omega arith)

-- A buffer of `k * n` bytes, cut into `k` chunks of `n`.
abbrev pub chunks : ℕ → ℕ → List ℕ → List (List ℕ)
chunks n zero buf = []
chunks n (suc k) buf = take n buf ∷ chunks n k (drop n buf)

chunk_split : (n k l : ℕ) → l ≡ suc k * n → (min n l ≡ n) × (l - n ≡ k * n)
chunk_split n k l h = (omega arith, omega arith)

pub chunks_lem :
    (n k : ℕ) (buf : List ℕ)
    → length buf ≡ k * n
    → (flatten (chunks n k buf) ≡ buf) × Sized n (chunks n k buf) × (length (chunks n k buf) ≡ k)
chunks_lem n zero [] h = (refl, tt, refl)
chunks_lem n zero (x ∷ buf) h = absurd (omega arith)
chunks_lem n (suc k) buf h =
    let (kept, left) = chunk_split n k (length buf) h in
    let (joined, sized, counted) = chunks_lem n k (drop n buf) (length-drop n buf ∙ left) in
    (
      ap (◌++◌ (take n buf)) joined ∙ take-append-drop n buf,
      (length-take n buf ∙ kept, sized),
      ap suc counted,
    )

-- A chunk of a buffer comes to be one of its chunks.
pub copy_chunk :
    (n k p : ℕ) (buf src : List ℕ)
    → length buf ≡ k * n
    → p < k
    → length src ≡ n
    → copy_at buf (p * n) (p * n + n) src ≡ ok (flatten (set (chunks n k buf) p src))
copy_chunk n k p buf src h lt e =
    let (joined, sized, counted) = chunks_lem n k buf h in
    ap (λ b. copy_at b (p * n) (p * n + n) src) (sym joined)
    ∙ copy_at-flatten n (chunks n k buf) p sized (rw counted lt) src e

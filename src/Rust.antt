-- ===== src/Rust.antt =====
-- What the source uses of Rust itself: panics and waiting as values, slices, bytes of an integer.
pub mod Slice
pub mod Chunks
pub mod Bytes
pub mod Float
use osu_micro_benchmarks_rs.Prelude.{ℕ, ◌≡◌, refl, Option, none, some}

-- How a call ends: with a value, by a panic, or still spinning in a loop when its fuel is gone.
pub data Outcome (A : Type 0) : Type 0 where
  ok : A → Outcome A
  panic : Outcome A
  spin : Outcome A

-- A step that reads and changes a state, such as the network that a rank sees.
abbrev pub Run : Type 0 → Type 0 → Type 0
Run W A = W → Outcome (A × W)

module _ {W A : Type 0} where
  abbrev pub pure : A → Run W A
  pure a w = ok (a, w)

  -- A computation on local memory, which leaves the state alone.
  abbrev pub lift : Outcome A → Run W A
  lift (ok a) w = ok (a, w)
  lift panic w = panic
  lift spin w = spin

  -- `expect` and `unwrap`.
  abbrev pub expect : Option A → Run W A
  expect none w = panic
  expect (some a) w = ok (a, w)

infixl 5 ◌>>=◌ ◌>>◌
abbrev pub ◌>>=◌ : {W A B : Type 0} → Run W A → (A → Run W B) → Run W B
◌>>=◌ m f w = elim (m w) [ ok (a, w') ↦ f a w' | panic ↦ panic | spin ↦ spin ]

abbrev pub ◌>>◌ : {W A B : Type 0} → Run W A → Run W B → Run W B
m >> k = m >>= λ _. k

-- The next step of a run that ended well.
pub >>=-ok :
    {W A B : Type 0} (m : Run W A) (f : A → Run W B) (w : W) {a : A} {w' : W}
    → m w ≡ ok (a, w')
    → (m >>= f) w ≡ f a w'
>>=-ok m f w e = rw (e, ◌>>=◌)

-- The same after two steps.
pub >>->>=-ok :
    {W A B C : Type 0} (m : Run W A) (k : Run W B) (f : B → Run W C) (w : W) {b : B} {w' : W}
    → (m >> k) w ≡ ok (b, w')
    → (m >> (k >>= f)) w ≡ f b w'
>>->>=-ok {W = W} {A = A} m k f w {b} {w'} e = after (m w) e
  where
    after :
        (o : Outcome (A × W))
        → elim o [ ok (a, w₁) ↦ k w₁ | panic ↦ panic | spin ↦ spin ] ≡ ok (b, w')
        → elim o [ ok (a, w₁) ↦ (k >>= f) w₁ | panic ↦ panic | spin ↦ spin ] ≡ f b w'
    after (ok (a, w₁)) e = rw (◌>>=◌, e) refl
    after panic e = absurd (cc)
    after spin e = absurd (cc)

-- What a chain that ended well went through.
pub >>=-inv :
    {W A B : Type 0} (m : Run W A) (f : A → Run W B) (w : W) {b : B} {w' : W}
    → (m >>= f) w ≡ ok (b, w')
    → (a : A) × (w₁ : W) × (m w ≡ ok (a, w₁)) × (f a w₁ ≡ ok (b, w'))
>>=-inv {W = W} {A = A} m f w {b} {w'} e = by_outcome (m w) e
  where
    by_outcome :
        (r : Outcome (A × W))
        → ((λ (v : W). r) >>= f) w ≡ ok (b, w')
        → (a : A) × (w₁ : W) × (r ≡ ok (a, w₁)) × (f a w₁ ≡ ok (b, w'))
    by_outcome (ok (a, w₁)) e = (a, w₁, refl, e)
    by_outcome panic e = absurd (cc)
    by_outcome spin e = absurd (cc)

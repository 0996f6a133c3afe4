-- ===== src/Nonblocking/Requests.antt =====
-- The handle of a non-blocking collective: what `test` keeps, and that `wait` ends.
use osu_micro_benchmarks_rs.Prelude.{
  ℕ, zero, suc, ◌+◌, ◌-◌, ◌≤◌, ◌<◌, ◌≡◌, refl, ◌∙◌, sym, ap, Bool, true, false, Option, none, some,
  List, [], ◌∷◌, ◌==◌, if◌then◌else◌, inl, inr, arith, Bool-cases, ==→eq, if_true,
}
use osu_micro_benchmarks_rs.Rust.{ok}
use osu_micro_benchmarks_rs.Ucx.{Ucx, TagMatching}
use osu_micro_benchmarks_rs.Runtime.{unwrap_or_false}
use osu_micro_benchmarks_rs.Runtime.Wait.{Quiet, progress_lem}
use osu_micro_benchmarks_rs.Nonblocking.{OsuRequest, decrement, sweep, test, wait_request}

-- How many requests of a handle are not yet taken out.
abbrev pub pending : {R : Type 0} → List (Option R) → ℕ
pending [] = 0
pending (none ∷ rs) = pending rs
pending (some r ∷ rs) = suc (pending rs)

-- `remaining` counts the pending requests, and without a worker there are none.
abbrev pub Balanced : {R : Type 0} → OsuRequest R → Type 0
Balanced q = (q.remaining ≡ pending q.recv_reqs) × (q.has_worker ≡ false → q.remaining ≡ 0)

decrement_lem : (n : ℕ) → decrement (suc n) ≡ n
decrement_lem n = ground arith

module _ (u : Ucx) where
  open u use {World, Request, check_finished}

  sweep_balance :
      (k n : ℕ) (rs : List (Option Request)) (w : World)
      → n ≡ k + pending rs
      → (sweep u rs n w).1 ≡ k + pending (sweep u rs n w).0
  unfolding sweep
  sweep_balance k n [] w e = e
  sweep_balance k n (none ∷ rs) w e = sweep_balance k n rs w e
  sweep_balance k n (some r ∷ rs) w e =
      step (unwrap_or_false (check_finished r w)) (λ j m. sweep_balance j m rs w)
    where
      fewer : decrement n ≡ k + pending rs
      fewer = ground arith

      step :
          (b : Bool)
          → ((j m : ℕ) → m ≡ j + pending rs → (sweep u rs m w).1 ≡ j + pending (sweep u rs m w).0)
          → (sweep u rs (if b then decrement n else n) w).1
            ≡ k
              + pending
                  ((if b then none else some r) ∷ (sweep u rs (if b then decrement n else n) w).0)
      step true rest = rest k (decrement n) fewer
      step false rest = omega (arith, rest (suc k) n (omega (arith, e)))

module _ (u : Ucx) (T : TagMatching u) where
  open u use {World, Request, check_finished}

  -- Every pending request ends well.
  abbrev pub AllComplete : List (Option Request) → Type 0
  AllComplete [] = Unit
  AllComplete (none ∷ rs) = AllComplete rs
  AllComplete (some r ∷ rs) = T.Completes r × AllComplete rs

  -- Every pending request ends well and needs fewer than `n` calls of `progress`.
  pub Within : ℕ → List (Option Request) → World → Type 0
  Within n [] w = Unit
  Within n (none ∷ rs) w = Within n rs w
  Within n (some r ∷ rs) w = T.Completes r × (T.waiting r w < n) × Within n rs w

  pub Within-lag : (rs : List (Option Request)) (w : World) → AllComplete rs → Within T.lag rs w
  unfolding Within
  Within-lag [] w all = tt
  Within-lag (none ∷ rs) w all = Within-lag rs w all
  Within-lag (some r ∷ rs) w all = (all.0, T.waiting-lt-lag r w, Within-lag rs w all.1)

  Within-zero : (rs : List (Option Request)) (w : World) → Within 0 rs w → pending rs ≡ 0
  unfolding Within
  Within-zero [] w h = refl
  Within-zero (none ∷ rs) w h = Within-zero rs w h
  Within-zero (some r ∷ rs) w h = absurd (omega (arith, h.1))

  -- A sweep takes out what is due, so that one call of `progress` brings the rest nearer.
  sweep-Within :
      (n k : ℕ) (rs : List (Option Request)) (w w' : World)
      → Within n rs w
      → ((r : Request) → T.waiting r w' ≤ T.waiting r w - 1)
      → Within (n - 1) (sweep u rs k w).0 w'
  unfolding sweep Within
  sweep-Within n k [] w w' h less = tt
  sweep-Within n k (none ∷ rs) w w' h less = sweep-Within n k rs w w' h less
  sweep-Within n k (some r ∷ rs) w w' h less =
      step (unwrap_or_false (check_finished r w)) refl (λ j. sweep-Within n j rs w w' h.2 less)
    where
      not_due : unwrap_or_false (check_finished r w) ≡ false → 0 < T.waiting r w
      not_due f = ground (arith, T.finished_when_due r w h.0)

      step :
          (b : Bool)
          → unwrap_or_false (check_finished r w) ≡ b
          → ((j : ℕ) → Within (n - 1) (sweep u rs j w).0 w')
          → Within
              (n - 1)
              ((if b then none else some r) ∷ (sweep u rs (if b then decrement k else k) w).0)
              w'
      step true f rest = rest (decrement k)
      step false f rest = (h.0, omega (arith, less r, not_due f, h.1), rest k)

module _ (u : Ucx) (T : TagMatching u) (fuel : ℕ) (enough : T.lag ≤ fuel) where
  open u use {World, Request}

  -- What a call of `test` answers and keeps, with requests that end well and need fewer than `n` calls of `progress`.
  abbrev pub Tested : ℕ → OsuRequest Request → World → Bool → OsuRequest Request → World → Type 0
  Tested n q w done q' w' =
      (test u fuel q w ≡ ok ((done, q'), w'))
      × (done ≡ (pending q'.recv_reqs == 0))
      × Balanced q'
      × Within u T (n - 1) q'.recv_reqs w'
      × Quiet u T w w'

  -- With a right count and requests that end well, `test` ends, keeps the count of the pending requests
  -- right, sends and takes nothing, and says whether a request is still pending. It brings the pending
  -- requests one step nearer.
  pub test_lem :
      (n : ℕ) (q : OsuRequest Request) (w : World)
      → Balanced q
      → q.has_worker ≡ true
      → Within u T n q.recv_reqs w
      → (done : Bool) × (q' : OsuRequest Request) × (w' : World) × Tested n q w done q' w'
        × (q'.has_worker ≡ true)
  unfolding test
  test_lem n q w balanced worker h =
      let (w', polled, quiet, less) = progress_lem u T fuel enough w in
      let swept = sweep u q.recv_reqs q.remaining w in
      let count : swept.1 ≡ pending swept.0 =
        omega (arith, sweep_balance u 0 q.remaining q.recv_reqs w (omega (arith, balanced.0))) in
      (
        (swept.1 == 0),
        record q { recv_reqs = swept.0; remaining = swept.1 },
        w',
        (
          if_true _ _ worker ∙ rw polled refl,
          ap (λ k. k == 0) count,
          (count, λ f. absurd (cc)),
          sweep-Within u T n q.remaining q.recv_reqs w w' h less,
          quiet,
        ),
        worker,
      )

  still_needed :
      (n : ℕ) (q : OsuRequest Request) (w : World)
      → Within u T (n - 1) q.recv_reqs w
      → (pending q.recv_reqs == 0) ≡ false
      → 1 ≤ n - 1
  still_needed zero q w h f = absurd (ground (arith, Within-zero u T q.recv_reqs w h))
  still_needed (suc zero) q w h f = absurd (ground (arith, Within-zero u T q.recv_reqs w h))
  still_needed (suc (suc n)) q w h f = omega arith

  -- With a right count, and requests that end well within `n` calls of `progress`, `wait` ends within
  -- one round more than these calls, with no request pending.
  pub wait_request_lem :
      (rounds n : ℕ) (q : OsuRequest Request) (w : World)
      → Balanced q
      → q.has_worker ≡ true
      → Within u T n q.recv_reqs w
      → n < rounds
      → (q' : OsuRequest Request) × (w' : World) × (wait_request u fuel rounds q w ≡ ok (q', w'))
        × (pending q'.recv_reqs ≡ 0)
        × (q'.remaining ≡ 0)
        × Quiet u T w w'
  unfolding wait_request
  wait_request_lem zero n q w balanced worker h lt = absurd (omega arith)
  wait_request_lem (suc rounds) n q w balanced worker h lt =
      let (done, q₁, w₁, (tested, same, balanced₁, h₁, quiet₁), worker₁) =
        test_lem n q w balanced worker h in
      elim (Bool-cases done) [
        | inl finished ↦
            let none_left = ==→eq (pending q₁.recv_reqs) 0 (sym same ∙ finished) in
            (
              q₁,
              w₁,
              rw (wait_request, tested, finished),
              none_left,
              balanced₁.0 ∙ none_left,
              quiet₁,
            )
        | inr more ↦
            let (q₂, w₂, ran, gone, left, quiet₂) =
              wait_request_lem rounds (n - 1) q₁ w₁ balanced₁ worker₁ h₁
                (omega (arith, lt, still_needed n q₁ w₁ h₁ (sym same ∙ more))) in
            (
              q₂,
              w₂,
              rw (wait_request, tested, more) ran,
              gone,
              left,
              (quiet₂.0 ∙ quiet₁.0, quiet₂.1 ∙ quiet₁.1),
            )
      ]

-- ===== src/Runtime/Wait.antt =====
-- The wait loops end, and what the single sends and receives do, from the assumptions on UCX.
use osu_micro_benchmarks_rs.Prelude.{
  ℕ, zero, suc, ◌-◌, ◌≤◌, ◌<◌, ◌≡◌, ◌≢◌, refl, ◌∙◌, ap, Bool, true, false, Option, none, some, List,
  [], ◌∷◌, ◌++◌, arith, Bool-cases, Option-cases, length, lt→ltb, inl, inr, append-nil, drop,
}
use osu_micro_benchmarks_rs.Rust.{Outcome, ok, ◌>>=◌, ◌>>◌}
use osu_micro_benchmarks_rs.Ucx.{Ucx, Send, TagMatching, full_mask}
use osu_micro_benchmarks_rs.Runtime.{
  Context, unwrap_or_false, drain, progress, wait_for, wait, try_send, send, send_wait, try_recv,
  post_recv, recv,
}

pub drop-length {ℓ} : {A : Type ℓ} (xs : List A) → drop (length xs) xs ≡ []
drop-length [] = refl
drop-length (x ∷ xs) = drop-length xs

pub drop_all {ℓ} : {A : Type ℓ} (n : ℕ) (xs : List A) → n ≡ length xs → drop n xs ≡ []
drop_all n xs h = rw h (drop-length xs)

pub unwrap_or_false-eq_true : (o : Option Bool) → unwrap_or_false o ≡ true → o ≡ some true
unwrap_or_false-eq_true none h = cc
unwrap_or_false-eq_true (some b) h = cc

module _ (u : Ucx) (T : TagMatching u) where
  open u use {World, Request, tag_send, tag_recv, check_finished, received, progress as poll}

  -- What progress leaves as it was.
  abbrev pub Quiet : World → World → Type 0
  Quiet w w' = (T.incoming w' ≡ T.incoming w) × (T.sent w' ≡ T.sent w)

  -- What a send to a rank of the job does to the network.
  abbrev pub Sends : World → Send → World → Type 0
  Sends w s w' = (T.sent w' ≡ T.sent w ++ s ∷ []) × (T.incoming w' ≡ T.incoming w)

  -- What taking the next message of a tag does to the network.
  abbrev pub Takes : World → ℕ → List (List ℕ) → World → Type 0
  Takes w t ms w' =
      (T.incoming w' t ≡ ms)
      × ((t' : ℕ) → t' ≢ t → T.incoming w' t' ≡ T.incoming w t')
      × (T.sent w' ≡ T.sent w)

  pub drain_lem :
      (n : ℕ) (w : World)
      → T.busy w < n
      → (w' : World) × (drain u n w ≡ ok (tt, w'))
        × Quiet w w'
        × ((r : Request) → T.waiting r w' ≤ T.waiting r w - 1)
  unfolding drain
  drain_lem zero w h = absurd (omega arith)
  drain_lem (suc n) w h = elim (Bool-cases (poll w).0) [
    | inl more ↦
        let rest = drain_lem n (poll w).1 (omega (arith, T.progress_busy w more)) in
        (
          rest.0,
          rw (more, drain) rest.1,
          (rest.2.0 ∙ T.progress_incoming w, rest.2.1 ∙ T.progress_sent w),
          λ r. omega (arith, rest.3 r, T.progress_waiting r w),
        )
    | inr idle ↦ (
      (poll w).1,
      rw (idle, drain),
      (T.progress_incoming w, T.progress_sent w),
      λ r. T.progress_waiting r w,
    )
  ]

  -- A request that is finished before `drain` is finished after it.
  drain-finished :
      (n : ℕ) (r : Request) (w w' : World)
      → drain u n w ≡ ok (tt, w')
      → check_finished r w ≡ some true
      → check_finished r w' ≡ some true
  unfolding drain
  drain-finished zero r w w' e f = cc
  drain-finished (suc n) r w w' e f = elim (Bool-cases (poll w).0) [
    | inl more ↦
        drain-finished n r (poll w).1 w' (rw (more, drain) at e) (T.progress_finished r w f)
    | inr idle ↦
        let same : Outcome.ok ((tt {0}), (poll w).1) ≡ ok (tt, w') = rw (idle, drain) at e in
        let last = T.progress_finished r w f in cc
  ]

module _ (u : Ucx) (T : TagMatching u) (fuel : ℕ) (enough : T.lag ≤ fuel) where
  open u use {World, Request, tag_send, tag_recv, check_finished, received}

  -- With the lag of the network as fuel, a wait ends, and the request is finished.
  pub wait_for_lem :
      (n : ℕ) (r : Request) (w : World)
      → T.Completes r
      → T.waiting r w < n
      → (w' : World) × (wait_for u fuel n r w ≡ ok (tt, w'))
        × (check_finished r w' ≡ some true)
        × Quiet u T w w'
  unfolding wait_for progress
  wait_for_lem zero r w ends h = absurd (omega arith)
  wait_for_lem (suc n) r w ends h = elim (Bool-cases (unwrap_or_false (check_finished r w))) [
    | inl done ↦
        (w, rw (done, wait_for), unwrap_or_false-eq_true (check_finished r w) done, (refl, refl))
    | inr more ↦
        let polled = drain_lem u T fuel w (omega (arith, T.busy-lt-lag w)) in
        let due = not_due r w ends more in
        let rest = wait_for_lem n r polled.0 ends (omega (arith, polled.3 r, due)) in
        (
          rest.0,
          rw (more, wait_for, polled.1) rest.1,
          rest.2,
          (rest.3.0 ∙ polled.2.0, rest.3.1 ∙ polled.2.1),
        )
  ]
    where
      not_due :
          (r : Request) (w : World)
          → T.Completes r
          → unwrap_or_false (check_finished r w) ≡ false
          → 0 < T.waiting r w
      not_due r w ends h = ground (arith, T.finished_when_due r w ends)

  -- `progress` returns, and brings every request nearer.
  pub progress_lem :
      (w : World)
      → (w' : World) × (progress u fuel w ≡ ok (tt, w'))
        × Quiet u T w w'
        × ((r : Request) → T.waiting r w' ≤ T.waiting r w - 1)
  unfolding progress
  progress_lem w = drain_lem u T fuel w (omega (arith, T.busy-lt-lag w))

  pub progress-finished :
      (r : Request) (w w' : World)
      → progress u fuel w ≡ ok (tt, w')
      → check_finished r w ≡ some true
      → check_finished r w' ≡ some true
  unfolding progress
  progress-finished r w w' e f = drain-finished u T fuel r w w' e f

  pub wait_lem :
      (r : Request) (w : World)
      → T.Completes r
      → (w' : World) × (wait u fuel r w ≡ ok (tt, w'))
        × (check_finished r w' ≡ some true)
        × Quiet u T w w'
  unfolding wait
  wait_lem r w ends = wait_for_lem fuel r w ends (omega (arith, T.waiting-lt-lag r w))

  pub try_send_lem :
      (c : Context) (d : ℕ) (m : List ℕ) (t : ℕ) (w : World)
      → d < c.size
      → (q : Option Request) × (w' : World) × (try_send u fuel c d m t w ≡ ok (some q, w'))
        × ((r : Request) → q ≡ some r → T.Completes r)
        × Sends u T w (record { dst = d; tag = t; msg = m }) w'
  unfolding try_send
  try_send_lem c d m t w h = elim (Option-cases (tag_send d m t w).0) [
    | inl e ↦ absurd (T.send_accepted d m t w e)
    | inr (q, e) ↦ (
      q,
      (tag_send d m t w).1,
      rw (lt→ltb d c.size h, ← e),
      λ r same. T.send_Completes d m t w r (e ∙ ap some same),
      (T.send_logged d m t w, T.send_keeps d m t w),
    )
  ]

  pub send_lem :
      (c : Context) (d : ℕ) (m : List ℕ) (t : ℕ) (w : World)
      → d < c.size
      → (w' : World) × (send u fuel c d m t w ≡ ok (tt, w'))
        × Sends u T w (record { dst = d; tag = t; msg = m }) w'
  unfolding send
  send_lem c d m t w h =
      let (q, w', e, _, s) = try_send_lem c d m t w h in (w', rw (e, send, ◌>>=◌), s)

  pub send_wait_lem :
      (c : Context) (d : ℕ) (m : List ℕ) (t : ℕ) (w : World)
      → d < c.size
      → (w' : World) × (send_wait u fuel c d m t w ≡ ok (tt, w'))
        × Sends u T w (record { dst = d; tag = t; msg = m }) w'
  unfolding send_wait
  send_wait_lem c d m t w h =
      let (q, w', e, ends, s) = try_send_lem c d m t w h in finish q w' e ends s
    where
      finish :
          (q : Option Request) (w' : World)
          → try_send u fuel c d m t w ≡ ok (some q, w')
          → ((r : Request) → q ≡ some r → T.Completes r)
          → Sends u T w (record { dst = d; tag = t; msg = m }) w'
          → (w'' : World) × (send_wait u fuel c d m t w ≡ ok (tt, w''))
            × Sends u T w (record { dst = d; tag = t; msg = m }) w''
      finish none w' e ends s = (w', rw (e, send_wait, ◌>>=◌), s)
      finish (some req) w' e ends s =
          let (w'', done, _, q) = wait_lem req w' (ends req refl) in
          (w'', rw (e, send_wait, ◌>>=◌, done), (q.1 ∙ s.0, q.0 ∙ s.1))

  pub try_recv_lem :
      (n t : ℕ) (w : World) (m : List ℕ) (ms : List (List ℕ))
      → T.incoming w t ≡ m ∷ ms
      → length m ≤ n
      → (r : Request) × (w' : World) × (try_recv u fuel n t w ≡ ok (some (some r), w'))
        × (T.message r ≡ m)
        × T.Completes r
        × Takes u T w t ms w'
  unfolding try_recv
  try_recv_lem n t w m ms e fits =
      let (r, hit, same, ends, left) = T.recv_matched n t w m ms e fits in
      (
        r,
        (tag_recv n t full_mask w).1,
        rw hit,
        same,
        ends,
        (left, λ t' h. T.recv_others n t t' w h, T.recv_logged n t w),
      )

  pub post_recv_lem :
      (n t : ℕ) (w : World) (m : List ℕ) (ms : List (List ℕ))
      → T.incoming w t ≡ m ∷ ms
      → length m ≤ n
      → (r : Request) × (w' : World) × (post_recv u fuel n t w ≡ ok (r, w'))
        × (T.message r ≡ m)
        × T.Completes r
        × Takes u T w t ms w'
  unfolding post_recv try_recv
  post_recv_lem n t w m ms e fits =
      let (r, hit, same, ends, left) = T.recv_matched n t w m ms e fits in
      (
        r,
        (tag_recv n t full_mask w).1,
        rw (hit, post_recv),
        same,
        ends,
        (left, λ t' h. T.recv_others n t t' w h, T.recv_logged n t w),
      )

  -- A blocking receive of a message that fills the buffer returns that message.
  pub recv_lem :
      (buf : List ℕ) (t : ℕ) (w : World) (m : List ℕ) (ms : List (List ℕ))
      → T.incoming w t ≡ m ∷ ms
      → length m ≡ length buf
      → (w' : World) × (recv u fuel buf t w ≡ ok (m, w')) × Takes u T w t ms w'
  unfolding recv
  recv_lem buf t w m ms e h =
      let (r, w', posted, same, ends, (left, others, logged)) =
        post_recv_lem (length buf) t w m ms e (omega (arith, h)) in
      let (w'', done, finished, (q, l)) = wait_lem r w' ends in
      (
        w'',
        rw
            (
              posted,
              recv,
              ◌>>=◌,
              ◌>>◌,
              done,
              T.finished_filled r buf w'' ends finished (rw same (omega (arith, h))),
              same,
            )
            (rw (drop_all (length m) buf h, append-nil)),
        (rw q left, λ t' ne. rw q (others t' ne), l ∙ logged),
      )

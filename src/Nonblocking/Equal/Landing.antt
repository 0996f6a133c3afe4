-- ===== src/Nonblocking/Equal/Landing.antt =====
-- The broadcast whose receive is posted on `recvbuf`: what the buffer holds after `wait`.
use osu_micro_benchmarks_rs.Prelude.{
  ℕ, zero, suc, ◌≤◌, ◌<◌, ◌≡◌, ◌≢◌, refl, ◌∙◌, ap, true, false, none, some, List, [], ◌∷◌, ◌++◌,
  inl, inr, arith, Bool-cases, length, drop, lt→leb_false, ne→==_false,
}
use osu_micro_benchmarks_rs.Rust.{ok, ◌>>=◌}
use osu_micro_benchmarks_rs.Ucx.{Ucx, TagMatching}
use osu_micro_benchmarks_rs.Runtime.{Context, unwrap_or_false, progress}
use osu_micro_benchmarks_rs.Runtime.Wait.{
  Quiet, Takes, progress_lem, progress-finished, post_recv_lem, unwrap_or_false-eq_true,
}
use osu_micro_benchmarks_rs.Collective.Equal.{bcast_tag}
use osu_micro_benchmarks_rs.Nonblocking.{
  OsuRequest, Recvbuf, awaiting, contents, posted, test, sweep, wait_request,
}
use osu_micro_benchmarks_rs.Nonblocking.Requests.{pending}
use osu_micro_benchmarks_rs.Nonblocking.Equal.{ibcast_ucx}

module _ (u : Ucx) (T : TagMatching u) (fuel : ℕ) (enough : T.lag ≤ fuel) where
  open u use {World, Request, check_finished, received}

  -- `test` of the handle of one request.
  test_done :
      (r : Request) (w w₁ : World)
      → unwrap_or_false (check_finished r w) ≡ true
      → progress u fuel w ≡ ok (tt, w₁)
      → test u fuel (posted u fuel (some r ∷ [], 1)) w
        ≡ ok ((true, record { recv_reqs = none ∷ []; has_worker = true; remaining = 0 }), w₁)
  unfolding test sweep posted
  test_done r w w₁ done polled = rw (test, polled, done) refl

  test_pending :
      (r : Request) (w w₁ : World)
      → unwrap_or_false (check_finished r w) ≡ false
      → progress u fuel w ≡ ok (tt, w₁)
      → test u fuel (posted u fuel (some r ∷ [], 1)) w
        ≡ ok ((false, posted u fuel (some r ∷ [], 1)), w₁)
  unfolding test sweep posted
  test_pending r w w₁ more polled = rw (test, polled, more) refl

  -- The handle of one request: its wait ends once the request is finished.
  wait_single_lem :
      (rounds : ℕ) (r : Request) (w : World)
      → T.Completes r
      → T.waiting r w < rounds
      → (q : OsuRequest Request) × (w' : World) × (wait_request u fuel rounds
            (posted u fuel (some r ∷ [], 1))
            w
          ≡ ok (q, w'))
        × (pending q.recv_reqs ≡ 0)
        × (check_finished r w' ≡ some true)
        × Quiet u T w w'
  unfolding wait_request
  wait_single_lem zero r w ends lt = absurd (omega arith)
  wait_single_lem (suc rounds) r w ends lt =
      let (w₁, polled, quiet, less) = progress_lem u T fuel enough w in
      elim (Bool-cases (unwrap_or_false (check_finished r w))) [
        | inl done ↦ (
          record { recv_reqs = none ∷ []; has_worker = true; remaining = 0 },
          w₁,
          rw (wait_request, test_done r w w₁ done polled) refl,
          refl,
          progress-finished u T fuel enough r w w₁ polled
              (unwrap_or_false-eq_true (check_finished r w) done),
          quiet,
        )
        | inr more ↦
            let due = not_due more in
            let (q, w₂, ran, gone, finished, quiet₂) =
              wait_single_lem rounds r w₁ ends (omega (arith, less r, due, lt)) in
            (
              q,
              w₂,
              rw (wait_request, test_pending r w w₁ more polled) ran,
              gone,
              finished,
              (quiet₂.0 ∙ quiet.0, quiet₂.1 ∙ quiet.1),
            )
      ]
    where
      not_due : unwrap_or_false (check_finished r w) ≡ false → 0 < T.waiting r w
      not_due f = ground (arith, T.finished_when_due r w ends)

  -- `ibcast` without OpenSHMEM and then `wait`, on a rank of a job of two or more that is not the root,
  -- with a message that fits into `recvbuf`: the wait ends, the message is taken, nothing is sent, and
  -- `recvbuf` holds the message and, behind it, the bytes that it had there.
  pub ibcast_ucx-wait_request :
      (rounds : ℕ) (c : Context) (sendbuf recvbuf : List ℕ) (root : ℕ) (m : List ℕ)
      (rest : List (List ℕ)) (w : World)
      → T.lag < rounds
      → 1 < c.size
      → c.rank ≢ root
      → T.incoming w bcast_tag ≡ m ∷ rest
      → length m ≤ length recvbuf
      → (b : Recvbuf Request) × (q q' : OsuRequest Request) × (w₁ w' : World) × (ibcast_ucx u fuel c
            sendbuf recvbuf root w
          ≡ ok ((b, q), w₁))
        × (wait_request u fuel rounds q w₁ ≡ ok (q', w'))
        × (contents u b w' ≡ m ++ drop (length m) recvbuf)
        × (pending q'.recv_reqs ≡ 0)
        × Takes u T w bcast_tag rest w'
  unfolding ibcast_ucx contents
  ibcast_ucx-wait_request rounds c sendbuf recvbuf root m rest w more many other i fits =
      let (r, w₁, ran, same, ends, (left, others, logged)) =
        post_recv_lem u T fuel enough (length recvbuf) bcast_tag w m rest i fits in
      let (q, w₂, waited, gone, finished, (q_in, q_sent)) =
        wait_single_lem rounds r w₁ ends (omega (arith, T.waiting-lt-lag r w₁, more)) in
      let held : length (T.message r) ≤ length recvbuf = rw same fits in
      (
        awaiting recvbuf r,
        posted u fuel (some r ∷ [], 1),
        q,
        w₁,
        w₂,
        rw (lt→leb_false c.size 1 many, ne→==_false c.rank root other, ran, ◌>>=◌) refl,
        waited,
        T.finished_filled r recvbuf w₂ ends finished held
            ∙ ap (λ x. x ++ drop (length x) recvbuf) same,
        gone,
        (
          ap (λ f. f bcast_tag) q_in ∙ left,
          λ t' ne. ap (λ f. f t') q_in ∙ others t' ne,
          q_sent ∙ logged,
        ),
      )

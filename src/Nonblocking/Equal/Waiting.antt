-- ===== src/Nonblocking/Equal/Waiting.antt =====
-- A non-blocking collective and then `wait`: the handle ends the collective.
use osu_micro_benchmarks_rs.Prelude.{
  ℕ, suc, ◌*◌, ◌≤◌, ◌<◌, ◌≡◌, refl, ◌∙◌, ap, true, List, [], ◌∷◌, ◌++◌, ◌%◌, length, lt→leb_false,
  set,
}
use osu_micro_benchmarks_rs.Rust.{ok, ◌>>=◌, >>=-ok, >>->>=-ok}
use osu_micro_benchmarks_rs.Rust.Chunks.{Sized, flatten, chunks, copy_chunk}
use osu_micro_benchmarks_rs.Ucx.{Ucx, Send, TagMatching}
use osu_micro_benchmarks_rs.Runtime.{Context, send_to_peers}
use osu_micro_benchmarks_rs.Runtime.Wait.{Quiet}
use osu_micro_benchmarks_rs.Runtime.Slots.{to_peers, Exchanges}
use osu_micro_benchmarks_rs.Collective.Scalars.{barrier_tag, reduce_u64_tag}
use osu_micro_benchmarks_rs.Collective.Equal.{allgather_tag, reduce_tag}
use osu_micro_benchmarks_rs.Nonblocking.{OsuRequest, Recvbuf, settled, contents, wait_request}
use osu_micro_benchmarks_rs.Nonblocking.Requests.{
  pending, Balanced, AllComplete, Within-lag, wait_request_lem,
}
use osu_micro_benchmarks_rs.Nonblocking.Equal.{
  post_from_peers, ibarrier, iallreduce_ucx, iallgather, ireduce,
}
use osu_micro_benchmarks_rs.Nonblocking.Equal.Posting.{exchange_posted_lem}
use osu_micro_benchmarks_rs.Rust.Bytes.{to_le_bytes}

module _ (u : Ucx) (T : TagMatching u) (fuel : ℕ) (enough : T.lag ≤ fuel) where
  open u use {World, Request}

  -- Waiting for such a handle takes no more rounds than the lag of the network and one.
  wait_posted_lem :
      (rounds : ℕ) (q : OsuRequest Request) (w : World)
      → T.lag < rounds
      → Balanced q
      → q.has_worker ≡ true
      → AllComplete u T q.recv_reqs
      → (q' : OsuRequest Request) × (w' : World) × (wait_request u fuel rounds q w ≡ ok (q', w'))
        × (pending q'.recv_reqs ≡ 0)
        × (q'.remaining ≡ 0)
        × Quiet u T w w'
  wait_posted_lem rounds q w more balanced worker all =
      wait_request_lem u T fuel enough rounds T.lag q w balanced worker
        (Within-lag u T q.recv_reqs w all) more

  Exchanges-Quiet :
      (w w₁ w₂ : World) (l : List Send) (tag : ℕ) (rest : List (List ℕ))
      → Exchanges u T w l tag rest w₁
      → Quiet u T w₁ w₂
      → Exchanges u T w l tag rest w₂
  Exchanges-Quiet w w₁ w₂ l tag rest (s, i, k) (qi, qs) =
      (qs ∙ s, ap (λ f. f tag) qi ∙ i, λ t' ne. ap (λ f. f t') qi ∙ k t' ne)

  -- `ibarrier` and then `wait`, in a job of two or more ranks: the call returns once it has taken one
  -- message of the barrier's tag, of one byte, from each peer, has sent one to each, and has no request
  -- pending.
  pub ibarrier-wait_request :
      (rounds : ℕ) (c : Context) (ms rest : List (List ℕ)) (w : World)
      → T.lag < rounds
      → c.rank < c.size
      → 1 < c.size
      → suc (length ms) ≡ c.size
      → T.incoming w barrier_tag ≡ ms ++ rest
      → Sized 1 ms
      → (q : OsuRequest Request) × (w' : World) × ((ibarrier u fuel c
              >>= wait_request u fuel rounds)
            w
          ≡ ok (q, w'))
        × (q.remaining ≡ 0)
        × (pending q.recv_reqs ≡ 0)
        × Exchanges u T w (to_peers c (λ peer. c.rank % 256 ∷ []) barrier_tag) barrier_tag rest w'
  unfolding ibarrier
  ibarrier-wait_request rounds c ms rest w more h many e i sized =
      let (q₁, w₁, ran, balanced, worker, _, all, exchanges) =
        exchange_posted_lem u T fuel enough c (λ peer. c.rank % 256 ∷ []) 1 barrier_tag ms rest w h
          e i sized in
      let (q₂, w₂, waited, gone, left, quiet) =
        wait_posted_lem rounds q₁ w₁ more balanced worker all in
      (
        q₂,
        w₂,
        >>=-ok (ibarrier u fuel c) (wait_request u fuel rounds) w
              (rw (lt→leb_false c.size 1 many) ran)
            ∙ waited,
        left,
        gone,
        Exchanges-Quiet w w₁ w₂ _ barrier_tag rest exchanges quiet,
      )

  -- `iallreduce` without OpenSHMEM and then `wait`, in a job of two or more ranks: the rank sends the
  -- eight bytes of its value once to each peer, takes one message of eight bytes from each, and no
  -- request is left pending. The call has no value to return.
  pub iallreduce_ucx-wait_request :
      (rounds : ℕ) (c : Context) (value : ℕ) (ms rest : List (List ℕ)) (w : World)
      → T.lag < rounds
      → c.rank < c.size
      → 1 < c.size
      → suc (length ms) ≡ c.size
      → T.incoming w reduce_u64_tag ≡ ms ++ rest
      → Sized 8 ms
      → (q : OsuRequest Request) × (w' : World) × ((iallreduce_ucx u fuel c value
              >>= wait_request u fuel rounds)
            w
          ≡ ok (q, w'))
        × (q.remaining ≡ 0)
        × (pending q.recv_reqs ≡ 0)
        × Exchanges u T w
            (to_peers c (λ peer. to_le_bytes 8 value) reduce_u64_tag)
            reduce_u64_tag
            rest
            w'
  unfolding iallreduce_ucx
  iallreduce_ucx-wait_request rounds c value ms rest w more h many e i sized =
      let (q₁, w₁, ran, balanced, worker, _, all, exchanges) =
        exchange_posted_lem u T fuel enough c (λ peer. to_le_bytes 8 value) 8 reduce_u64_tag ms rest
          w h e i sized in
      let (q₂, w₂, waited, gone, left, quiet) =
        wait_posted_lem rounds q₁ w₁ more balanced worker all in
      (
        q₂,
        w₂,
        >>=-ok (iallreduce_ucx u fuel c value) (wait_request u fuel rounds) w
              (rw (lt→leb_false c.size 1 many) ran)
            ∙ waited,
        left,
        gone,
        Exchanges-Quiet w w₁ w₂ _ reduce_u64_tag rest exchanges quiet,
      )

  -- `iallgather` and then `wait`, in a job of two or more ranks, with messages of `n` bytes: the rank sends its bytes once to each
  -- peer and takes one message from each, as in `allgather`, but after the wait `recvbuf` has changed
  -- in the slot of the own rank only: none of the receives is posted on it.
  pub iallgather-wait_request :
      (rounds : ℕ) (c : Context) (sendbuf recvbuf : List ℕ) (n : ℕ) (ms rest : List (List ℕ))
      (w : World)
      → T.lag < rounds
      → c.rank < c.size
      → 1 < c.size
      → length sendbuf ≡ n
      → length recvbuf ≡ c.size * n
      → suc (length ms) ≡ c.size
      → T.incoming w allgather_tag ≡ ms ++ rest
      → Sized n ms
      → (b : Recvbuf Request) × (q q' : OsuRequest Request) × (w₁ w' : World) × (iallgather u fuel c
            sendbuf recvbuf n w
          ≡ ok ((b, q), w₁))
        × (wait_request u fuel rounds q w₁ ≡ ok (q', w'))
        × (contents u b w' ≡ flatten (set (chunks n c.size recvbuf) c.rank sendbuf))
        × (pending q.recv_reqs ≡ length ms)
        × (pending q'.recv_reqs ≡ 0)
        × Exchanges u T w (to_peers c (λ peer. sendbuf) allgather_tag) allgather_tag rest w'
  unfolding iallgather contents
  iallgather-wait_request rounds c sendbuf recvbuf n ms rest w more h many len size e i sized =
      let (q₁, w₁, ran, balanced, worker, count, all, exchanges) =
        exchange_posted_lem u T fuel enough c (λ peer. sendbuf) n allgather_tag ms rest w h e i
          sized in
      let (q₂, w₂, waited, gone, left, quiet) =
        wait_posted_lem rounds q₁ w₁ more balanced worker all in
      (
        settled (flatten (set (chunks n c.size recvbuf) c.rank sendbuf)),
        q₁,
        q₂,
        w₁,
        w₂,
        rw (lt→leb_false c.size 1 many, copy_chunk n c.size c.rank recvbuf sendbuf size h len)
            (>>->>=-ok (send_to_peers u fuel c (λ peer. sendbuf) allgather_tag)
              (post_from_peers u fuel c n allgather_tag) _ w ran),
        waited,
        refl,
        count,
        gone,
        Exchanges-Quiet w w₁ w₂ _ allgather_tag rest exchanges quiet,
      )

  -- `ireduce` and then `wait`, in a job of two or more ranks, with any root and messages of `n` bytes:
  -- the rank sends its bytes
  -- once to each peer and takes one message from each, as in `reduce`, and after the wait `recvbuf` is
  -- as it was, on the root too: none of the receives is posted on it, and nothing is reduced.
  pub ireduce-wait_request :
      (rounds : ℕ) (c : Context) (sendbuf recvbuf : List ℕ) (root n : ℕ) (ms rest : List (List ℕ))
      → (w : World) → T.lag < rounds
      → c.rank < c.size
      → 1 < c.size
      → suc (length ms) ≡ c.size
      → T.incoming w reduce_tag ≡ ms ++ rest
      → Sized n ms
      → (b : Recvbuf Request) × (q q' : OsuRequest Request) × (w₁ w' : World) × (ireduce u fuel c
            sendbuf recvbuf root n w
          ≡ ok ((b, q), w₁))
        × (wait_request u fuel rounds q w₁ ≡ ok (q', w'))
        × (contents u b w' ≡ recvbuf)
        × (pending q'.recv_reqs ≡ 0)
        × Exchanges u T w (to_peers c (λ peer. sendbuf) reduce_tag) reduce_tag rest w'
  unfolding ireduce contents
  ireduce-wait_request rounds c sendbuf recvbuf root n ms rest w more h many e i sized =
      let (q₁, w₁, ran, balanced, worker, count, all, exchanges) =
        exchange_posted_lem u T fuel enough c (λ peer. sendbuf) n reduce_tag ms rest w h e i
          sized in
      let (q₂, w₂, waited, gone, left, quiet) =
        wait_posted_lem rounds q₁ w₁ more balanced worker all in
      (
        settled recvbuf,
        q₁,
        q₂,
        w₁,
        w₂,
        rw (lt→leb_false c.size 1 many) (
            >>->>=-ok (send_to_peers u fuel c (λ peer. sendbuf) reduce_tag)
              (post_from_peers u fuel c n reduce_tag) _ w ran),
        waited,
        refl,
        gone,
        Exchanges-Quiet w w₁ w₂ _ reduce_tag rest exchanges quiet,
      )

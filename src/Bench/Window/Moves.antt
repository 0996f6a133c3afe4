-- ===== src/Bench/Window/Moves.antt =====
-- What windows of messages do to the network: they end, and a window of sends is one message after
-- another to its rank.
use osu_micro_benchmarks_rs.Prelude.{
  ℕ, zero, suc, ◌≤◌, ◌<◌, ◌≡◌, refl, ◌∙◌, sym, ap, Option, none, some, List, [], ◌∷◌, ◌++◌, arith,
  length, replicate, append-nil, append_assoc,
}
use osu_micro_benchmarks_rs.Rust.{ok, ◌>>=◌, ◌>>◌}
use osu_micro_benchmarks_rs.Rust.Chunks.{Sized}
use osu_micro_benchmarks_rs.Ucx.{Ucx, Send, TagMatching}
use osu_micro_benchmarks_rs.Runtime.{Context}
use osu_micro_benchmarks_rs.Runtime.Wait.{
  Quiet, Takes, wait_lem, try_send_lem, send_lem, post_recv_lem,
}
use osu_micro_benchmarks_rs.Runtime.Slots.{Exchanges, Exchanges-intro}
use osu_micro_benchmarks_rs.Bench.Window.{
  data_tag, ack_tag, tracked, post_sends, post_recvs, wait_all, send_window, recv_window,
}

module _ (u : Ucx) (T : TagMatching u) where
  open u use {World, Request}

  pub Takes-then-sends :
      (w w₁ w₂ : World) (l : List Send) (tag : ℕ) (rest : List (List ℕ))
      → Takes u T w tag rest w₁
      → T.sent w₂ ≡ T.sent w₁ ++ l
      → T.incoming w₂ ≡ T.incoming w₁
      → Exchanges u T w l tag rest w₂
  Takes-then-sends w w₁ w₂ l tag rest (left, others, logged) s i = (
    s ∙ ap (λ k. k ++ l) logged,
    ap (λ f. f tag) i ∙ left,
    λ t' ne. ap (λ f. f t') i ∙ others t' ne,
  )

  -- One exchange after another on the same tag.
  pub Exchanges-trans :
      (w w₁ w₂ : World) (l l' : List Send) (tag : ℕ) (rest rest' : List (List ℕ))
      → Exchanges u T w l tag rest w₁
      → Exchanges u T w₁ l' tag rest' w₂
      → Exchanges u T w (l ++ l') tag rest' w₂
  Exchanges-trans w w₁ w₂ l l' tag rest rest' (s, _, same) (s', left, same') = (
    s' ∙ ap (λ k. k ++ l') s ∙ append_assoc (T.sent w) l l',
    left,
    λ t' ne. same' t' ne ∙ same t' ne,
  )

module _ (u : Ucx) (T : TagMatching u) (fuel : ℕ) (enough : T.lag ≤ fuel) where
  open u use {World, Request}

  abbrev pub AllComplete : List Request → Type 0
  AllComplete [] = Unit
  AllComplete (r ∷ rs) = T.Completes r × AllComplete rs

  tracked-AllComplete :
      (q : Option Request) (rs : List Request)
      → ((r : Request) → q ≡ some r → T.Completes r)
      → AllComplete rs
      → AllComplete (tracked u fuel q rs)
  unfolding tracked
  tracked-AllComplete none rs ends all = all
  tracked-AllComplete (some r) rs ends all = (ends r refl, all)

  pub wait_all_lem :
      (rs : List Request) (w : World)
      → AllComplete rs
      → (w' : World) × (wait_all u fuel rs w ≡ ok (tt, w')) × Quiet u T w w'
  unfolding wait_all
  wait_all_lem [] w ends = (w, refl, (refl, refl))
  wait_all_lem (r ∷ rs) w ends =
      let (w₁, ran, _, (i, s)) = wait_lem u T fuel enough r w ends.0 in
      let (w₂, ran', (i', s')) = wait_all_lem rs w₁ ends.1 in
      (w₂, rw (ran, ◌>>◌, ◌>>=◌) ran', (i' ∙ i, s' ∙ s))

  pub post_sends_lem :
      (n : ℕ) (c : Context) (d : ℕ) (m : List ℕ) (t : ℕ) (w : World)
      → d < c.size
      → (rs : List Request) × (w' : World) × (post_sends u fuel n c d m t w ≡ ok (rs, w'))
        × AllComplete rs
        × (T.sent w' ≡ T.sent w ++ replicate n (record { dst = d; tag = t; msg = m }))
        × (T.incoming w' ≡ T.incoming w)
  unfolding post_sends
  post_sends_lem zero c d m t w h = ([], w, refl, tt, sym (append-nil (T.sent w)), refl)
  post_sends_lem (suc n) c d m t w h =
      let s : Send = record { dst = d; tag = t; msg = m } in
      let (q, w₁, ran, ends, (sent, same)) = try_send_lem u T fuel enough c d m t w h in
      let (rs, w₂, ran', all, sent', same') = post_sends_lem n c d m t w₁ h in
      (
        tracked u fuel q rs,
        w₂,
        rw (ran, ◌>>=◌, ran') refl,
        tracked-AllComplete q rs ends all,
        sent'
            ∙ ap (λ k. k ++ replicate n s) sent
            ∙ append_assoc (T.sent w) (s ∷ []) (replicate n s),
        same' ∙ same,
      )

  pub post_recvs_lem :
      (ms rest : List (List ℕ)) (len t : ℕ) (w : World)
      → T.incoming w t ≡ ms ++ rest
      → Sized len ms
      → (rs : List Request) × (w' : World) × (post_recvs u fuel (length ms) len t w ≡ ok (rs, w'))
        × AllComplete rs
        × Takes u T w t rest w'
  unfolding post_recvs
  post_recvs_lem [] rest len t w i s = ([], w, refl, tt, (i, λ t' ne. refl, refl))
  post_recvs_lem (m ∷ ms) rest len t w i s =
      let (r, w₁, ran, _, ends, (left, others, logged)) =
        post_recv_lem u T fuel enough len t w m (ms ++ rest) i (omega (arith, s.0)) in
      let (rs, w₂, ran', all, (left', others', logged')) =
        post_recvs_lem ms rest len t w₁ left s.1 in
      (
        r ∷ rs,
        w₂,
        rw (ran, ◌>>=◌, ran') refl,
        (ends, all),
        (left', λ t' ne. others' t' ne ∙ others t' ne, logged' ∙ logged),
      )

  -- The sender of a window: it sends all of the window, and takes one acknowledgement.
  pub send_window_lem :
      (c : Context) (d : ℕ) (m : List ℕ) (window : ℕ) (ack : List ℕ) (rest : List (List ℕ))
      (w : World)
      → d < c.size
      → T.incoming w ack_tag ≡ ack ∷ rest
      → length ack ≤ 1
      → (w' : World) × (send_window u fuel c d m window w ≡ ok (tt, w'))
        × Exchanges u T w
            (replicate window (record { dst = d; tag = data_tag; msg = m }))
            ack_tag
            rest
            w'
  unfolding send_window
  send_window_lem c d m window ack rest w h i fits =
      let (rs, w₁, ran₁, all, sent, same) = post_sends_lem window c d m data_tag w h in
      let (w₂, ran₂, (i₂, s₂)) = wait_all_lem rs w₁ all in
      let (r, w₃, ran₃, _, ends, (left, others, logged)) =
        post_recv_lem u T fuel enough 1 ack_tag w₂ ack rest (ap (λ f. f ack_tag) (i₂ ∙ same) ∙ i)
          fits in
      let (w₄, ran₄, _, (i₄, s₄)) = wait_lem u T fuel enough r w₃ ends in
      (
        w₄,
        rw (ran₁, ◌>>=◌, ◌>>◌, ran₂, ran₃, ran₄) refl,
        Exchanges-intro u T w w₂ w₄ _ ack_tag rest (s₂ ∙ sent, i₂ ∙ same)
            (ap (λ f. f ack_tag) i₄ ∙ left, λ t' ne. ap (λ f. f t') i₄ ∙ others t' ne, s₄ ∙ logged),
      )

  -- The receiver: it takes all of the window, and sends one acknowledgement.
  pub recv_window_lem :
      (c : Context) (d len : ℕ) (ms rest : List (List ℕ)) (w : World)
      → d < c.size
      → T.incoming w data_tag ≡ ms ++ rest
      → Sized len ms
      → (w' : World) × (recv_window u fuel c d len (length ms) w ≡ ok (tt, w'))
        × Exchanges u T w (record { dst = d; tag = ack_tag; msg = 0 ∷ [] } ∷ []) data_tag rest w'
  unfolding recv_window
  recv_window_lem c d len ms rest w h i sized =
      let (rs, w₁, ran₁, all, (left, others, logged)) =
        post_recvs_lem ms rest len data_tag w i sized in
      let (w₂, ran₂, (i₂, s₂)) = wait_all_lem rs w₁ all in
      let (w₃, ran₃, (sent, same)) = send_lem u T fuel enough c d (0 ∷ []) ack_tag w₂ h in
      (
        w₃,
        rw (ran₁, ◌>>=◌, ◌>>◌, ran₂, ran₃) refl,
        Takes-then-sends u T w w₂ w₃ _ data_tag rest
            (ap (λ f. f data_tag) i₂ ∙ left, λ t' ne. ap (λ f. f t') i₂ ∙ others t' ne, s₂ ∙ logged)
            sent same,
      )

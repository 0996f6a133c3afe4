-- ===== src/Collective/Equal/Rooted.antt =====
-- Broadcast and scatter, and the way from a scatter back by a gather.
use osu_micro_benchmarks_rs.Prelude.{
  ℕ, ◌+◌, ◌*◌, ◌≤◌, ◌<◌, ◌≡◌, ◌≢◌, refl, ◌∙◌, sym, ap, false, List, [], ◌∷◌, ◌++◌, arith, length,
  range, get_or, map, le→leb, lt→leb_false, if_false, eq→==, ne→==_false, append-nil,
}
use osu_micro_benchmarks_rs.Rust.{ok, ◌>>=◌, ◌>>◌}
use osu_micro_benchmarks_rs.Rust.Slice.{copy_at, copy_from_slice}
use osu_micro_benchmarks_rs.Rust.Chunks.{
  Sized, flatten, slice-flatten, copy_at_lem, chunk-le-length, get_or-Sized,
}
use osu_micro_benchmarks_rs.Ucx.{Ucx, Send, TagMatching}
use osu_micro_benchmarks_rs.Ucx.Openshmem.{Openshmem}
use osu_micro_benchmarks_rs.Runtime.{Context}
use osu_micro_benchmarks_rs.Runtime.Wait.{Takes, recv_lem, send_lem, drop_all}
use osu_micro_benchmarks_rs.Runtime.Loops.{others, flat, SendsAll, for_peers_lem, range-All}
use osu_micro_benchmarks_rs.Runtime.Pick.{
  except, pick, insert_at-except, except-Sized, length-except,
}
use osu_micro_benchmarks_rs.Runtime.Slots.{to_peers, send_to_peers_lem}
use osu_micro_benchmarks_rs.Collective.Equal.{
  bcast_tag, scatter_tag, gather_tag, bcast_ucx, bcast, scatter_own, scatter_send, scatter, gather,
}
use osu_micro_benchmarks_rs.Collective.Equal.Gathering.{gather_root_lem}

copy_from_slice_lem :
    (buf src : List ℕ) → length src ≡ length buf → copy_from_slice buf src ≡ ok src
unfolding copy_from_slice
copy_from_slice_lem buf src h = ground arith

-- A copy over a whole buffer.
copy_all :
    (buf src : List ℕ) (n : ℕ) → length buf ≡ n → length src ≡ n → copy_at buf 0 n src ≡ ok src
copy_all buf src n h k =
    copy_at_lem buf 0 n src (omega arith) (omega arith) (omega arith)
    ∙ ap ok (ap (λ t. src ++ t) (drop_all n buf (sym h)) ∙ append-nil src)

append-cancel_left : {A : Type 0} (xs : List A) {ys zs : List A} → xs ++ ys ≡ xs ++ zs → ys ≡ zs
append-cancel_left [] e = e
append-cancel_left (x ∷ xs) e = append-cancel_left xs (cc)

map-flat :
    {A B : Type 0} (f : A → B) (g : ℕ → A) (ps : List ℕ)
    → map f (flat (λ p. g p ∷ []) ps) ≡ map (λ p. f (g p)) ps
map-flat f g [] = refl
map-flat f g (p ∷ ps) = ap (◌∷◌ (f (g p))) (map-flat f g ps)

module _ (u : Ucx) (T : TagMatching u) (fuel : ℕ) (enough : T.lag ≤ fuel) where
  open u use {World}

  -- In a job of two or more, with openshmem off: the root keeps its bytes and sends them once to each
  -- other rank.
  pub bcast_root_lem :
      (o : Openshmem World) (c : Context) (sendbuf recvbuf : List ℕ) (w : World)
      → c.openshmem_initialized ≡ false
      → 1 < c.size
      → length sendbuf ≡ length recvbuf
      → (w' : World) × (bcast u fuel o c sendbuf recvbuf c.rank w ≡ ok (sendbuf, w'))
        × SendsAll u T w (to_peers c (λ peer. sendbuf) bcast_tag) w'
  unfolding bcast bcast_ucx
  bcast_root_lem o c sendbuf recvbuf w off many e =
      let (w', sent, sends) = send_to_peers_lem u T fuel enough c (λ peer. sendbuf) bcast_tag w in
      (
        w',
        if_false _ _ off
            ∙ rw (
              lt→leb_false c.size 1 many,
              eq→== c.rank c.rank refl,
              sent,
              ◌>>◌,
              ◌>>=◌,
              copy_from_slice_lem recvbuf sendbuf e,
            ),
        sends,
      )

  -- Any other rank ends with the message that it receives, and its own bytes play no part.
  pub bcast_other_lem :
      (o : Openshmem World) (c : Context) (sendbuf recvbuf : List ℕ) (root : ℕ) (m : List ℕ)
      → (rest : List (List ℕ)) (w : World) → c.openshmem_initialized ≡ false
      → 1 < c.size
      → c.rank ≢ root
      → length m ≡ length recvbuf
      → T.incoming w bcast_tag ≡ m ∷ rest
      → (w' : World) × (bcast u fuel o c sendbuf recvbuf root w ≡ ok (m, w'))
        × Takes u T w bcast_tag rest w'
  unfolding bcast bcast_ucx
  bcast_other_lem o c sendbuf recvbuf root m rest w off many ne e i =
      let (w', received, takes) = recv_lem u T fuel enough recvbuf bcast_tag w m rest i e in
      (
        w',
        if_false _ _ off ∙ rw (lt→leb_false c.size 1 many, ne→==_false c.rank root ne) received,
        takes,
      )

  scatter_send_lem :
      (c : Context) (cs : List (List ℕ)) (n p : ℕ) (w : World)
      → length cs ≡ c.size
      → Sized n cs
      → p < c.size
      → (w' : World) × (scatter_send u fuel c (flatten cs) n p w ≡ ok (tt, w'))
        × SendsAll u T w (record { dst = p; tag = scatter_tag; msg = get_or cs p [] } ∷ []) w'
  unfolding scatter_send
  scatter_send_lem c cs n p w l sized h =
      let lt : p < length cs = rw l h in
      let (w', sent, sends) = send_lem u T fuel enough c p (get_or cs p []) scatter_tag w h in
      (
        w',
        rw
            (
              le→leb (p * n + n) (length (flatten cs)) (chunk-le-length n cs p sized lt),
              slice-flatten n cs p sized lt,
              ◌>>=◌,
            )
            sent,
        sends,
      )

  -- In a job of two or more the root of a scatter of the chunks `cs` ends with its own chunk, and
  -- sends to each other rank the chunk of that rank.
  pub scatter_root_lem :
      (c : Context) (cs : List (List ℕ)) (recvbuf : List ℕ) (n : ℕ) (w : World)
      → c.rank < c.size
      → 1 < c.size
      → length cs ≡ c.size
      → Sized n cs
      → length recvbuf ≡ n
      → (w' : World) × (scatter u fuel c (flatten cs) recvbuf n c.rank w
          ≡ ok (get_or cs c.rank [], w'))
        × SendsAll u T w (to_peers c (λ p. get_or cs p []) scatter_tag) w'
  unfolding scatter scatter_own
  scatter_root_lem c cs recvbuf n w h many l sized size =
      let lt : c.rank < length cs = rw l h in
      let (w', sent, sends) =
        for_peers_lem u T c.rank c.size (scatter_send u fuel c (flatten cs) n)
          (λ p. record { dst = p; tag = scatter_tag; msg = get_or cs p [] } ∷ [])
          (λ p w h _. scatter_send_lem c cs n p w l sized h) (range 0 c.size) w
          (range-All 0 c.size c.size (omega arith)) in
      (
        w',
        rw (
          lt→leb_false c.size 1 many,
          eq→== c.rank c.rank refl,
          le→leb (c.rank * n + n) (length (flatten cs)) (chunk-le-length n cs c.rank sized lt),
          le→leb n (length recvbuf) (omega arith),
          slice-flatten n cs c.rank sized lt,
          ◌>>=◌,
          copy_all recvbuf (get_or cs c.rank []) n size (get_or-Sized n c.rank cs sized lt),
          ◌>>◌,
          sent,
        ),
        sends,
      )

  -- After a scatter of the chunks `cs` the root has its own piece, and the sends `l` in its log. If its
  -- incoming messages are then the messages that it sent, in their order, its gather restores the
  -- buffer that was scattered.
  pub gather-scatter :
      (c : Context) (cs : List (List ℕ)) (recvbuf back piece : List ℕ) (n : ℕ) (l : List Send)
      → (rest : List (List ℕ)) (w w₁ : World) → c.rank < c.size
      → 1 < c.size
      → length cs ≡ c.size
      → Sized n cs
      → length recvbuf ≡ n
      → length back ≡ c.size * n
      → scatter u fuel c (flatten cs) recvbuf n c.rank w ≡ ok (piece, w₁)
      → T.sent w₁ ≡ T.sent w ++ l
      → T.incoming w₁ gather_tag ≡ map (λ s. s.msg) l ++ rest
      → (w₂ : World) × (gather u fuel c piece back n c.rank w₁ ≡ ok (flatten cs, w₂))
  gather-scatter c cs recvbuf back piece n l rest w w₁ h many k sized size size' ran logged i =
      let (w', scattered, (sent, _)) = scatter_root_lem c cs recvbuf n w h many k sized size in
      let same_piece : piece ≡ get_or cs c.rank [] = cc in
      let same_world : w₁ ≡ w' = cc in
      let same_sends : l ≡ to_peers c (λ p. get_or cs p []) scatter_tag =
        append-cancel_left (T.sent w) (sym logged ∙ ap T.sent same_world ∙ sent) in
      let replies : map (λ (s : Send). s.msg) l ≡ except c.rank cs =
        ap (map (λ (s : Send). s.msg)) same_sends
        ∙ map-flat (λ (s : Send). s.msg)
            (λ p. record { dst = p; tag = scatter_tag; msg = get_or cs p [] })
            (others c.rank (range 0 c.size))
        ∙ rw (sym k) (pick c.rank c.rank [] cs 0 (omega arith) refl) in
      let lt : c.rank < length cs = rw k h in
      let (w₂, gathered, _) =
        gather_root_lem u T fuel enough c (get_or cs c.rank []) back n (except c.rank cs) rest w₁ h
          many (get_or-Sized n c.rank cs sized lt) size' (except-Sized n c.rank cs sized)
          (length-except c.rank cs lt ∙ k) (i ∙ ap (λ ms. ms ++ rest) replies) in
      (
        w₂,
        ap (λ b. gather u fuel c b back n c.rank w₁) same_piece
            ∙ gathered
            ∙ ap (λ l. ok (flatten l, w₂)) (insert_at-except c.rank cs lt),
      )

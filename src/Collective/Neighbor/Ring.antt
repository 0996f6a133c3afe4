-- ===== src/Collective/Neighbor/Ring.antt =====
-- The neighbor allgather on a ring: what is sent, and what the buffer holds.
use osu_micro_benchmarks_rs.Prelude.{
  ℕ, zero, suc, ◌+◌, ◌-◌, ◌*◌, ◌^◌, ◌≤◌, ◌<◌, ◌≡◌, refl, ◌∙◌, sym, ap, ap₂, List, [], ◌∷◌, ◌++◌,
  arith, length, min, replicate, take, drop, lt→leb_false, length-replicate, length-append,
  length-drop, append_assoc,
}
use osu_micro_benchmarks_rs.Rust.{ok, ◌>>=◌, ◌>>◌}
use osu_micro_benchmarks_rs.Rust.Slice.{slice, move_bytes}
use osu_micro_benchmarks_rs.Rust.Chunks.{slice_lem, copy_at_lem}
use osu_micro_benchmarks_rs.Ucx.{Ucx, TagMatching}
use osu_micro_benchmarks_rs.Runtime.{Context}
use osu_micro_benchmarks_rs.Runtime.Wait.{Takes, send_lem, recv_lem}
use osu_micro_benchmarks_rs.Runtime.Loops.{SendsAll}
use osu_micro_benchmarks_rs.Runtime.Slots.{Exchanges, Exchanges-intro}
use osu_micro_benchmarks_rs.Nonblocking.Ring.{prev_rank, next_rank}
use osu_micro_benchmarks_rs.Nonblocking.Ring.Neighbors.{
  before, after, prev_rank-before, next_rank-after, prev_rank-lt, next_rank-lt,
}
use osu_micro_benchmarks_rs.Collective.Neighbor.{
  neighbors, sub_usize, for_neighbors, recv_block, send_both, neighbor_allgather,
  neighbor_allgather_tag,
}

take_all {ℓ} : {A : Type ℓ} (xs : List A) (n : ℕ) → n ≡ length xs → take n xs ≡ xs
take_all [] zero h = refl
take_all [] (suc n) h = absurd (omega arith)
take_all (x ∷ xs) zero h = absurd (omega arith)
take_all (x ∷ xs) (suc n) h = ap (◌∷◌ x) (take_all xs n (omega arith))

-- The whole of a buffer.
slice_all : (buf : List ℕ) (n : ℕ) → n ≡ length buf → slice buf 0 n ≡ ok buf
slice_all buf n h =
    slice_lem buf 0 n (omega arith) (omega arith) ∙ ap ok (take_all buf (n - 0) (omega arith))

-- A message of `n` bytes into a place of the buffer that holds it.
move_all :
    (buf m : List ℕ) (d k : ℕ)
    → k ≡ length m
    → d + k ≤ length buf
    → move_bytes buf d m 0 k ≡ ok (take d buf ++ m ++ drop (d + k) buf)
move_all buf m d k h fits =
    rw (move_bytes, slice_all m (0 + k) (omega arith))
      (copy_at_lem buf d (d + k) m (omega arith) fits (omega arith))

take-append {ℓ} : {A : Type ℓ} (xs ys : List A) (k : ℕ) → k ≡ length xs → take k (xs ++ ys) ≡ xs
take-append [] ys zero h = refl
take-append [] ys (suc k) h = absurd (omega arith)
take-append (x ∷ xs) ys zero h = absurd (omega arith)
take-append (x ∷ xs) ys (suc k) h = ap (◌∷◌ x) (take-append xs ys k (omega arith))

drop-append {ℓ} :
    {A : Type ℓ} (xs ys : List A) (k j : ℕ) → k ≡ length xs + j → drop k (xs ++ ys) ≡ drop j ys
drop-append [] ys k j h = let same : k ≡ j = omega arith in ap (λ n. drop n ys) same
drop-append (x ∷ xs) ys zero j h = absurd (omega arith)
drop-append (x ∷ xs) ys (suc k) j h = drop-append xs ys k j (omega arith)

drop-drop {ℓ} : {A : Type ℓ} (xs : List A) (i j k : ℕ) → k ≡ i + j → drop j (drop i xs) ≡ drop k xs
drop-drop xs zero j k h = let same : j ≡ k = omega arith in ap (λ n. drop n xs) same
drop-drop [] (suc i) zero zero h = refl
drop-drop [] (suc i) zero (suc k) h = refl
drop-drop [] (suc i) (suc j) zero h = refl
drop-drop [] (suc i) (suc j) (suc k) h = refl
drop-drop (x ∷ xs) (suc i) j zero h = absurd (omega arith)
drop-drop (x ∷ xs) (suc i) j (suc k) h = drop-drop xs i j k (omega arith)

-- After the second message: the first `n` bytes of what the first one left.
placed :
    (buf m m' : List ℕ) (n a : ℕ)
    → length m ≡ n
    → n + n ≤ length buf
    → a ≡ 0
    → (length (take a buf ++ m ++ drop (a + n) buf) ≡ length buf)
      × (take (1 * n) (take a buf ++ m ++ drop (a + n) buf)
            ++ m'
            ++ drop (1 * n + n) (take a buf ++ m ++ drop (a + n) buf)
          ≡ m ++ (m' ++ drop (n + n) buf))
placed buf m m' n a e room z =
    let rest = drop n buf in
    let once : take a buf ++ m ++ drop (a + n) buf ≡ m ++ rest =
      ap (λ a. take a buf ++ m ++ drop (a + n) buf) z ∙ ap (λ k. m ++ drop k buf) (omega arith) in
    (
      ap length once ∙ omega (arith, length-append m rest, length-drop n buf),
      rw
          (
            once,
            take-append m rest (1 * n) (omega (arith, e)),
            drop-append m rest (1 * n + n) n (omega (arith, e)),
            drop-drop buf n n (n + n) refl,
          )
          (append_assoc m m' _),
    )

module _ (u : Ucx) (T : TagMatching u) (fuel : ℕ) (enough : T.lag ≤ fuel) where
  open u use {World}

  recv_block_lem :
      (n tag i src : ℕ) (buf m : List ℕ) (ms : List (List ℕ)) (w : World)
      → length m ≡ n
      → i * n + n ≤ length buf
      → T.incoming w tag ≡ m ∷ ms
      → (w' : World) × (recv_block u fuel n tag i src buf w
          ≡ ok (take (i * n) buf ++ m ++ drop (i * n + n) buf, w'))
        × Takes u T w tag ms w'
  unfolding recv_block
  recv_block_lem n tag i src buf m ms w len fits inc =
      let zeros : length (replicate {A = ℕ} n 0) ≡ n = length-replicate n 0 in
      let (w', received, takes) =
        recv_lem u T fuel enough (replicate n 0) tag w m ms inc (len ∙ sym zeros) in
      let size : min (sub_usize (min (i * n + n) (length buf)) (i * n)) (length m) ≡ n =
        ground arith in
      (
        w',
        rw (recv_block, ◌>>=◌, received, size, move_all buf m (i * n) n (sym len) fits) refl,
        takes,
      )

  -- One message to both neighbors.
  send_both_lem :
      (c : Context) (sendbuf : List ℕ) (n tag : ℕ) (w : World)
      → 0 < c.size
      → length sendbuf ≡ n
      → (w' : World) × (send_both u fuel c sendbuf n tag w ≡ ok (tt, w'))
        × SendsAll u T w
            (record { dst = prev_rank c.size c.rank; tag = tag; msg = sendbuf }
              ∷ record { dst = next_rank c.size c.rank; tag = tag; msg = sendbuf }
              ∷ [])
            w'
  unfolding send_both neighbors for_neighbors
  send_both_lem c sendbuf n tag w h len =
      let piece : slice sendbuf 0 (min n (length sendbuf)) ≡ ok sendbuf =
        slice_all sendbuf _ (omega (arith, len)) in
      let (w₁, sent₁, (s₁, i₁)) =
        send_lem u T fuel enough c (prev_rank c.size c.rank) sendbuf tag w
          (prev_rank-lt c.size c.rank h) in
      let (w₂, sent₂, (s₂, i₂)) =
        send_lem u T fuel enough c (next_rank c.size c.rank) sendbuf tag w₁
          (next_rank-lt c.size c.rank h) in
      (
        w₂,
        rw (piece, ◌>>=◌, sent₁, piece, ◌>>=◌, sent₂) refl,
        (
          s₂
              ∙ ap
                  (λ l.
                    l ++ (record { dst = next_rank c.size c.rank; tag = tag; msg = sendbuf } ∷ []))
                  s₁
              ∙ append_assoc (T.sent w) _ _,
          i₂ ∙ i₁,
        ),
      )

  -- In a job of two or more a rank sends its bytes to two ranks: first to the one before it, where rank
  -- 0 takes the remainder of 2 ^ 64 - 1 by the size, and then to the one after it, where the last rank
  -- takes rank 0. Its buffer begins with the two messages that arrive, in the order of their arrival.
  pub neighbor_allgather_lem :
      (c : Context) (sendbuf recvbuf : List ℕ) (n : ℕ) (m m' : List ℕ) (rest : List (List ℕ))
      (w : World)
      → c.rank < c.size
      → c.size ≤ 2 ^ 64
      → 1 < c.size
      → length sendbuf ≡ n
      → n + n ≤ length recvbuf
      → length m ≡ n
      → length m' ≡ n
      → T.incoming w neighbor_allgather_tag ≡ m ∷ m' ∷ rest
      → (w' : World) × (neighbor_allgather u fuel c sendbuf recvbuf n w
          ≡ ok (m ++ (m' ++ drop (n + n) recvbuf), w'))
        × Exchanges u T w
            (record { dst = before c.size c.rank; tag = neighbor_allgather_tag; msg = sendbuf }
              ∷ record { dst = after c.size c.rank; tag = neighbor_allgather_tag; msg = sendbuf }
              ∷ [])
            neighbor_allgather_tag
            rest
            w'
  unfolding neighbor_allgather neighbors for_neighbors
  neighbor_allgather_lem c sendbuf recvbuf n m m' rest w h small many len room e e' inc =
      let tag = neighbor_allgather_tag in
      let (w₁, sent, sends) = send_both_lem c sendbuf n tag w (omega (arith, many)) len in
      let buf = take (0 * n) recvbuf ++ m ++ drop (0 * n + n) recvbuf in
      let (w₂, first, (left₂, others₂, sent₂)) =
        recv_block_lem n tag 0 (prev_rank c.size c.rank) recvbuf m (m' ∷ rest) w₁ e
          (omega (arith, room)) (ap (λ f. f tag) sends.1 ∙ inc) in
      let (w₃, second, (left₃, others₃, sent₃)) =
        recv_block_lem n tag 1 (next_rank c.size c.rank) buf m' rest w₂ e'
          (omega (arith, room, (placed recvbuf m m' n (0 * n) e room (omega arith)).0)) left₂ in
      (
        w₃,
        rw (lt→leb_false c.size 1 many, sent, ◌>>◌, ◌>>=◌, first, second)
            (ap (λ b. ok (b, w₃)) (placed recvbuf m m' n (0 * n) e room (omega arith)).1),
        Exchanges-intro u T w w₁ w₃ _ tag rest
            (
              sends.0
                  ∙ ap₂
                      (λ (p q : ℕ).
                        T.sent w
                        ++ (record { dst = p; tag = tag; msg = sendbuf }
                            ∷ record { dst = q; tag = tag; msg = sendbuf }
                            ∷ []))
                      (prev_rank-before c.size c.rank h small) (next_rank-after c.size c.rank h),
              sends.1,
            )
            (left₃, λ t' ne. others₃ t' ne ∙ others₂ t' ne, sent₃ ∙ sent₂),
      )

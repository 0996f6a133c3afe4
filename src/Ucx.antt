-- ===== src/Ucx.antt =====
-- The part of ucx-sys that the runtime calls, as a parameter: a worker with its endpoints.
-- ucx-sys is not part of this repository, so its operations have no definition here.
pub mod Openshmem
pub mod Mailbox
pub mod Rma
use osu_micro_benchmarks_rs.Prelude.{
  ℕ, ◌+◌, ◌-◌, ◌≤◌, ◌<◌, ◌≡◌, ◌≢◌, Bool, true, false, Option, none, some, List, [], ◌∷◌, ◌++◌,
  length, drop,
}

-- 64 set bits: the mask that makes two tags match only if they are equal.
abbrev pub full_mask : ℕ
full_mask = 0xffff_ffff_ffff_ffff

pub record Ucx : Type 1 where
  pub World : Type 0
  pub Request : Type 0
  -- `Ep::tag_send` to a rank; `none` is an error, `some none` a send that completed at once
  pub tag_send : ℕ → List ℕ → ℕ → World → Option (Option Request) × World
  -- `Worker::tag_recv` into a buffer of a length, with a tag and a mask
  pub tag_recv : ℕ → ℕ → ℕ → World → Option (Option Request) × World
  pub check_finished : Request → World → Option Bool
  pub progress : World → Bool × World
  -- what the receive buffer of a request holds, from what it held when it was posted
  pub received : Request → List ℕ → World → List ℕ

pub record Send : Type 0 where
  pub dst : ℕ
  pub tag : ℕ
  pub msg : List ℕ

module _ (u : Ucx) where
  open u use {World, Request, tag_send, tag_recv, check_finished, progress, received}

  -- Tag matching as UCX documents it, seen from one rank. `incoming` lists for each tag the messages
  -- in the order in which its receives will match them; that order is the network's choice.
  pub record TagMatching : Type 1 where
    pub incoming : World → ℕ → List (List ℕ)
    pub sent : World → List Send
    -- the message that a posted receive was matched with
    pub message : Request → List ℕ
    -- how many calls of `progress` a request still needs, and how many report work
    pub waiting : Request → World → ℕ
    pub busy : World → ℕ
    pub lag : ℕ
    -- A request that ends well: a send, or a receive that was matched with a message that fits into its
    -- buffer. Nothing is assumed of the others: a receive that no message matches stays pending, and one
    -- whose message is too long ends with an error.
    pub Completes : Request → Type 0
    pub waiting-lt-lag : (r : Request) (w : World) → waiting r w < lag
    pub busy-lt-lag : (w : World) → busy w < lag
    -- a send is accepted and logged, and takes nothing from the incoming messages
    pub send_accepted : (d : ℕ) (m : List ℕ) (t : ℕ) (w : World) → (tag_send d m t w).0 ≢ none
    pub send_logged :
        (d : ℕ) (m : List ℕ) (t : ℕ) (w : World)
        → sent (tag_send d m t w).1 ≡ sent w ++ (record { dst = d; tag = t; msg = m } ∷ [])
    pub send_keeps :
        (d : ℕ) (m : List ℕ) (t : ℕ) (w : World) → incoming (tag_send d m t w).1 ≡ incoming w
    pub send_Completes :
        (d : ℕ) (m : List ℕ) (t : ℕ) (w : World) (r : Request)
        → (tag_send d m t w).0 ≡ some (some r)
        → Completes r
    -- a receive is matched with the next message of its tag, if that fits into the buffer
    pub recv_matched :
        (n t : ℕ) (w : World) (m : List ℕ) (ms : List (List ℕ))
        → incoming w t ≡ m ∷ ms
        → length m ≤ n
        → (r : Request) × ((tag_recv n t full_mask w).0 ≡ some (some r))
          × (message r ≡ m)
          × Completes r
          × (incoming (tag_recv n t full_mask w).1 t ≡ ms)
    pub recv_others :
        (n t t' : ℕ) (w : World) → t' ≢ t → incoming (tag_recv n t full_mask w).1 t' ≡ incoming w t'
    pub recv_logged : (n t : ℕ) (w : World) → sent (tag_recv n t full_mask w).1 ≡ sent w
    -- progress moves every request on, and runs out of work
    pub progress_waiting : (r : Request) (w : World) → waiting r (progress w).1 ≤ waiting r w - 1
    pub progress_busy : (w : World) → (progress w).0 ≡ true → busy (progress w).1 < busy w
    pub progress_incoming : (w : World) → incoming (progress w).1 ≡ incoming w
    pub progress_sent : (w : World) → sent (progress w).1 ≡ sent w
    -- a finished request stays finished
    pub progress_finished :
        (r : Request) (w : World)
        → check_finished r w ≡ some true
        → check_finished r (progress w).1 ≡ some true
    -- a request that ends well and needs no more progress is finished, and a finished one has filled its
    -- buffer
    pub finished_when_due :
        (r : Request) (w : World) → Completes r → waiting r w ≡ 0 → check_finished r w ≡ some true
    pub finished_filled :
        (r : Request) (buf : List ℕ) (w : World)
        → Completes r
        → check_finished r w ≡ some true
        → length (message r) ≤ length buf
        → received r buf w ≡ message r ++ drop (length (message r)) buf

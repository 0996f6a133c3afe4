-- ===== src/Bench/Window.antt =====
-- Windows of messages, as the bandwidth programs use them: post a number of sends or receives, then
-- wait for each. The receives of a window share one buffer, which no program reads, so that its length
-- is enough here.
pub mod Moves
use osu_micro_benchmarks_rs.Prelude.{ℕ, zero, suc, Option, none, some, List, [], ◌∷◌}
use osu_micro_benchmarks_rs.Rust.{ok, panic, spin, Run, pure, expect, ◌>>=◌, ◌>>◌}
use osu_micro_benchmarks_rs.Ucx.{Ucx}
use osu_micro_benchmarks_rs.Runtime.{Context, wait, try_send, send, post_recv}

-- The tags of the data and of the acknowledgement.
abbrev pub data_tag : ℕ
data_tag = 100

abbrev pub ack_tag : ℕ
ack_tag = 101

module _ (u : Ucx) (fuel : ℕ) where
  open u use {World, Request}

  -- `if let Some(r) = req { send_reqs.push(r); }`
  abbrev pub tracked : Option Request → List Request → List Request
  tracked none reqs = reqs
  tracked (some r) reqs = r ∷ reqs

  -- A window of sends, with the requests that are not complete at once.
  pub post_sends : ℕ → Context → ℕ → List ℕ → ℕ → Run World (List Request)
  post_sends zero c dst msg tag = pure []
  post_sends (suc n) c dst msg tag = do
    r ← try_send u fuel c dst msg tag
    q ← expect r
    reqs ← post_sends n c dst msg tag
    pure (tracked q reqs)

  -- A window of receives.
  pub post_recvs : ℕ → ℕ → ℕ → Run World (List Request)
  post_recvs zero len tag = pure []
  post_recvs (suc n) len tag = do
    r ← post_recv u fuel len tag
    reqs ← post_recvs n len tag
    pure (r ∷ reqs)

  -- `for req in &reqs { while … }`
  pub wait_all : List Request → Run World (Unit {0})
  wait_all [] = pure tt
  wait_all (r ∷ rs) = wait u fuel r >> wait_all rs

  -- The sender's part: the window, and the byte that acknowledges it.
  pub send_window : Context → ℕ → List ℕ → ℕ → Run World (Unit {0})
  send_window c dst msg window = do
    reqs ← post_sends window c dst msg data_tag
    wait_all reqs
    ack ← post_recv u fuel 1 ack_tag
    wait u fuel ack

  -- The receiver's part.
  pub recv_window : Context → ℕ → ℕ → ℕ → Run World (Unit {0})
  recv_window c src len window = do
    reqs ← post_recvs window len data_tag
    wait_all reqs
    send u fuel c src (0 ∷ []) ack_tag

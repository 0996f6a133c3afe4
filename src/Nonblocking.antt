-- ===== src/Nonblocking.antt =====
-- common/src/runtime/non_blocking.rs: the request handle of the non-blocking collectives, and the
-- posting of receives that they share.
pub mod Requests
pub mod Equal
pub mod Variable
pub mod Ring
use osu_micro_benchmarks_rs.Prelude.{
  ℕ, zero, suc, ◌+◌, ◌-◌, ◌^◌, Bool, true, false, Option, none, some, List, [], ◌∷◌, ◌==◌,
  if◌then◌else◌,
}
use osu_micro_benchmarks_rs.Rust.{Outcome, ok, panic, spin, Run, pure, lift, ◌>>=◌, ◌>>◌}
use osu_micro_benchmarks_rs.Ucx.{Ucx}
use osu_micro_benchmarks_rs.Runtime.{unwrap_or_false, progress, post_recv}

-- `OsURequest`; `has_worker` says that the pointer to the worker is not null.
pub record OsuRequest (R : Type 0) : Type 0 where
  pub recv_reqs : List (Option R)
  pub has_worker : Bool
  pub remaining : ℕ

-- The handle of an operation that has nothing to wait for.
abbrev pub complete : {R : Type 0} → OsuRequest R
complete = record { recv_reqs = []; has_worker = false; remaining = 0 }

-- The receive buffer of a call that returned: no receive is posted on it, or that of a request is.
pub data Recvbuf (R : Type 0) : Type 0 where
  settled : List ℕ → Recvbuf R
  awaiting : List ℕ → R → Recvbuf R

-- `remaining -= 1` on a `usize`, in the release build.
abbrev pub decrement : ℕ → ℕ
decrement n = if n == 0 then 2 ^ 64 - 1 else n - 1

module _ (u : Ucx) where
  open u use {World, Request, check_finished, received}

  -- What the receive buffer holds, once the handle is waited for.
  pub contents : Recvbuf Request → World → List ℕ
  contents (settled buf) w = buf
  contents (awaiting buf r) w = received r buf w

  -- `for req_opt in recv_reqs.iter_mut()`: the finished requests are taken out.
  pub sweep : List (Option Request) → ℕ → World → List (Option Request) × ℕ
  sweep [] n w = ([], n)
  sweep (none ∷ rs) n w = let (rs', n') = sweep rs n w in (none ∷ rs', n')
  sweep (some r ∷ rs) n w =
      let finished = unwrap_or_false (check_finished r w) in
      let (rs', n') = sweep rs (if finished then decrement n else n) w in
      ((if finished then none else some r) ∷ rs', n')

module _ (u : Ucx) (fuel : ℕ) where
  open u use {World, Request}

  -- `OsURequest::test`
  pub test : OsuRequest Request → Run World (Bool × OsuRequest Request)
  test q w =
      if q.has_worker
      then (let (rs, n) = sweep u q.recv_reqs q.remaining w in
          elim (progress u fuel w) [
            | ok (x, w') ↦ ok ((n == 0, record q { recv_reqs = rs; remaining = n }), w')
            | panic ↦ panic
            | spin ↦ spin
          ])
      else ok ((q.remaining == 0, q), w)

  -- `OsURequest::wait`: `while !self.test() {}`, by rounds
  pub wait_request : ℕ → OsuRequest Request → Run World (OsuRequest Request)
  wait_request zero q w = spin
  wait_request (suc n) q w = elim (test q w) [
    | ok (r, w') ↦ elim r.0 [ true ↦ ok (r.1, w') | false ↦ wait_request n r.1 w' ]
    | panic ↦ panic
    | spin ↦ spin
  ]

  -- `for peer in peers`: a receive of its length for each peer but the own rank, and their number.
  pub post_recvs : ℕ → (ℕ → Outcome ℕ) → ℕ → List ℕ → Run World (List (Option Request) × ℕ)
  post_recvs rank len tag [] w = ok (([], 0), w)
  post_recvs rank len tag (p ∷ ps) w =
      if p == rank
      then (do r ← post_recvs rank len tag ps; pure (none ∷ r.0, r.1)) w
      else (do
        n ← lift (len p)
        req ← post_recv u fuel n tag
        r ← post_recvs rank len tag ps
        pure (some req ∷ r.0, suc r.1))
          w

  -- The handle of the posted receives.
  pub posted : List (Option Request) × ℕ → OsuRequest Request
  posted r = record { recv_reqs = r.0; has_worker = true; remaining = r.1 }

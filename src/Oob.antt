-- ===== src/Oob.antt =====
-- common/src/runtime/ucc_oob.rs: the allgather that UCC calls while it creates its context and team.
-- Each rank has a tag of its own.
pub mod Phases
pub mod Exchange
use osu_micro_benchmarks_rs.Prelude.{
  ℕ, zero, suc, ◌+◌, ◌*◌, Bool, true, false, not, ◌||◌, Option, none, some, List, [], ◌∷◌, ◌==◌,
  if◌then◌else◌, length, range, replicate,
}
use osu_micro_benchmarks_rs.Rust.{Outcome, ok, panic, spin, Run, pure, lift, ◌>>=◌, ◌>>◌}
use osu_micro_benchmarks_rs.Rust.Slice.{copy_at}
use osu_micro_benchmarks_rs.Ucx.{Ucx}
use osu_micro_benchmarks_rs.Runtime.{unwrap_or_false, try_recv}

abbrev pub ucc_oob_tag_base : ℕ
ucc_oob_tag_base = 0xCC0000

-- `OobState`; the two flags say that the pointers are not null.
pub record OobState : Type 0 where
  pub has_worker : Bool
  pub has_endpoints : Bool
  pub endpoints_len : ℕ
  pub rank : ℕ

-- `ucc_status_t`, as the callback returns it.
pub data UccStatus : Type 0 where
  ucc_ok ucc_err_no_message : UccStatus

abbrev pub is_null : Option (List ℕ) → Bool
is_null none = true
is_null (some buf) = false

-- `recv_reqs.push(r)`, unless the loop has returned.
abbrev pub with_request :
    {R : Type 0} → Option R → Option (List (Option R)) → Option (List (Option R))
with_request r none = none
with_request r (some rs) = some (r ∷ rs)

module _ (u : Ucx) where
  open u use {World, Request, check_finished, progress as poll}

  -- `while !req.check_finished().unwrap_or(false) { let _ = worker.progress(); }`, by rounds
  pub wait_polling : ℕ → Request → Run World (Unit {0})
  wait_polling zero r w = spin
  wait_polling (suc n) r w = elim (unwrap_or_false (check_finished r w)) [
    | true ↦ ok (tt, w)
    | false ↦ wait_polling n r (poll w).1
  ]

module _ (u : Ucx) (fuel : ℕ) where
  open u use {World, Request, tag_send, received}

  -- Phase 1: a receive from each peer, under the peer's tag; `none` is the early return.
  pub oob_post : ℕ → ℕ → List ℕ → Run World (Option (List (Option Request)))
  oob_post rank n [] w = ok (some [], w)
  oob_post rank n (p ∷ ps) w =
      if p == rank
      then (do rs ← oob_post rank n ps; pure (with_request none rs)) w
      else (do
        req ← try_recv u fuel n (ucc_oob_tag_base + p)
        elim req [
          | some q ↦ elim q [
            | some r ↦ (do rs ← oob_post rank n ps; pure (with_request (some r) rs))
            | none ↦ pure none
          ]
          | none ↦ pure none
        ])
          w

  -- Phase 2: the own bytes to each peer, under the own tag; `false` is the early return.
  pub oob_send : ℕ → List ℕ → List ℕ → Run World Bool
  oob_send rank src [] w = ok (true, w)
  oob_send rank src (p ∷ ps) w =
      if p == rank
      then oob_send rank src ps w
      else (let (r, w') = tag_send p src (ucc_oob_tag_base + rank) w in
          elim r [
            | some q ↦ elim q [
              | some req ↦ (wait_polling u fuel req >> oob_send rank src ps) w'
              | none ↦ oob_send rank src ps w'
            ]
            | none ↦ ok (false, w')
          ])

  -- Phase 3: each peer's bytes into the place of the peer. The copy has no bounds in the code; one
  -- that leaves the buffer is a panic here.
  pub oob_collect : ℕ → List ℕ → List (Option Request) → List ℕ → Run World (List ℕ)
  oob_collect n [] rs buf = pure buf
  oob_collect n (p ∷ ps) [] buf = pure buf
  oob_collect n (p ∷ ps) (none ∷ rs) buf = oob_collect n ps rs buf
  oob_collect n (p ∷ ps) (some req ∷ rs) buf = do
    wait_polling u fuel req
    buf' ← (λ w. lift (copy_at buf (p * n) (p * n + n) (received req (replicate n 0) w)) w)
    oob_collect n ps rs buf'

  -- The exchange, with the status and the receive buffer.
  pub oob_exchange : OobState → ℕ → List ℕ → List ℕ → Run World (UccStatus × List ℕ)
  oob_exchange s n src recv = do
    buf ← lift (copy_at recv (s.rank * n) (s.rank * n + n) src)
    posts ← oob_post s.rank n (range 0 s.endpoints_len)
    elim posts [
      | some rs ↦ (do
        sent ← oob_send s.rank src (range 0 s.endpoints_len)
        if sent
            then (do all ← oob_collect n (range 0 s.endpoints_len) rs buf; pure (ucc_ok, all))
            else pure (ucc_err_no_message, buf))
      | none ↦ pure (ucc_err_no_message, buf)
    ]

  -- `ucc_oob_allgather`; a null buffer is `none`, and `has_request` that the request pointer is not null.
  pub oob_allgather :
      OobState
      → ℕ
      → Option (List ℕ)
      → Option (List ℕ)
      → Bool
      → Run World (UccStatus × Option (List ℕ))
  oob_allgather s n src recv has_request =
      if (n == 0) || is_null src || is_null recv || not has_request
      then pure (ucc_ok, recv)
      else if not s.has_worker || not s.has_endpoints || (s.endpoints_len == 0)
      then pure (ucc_err_no_message, recv)
      else elim src [
        | some bytes ↦ elim recv [
          | some buf ↦ (do r ← oob_exchange s n bytes buf; pure (r.0, some r.1))
          | none ↦ pure (ucc_ok, none)
        ]
        | none ↦ pure (ucc_ok, recv)
      ]

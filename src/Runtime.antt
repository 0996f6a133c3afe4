-- ===== src/Runtime.antt =====
-- common/src/runtime: the context of a rank and the steps that its collectives are made of.
-- Every wait loop takes fuel: `fuel` bounds the rounds of each loop on its own.
pub mod Wait
pub mod Loops
pub mod Fill
pub mod Pick
pub mod Slots
use osu_micro_benchmarks_rs.Prelude.{
  ℕ, zero, suc, ◌+◌, Bool, true, false, Option, none, some, List, [], ◌∷◌, ltb, ◌==◌, if◌then◌else◌,
  length, range, replicate, set,
}
use osu_micro_benchmarks_rs.Rust.{Outcome, ok, panic, spin, Run, pure, lift, expect, ◌>>=◌, ◌>>◌}
use osu_micro_benchmarks_rs.Ucx.{Ucx, full_mask}

pub data Backend : Type 0 where
  ucc ucx : Backend

pub data BackendSelection : Type 0 where
  forced_ucc forced_ucx auto_ucc auto_ucx : BackendSelection

-- `OsUContext`, less the handles of the libraries, which are the network's state here.
pub record Context : Type 0 where
  pub rank : ℕ
  pub size : ℕ
  pub backend : Backend
  pub backend_selection : BackendSelection
  pub openshmem_initialized : Bool

abbrev pub unwrap_or_false : Option Bool → Bool
unwrap_or_false none = false
unwrap_or_false (some b) = b

-- `self.endpoints[rank]`: there is one endpoint for each rank of the job.
abbrev pub endpoint : Context → ℕ → Outcome ℕ
endpoint c peer = if ltb peer c.size then ok peer else panic

module _ (u : Ucx) where
  open u use {World, progress as poll}

  -- `while worker.progress() {}`, by rounds
  pub drain : ℕ → World → Outcome (Unit {0} × World)
  drain zero w = spin
  drain (suc n) w = let (more, w') = poll w in elim more [ true ↦ drain n w' | false ↦ ok (tt, w') ]

module _ (u : Ucx) (fuel : ℕ) where
  open u use {World, Request, tag_send, tag_recv, check_finished, received}

  -- `OsUContext::progress`
  pub progress : Run World (Unit {0})
  progress = drain u fuel

  -- `while !req.check_finished().unwrap_or(false) { self.progress(); }`, by rounds
  pub wait_for : ℕ → Request → Run World (Unit {0})
  wait_for zero r w = spin
  wait_for (suc n) r w = elim (unwrap_or_false (check_finished r w)) [
    | true ↦ ok (tt, w)
    | false ↦ elim (progress w) [ ok (x, w') ↦ wait_for n r w' | panic ↦ panic | spin ↦ spin ]
  ]

  pub wait : Request → Run World (Unit {0})
  wait = wait_for fuel

  -- `self.endpoint(dst).tag_send(msg, tag, &tag_param)`
  pub try_send : Context → ℕ → List ℕ → ℕ → Run World (Option (Option Request))
  try_send c dst msg tag = do
    d ← lift (endpoint c dst)
    λ w. let (r, w') = tag_send d msg tag w in ok (r, w')

  -- … and `.expect("… send")`, the request dropped
  pub send : Context → ℕ → List ℕ → ℕ → Run World (Unit {0})
  send c dst msg tag = do r ← try_send c dst msg tag; _ ← expect r; pure tt

  -- … or `if let Ok(Some(req)) = req { while … }`, an error passed over
  pub send_wait : Context → ℕ → List ℕ → ℕ → Run World (Unit {0})
  send_wait c dst msg tag = do
    r ← try_send c dst msg tag
    elim r [ some q ↦ elim q [ some req ↦ wait req | none ↦ pure tt ] | none ↦ pure tt ]

  -- `worker.tag_recv(&mut buf, tag, TAG_MASK, &tag_param)`
  pub try_recv : ℕ → ℕ → Run World (Option (Option Request))
  try_recv len tag w = let (r, w') = tag_recv len tag full_mask w in ok (r, w')

  -- … and `.expect("… recv").expect("… recv request")`
  pub post_recv : ℕ → ℕ → Run World Request
  post_recv len tag = do r ← try_recv len tag; q ← expect r; expect q

  -- a blocking receive: post it, wait for it, and read the buffer
  pub recv : List ℕ → ℕ → Run World (List ℕ)
  recv buf tag = do r ← post_recv (length buf) tag; wait r; λ w. ok (received r buf w, w)

-- `for peer in peers { if peer != rank { body } }`
pub for_peers : {W : Type 0} → ℕ → List ℕ → (ℕ → Run W (Unit {0})) → Run W (Unit {0})
for_peers rank [] body = pure tt
for_peers rank (p ∷ ps) body =
    if p == rank then for_peers rank ps body else body p >> for_peers rank ps body

-- the same with variables that the body changes
pub fold_peers : {W S : Type 0} → ℕ → List ℕ → (ℕ → S → Run W S) → S → Run W S
fold_peers rank [] body s = pure s
fold_peers rank (p ∷ ps) body s =
    if p == rank then fold_peers rank ps body s else body p s >>= fold_peers rank ps body

-- `v[i] = x`
abbrev pub set_at : {A : Type 0} → List A → ℕ → A → Outcome (List A)
set_at xs i v = if ltb i (length xs) then ok (set xs i v) else panic

module _ (u : Ucx) (fuel : ℕ) where
  open u use {World}

  -- Receive one message and store it: the body of the blocking loops, whose buffer is used again.
  pub recv_into :
      {C : Type 0} → ℕ → (ℕ → List ℕ → C → Outcome C) → ℕ → C × List ℕ → Run World (C × List ℕ)
  recv_into tag write peer (g, buf) = do
    m ← recv u fuel buf tag
    g' ← lift (write peer m g)
    pure (g', m)

  -- `for peer in 0..size { if peer != rank { … } }` with that body; the buffer starts as zeros.
  pub recv_from_peers :
      {C : Type 0} → Context → ℕ → ℕ → (ℕ → List ℕ → C → Outcome C) → C → Run World C
  recv_from_peers c len tag write g = do
    r ← fold_peers c.rank (range 0 c.size) (recv_into tag write) (g, replicate len 0)
    pure r.0

  -- `for peer in 0..size { if peer != rank { self.endpoint(peer).tag_send(msg, tag)… } }`
  pub send_to_peers : Context → (ℕ → List ℕ) → ℕ → Run World (Unit {0})
  send_to_peers c msg tag =
      for_peers c.rank (range 0 c.size) (λ peer. send u fuel c peer (msg peer) tag)

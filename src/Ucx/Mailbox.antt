-- ===== src/Ucx/Mailbox.antt =====
-- A network that delivers at once: it shows that the assumptions of tag matching can be met.
use osu_micro_benchmarks_rs.Prelude.{
  ℕ, ◌≤◌, ◌<◌, ◌≡◌, ◌≢◌, refl, true, false, Option, none, some, List, [], ◌∷◌, ◌++◌, length, drop,
  arith, ◌==◌, if◌then◌else◌,
}
use osu_micro_benchmarks_rs.Ucx.{Ucx, Send, TagMatching, full_mask}

pub record Boxes : Type 0 where
  pub box : ℕ → List (List ℕ)
  pub log : List Send

abbrev pub rest : List (List ℕ) → List (List ℕ)
rest [] = []
rest (m ∷ ms) = ms

abbrev pub first : List (List ℕ) → Option (Option (List ℕ))
first [] = none
first (m ∷ ms) = some (some m)

abbrev pub without : Boxes → ℕ → Boxes
without b t = record b { box = λ t'. if t' == t then rest (b.box t') else b.box t' }

abbrev pub mailbox : Ucx
mailbox = record {
  World = Boxes;
  Request = List ℕ;
  tag_send = λ d m t b.
      (some none, record b { log = b.log ++ (record { dst = d; tag = t; msg = m } ∷ []) });
  tag_recv = λ n t mask b. if mask == full_mask then (first (b.box t), without b t) else (none, b);
  check_finished = λ r b. some true;
  progress = λ b. (false, b);
  received = λ r buf b. r ++ drop (length r) buf;
}

pub matched :
    (n t : ℕ) (b : Boxes) (m : List ℕ) (ms : List (List ℕ))
    → b.box t ≡ m ∷ ms
    → length m ≤ n
    → (r : List ℕ) × (first (b.box t) ≡ some (some r))
      × (r ≡ m)
      × Unit {0}
      × ((without b t).box t ≡ ms)
matched n t b m ms e fits = (m, ground arith, refl, tt, ground arith)

pub others : (n t t' : ℕ) (b : Boxes) → t' ≢ t → (without b t).box t' ≡ b.box t'
others n t t' b h = ground arith

pub accepted : (d : ℕ) (m : List ℕ) (t : ℕ) (b : Boxes) → (mailbox.tag_send d m t b).0 ≢ none
accepted d m t b e = cc

pub never_busy : (b : Boxes) → false ≡ true → 0 < 0
never_busy b e = cc

abbrev pub mailbox_matching : TagMatching mailbox
mailbox_matching = record {
  incoming = λ b. b.box;
  sent = λ b. b.log;
  message = λ r. r;
  waiting = λ r b. 0;
  busy = λ b. 0;
  lag = 1;
  Completes = λ r. Unit {0};
  waiting-lt-lag = λ r b. omega arith;
  busy-lt-lag = λ b. omega arith;
  send_accepted = accepted;
  send_logged = λ d m t b. refl;
  send_keeps = λ d m t b. refl;
  send_Completes = λ d m t b r e. tt;
  recv_matched = matched;
  recv_others = others;
  recv_logged = λ n t b. refl;
  progress_waiting = λ r b. omega arith;
  progress_busy = never_busy;
  progress_incoming = λ b. refl;
  progress_sent = λ b. refl;
  progress_finished = λ r b e. refl;
  finished_when_due = λ r b ends e. refl;
  finished_filled = λ r buf b ends e h. refl;
}

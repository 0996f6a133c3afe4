-- ===== src/Tests/Oob.antt =====
-- A run of the out-of-band allgather, where the message of the last rank is there first.
use osu_micro_benchmarks_rs.Prelude.{
  ℕ, zero, suc, ◌+◌, ◌<◌, ◌≡◌, ◌≢◌, refl, true, some, List, [], ◌∷◌, arith, ◌==◌, if◌then◌else◌,
  get_or,
}
use osu_micro_benchmarks_rs.Rust.{ok}
use osu_micro_benchmarks_rs.Ucx.Mailbox.{Boxes, mailbox, mailbox_matching}
use osu_micro_benchmarks_rs.Oob.{OobState, ucc_ok, ucc_oob_tag_base, oob_allgather}
use osu_micro_benchmarks_rs.Oob.Phases.{own_sends}
use osu_micro_benchmarks_rs.Oob.Exchange.{oob_allgather_lem}

abbrev state : OobState
state = record { has_worker = true; has_endpoints = true; endpoints_len = 3; rank = 1 }

abbrev tagged : Boxes
tagged = record {
  box = λ t. if t == 0xCC0002 then (9 ∷ []) ∷ [] else if t == 0xCC0000 then (7 ∷ []) ∷ [] else [];
  log = [];
}

abbrev buffers : List (List ℕ)
buffers = (7 ∷ []) ∷ (5 ∷ []) ∷ (9 ∷ []) ∷ []

arrived :
    (p : ℕ)
    → p < 3
    → p ≢ 1
    → (rest : List (List ℕ)) × (tagged.box (ucc_oob_tag_base + p) ≡ get_or buffers p [] ∷ rest)
arrived zero h ne = ([], refl)
arrived (suc zero) h ne = absurd (ne refl)
arrived (suc (suc zero)) h ne = ([], refl)
arrived (suc (suc (suc p))) h ne = absurd (omega arith)

oob_allgather_example :
    (w' : Boxes) × (oob_allgather mailbox 1 state 1
        (some (5 ∷ []))
        (some (0 ∷ 0 ∷ 0 ∷ []))
        true
        tagged
      ≡ ok ((ucc_ok, some (7 ∷ 5 ∷ 9 ∷ [])), w'))
    × (w'.log ≡ own_sends mailbox mailbox_matching 1 (omega arith) 1 (5 ∷ []) (0 ∷ 1 ∷ 2 ∷ []))
oob_allgather_example =
    oob_allgather_lem mailbox mailbox_matching 1 (omega arith) state 1 buffers (0 ∷ 0 ∷ 0 ∷ [])
      tagged refl refl (omega arith) (omega arith) refl (refl, (refl, (refl, tt))) refl arrived

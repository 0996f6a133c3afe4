-- ===== src/Init.antt =====
-- common/src/runtime/context.rs, `init_with_rma`: how the backend of a context is chosen. `init_ucc`,
-- which sets up the UCC library, is a parameter: it returns a team or none.
pub mod Selection
use osu_micro_benchmarks_rs.Prelude.{Bool, true, false, Option, none, some}
use osu_micro_benchmarks_rs.Rust.{Outcome, ok, panic, spin, Run, pure, lift, ◌>>=◌}
use osu_micro_benchmarks_rs.Runtime.{Backend, BackendSelection}

module _ {Team W : Type 0} (init_ucc : W → Option Team × W) where
  -- `let ucc_team = match ucc_backend { … }`
  pub init_team : Option Bool → Run W (Option Team)
  init_team none w = ok (init_ucc w)
  init_team (some false) w = ok (none, w)
  init_team (some true) w =
      let (team, w') = init_ucc w in elim team [ some t ↦ ok (some t, w') | none ↦ panic ]

  -- `let (backend, backend_selection) = match ucc_backend { … }`
  pub select_backend : Option Bool → Option Team → Outcome (Backend × BackendSelection)
  select_backend (some true) (some t) = ok (Backend.ucc, BackendSelection.forced_ucc)
  select_backend (some true) none = panic
  select_backend (some false) team = ok (Backend.ucx, BackendSelection.forced_ucx)
  select_backend none (some t) = ok (Backend.ucc, BackendSelection.auto_ucc)
  select_backend none none = ok (Backend.ucx, BackendSelection.auto_ucx)

  pub init_backend : Option Bool → Run W (Option Team × (Backend × BackendSelection))
  init_backend ucc_backend = do
    team ← init_team ucc_backend
    selected ← lift (select_backend ucc_backend team)
    pure (team, selected)

-- ===== src/Init/Selection.antt =====
-- Which backend a context has, and when its start panics.
use osu_micro_benchmarks_rs.Prelude.{
  Bool, true, false, Option, none, some, ◌≡◌, ◌≢◌, ◌↔◌, refl, ◌⊎◌, inl, inr, Option-cases, ap,
}
use osu_micro_benchmarks_rs.Rust.{ok, panic, ◌>>=◌}
use osu_micro_benchmarks_rs.Runtime.{Backend, BackendSelection}
use osu_micro_benchmarks_rs.Init.{init_team, select_backend, init_backend}

module _ {Team W : Type 0} (init_ucc : W → Option Team × W) where
  -- How the choice was made, from the flag and the team.
  abbrev pub chosen : Option Bool → Option Team → Backend × BackendSelection
  chosen (some true) team = (Backend.ucc, BackendSelection.forced_ucc)
  chosen (some false) team = (Backend.ucx, BackendSelection.forced_ucx)
  chosen none (some t) = (Backend.ucc, BackendSelection.auto_ucc)
  chosen none none = (Backend.ucx, BackendSelection.auto_ucx)

  -- The library is set up once, unless `--no-ucc` leaves it alone: the team, and the world after it.
  abbrev pub attempted : Option Bool → W → Option Team × W
  attempted none w = init_ucc w
  attempted (some false) w = (none, w)
  attempted (some true) w = init_ucc w

  -- Either `--ucc` was given, the library could not be set up, and the start panics; or one of the two
  -- does not hold, and it ends. It then has the team and the world that setting up the library gave,
  -- or no team and the same world with `--no-ucc`, where the library is left alone. The backend is UCC
  -- just when there is a team, and the selection tells the flag and, without one, the backend.
  pub init_backend_lem :
      (flag : Option Bool) (w : W)
      → ((init_backend init_ucc flag w ≡ panic) × (flag ≡ some true) × ((init_ucc w).0 ≡ none))
        ⊎ (((flag ≢ some true) ⊎ ((init_ucc w).0 ≢ none))
            × (init_backend init_ucc flag w
                ≡ ok (
                  ((attempted flag w).0, chosen flag (attempted flag w).0),
                  (attempted flag w).1,
                ))
            × (((chosen flag (attempted flag w).0).0 ≡ Backend.ucc)
                ↔ ((attempted flag w).0 ≢ none)))
  unfolding init_backend init_team select_backend
  init_backend_lem none w = elim (Option-cases (init_ucc w).0) [
    | inl e ↦ inr (
      inl (λ f. cc),
      rw (init_backend, ◌>>=◌, init_team, e)
          (ap (λ x. ok ((x, chosen none none), (init_ucc w).1)) e),
      rw e (λ b f. cc, λ n. absurd (n refl)),
    )
    | inr (t, e) ↦ inr (
      inl (λ f. cc),
      rw (init_backend, ◌>>=◌, init_team, e)
          (ap (λ x. ok ((x, chosen none (some t)), (init_ucc w).1)) e),
      rw e (λ b f. cc, λ n. refl),
    )
  ]
  init_backend_lem (some false) w = inr (inl (λ f. cc), refl, (λ b f. cc, λ n. absurd (n refl)))
  init_backend_lem (some true) w = elim (Option-cases (init_ucc w).0) [
    | inl e ↦ inl (rw (init_backend, ◌>>=◌, init_team, e) refl, refl, e)
    | inr (t, e) ↦
        inr (inr (λ f. cc), rw (init_backend, ◌>>=◌, init_team, e) refl, (λ b f. cc, λ n. refl))
  ]

-- ===== src/Libp/Added.antt =====
-- Adding a directory, and taking it out again.
use osu_micro_benchmarks_rs.Prelude.{
  ◌≡◌, refl, ap, true, false, Option, some, [], ◌∷◌, ◌++◌, ◌⊎◌, inl, inr, Bool-cases, if◌then◌else◌,
}
use osu_micro_benchmarks_rs.Libp.{
  Text, colon, contains, starts_with, join_rest, split, join, is_empty, value,
  add_to_ld_library_path, remove_from_ld_library_path, ld_library_path_entries,
}
use osu_micro_benchmarks_rs.Libp.Parts.{
  ColonFree, join-split, parts-ColonFree, parts-append, split-Misses, without-append,
}

-- What adding makes of the value.
extended : Text → Text → Text
extended path current = if is_empty current then path else current ++ (colon ∷ path)

-- What adding a directory means, for the variable `var` after it.
abbrev pub Added : Text → Option Text → Option Text → Type 0
Added path var var' =
    (ld_library_path_entries var' ≡ ld_library_path_entries var ++ (path ∷ []))
    × (value (remove_from_ld_library_path path var') ≡ value var)

split-append : (t p : Text) → ColonFree p → split (t ++ (colon ∷ p)) ≡ split t ++ (p ∷ [])
unfolding split
split-append t p free = rw (parts-append t p free) refl

split-ColonFree : (t : Text) → ColonFree t → split t ≡ t ∷ []
unfolding split
split-ColonFree t free = rw (parts-ColonFree t free) refl

extended_lem :
    (path current : Text)
    → ColonFree path
    → contains current path ≡ false
    → Added path (some current) (some (extended path current))
unfolding ld_library_path_entries remove_from_ld_library_path is_empty extended join contains
    starts_with join_rest
extended_lem [] [] free miss = absurd (cc)
extended_lem (y ∷ p) [] free miss = (
  split-ColonFree (y ∷ p) free,
  rw (split-ColonFree (y ∷ p) free) (ap join (without-append (y ∷ p) [] tt)),
)
extended_lem path (x ∷ xs) free miss = (
  split-append (x ∷ xs) path free,
  rw
      (
        split-append (x ∷ xs) path free,
        without-append path (split (x ∷ xs)) (split-Misses (x ∷ xs) path miss),
      )
      (join-split (x ∷ xs)),
)

-- Adding a directory whose name has no colon. If the value holds the name as a substring, nothing
-- changes and the answer is false. If not, the answer is true, the directory is the last one of the
-- list, and removing it brings the value back.
pub add_to_ld_library_path_lem :
    (path : Text) (var : Option Text)
    → ColonFree path
    → ((contains (value var) path ≡ true) × (add_to_ld_library_path path var ≡ (false, var)))
      ⊎ ((var' : Option Text) × (contains (value var) path ≡ false)
          × (add_to_ld_library_path path var ≡ (true, var'))
          × Added path var var')
unfolding add_to_ld_library_path ld_library_path_entries extended
add_to_ld_library_path_lem path var free = elim (Bool-cases (contains (value var) path)) [
  | inl held ↦ inl (held, rw held refl)
  | inr miss ↦ inr (
    some (extended path (value var)),
    miss,
    rw miss refl,
    extended_lem path (value var) free miss,
  )
]

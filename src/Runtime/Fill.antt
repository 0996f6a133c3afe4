-- ===== src/Runtime/Fill.antt =====
-- What the slots of all ranks hold once every peer's message is stored in the slot of its turn.
use osu_micro_benchmarks_rs.Prelude.{
  ℕ, zero, suc, ◌+◌, ◌≤◌, ◌<◌, ◌≡◌, refl, ◌∙◌, sym, ap, List, [], ◌∷◌, ◌++◌, arith, length, range,
  ◌==◌, ne→==_false, eq→==, Bool-cases, ==→eq, inl, inr, append_assoc, set, insert_at, get_or,
  length-append,
}
use osu_micro_benchmarks_rs.Runtime.Loops.{others, collect}

module _ {A : Type 0} (val : List ℕ → A) where
  abbrev pub put : ℕ → List ℕ → List A → List A
  put p m s = set s p (val m)

  -- the messages' values, in their order
  abbrev pub vals : List (List ℕ) → List A
  vals [] = []
  vals (m ∷ ms) = val m ∷ vals ms

  set-middle :
      (done todo : List A) (x v : A) (i : ℕ)
      → i ≡ length done
      → set (done ++ x ∷ todo) i v ≡ (done ++ v ∷ []) ++ todo
  set-middle [] todo x v zero e = refl
  set-middle [] todo x v (suc i) e = absurd (omega arith)
  set-middle (d ∷ done) todo x v zero e = absurd (omega arith)
  set-middle (d ∷ done) todo x v (suc i) e = ap (◌∷◌ d) (set-middle done todo x v i (omega arith))

  -- One turn: the slot `i` takes a message.
  turn :
      (i : ℕ) (done todo : List A) (x : A) (ps : List ℕ) (m : List ℕ) (ms : List (List ℕ))
      (r : List A)
      → i ≡ length done
      → collect put ps ms ((done ++ val m ∷ []) ++ todo) ≡ (done ++ val m ∷ []) ++ r
      → collect put ps ms (set (done ++ x ∷ todo) i (val m)) ≡ done ++ val m ∷ r
  turn i done todo x ps m ms r e h =
      rw (set-middle done todo x (val m) i e) (h ∙ append_assoc done (val m ∷ []) _)

  -- Past the slot of its own rank every slot takes a message.
  fill_after :
      (rank i : ℕ) (done todo : List A) (ms : List (List ℕ))
      → rank < i
      → i ≡ length done
      → length ms ≡ length todo
      → collect put (others rank (range i (length todo))) ms (done ++ todo) ≡ done ++ vals ms
  fill_after rank i done [] [] h e l = refl
  fill_after rank i done [] (m ∷ ms) h e l = absurd (omega arith)
  fill_after rank i done (x ∷ todo) [] h e l = absurd (omega arith)
  fill_after rank i done (x ∷ todo) (m ∷ ms) h e l = rw (ne→==_false i rank (omega arith)) (
      turn i done todo x (others rank (range (suc i) (length todo))) m ms _ e (
        fill_after rank (suc i) (done ++ val m ∷ []) todo ms (omega arith)
          (omega (arith, length-append done (val m ∷ []))) (omega arith)))

  -- All slots: the own one stays, the others take the messages in turn.
  pub fill :
      (rank i k : ℕ) (done todo : List A) (own : A) (ms : List (List ℕ))
      → rank ≡ i + k
      → i ≡ length done
      → length todo ≡ suc (length ms)
      → k < length todo
      → get_or todo k own ≡ own
      → collect put (others rank (range i (length todo))) ms (done ++ todo)
        ≡ done ++ insert_at k own (vals ms)
  fill rank i k done [] own ms r e l h g = absurd (omega arith)
  fill rank i zero done (x ∷ todo) own ms r e l h g =
      rw (eq→== i rank (omega arith), g, sym (append_assoc done (own ∷ []) todo))
        (fill_after rank (suc i) (done ++ own ∷ []) todo ms (omega arith)
            (omega (arith, length-append done (own ∷ []))) (omega arith)
          ∙ append_assoc done (own ∷ []) (vals ms))
  fill rank i (suc k) done (x ∷ todo) own [] r e l h g = absurd (omega arith)
  fill rank i (suc k) done (x ∷ todo) own (m ∷ ms) r e l h g =
      rw (ne→==_false i rank (omega arith)) (
        turn i done todo x (others rank (range (suc i) (length todo))) m ms _ e (
          fill rank (suc i) k (done ++ val m ∷ []) todo own ms (omega arith)
            (omega (arith, length-append done (val m ∷ []))) (omega arith) (omega arith) g))

  -- The same over the whole range of ranks, from slots that hold the own value in their place.
  pub fill_all :
      (rank size : ℕ) (cs : List A) (own : A) (ms : List (List ℕ))
      → length cs ≡ size
      → suc (length ms) ≡ size
      → rank < size
      → get_or cs rank own ≡ own
      → collect put (others rank (range 0 size)) ms cs ≡ insert_at rank own (vals ms)
  fill_all rank size cs own ms l e h g =
      rw (← l) (fill rank 0 rank [] cs own ms (omega arith) refl (omega arith) (omega arith) g)

pub length-others_after : (rank i n : ℕ) → rank < i → length (others rank (range i n)) ≡ n
length-others_after rank i zero h = refl
length-others_after rank i (suc n) h =
    rw (ne→==_false i rank (omega arith))
      (ap suc (length-others_after rank (suc i) n (omega arith)))

-- A rank has one peer less than the job has ranks.
pub length-others :
    (rank i n : ℕ) → i ≤ rank → rank < i + n → suc (length (others rank (range i n))) ≡ n
length-others rank i zero h k = absurd (omega arith)
length-others rank i (suc n) h k = elim (Bool-cases (i == rank)) [
  | inl self ↦
      rw self (ap suc (length-others_after rank (suc i) n (omega (arith, ==→eq i rank self))))
  | inr other ↦ rw other (ap suc (length-others rank (suc i) n (ground arith) (omega arith)))
]

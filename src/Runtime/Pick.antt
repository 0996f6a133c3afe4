-- ===== src/Runtime/Pick.antt =====
-- Chunks picked by the ranks of a loop.
use osu_micro_benchmarks_rs.Prelude.{
  ℕ, zero, suc, ◌+◌, ◌<◌, ◌≡◌, refl, ◌∙◌, sym, ap, List, [], ◌∷◌, ◌++◌, arith, length, range,
  get_or, insert_at, map, eq→==, ne→==_false, length-append, append_assoc,
}
use osu_micro_benchmarks_rs.Rust.Chunks.{Sized}
use osu_micro_benchmarks_rs.Runtime.Loops.{others}

-- The chunks of the peers of a rank, in the order of the ranks.
abbrev pub except : ℕ → List (List ℕ) → List (List ℕ)
except r [] = []
except zero (c ∷ cs) = cs
except (suc r) (c ∷ cs) = c ∷ except r cs

pub insert_at-except :
    (r : ℕ) (cs : List (List ℕ)) → r < length cs → insert_at r (get_or cs r []) (except r cs) ≡ cs
insert_at-except r [] h = absurd (omega arith)
insert_at-except zero (c ∷ cs) h = refl
insert_at-except (suc r) (c ∷ cs) h = ap (◌∷◌ c) (insert_at-except r cs (omega arith))

pub except-Sized : (n r : ℕ) (cs : List (List ℕ)) → Sized n cs → Sized n (except r cs)
except-Sized n r [] s = tt
except-Sized n zero (c ∷ cs) s = s.1
except-Sized n (suc r) (c ∷ cs) s = (s.0, except-Sized n r cs s.1)

pub length-except :
    (r : ℕ) (cs : List (List ℕ)) → r < length cs → suc (length (except r cs)) ≡ length cs
length-except r [] h = absurd (omega arith)
length-except zero (c ∷ cs) h = refl
length-except (suc r) (c ∷ cs) h = ap suc (length-except r cs (omega arith))

get_or-middle :
    (done todo : List (List ℕ)) (x : List ℕ) (i : ℕ)
    → i ≡ length done
    → get_or (done ++ x ∷ todo) i [] ≡ x
get_or-middle [] todo x zero e = refl
get_or-middle [] todo x (suc i) e = absurd (omega arith)
get_or-middle (d ∷ done) todo x zero e = absurd (omega arith)
get_or-middle (d ∷ done) todo x (suc i) e = get_or-middle done todo x i (omega arith)

-- The chunk at a rank is in front of those that follow.
pick_step :
    (done todo : List (List ℕ)) (x : List ℕ) (i : ℕ) (ps : List ℕ) (cs : List (List ℕ))
    → i ≡ length done
    → map (λ p. get_or ((done ++ x ∷ []) ++ todo) p []) ps ≡ cs
    → map (λ p. get_or (done ++ x ∷ todo) p []) (i ∷ ps) ≡ x ∷ cs
pick_step done todo x i ps cs e h =
    rw (get_or-middle done todo x i e) (
      ap (◌∷◌ x)
        (ap (λ l. map (λ p. get_or l p []) ps) (sym (append_assoc done (x ∷ []) todo)) ∙ h))

-- The chunks by their ranks: all past `done`, or all but the one of the own rank.
pub pick_after :
    (rank : ℕ) (done todo : List (List ℕ)) (i : ℕ)
    → rank < i
    → i ≡ length done
    → map (λ p. get_or (done ++ todo) p []) (others rank (range i (length todo))) ≡ todo
pick_after rank done [] i h e = refl
pick_after rank done (x ∷ todo) i h e = rw (ne→==_false i rank (omega arith)) (
    pick_step done todo x i _ todo e (
      pick_after rank (done ++ x ∷ []) todo (suc i) (omega arith)
        (omega (arith, length-append done (x ∷ [])))))

pub pick :
    (rank k : ℕ) (done todo : List (List ℕ)) (i : ℕ)
    → rank ≡ i + k
    → i ≡ length done
    → map (λ p. get_or (done ++ todo) p []) (others rank (range i (length todo))) ≡ except k todo
pick rank zero done [] i r e = refl
pick rank (suc k) done [] i r e = refl
pick rank zero done (x ∷ todo) i r e = rw (eq→== i rank (omega arith)) (
    ap (λ l. map (λ p. get_or l p []) (others rank (range (suc i) (length todo))))
      (sym (append_assoc done (x ∷ []) todo))
    ∙ pick_after rank (done ++ x ∷ []) todo (suc i) (omega arith)
        (omega (arith, length-append done (x ∷ []))))
pick rank (suc k) done (x ∷ todo) i r e = rw (ne→==_false i rank (omega arith)) (
    pick_step done todo x i _ (except k todo) e (
      pick rank k (done ++ x ∷ []) todo (suc i) (omega arith)
        (omega (arith, length-append done (x ∷ [])))))

-- Every chunk, by its rank.
pub pick_all :
    (done todo : List (List ℕ)) (i : ℕ)
    → i ≡ length done
    → map (λ p. get_or (done ++ todo) p []) (range i (length todo)) ≡ todo
pick_all done [] i e = refl
pick_all done (x ∷ todo) i e =
    pick_step done todo x i (range (suc i) (length todo)) todo e
      (pick_all (done ++ x ∷ []) todo (suc i) (omega (arith, length-append done (x ∷ []))))

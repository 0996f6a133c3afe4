-- ===== src/Oob/Exchange.antt =====
-- What the out-of-band allgather leaves in the receive buffer.
use osu_micro_benchmarks_rs.Prelude.{
  ℕ, ◌+◌, ◌*◌, ◌≤◌, ◌<◌, ◌≡◌, ◌≢◌, refl, ◌∙◌, sym, ap, subst, true, some, List, [], ◌∷◌, ◌++◌,
  arith, length, range, set, get_or, insert_at, length-set, ne→==_false,
}
use osu_micro_benchmarks_rs.Rust.{ok, ◌>>=◌}
use osu_micro_benchmarks_rs.Rust.Chunks.{
  Sized, flatten, chunks, chunks_lem, copy_chunk, set-Sized, get_or-Sized, get_or-short,
}
use osu_micro_benchmarks_rs.Ucx.{Ucx, TagMatching}
use osu_micro_benchmarks_rs.Runtime.Loops.{others, collect, range-All}
use osu_micro_benchmarks_rs.Runtime.Fill.{put, fill_all}
use osu_micro_benchmarks_rs.Runtime.Pick.{
  except, pick, insert_at-except, except-Sized, length-except,
}
use osu_micro_benchmarks_rs.Collective.Variable.Arrivals.{Matches}
use osu_micro_benchmarks_rs.Collective.Equal.Gathering.{vals_id, get_or-set_chunk}
use osu_micro_benchmarks_rs.Oob.{OobState, ucc_ok, ucc_oob_tag_base, oob_exchange, oob_allgather}
use osu_micro_benchmarks_rs.Oob.Phases.{
  range-Ascending, Waiting-intro, others_of, own_sends, oob_post_lem, oob_send_lem, oob_collect_lem,
}

module _ (u : Ucx) (T : TagMatching u) (fuel : ℕ) (enough : T.lag ≤ fuel) where
  open u use {World}

  -- With the buffers `cs` of the ranks, and a message from each peer under the peer's tag that holds
  -- the peer's buffer, every rank ends with all buffers in the order of the ranks, whatever the order
  -- in which the messages arrive. The rank sends its own buffer once to each peer.
  pub oob_allgather_lem :
      (s : OobState) (n : ℕ) (cs : List (List ℕ)) (recv : List ℕ) (w : World)
      → s.has_worker ≡ true
      → s.has_endpoints ≡ true
      → s.rank < s.endpoints_len
      → 0 < n
      → length cs ≡ s.endpoints_len
      → Sized n cs
      → length recv ≡ s.endpoints_len * n
      → ((p : ℕ)
          → p < s.endpoints_len
          → p ≢ s.rank
          → (rest : List (List ℕ)) × (T.incoming w (ucc_oob_tag_base + p) ≡ get_or cs p [] ∷ rest))
      → (w' : World) × (oob_allgather u fuel s n (some (get_or cs s.rank [])) (some recv) true w
          ≡ ok ((ucc_ok, some (flatten cs)), w'))
        × (T.sent w'
            ≡ T.sent w
              ++ own_sends u T fuel enough s.rank (get_or cs s.rank []) (range 0 s.endpoints_len))
  unfolding oob_allgather oob_exchange
  oob_allgather_lem s n cs recv w worker endpoints h pos l sized size arrive =
      let count = s.endpoints_len in
      let own = get_or cs s.rank [] in
      let ps = range 0 count in
      let lt : s.rank < length cs = rw l h in
      let within = range-All 0 count count (omega arith) in
      let ds = set (chunks n count recv) s.rank own in
      let (joined, cut, counted) = chunks_lem n count recv size in
      let own_size = get_or-Sized n s.rank cs sized lt in
      let all_picked : others_of u T fuel enough cs s.rank ps ≡ except s.rank cs =
        rw (sym l) (pick s.rank s.rank [] cs 0 (omega arith) refl) in
      let (rs, w₁, posts, matches, sent₁) =
        oob_post_lem u T fuel enough s.rank n ps cs w (range-Ascending 0 count)
          (Waiting-intro u T fuel enough w s.rank count ps cs arrive within)
          (get_or-short n cs sized) in
      let (w₂, sent, (logged, _)) = oob_send_lem u T fuel enough s.rank own ps w₁ in
      let (w₃, collected, (_, quiet)) =
        oob_collect_lem u T fuel enough s.rank n count ps rs (except s.rank cs) ds w₂
          (subst (Matches u T s.rank ps rs) all_picked matches) within
          (except-Sized n s.rank cs sized) (set-Sized n s.rank own _ own_size cut)
          (length-set (chunks n count recv) s.rank own ∙ counted) in
      let filled : collect (put (λ m. m)) (others s.rank ps) (except s.rank cs) ds ≡ cs =
        fill_all (λ m. m) s.rank count ds own (except s.rank cs)
          (length-set (chunks n count recv) s.rank own ∙ counted) (length-except s.rank cs lt ∙ l) h
          (get_or-set_chunk (chunks n count recv) s.rank own own (rw counted h))
        ∙ ap (insert_at s.rank own) (vals_id (except s.rank cs))
        ∙ insert_at-except s.rank cs lt in
      (
        w₃,
        rw
            (
              ne→==_false n 0 (omega arith),
              worker,
              endpoints,
              ne→==_false count 0 (omega arith),
              copy_chunk n count s.rank recv own size h own_size,
              ◌>>=◌,
              posts,
              sent,
              collected,
            )
            (ap (λ l. ok ((ucc_ok, some (flatten l)), w₃)) filled),
        quiet ∙ logged ∙ ap (λ l. l ++ own_sends u T fuel enough s.rank own ps) sent₁,
      )

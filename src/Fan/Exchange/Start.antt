-- ===== src/Fan/Exchange/Start.antt =====
-- `fan_init` on rank 0: it never returns a topology, since a `usize` has more bytes than the slices that
-- the maps are written to.
use osu_micro_benchmarks_rs.Prelude.{
  Option-cases, get_elem?, ℕ, zero, suc, ◌+◌, ◌*◌, ◌<◌, ◌≡◌, ◌≢◌, refl, ◌∙◌, sym, ap, Option, none,
  some, List, ◌∷◌, arith, range, replicate, eq→==, inl, inr, if_false, le→ltb_false,
}
use osu_micro_benchmarks_rs.Rust.{ok, panic, Run, lift, ◌>>=◌, >>=-inv}
use osu_micro_benchmarks_rs.Rust.Slice.{copy_at}
use osu_micro_benchmarks_rs.Rust.Bytes.{to_le_bytes, length-to_le_bytes}
use osu_micro_benchmarks_rs.Ucx.{Ucx}
use osu_micro_benchmarks_rs.Ucx.Openshmem.{Openshmem}
use osu_micro_benchmarks_rs.Runtime.{Context}
use osu_micro_benchmarks_rs.Collective.Equal.{allgather}
use osu_micro_benchmarks_rs.Fan.Names.{Name}
use osu_micro_benchmarks_rs.Fan.Exchange.{
  FanTopology, Plan, write_words, broadcast_map, topology, fan_init, fan_exchange, with_plan,
  padded, max_proc_name_len, read_names, first_plan,
}

-- Eight bytes do not fit into a slice of four.
copy_usize :
    (send : List ℕ) (i v : ℕ) → copy_at send (i * 4) ((i + 1) * 4) (to_le_bytes 8 v) ≡ panic
unfolding copy_at
copy_usize send i v = ground (arith, length-to_le_bytes 8 v)

write_words_panics : (i : ℕ) (is m send : List ℕ) → write_words (i ∷ is) m send ≡ panic
unfolding write_words
write_words_panics i is m send = elim (Option-cases (get_elem? m i)) [
  | inl past ↦ rw (write_words, past) refl
  | inr (v, at) ↦ rw (write_words, at, copy_usize send i v) refl
]

write_words-range : (n : ℕ) (m send : List ℕ) → 0 < n → write_words (range 0 n) m send ≡ panic
write_words-range zero m send h = absurd (omega arith)
write_words-range (suc n) m send h = write_words_panics 0 (range 1 n) m send

module _ (u : Ucx) (fuel : ℕ) (o : Openshmem u.World) (c : Context) (root : c.rank ≡ 0)
    (many : 1 < c.size) where
  open u use {World}

  broadcast_map_panics : (m : List ℕ) (w : World) → broadcast_map u fuel o c m w ≡ panic
  unfolding broadcast_map
  broadcast_map_panics m w =
      rw (eq→== c.rank 0 root, write_words-range c.size m (replicate (c.size * 4) 0) (omega arith))
        refl

  topology_panics : (p : Plan) (w : World) → topology u fuel o c p w ≡ panic
  unfolding topology
  topology_panics p w = rw (broadcast_map_panics p.node_id_map w, ◌>>=◌) refl

  with_plan_fails :
      (p : Option Plan) (w w' : World) (t : FanTopology)
      → with_plan u fuel o c p w ≢ ok (some t, w')
  unfolding with_plan
  with_plan_fails (some plan) w w' t e = cc (topology_panics plan w)
  with_plan_fails none w w' t e = cc

  exchange_fails :
      (lossy : List ℕ → Name) (host : Name) (w w' : World) (t : FanTopology)
      → fan_exchange u fuel o lossy host c w ≢ ok (some t, w')
  unfolding fan_exchange
  exchange_fails lossy host w w' t e =
      let number = λ (names : List Name). lift (first_plan c names) >>= with_plan u fuel o c in
      let read = λ (raw : List ℕ). lift (read_names lossy raw 0 c.size) >>= number in
      let (raw, w₁, _, e₁) =
        >>=-inv
          (allgather u fuel o c (padded host) (replicate (c.size * max_proc_name_len) 0)
            max_proc_name_len)
          read w e in
      let (names, w₂, _, e₂) = >>=-inv (lift (read_names lossy raw 0 c.size)) number w₁ e₁ in
      let (p, w₃, _, e₃) = >>=-inv (lift (first_plan c names)) (with_plan u fuel o c) w₂ e₂ in
      with_plan_fails p w₃ w' t e₃

  -- On rank 0 of a job of two or more, `fan_init` returns a topology in no run, whatever the network and
  -- the host names are.
  pub fan_init_root_lem :
      (lossy : List ℕ → Name) (host : Name) (w w' : World) (t : FanTopology)
      → fan_init u fuel o lossy host c w ≢ ok (some t, w')
  unfolding fan_init
  fan_init_root_lem lossy host w w' t e = exchange_fails lossy host w w' t (
      ap (λ (k : Run World (Option FanTopology)). k w)
        (sym (if_false _ _ (le→ltb_false c.size 2 many)))
      ∙ e)

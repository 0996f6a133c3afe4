-- ===== src/Fan/Exchange.antt =====
-- congestion/src/fan_util.rs, `fan_init`: the names of all ranks come to each, rank 0 numbers the nodes,
-- and its plan goes to all.
pub mod Start
use osu_micro_benchmarks_rs.Prelude.{
  ℕ, zero, suc, ◌+◌, ◌-◌, ◌*◌, ◌/◌, ◌%◌, ◌^◌, Bool, true, false, ◌&&◌, Option, none, some, List, [],
  ◌∷◌, ◌++◌, ltb, leb, ◌==◌, if◌then◌else◌, length, range, map, replicate, min, take, get_or,
}
use osu_micro_benchmarks_rs.Rust.{Outcome, ok, panic, spin, Run, pure, lift, ◌>>=◌, ◌>>◌}
use osu_micro_benchmarks_rs.Rust.Slice.{slice, copy_at, copy_from_slice}
use osu_micro_benchmarks_rs.Rust.Bytes.{to_le_bytes, from_le_bytes}
use osu_micro_benchmarks_rs.Rust.Chunks.{chunks}
use osu_micro_benchmarks_rs.Ucx.{Ucx}
use osu_micro_benchmarks_rs.Ucx.Openshmem.{Openshmem}
use osu_micro_benchmarks_rs.Runtime.{Context, set_at}
use osu_micro_benchmarks_rs.Collective.Equal.{allgather, bcast}
use osu_micro_benchmarks_rs.Collective.Columns.{get_at}
use osu_micro_benchmarks_rs.Fan.Names.{Name, Entry, same_name, sort_by_name}
use osu_micro_benchmarks_rs.Fan.{Numbering, number_nodes}

abbrev pub max_proc_name_len : ℕ
max_proc_name_len = 256

pub record FanTopology : Type 0 where
  pub total_nodes : ℕ
  pub ppn : ℕ
  pub is_parent : Bool
  pub ranks_queue : List ℕ

-- What rank 0 sends to the others.
pub record Plan : Type 0 where
  pub node_id_map : List ℕ
  pub local_rank_map : List ℕ
  pub nodes : ℕ
  pub per_node : ℕ

abbrev pub unwrap_or : Option ℕ → ℕ → ℕ
unwrap_or (some n) d = n
unwrap_or none d = d

-- A job on one node is shown as two: rank 0, and the others.
pub plan_of : ℕ → Numbering → Plan
plan_of size t =
    if t.num_nodes == 1
    then record {
      node_id_map = 1 ∷ replicate (size - 1) 2;
      local_rank_map = replicate size 0;
      nodes = 2;
      per_node = 1;
    }
    else record {
      node_id_map = t.node_ids;
      local_rank_map = t.local_ranks;
      nodes = t.num_nodes;
      per_node = unwrap_or t.first_ppn t.local_rank;
    }

-- What rank 0 works out, and what the others start with.
pub first_plan : Context → List Name → Outcome (Option Plan)
first_plan c names =
    if c.rank == 0
    then elim (number_nodes c.size names) [
      | ok t ↦ elim t [ some t' ↦ ok (some (plan_of c.size t')) | none ↦ ok none ]
      | panic ↦ panic
      | spin ↦ spin
    ]
    else ok (
        some (record {
          node_id_map = replicate c.size 0;
          local_rank_map = replicate c.size 0;
          nodes = 1;
          per_node = 0;
        }))

-- The bytes in front of the first zero.
pub until_zero : List ℕ → List ℕ
until_zero [] = []
until_zero (b ∷ bs) = if b == 0 then [] else b ∷ until_zero bs

-- The names of `n` ranks from rank `i` on; `lossy` is `String::from_utf8_lossy`.
pub read_names : (List ℕ → Name) → List ℕ → ℕ → ℕ → Outcome (List Name)
read_names lossy raw i zero = ok []
read_names lossy raw i (suc n) =
    elim (slice raw (i * max_proc_name_len) (i * max_proc_name_len + max_proc_name_len)) [
      | ok bytes ↦ elim (read_names lossy raw (suc i) n) [
        | ok names ↦ ok (lossy (until_zero bytes) ∷ names)
        | panic ↦ panic
        | spin ↦ spin
      ]
      | panic ↦ panic
      | spin ↦ spin
    ]

-- The host name in 256 bytes.
pub padded : Name → List ℕ
padded host =
    let n = min (length host) max_proc_name_len in
    take n host ++ replicate (max_proc_name_len - n) 0

-- `send[i * 4..(i + 1) * 4].copy_from_slice(&map[i].to_le_bytes())` for each `i`; `map[i]` is a
-- `usize`.
pub write_words : List ℕ → List ℕ → List ℕ → Outcome (List ℕ)
write_words [] m send = ok send
write_words (i ∷ is) m send = elim (get_at m i) [
  | ok v ↦ elim (copy_at send (i * 4) ((i + 1) * 4) (to_le_bytes 8 v)) [
    | ok send' ↦ write_words is m send'
    | panic ↦ panic
    | spin ↦ spin
  ]
  | panic ↦ panic
  | spin ↦ spin
]

-- `chunks_exact(4)`, each read as a `u32`
pub read_words : List ℕ → List ℕ
read_words buf = map from_le_bytes (chunks 4 (length buf / 4) buf)

-- `(0..size).filter(…)`: the ranks that a parent talks to are the first of each other node.
pub children : List ℕ → List ℕ → List ℕ → List ℕ
children ids locals [] = []
children ids locals (r ∷ rs) =
    let rest = children ids locals rs in
    if leb 2 (get_or ids r 0) && (get_or locals r 0 == 0) then r ∷ rest else rest

-- `(0..size).find(…).unwrap_or(0)`: the first rank of the first node.
pub parent : List ℕ → List ℕ → List ℕ → ℕ
parent ids locals [] = 0
parent ids locals (r ∷ rs) =
    let rest = parent ids locals rs in
    if (get_or ids r 0 == 1) && (get_or locals r 0 == 0) then r else rest

module _ (u : Ucx) (fuel : ℕ) (o : Openshmem u.World) where
  open u use {World}

  -- A map of rank 0 goes to all ranks.
  pub broadcast_map : Context → List ℕ → Run World (List ℕ)
  broadcast_map c m = do
    send ← lift (
        if c.rank == 0
        then write_words (range 0 c.size) m (replicate (c.size * 4) 0)
        else ok (replicate (c.size * 4) 0))
    buf ← bcast u fuel o c send (replicate (c.size * 4) 0) 0
    lift (copy_from_slice m (read_words buf))

  -- A number of rank 0, as a `u32`.
  pub broadcast_word : Context → ℕ → Run World ℕ
  broadcast_word c n = do
    buf ← bcast u fuel o c (to_le_bytes 4 (n % 2 ^ 32)) (replicate 4 0) 0
    pure (from_le_bytes buf)

  -- The last part of `fan_init`, from what the broadcasts brought.
  pub topology : Context → Plan → Run World (Option FanTopology)
  topology c p = do
    ids ← broadcast_map c p.node_id_map
    locals ← broadcast_map c p.local_rank_map
    total_nodes ← broadcast_word c p.nodes
    ppn ← broadcast_word c p.per_node
    my_node_id ← lift (get_at ids c.rank)
    _ ← lift (get_at locals c.rank)
    pure (
        some (record {
          total_nodes = total_nodes;
          ppn = ppn;
          is_parent = my_node_id == 1;
          ranks_queue =
              if my_node_id == 1
              then children ids locals (range 0 c.size)
              else parent ids locals (range 0 c.size) ∷ [];
        }))

  -- A numbering that was refused ends the program.
  pub with_plan : Context → Option Plan → Run World (Option FanTopology)
  with_plan c (some plan) = topology c plan
  with_plan c none = pure none

  -- The names of all ranks, the numbering on rank 0, and its broadcast.
  pub fan_exchange : (List ℕ → Name) → Name → Context → Run World (Option FanTopology)
  fan_exchange lossy host c = do
    raw ←
        allgather u fuel o c (padded host) (replicate (c.size * max_proc_name_len) 0)
          max_proc_name_len
    names ← lift (read_names lossy raw 0 c.size)
    p ← lift (first_plan c names)
    with_plan c p

  -- With the host name of this rank.
  pub fan_init : (List ℕ → Name) → Name → Context → Run World (Option FanTopology)
  fan_init lossy host c = if ltb c.size 2 then pure none else fan_exchange lossy host c

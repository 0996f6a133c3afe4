-- ===== src/Fan.antt =====
-- congestion/src/fan_util.rs: the topology of the fan-in and fan-out benchmarks. Messages to stderr are
-- left out; `none` stands for `process::exit(1)`.
pub mod Names
pub mod Numbers
pub mod Exchange
use osu_micro_benchmarks_rs.Prelude.{
  ℕ, zero, suc, ◌+◌, ◌-◌, ◌*◌, ◌/◌, ◌%◌, ◌^◌, Bool, true, false, ◌&&◌, Option, none, some, List, [],
  ◌∷◌, ◌++◌, ltb, leb, ◌==◌, if◌then◌else◌, length, range, map, replicate, min, take, get_or,
}
use osu_micro_benchmarks_rs.Rust.{Outcome, ok, panic, spin, Run, pure, lift, ◌>>=◌, ◌>>◌}
use osu_micro_benchmarks_rs.Rust.Slice.{slice, copy_at, copy_from_slice}
use osu_micro_benchmarks_rs.Rust.Bytes.{to_le_bytes, from_le_bytes}
use osu_micro_benchmarks_rs.Rust.Chunks.{chunks}
use osu_micro_benchmarks_rs.Ucx.{Ucx}
use osu_micro_benchmarks_rs.Ucx.Openshmem.{Openshmem}
use osu_micro_benchmarks_rs.Runtime.{Context, set_at}
use osu_micro_benchmarks_rs.Collective.Equal.{allgather, bcast}
use osu_micro_benchmarks_rs.Collective.Columns.{get_at}
use osu_micro_benchmarks_rs.Fan.Names.{Name, Entry, same_name, sort_by_name}

-- The variables of the loop that numbers the nodes.
pub record Numbering : Type 0 where
  pub node_ids : List ℕ
  pub local_ranks : List ℕ
  pub num_nodes : ℕ
  pub local_rank : ℕ
  pub first_ppn : Option ℕ

-- `hostnames.iter().enumerate().map(|(r, h)| (h.clone(), r))`
pub entries : List Name → ℕ → List Entry
entries [] r = []
entries (h ∷ hs) r = (h, r) ∷ entries hs (suc r)

-- The name changes: the node that ends must have as many ranks as the first one.
pub new_node : Numbering → Option Numbering
new_node t = elim t.first_ppn [
  | some fp ↦
      if fp == t.local_rank
      then some (record t { num_nodes = t.num_nodes + 1; local_rank = 0 })
      else none
  | none ↦
      some (record t { first_ppn = some t.local_rank; num_nodes = t.num_nodes + 1; local_rank = 0 })
]

-- The head of the loop's body, with the name before this one.
pub turn : Option Name → Name → Numbering → Option Numbering
turn none name t = some t
turn (some before) name t = if same_name name before then some t else new_node t

-- The rest of the body: the rank gets the number of the node, and the next local rank.
pub place : ℕ → Numbering → Outcome Numbering
place r t = elim (set_at t.node_ids r t.num_nodes) [
  | ok ids ↦ elim (set_at t.local_ranks r t.local_rank) [
    | ok locals ↦
        ok (record t { node_ids = ids; local_ranks = locals; local_rank = t.local_rank + 1 })
    | panic ↦ panic
    | spin ↦ spin
  ]
  | panic ↦ panic
  | spin ↦ spin
]

-- `for (idx, (_name, _rank)) in rank_by_name.iter().enumerate() { … }`
pub assign : Option Name → List Entry → Numbering → Outcome (Option Numbering)
assign before [] t = ok (some t)
assign before ((name, r) ∷ es) t = elim (turn before name t) [
  | some t' ↦ elim (place r t') [ ok t'' ↦ assign (some name) es t'' | panic ↦ panic | spin ↦ spin ]
  | none ↦ ok none
]

abbrev pub blank : ℕ → Numbering
blank size = record {
  node_ids = replicate size 0;
  local_ranks = replicate size 0;
  num_nodes = 1;
  local_rank = 0;
  first_ppn = none;
}

pub number_nodes : ℕ → List Name → Outcome (Option Numbering)
number_nodes size names = assign none (sort_by_name (entries names 0)) (blank size)

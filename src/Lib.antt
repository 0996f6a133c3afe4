-- ===== src/Lib.antt =====
-- OSU micro-benchmarks in Rust: the collectives of the repository and the benchmarks that time them.
--
-- A job is a number of processes, each with its rank. A process has a context with an endpoint to
-- each rank and one UCX worker; its collectives send tagged messages through the endpoints, post
-- tagged receives on the worker, and call `progress` until these are finished. The benchmarks loop
-- over a list of message sizes and call one collective under a timer.
--
-- The model is that of one rank. `Rust.Run` is a run over the state of the network that the rank
-- sees: it ends with a value, by a panic, or still in a loop when its fuel is gone. The network is a
-- parameter, the record `Ucx.Ucx`: ucx-sys is not in the repository. `Ucx.TagMatching` says what
-- the code relies on: messages of a tag are matched in one order, which the network chooses
-- (`incoming`), sends are accepted and logged (`sent`), and `progress` brings each request nearer
-- (`lag`). A request is finished in the end if it is a send, or a receive that was matched with a
-- message that fits into its buffer (`Completes`); of other receives nothing is assumed.
-- `Ucx.Mailbox` is a network that has these laws. The peers are present as the
-- messages that they send. openshmem is a parameter too (`Ucx.Openshmem`); the context never
-- switches it on. Floats are a parameter with the laws that a theorem names (`Rust.Float`).
--
-- Files and code:
-- - Prelude: shared names, tests on numbers, lists by index, permutations.
-- - Rust: panics and loops as values, slices (`Slice`), buffers of chunks (`Chunks`), the bytes of
--   an integer (`Bytes`).
-- - Runtime: common/src/runtime/context.rs (`OsUContext`, `endpoint`, `progress`) and the steps that
--   the collectives are made of: a send, a receive, a wait, the loops over the peers. Its children
--   say what these do: `Wait` for the wait loops, `Loops`, `Fill`, `Pick` and `Slots` for the
--   exchange of a rank with all its peers.
-- - Collective: common/src/runtime/collective_blocking.rs. `Scalars` has `barrier` and the
--   reductions of one number, `Equal` the collectives with one message size, `Variable` those with
--   counts and displacements and `alltoall`, `Neighbor` those on a ring, `Scattered` the
--   reduce-scatters, `Columns` the byte sums.
-- - Nonblocking: common/src/runtime/non_blocking.rs. `OsuRequest` is `OsURequest` with `test` and
--   `wait` (`wait_request`); `Equal`, `Variable` and `Ring` have the collectives, `Requests` what the
--   handle keeps, `Waiting` and `Landing` what a collective and its wait do.
-- - Oob: common/src/runtime/ucc_oob.rs, `ucc_oob_allgather` as `oob_allgather`; null pointers are `none`
--   or a flag.
-- - Init: the choice of the backend in context.rs (`init_with_rma`), over the result of `init_ucc`.
-- - Timing: common/src/timing.rs, `TimingResult`.
-- - Cli: common/src/cli.rs, `message_sizes`, `ucc_backend`, `get_iterations`, `get_skip`.
-- - Output: common/src/output.rs. What a function prints is a list of pieces, with the width of each
--   field.
-- - Bench: collective/src/bin. `Blocking` has the programs over the blocking collectives: `Frame` the
--   warm-up, the timed loop and the report that they share, `Equal`, `Variable`, `Neighbor`,
--   `Allreduce` and `Barrier` the programs, `Mains` their ends. `Posted` has those over the
--   non-blocking collectives. `Stock` and `Loops` say which messages a run of many collectives uses.
--   `Window` is the windows of sends and receives of the bandwidth programs. `Pair` has pt2pt/src/bin:
--   its frame and the ping-pong programs, with `Bandwidth` for those with windows; `Trades` and `Frame`
--   follow the messages of a pair through a program. `Fans` has congestion/src/bin, `Onesided`
--   onesided/src/bin and `Startup` startup/src/bin. `Ucx.Rma` is remote memory, a parameter.
-- - Fan: congestion/src/fan_util.rs, `fan_init`. `Names` orders host names, `Numbers` is about the
--   numbering of the nodes, `Exchange` has `fan_init` around it.
-- - Libp: common/src/libp.rs. `Parts` is about splitting and joining, `Added` about adding.
-- - Tests: concrete runs.
--
-- A buffer that the code changes in place is returned. Bytes are numbers below 256, and `usize` has
-- 64 bits: sums and products that can wrap are written with their wrap-around (the release build),
-- while offsets into a buffer are taken not to wrap, since a buffer is shorter than that. Every wait
-- loop takes fuel, the same for each loop; the lag of the network is enough for it (`Runtime.Wait`),
-- and one round more for `wait`. `message_sizes` takes as many rounds as there are numbers up to the
-- maximum. A non-blocking collective returns the receive buffer as `Recvbuf`: it awaits the request
-- whose receive is posted on it (`ibcast`, `iscatter`), or it is settled, since the receives go to
-- buffers that the call drops. `contents` is what it holds after the wait. What UCX writes to freed
-- memory is not modelled.
--
-- A benchmark program runs on a `Machine`: the network, the number of readings of the clock so far and
-- the printed pieces. The clock is a parameter, a function from the number of a reading to a time; where a
-- timer starts (`Wtime::new`) is not modelled, so that a reading stands for the whole interval. The
-- host name of a rank and `String::from_utf8_lossy` are parameters of `Fan`; there `none` stands for
-- `process::exit(1)`. The programs over a ring take at most eighteen counts, as the code does.
-- The receives of a window share one buffer that no program reads, so that its length stands for it; the
-- worker threads of osu_latency_mt only count and are left out. The variables of the environment and
-- the existence of files are parameters of `Libp`.
--
-- Not modelled: the start-up with PMIx and UCC, the registration of memory, the messages on stderr, the
-- digits of a printed float, and the arguments that only these read.
pub mod Prelude
pub mod Rust
pub mod Ucx
pub mod Runtime
pub mod Collective
pub mod Nonblocking
pub mod Cli
pub mod Oob
pub mod Init
pub mod Timing
pub mod Output
pub mod Bench
pub mod Fan
pub mod Libp
mod Tests

-- ===== src/Tests/Onesided.antt =====
-- A window of puts on a worker that accepts all operations.
use osu_micro_benchmarks_rs.Prelude.{
  ℕ, ◌≡◌, refl, true, false, none, some, List, [], ◌∷◌, ◌++◌, arith, map, range,
}
use osu_micro_benchmarks_rs.Rust.{ok}
use osu_micro_benchmarks_rs.Ucx.{Ucx}
use osu_micro_benchmarks_rs.Ucx.Rma.{Rma, Put, PutLog}
use osu_micro_benchmarks_rs.Bench.Onesided.{do_put_bw}
use osu_micro_benchmarks_rs.Bench.Onesided.Puts.{piece, do_put_bw_lem}

-- The state is the log of the puts, and every request is finished.
abbrev recorder : Ucx
recorder = record {
  World = List Put;
  Request = Unit {0};
  tag_send = λ d m t w. (some none, w);
  tag_recv = λ n t mask w. (some (some tt), w);
  check_finished = λ q w. some true;
  progress = λ w. (false, w);
  received = λ q buf w. buf;
}

abbrev recording : Rma recorder
recording = record {
  rma_put = λ d m a w. (true, w ++ (record { target = d; address = a; bytes = m } ∷ []));
  rma_get = λ d n a w. (true, w);
  amo_add64 = λ d x a w. (true, w);
  amo_cswap64 = λ d e v a w. (true, w);
  amo_fadd64 = λ d x a w. (some tt, w);
  reply = λ q w. 0;
  flush = λ w. (some none, w);
}

abbrev log : PutLog recorder recording
log = record { puts = λ w. w; put_accepted = λ d m a w. refl; put_logged = λ d m a w. refl }

abbrev two_pairs : List ℕ
two_pairs = 5 ∷ 6 ∷ 7 ∷ 8 ∷ []

do_put_bw_example :
    (w' : List Put) × (do_put_bw recorder recording 1 1 two_pairs 2 2 4096 [] ≡ ok (tt, w'))
    × (w' ≡ [] ++ map (piece 1 two_pairs 2 4096) (range 0 2))
do_put_bw_example =
    do_put_bw_lem recorder recording 1 log 1 two_pairs 2 2 4096 [] (omega arith) (omega arith)

-- ===== src/Output.antt =====
-- common/src/output.rs: what the benchmarks print. The layout of a field (`{:<10}`, `{:>20.2}`) is kept
-- as data, and the digits of a float are std's. A write that fails is passed over by the code.
use Prim.Native.String.{String}
use osu_micro_benchmarks_rs.Prelude.{ℕ, List, [], ◌∷◌, ltb, if◌then◌else◌}

-- A piece of a line: bare text, a text or number or float in a field of a width, or the end of the line.
pub data Piece (F : Type 0) : Type 0 where
  text : String → Piece F
  left_text right_text : ℕ → String → Piece F
  left_number : ℕ → ℕ → Piece F
  right_float : ℕ → ℕ → F → Piece F
  newline : Piece F

pub data BenchmarkType : Type 0 where
  latency bandwidth bi_bandwidth mbw_mr collective_latency collective_bandwidth : BenchmarkType
  non_blocking_collective startup congestion_bw : BenchmarkType

abbrev pub field_width : ℕ
field_width = 20

abbrev pub float_precision : ℕ
float_precision = 2

abbrev pub size_width : ℕ
size_width = 10

-- The name of a test; `print_header` puts the version behind it.
pub title : BenchmarkType → String
title BenchmarkType.latency = "OSU MPI Latency Test"
title BenchmarkType.bandwidth = "OSU MPI Bandwidth Test"
title BenchmarkType.bi_bandwidth = "OSU MPI Bidirectional Bandwidth Test"
title BenchmarkType.mbw_mr = "OSU MPI Multi-Buffer and Multi-Region Bandwidth Test"
title BenchmarkType.collective_latency = "OSU MPI Collective Latency Test"
title BenchmarkType.collective_bandwidth = "OSU MPI Collective Bandwidth Test"
title BenchmarkType.non_blocking_collective = "OSU MPI Non-Blocking Collective Latency Test"
title BenchmarkType.startup = "OSU MPI Startup Test"
title BenchmarkType.congestion_bw = "OSU MPI Congestion Bandwidth Test"

module _ {F : Type 0} where
  -- `{:>20.2}` behind a space
  abbrev pub value_column : F → List (Piece F) → List (Piece F)
  value_column v rest = text " " ∷ right_float field_width float_precision v ∷ rest

  abbrev pub title_column : ℕ → String → List (Piece F) → List (Piece F)
  title_column width t rest = text " " ∷ right_text width t ∷ rest

  -- The name of the benchmark is not printed.
  pub print_header : String → BenchmarkType → List (Piece F)
  print_header name bench_type =
      text "# " ∷ text (title bench_type) ∷ text " (v7.5.2)" ∷ newline ∷ []

  pub print_latency_header : List (Piece F)
  print_latency_header =
      text "# "
      ∷ left_text size_width "Size"
      ∷ title_column field_width "Latency (usec)" (newline ∷ [])

  pub print_bandwidth_header : List (Piece F)
  print_bandwidth_header =
      text "# "
      ∷ left_text size_width "Size"
      ∷ title_column field_width "Bandwidth (MB/s)" (newline ∷ [])

  pub print_bibw_header : List (Piece F)
  print_bibw_header =
      text "# "
      ∷ left_text size_width "Size"
      ∷ title_column field_width "BW (MB/s)"
          (title_column 23 "Message Rate (Mmsg/s)" (newline ∷ []))

  pub print_latency_row : ℕ → F → F → F → List (Piece F)
  print_latency_row size avg low high =
      left_number size_width size ∷ value_column avg (value_column low (value_column high []))

  pub print_latency_avg : ℕ → F → List (Piece F)
  print_latency_avg size avg = left_number size_width size ∷ value_column avg []

  pub print_bandwidth_row : ℕ → F → F → F → List (Piece F)
  print_bandwidth_row size avg low high =
      left_number size_width size ∷ value_column avg (value_column low (value_column high []))

  pub print_bandwidth_avg : ℕ → F → List (Piece F)
  print_bandwidth_avg size avg = left_number size_width size ∷ value_column avg []

  pub print_newline : List (Piece F)
  print_newline = newline ∷ []

  pub print_latency_row_validate : ℕ → F → ℕ → List (Piece F)
  print_latency_row_validate size avg errors =
      left_number size_width size
      ∷ value_column avg (title_column field_width (if ltb 0 errors then "Fail" else "Pass") [])

  pub print_nbc_header : List (Piece F)
  print_nbc_header =
      text "# "
      ∷ left_text size_width "Size"
      ∷ title_column field_width "Overlap" (
          title_column field_width "CPU" (
            title_column field_width "Communication"
              (title_column field_width "Wait" (title_column field_width "Init" (newline ∷ [])))))

  pub print_nbc_row : ℕ → F → F → F → F → F → List (Piece F)
  print_nbc_row size overlap cpu communication wait init =
      left_number size_width size
      ∷ value_column overlap
          (value_column cpu (value_column communication (value_column wait (value_column init []))))

  pub print_startup : String → F → List (Piece F)
  print_startup label time_ms =
      left_text 30 label ∷ text " " ∷ right_float 12 4 time_ms ∷ text " ms" ∷ newline ∷ []

  pub print_data_line : ℕ → F → List (Piece F)
  print_data_line size value = left_number size_width size ∷ value_column value (newline ∷ [])

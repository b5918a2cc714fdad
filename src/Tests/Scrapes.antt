-- ===== src/Tests/Scrapes.antt =====
-- A device with a quote and a newline in its nickname, a request in two chunks, and a core's counters.
use lin_sight.Base.{ℕ, refl, some, ◌≡◌, ◌<◌, ◌++◌, List, [], ◌∷◌, codes, Text, All}
use lin_sight.Base.Sorting.{sort_by, place}
use lin_sight.Base.Keys.{text_eq, text_beq}
use lin_sight.Base.Dict.{Dict}
use lin_sight.Core.Chars.{
  lines, lines_from, chomp, split_whitespace, words_from, trim, trim_start, trim_end, keep_end,
  is_whitespace, is_ascii_digit, is_ascii_whitespace, strip_prefix,
}
use lin_sight.Core.Numbers.{parse_unsigned, unsigned, digits_value}
use lin_sight.Prometheus.{info_line}
use lin_sight.Prometheus.Lines.{read_info, info_of, read_info-info_line}
use lin_sight.Prometheus.Request.{eof, read_limited_line, max_request_line_bytes}
use lin_sight.Prometheus.Request.Chunks.{in_one, concat, read_limited_line-concat}
use lin_sight.Sensors.ProcStat.{
  Stat, parse_core_stats, collect_cores, core_line, core_of, core_index, parse_core_stat,
  parse_stat, parse_fields, parse_field, stat_of,
}
use lin_sight.Sensors.ProcStat.Cores.{parse_core_stats-small}
use lin_sight.Tests.Devices.{first_key, card}

abbrev odd_names : Dict Text Text
odd_names = (first_key, b'"' ∷ 10 ∷ b'\\' ∷ []) ∷ []

read_info-info_line_example :
    read_info (info_line odd_names (card first_key) ++ codes "# next")
    ≡ some (info_of odd_names (card first_key), codes "# next")
read_info-info_line_example = read_info-info_line odd_names (card first_key) (codes "# next")

abbrev request : List Text
request = codes "GET /met" ∷ codes "rics HTTP/1.0" ∷ (10 ∷ 10 ∷ []) ∷ []

read_limited_line-concat_example :
    in_one (read_limited_line eof max_request_line_bytes [] request)
    ≡ in_one (read_limited_line eof max_request_line_bytes [] (concat request ∷ []))
read_limited_line-concat_example = read_limited_line-concat eof max_request_line_bytes request

abbrev sample_at : ℕ → ℕ → Stat
sample_at used unused = record {
  user = used;
  nice = 0;
  system = 0;
  idle = unused;
  iowait = 0;
  irq = 0;
  softirq = 0;
  steal = 0;
}

abbrev stat_text : Text
stat_text = codes "cpu3 1 0 0 1 0 0 0 0" ++ 10 ∷ codes "cpu10 1 0 0 1 0 0 0 0"

parse_core_stats-small_example : All {A = ℕ × Stat} (λ p. p.0 < 10) ((3, sample_at 1 1) ∷ [])
unfolding parse_core_stats collect_cores core_line core_of core_index parse_core_stat parse_stat
    parse_fields parse_field stat_of lines lines_from chomp split_whitespace words_from trim
    trim_start trim_end keep_end is_whitespace is_ascii_digit is_ascii_whitespace strip_prefix
    parse_unsigned unsigned digits_value sort_by place text_beq
parse_core_stats-small_example =
    parse_core_stats-small stat_text {cores = (3, sample_at 1 1) ∷ []} refl

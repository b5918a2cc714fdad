-- ===== src/Prometheus/Request.antt =====
-- The exporter's reading of a request, `read_limited_line` and `serve_one`. The bytes come in chunks,
-- as the reads of the socket return them.
pub mod Chunks
pub mod Headers
use lin_sight.Base.{
  ℕ, ◌+◌, ◌*◌, ◌-◌, Bool, true, false, ◌||◌, not, List, [], ◌∷◌, ◌++◌, Option, none, some, Text,
  codes, if◌then◌else◌, ltb, ◌==◌, length, zero, suc,
}
use lin_sight.Base.Keys.{text_beq}
use lin_sight.Core.Chars.{split_whitespace}

-- What comes after the last chunk: the end, a time-out or another error.
pub data Ending : Type 0 where
  eof timed_out broken : Ending

pub data RequestReadError : Type 0 where
  too_long timeout io : RequestReadError

-- A line with the chunks behind it, the end before any byte, or an error.
pub data LineRead : Type 0 where
  line : Text → List Text → LineRead
  nothing : LineRead
  failed : RequestReadError → LineRead

abbrev pub max_request_line_bytes : ℕ
max_request_line_bytes = 2048

abbrev pub max_header_bytes : ℕ
max_header_bytes = 16 * 1024

-- The bytes up to the first newline and with it, the others, and whether there is a newline.
unfoldable pub split_line : Text → Text × Text × Bool
split_line [] = ([], [], false)
split_line (c ∷ cs) =
    let (front, back, hit) = split_line cs in
    if c == 10 then (c ∷ [], cs, true) else (c ∷ front, back, hit)

-- The end of the chunks, with the bytes read so far.
unfoldable pub ended : Ending → Text → LineRead
ended eof [] = nothing
ended eof (c ∷ cs) = line (c ∷ cs) []
ended timed_out out = failed timeout
ended broken out = failed io

unfoldable pub read_limited_line : Ending → ℕ → Text → List Text → LineRead
unfolding split_line ended
read_limited_line e max_bytes out [] = ended e out
read_limited_line e max_bytes out (chunk ∷ chunks) =
    let (front, back, hit) = split_line chunk in
    let more = read_limited_line e max_bytes (out ++ front) chunks in
    if ltb max_bytes (length out + length front)
    then failed too_long
    else if hit
    then line (out ++ front) (back ∷ chunks)
    else more

-- How a connection ends: without an answer, with a status, or with the metrics.
pub data HttpReply : Type 0 where
  silent : HttpReply
  status : ℕ → HttpReply
  metrics : HttpReply
  io_error : HttpReply

unfoldable pub refusal : RequestReadError → HttpReply
refusal too_long = status 400
refusal timeout = status 408
refusal io = io_error

pub data HeadersRead : Type 0 where
  complete : HeadersRead
  refused : HttpReply → HeadersRead
  out_of_fuel : HeadersRead

unfoldable pub is_blank : Text → Bool
is_blank l = text_beq l (13 ∷ 10 ∷ []) || text_beq l (10 ∷ [])

unfoldable pub read_headers : ℕ → Ending → ℕ → List Text → HeadersRead
unfolding read_limited_line refusal is_blank
read_headers zero e header_bytes chunks = out_of_fuel
read_headers (suc fuel) e header_bytes chunks =
    if max_header_bytes - header_bytes == 0
    then refused (status 400)
    else elim (read_limited_line e (max_header_bytes - header_bytes) [] chunks) [
      | nothing ↦ complete
      | failed why ↦ refused (refusal why)
      | line l rest ↦
          let more = read_headers fuel e (header_bytes + length l) rest in
          if is_blank l then complete else more
    ]

-- The answer to a request line that was decoded.
unfoldable pub route : List Text → HttpReply
route (method ∷ path ∷ version ∷ more) =
    if not (text_beq method (codes "GET"))
    then status 405
    else if text_beq path (codes "/metrics")
    then metrics
    else status 404
route _ = status 405

-- `from_utf8` is the decoding of the standard library.
unfoldable pub answer_to : (Text → Option Text) → Text → HttpReply
unfolding split_whitespace route
answer_to from_utf8 request_line = elim (from_utf8 request_line) [
  | none ↦ status 400
  | some t ↦ route (split_whitespace t)
]

unfoldable pub serve_one : (Text → Option Text) → Ending → List Text → HttpReply
unfolding read_limited_line read_headers refusal answer_to
serve_one from_utf8 e chunks = elim (read_limited_line e max_request_line_bytes [] chunks) [
  | nothing ↦ silent
  | failed why ↦ refusal why
  | line request_line rest ↦ elim (read_headers (suc max_header_bytes) e 0 rest) [
    | complete ↦ answer_to from_utf8 request_line
    | refused a ↦ a
    | out_of_fuel ↦ silent
  ]
]

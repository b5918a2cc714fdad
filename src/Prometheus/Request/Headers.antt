-- ===== src/Prometheus/Request/Headers.antt =====
-- The reading of the headers ends within its bounds.
use lin_sight.Base.{
  ℕ, ◌+◌, ◌-◌, ◌≤◌, ◌<◌, ◌≡◌, ◌≢◌, refl, subst, ◌⊎◌, true, List, [], ◌∷◌, ◌++◌, Text, arith, ltb,
  ◌==◌, length, length-append, Bool-cases, inl, inr, zero, suc,
}
use lin_sight.Prometheus.Request.{
  Ending, eof, timed_out, broken, RequestReadError, LineRead, line, nothing, failed, split_line,
  ended, read_limited_line, max_header_bytes, out_of_fuel, read_headers, is_blank,
}
use lin_sight.Prometheus.Request.Chunks.{front, hit, split_line-newline, split_line-other}

front-nonempty : (t : Text) → hit t ≡ true → 1 ≤ length (front t)
unfolding split_line
front-nonempty [] h = absurd (cc)
front-nonempty (c ∷ cs) h = elim (Bool-cases (c == 10)) [
  | inl here ↦ rw (front, split_line-newline c cs here) (omega arith)
  | inr later ↦ rw (front, split_line-other c cs later) (omega arith)
]

LineRead-cases :
    (r : LineRead)
    → ((l : Text) × (rest : List Text) × (r ≡ line l rest))
      ⊎ (r ≡ nothing)
      ⊎ ((why : RequestReadError) × (r ≡ failed why))
LineRead-cases (line l rest) = inl (l, rest, refl)
LineRead-cases nothing = inr (inl refl)
LineRead-cases (failed why) = inr (inr (why, refl))

-- A line that is read has a byte, and no more than it may.
Short : ℕ → LineRead → Type 0
Short max (line l rest) = (1 ≤ length l) × (length l ≤ max)
Short max nothing = Unit {0}
Short max (failed why) = Unit {0}

ended-Short : (e : Ending) (max : ℕ) (out : Text) → length out ≤ max → Short max (ended e out)
unfolding ended Short
ended-Short eof max [] h = tt
ended-Short eof max (c ∷ cs) h = (omega arith, h)
ended-Short timed_out max out h = tt
ended-Short broken max out h = tt

read_limited_line-Short :
    (e : Ending) (max : ℕ) (out : Text) (chunks : List Text)
    → length out ≤ max
    → Short max (read_limited_line e max out chunks)
unfolding read_limited_line Short
read_limited_line-Short e max out [] h = ended-Short e max out h
read_limited_line-Short e max out (c ∷ cs) h =
    let joined = length-append out (front c) in
    elim (Bool-cases (ltb max (length out + length (front c)))) [
      | inl over ↦ rw (read_limited_line, front, over) tt
      | inr fits ↦ elim (Bool-cases (hit c)) [
        | inl here ↦
            let some_bytes = front-nonempty c here in
            rw (read_limited_line, front, hit, fits, here)
              (ground (arith, joined), ground (arith, joined))
        | inr later ↦
            rw (read_limited_line, front, hit, fits, later)
              (read_limited_line-Short e max (out ++ front c) cs (ground (arith, joined)))
      ]
    ]

read_headers-bounded :
    (fuel : ℕ) (e : Ending) (header_bytes : ℕ) (chunks : List Text)
    → header_bytes ≤ max_header_bytes
    → max_header_bytes < fuel + header_bytes
    → read_headers fuel e header_bytes chunks ≢ out_of_fuel
unfolding read_headers Short
read_headers-bounded zero e n chunks h enough = absurd (omega arith)
read_headers-bounded (suc fuel) e n chunks h enough =
    let short = read_limited_line-Short e (max_header_bytes - n) [] chunks (omega arith) in
    elim (Bool-cases (max_header_bytes - n == 0)) [
      | inl full ↦ rw (read_headers, full) (λ g. ground arith)
      | inr room ↦ elim (LineRead-cases (read_limited_line e (max_header_bytes - n) [] chunks)) [
        | inr (inl end) ↦ rw (read_headers, room, end) (λ g. ground arith)
        | inr (inr (why, error)) ↦ rw (read_headers, room, error) (λ g. ground arith)
        | inl (l, rest, read) ↦
            let (one, few) : (1 ≤ length l) × (length l ≤ max_header_bytes - n) =
              subst (Short (max_header_bytes - n)) read short in
            elim (Bool-cases (is_blank l)) [
              | inl blank ↦ rw (read_headers, room, read, blank) (λ g. ground arith)
              | inr header ↦
                  rw (read_headers, room, read, header)
                    (read_headers-bounded fuel e (n + length l) rest (omega arith) (omega arith))
            ]
      ]
    ]

-- The loop over the headers of a request, whatever bytes come and however, ends within the fuel that
-- `serve_one` gives it, one more than the bytes that the headers may have.
pub read_headers_ends :
    (e : Ending) (chunks : List Text) → read_headers (suc max_header_bytes) e 0 chunks ≢ out_of_fuel
read_headers_ends e chunks =
    read_headers-bounded (suc max_header_bytes) e 0 chunks (omega arith) (omega arith)

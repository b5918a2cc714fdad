-- ===== src/Prometheus/Request/Chunks.antt =====
-- How the bytes of a request are cut into chunks does not matter.
use lin_sight.Base.{
  ℕ, ◌+◌, ◌≡◌, refl, sym, ap, ◌∙◌, Bool, true, false, List, [], ◌∷◌, ◌++◌, Text, arith,
  if◌then◌else◌, ltb, ◌==◌, length, length-append, Bool-cases, inl, inr,
}
use mathlib.Core.List.{append_assoc, append-nil}
use lin_sight.Prometheus.Request.{
  Ending, too_long, LineRead, line, nothing, failed, split_line, ended, read_limited_line,
}

abbrev pub concat : List Text → Text
concat [] = []
concat (c ∷ cs) = c ++ concat cs

-- A result with the chunks behind a line put together.
abbrev pub in_one : LineRead → LineRead
in_one (line l chunks) = line l (concat chunks ∷ [])
in_one nothing = nothing
in_one (failed why) = failed why

abbrev pub front : Text → Text
front t = (split_line t).0

abbrev back : Text → Text
back t = (split_line t).1

abbrev pub hit : Text → Bool
hit t = (split_line t).2

abbrev pub pieces : Text → Text → Bool → Text × Text × Bool
pieces f b h = (f, b, h)

pub split_line-newline :
    (c : ℕ) (cs : Text) → c == 10 ≡ true → split_line (c ∷ cs) ≡ pieces (c ∷ []) cs true
unfolding split_line
split_line-newline c cs h = rw (split_line, h) refl

pub split_line-other :
    (c : ℕ) (cs : Text)
    → c == 10 ≡ false
    → split_line (c ∷ cs) ≡ pieces (c ∷ front cs) (back cs) (hit cs)
unfolding split_line
split_line-other c cs h = rw (split_line, h) refl

split_line-hit :
    (a b : Text) → hit a ≡ true → split_line (a ++ b) ≡ pieces (front a) (back a ++ b) true
unfolding split_line
split_line-hit [] b h = absurd (cc)
split_line-hit (c ∷ cs) b h = elim (Bool-cases (c == 10)) [
  | inl here ↦
      split_line-newline c (cs ++ b) here
      ∙ ap (λ t. pieces t.0 (t.1 ++ b) true) (sym (split_line-newline c cs here))
  | inr later ↦
      let inner : hit cs ≡ true = sym (ap (λ t. t.2) (split_line-other c cs later)) ∙ h in
      split_line-other c (cs ++ b) later
      ∙ ap (λ t. pieces (c ∷ t.0) t.1 t.2) (split_line-hit cs b inner)
      ∙ ap (λ t. pieces t.0 (t.1 ++ b) true) (sym (split_line-other c cs later))
]

split_line-miss :
    (a b : Text)
    → hit a ≡ false
    → (front a ≡ a) × (split_line (a ++ b) ≡ pieces (a ++ front b) (back b) (hit b))
unfolding split_line
split_line-miss [] b h = (refl, refl)
split_line-miss (c ∷ cs) b h = elim (Bool-cases (c == 10)) [
  | inl here ↦
      let is : hit (c ∷ cs) ≡ true = ap (λ t. t.2) (split_line-newline c cs here) in absurd (cc)
  | inr later ↦
      let inner : hit cs ≡ false = sym (ap (λ t. t.2) (split_line-other c cs later)) ∙ h in
      let (same, split) = split_line-miss cs b inner in
      (
        ap (λ t. t.0) (split_line-other c cs later) ∙ ap (◌∷◌ c) same,
        split_line-other c (cs ++ b) later ∙ ap (λ t. pieces (c ∷ t.0) t.1 t.2) split,
      )
]

-- The result on bytes that are split already, behind those that were read.
abbrev at_once : Ending → ℕ → Text → Text × Text × Bool → LineRead
at_once e max out (f, b, h) =
    if ltb max (length out + length f)
    then failed too_long
    else if h
    then line (out ++ f) (b ∷ [])
    else in_one (ended e (out ++ f))

at_once-shift :
    (e : Ending) (max : ℕ) (out c f b : Text) (h : Bool)
    → at_once e max (out ++ c) (pieces f b h) ≡ at_once e max out (pieces (c ++ f) b h)
at_once-shift e max out c f b h =
    let lengths : length (out ++ c) + length f ≡ length out + length (c ++ f) =
      omega (arith, length-append out c, length-append c f) in
    rw (at_once, lengths, append_assoc out c f) refl

-- A chunk in which the line ends.
read-ends :
    (e : Ending) (max : ℕ) (out c : Text) (cs : List Text)
    → hit c ≡ true
    → in_one (read_limited_line e max out (c ∷ cs))
      ≡ at_once e max out (pieces (front c) (back c ++ concat cs) true)
unfolding read_limited_line
read-ends e max out c cs here = elim (Bool-cases (ltb max (length out + length (front c)))) [
  | inl over ↦ rw (read_limited_line, at_once, front, over) refl
  | inr fits ↦ rw (read_limited_line, at_once, front, back, fits, here) refl
]

-- A chunk without a newline.
read-goes_on :
    (e : Ending) (max : ℕ) (out c : Text) (cs : List Text)
    → hit c ≡ false
    → front c ≡ c
    → ltb max (length out + length c) ≡ false
    → read_limited_line e max out (c ∷ cs) ≡ read_limited_line e max (out ++ c) cs
unfolding read_limited_line
read-goes_on e max out c cs later same fits = rw (read_limited_line, same, fits, later) refl

read-overflows :
    (e : Ending) (max : ℕ) (out c : Text) (cs : List Text)
    → front c ≡ c
    → ltb max (length out + length c) ≡ true
    → read_limited_line e max out (c ∷ cs) ≡ failed too_long
unfolding read_limited_line
read-overflows e max out c cs same over = rw (read_limited_line, same, over) refl

at_once-overflows :
    (e : Ending) (max : ℕ) (out c f b : Text) (h : Bool)
    → ltb max (length out + length c) ≡ true
    → at_once e max out (pieces (c ++ f) b h) ≡ failed too_long
at_once-overflows e max out c f b h over =
    let longer : ltb max (length out + length (c ++ f)) ≡ true =
      ground (arith, length-append c f) in
    rw (at_once, longer) refl

read-at_once :
    (e : Ending) (max : ℕ) (out : Text) (chunks : List Text)
    → ltb max (length out) ≡ false
    → in_one (read_limited_line e max out chunks) ≡ at_once e max out (split_line (concat chunks))
unfolding read_limited_line split_line
read-at_once e max out [] room =
    let none_more : length out + 0 ≡ length out = omega arith in
    rw (at_once, none_more, room, append-nil out) refl
read-at_once e max out (c ∷ cs) room = elim (Bool-cases (hit c)) [
  | inl here ↦
      read-ends e max out c cs here
      ∙ ap (at_once e max out) (sym (split_line-hit c (concat cs) here))
  | inr later ↦
      let (same, split) = split_line-miss c (concat cs) later in
      let r = concat cs in
      elim (Bool-cases (ltb max (length out + length c))) [
        | inl over ↦
            ap in_one (read-overflows e max out c cs same over)
            ∙ sym (at_once-overflows e max out c (front r) (back r) (hit r) over)
            ∙ ap (at_once e max out) (sym split)
        | inr fits ↦
            let room' : ltb max (length (out ++ c)) ≡ false = ground (arith, length-append out c) in
            ap in_one (read-goes_on e max out c cs later same fits)
            ∙ read-at_once e max (out ++ c) cs room'
            ∙ at_once-shift e max out c (front r) (back r) (hit r)
            ∙ ap (at_once e max out) (sym split)
      ]
]

-- The line that is read, or the error, is the same however the bytes are cut into chunks: it is the one
-- that all the bytes give in one chunk, with the same bytes behind it.
pub read_limited_line-concat :
    (e : Ending) (max : ℕ) (chunks : List Text)
    → in_one (read_limited_line e max [] chunks)
      ≡ in_one (read_limited_line e max [] (concat chunks ∷ []))
read_limited_line-concat e max chunks =
    read-at_once e max [] chunks (ground arith)
    ∙ ap (λ t. at_once e max [] (split_line t)) (sym (append-nil (concat chunks)))
    ∙ sym (read-at_once e max [] (concat chunks ∷ []) (ground arith))

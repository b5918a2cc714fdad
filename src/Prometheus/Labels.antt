-- ===== src/Prometheus/Labels.antt =====
-- A scraper reads back the labels as they were: no text in them can end a label, a line or the
-- metadata early.
use lin_sight.Base.{
  ℕ, ◌≡◌, refl, sym, ap, ◌∙◌, true, false, [], ◌∷◌, ◌++◌, Option, none, some, Text, if◌then◌else◌,
  ◌==◌, ==_iff, Bool-cases, inl, inr,
}
use lin_sight.Base.Keys.{text_eq}
use lin_sight.Prometheus.{escaped_label}

abbrev cons_read : ℕ → Option (Text × Text) → Option (Text × Text)
cons_read c none = none
cons_read c (some (v, rest)) = some (c ∷ v, rest)

-- The character that a backslash and `c` stand for.
abbrev unescaped : ℕ → Option ℕ
unescaped c =
    if c == b'\\'
    then some b'\\'
    else if c == b'"'
    then some b'"'
    else if c == b'n'
    then some 10
    else none

abbrev cons_unescaped : Option ℕ → Option (Text × Text) → Option (Text × Text)
cons_unescaped none r = none
cons_unescaped (some c) r = cons_read c r

-- A label's value up to its closing quote, as the text exposition format defines it, and what
-- follows the quote.
unfoldable pub read_label : Text → Option (Text × Text)
read_label [] = none
read_label (c ∷ []) = if c == b'"' then some ([], []) else none
read_label (c ∷ d ∷ ds) =
    let plain = read_label (d ∷ ds) in
    let past = read_label ds in
    if c == b'"'
    then some ([], d ∷ ds)
    else if c == b'\\'
    then cons_unescaped (unescaped d) past
    else if c == 10
    then none
    else cons_read c plain

read_label-plain :
    (c : ℕ) (t : Text) {v rest : Text}
    → c == b'"' ≡ false
    → c == b'\\' ≡ false
    → c == 10 ≡ false
    → read_label t ≡ some (v, rest)
    → read_label (c ∷ t) ≡ some (c ∷ v, rest)
unfolding read_label
read_label-plain c [] p q r h = absurd (cc)
read_label-plain c (d ∷ ds) p q r h = rw (p, q, r, h) refl

read_label-pair :
    (d e : ℕ) (t : Text) {v rest : Text}
    → unescaped d ≡ some e
    → read_label t ≡ some (v, rest)
    → read_label (b'\\' ∷ d ∷ t) ≡ some (e ∷ v, rest)
unfolding read_label
read_label-pair d e t u h = rw (read_label, u, h) refl

abbrev result : Text → Text → Option (Text × Text)
result v rest = some (v, rest)

same_head :
    (c d : ℕ) → c == d ≡ true → (cs rest : Text) → result (d ∷ cs) rest ≡ result (c ∷ cs) rest
same_head c d h cs rest = ap (λ x. result (x ∷ cs) rest) (sym ((==_iff c d).0 h))

read_label-close : (rest : Text) → read_label (b'"' ∷ rest) ≡ some ([], rest)
unfolding read_label
read_label-close [] = refl
read_label-close (c ∷ cs) = refl

-- The value of a label, escaped and closed by a quote, is read back, with what follows.
pub read_label-escaped_label :
    (v rest : Text) → read_label (escaped_label v ++ b'"' ∷ rest) ≡ some (v, rest)
unfolding escaped_label
read_label-escaped_label [] [] = read_label-close []
read_label-escaped_label [] (c ∷ rest) = read_label-close (c ∷ rest)
read_label-escaped_label (c ∷ cs) rest =
    let t = escaped_label cs ++ b'"' ∷ rest in
    let later = read_label-escaped_label cs rest in
    elim (Bool-cases (c == b'\\')) [
      | inl slash ↦
          rw slash (read_label-pair b'\\' b'\\' t refl later ∙ same_head c b'\\' slash cs rest)
      | inr no_slash ↦ elim (Bool-cases (c == b'"')) [
        | inl quote ↦
            rw (no_slash, quote)
              (read_label-pair b'"' b'"' t refl later ∙ same_head c b'"' quote cs rest)
        | inr no_quote ↦ elim (Bool-cases (c == 10)) [
          | inl line ↦
              rw (no_slash, no_quote, line)
                (read_label-pair b'n' 10 t refl later ∙ same_head c 10 line cs rest)
          | inr no_line ↦
              rw (no_slash, no_quote, no_line)
                (read_label-plain c t no_quote no_slash no_line later)
        ]
      ]
    ]

-- ===== src/Frame/Sound.antt =====
-- Whatever is read is a frame that stood in front, and when reading panics.
use lin_sight.Base.{
  ℕ, ◌-◌, ◌≤◌, ◌<◌, ◌≡◌, ◌≢◌, ◌↔◌, ap, ◌∙◌, List, ◌∷◌, ◌++◌, arith, ltb, length, Bool-cases, inl,
  inr, sym,
}
use lin_sight.Frame.{
  Source, io, ok, panic, read_exact, read_first, read_frame_header, read_body, read_frame,
  closed_at_eof, max_frame_bytes,
}
use lin_sight.Frame.Bytes.{of_le_bytes}
use lin_sight.Frame.Input.{
  Header, Read-cases, read_exact-ok, read_exact-panic, read_first-ok, read_frame_header-front,
}

pub read_frame_header-ok :
    (s : Source) {len b : ℕ} {t : Source} → read_frame_header s ≡ ok (len, b) t → Header s len b t
unfolding read_frame_header
read_frame_header-ok s {len} {b} {t} h = elim (Read-cases (read_exact closed_at_eof 4 s)) [
  | inr (inl (why, e)) ↦ absurd (ground arith)
  | inr (inr e) ↦ absurd (ground arith)
  | inl (p, u, e) ↦
      let (four, front, ends) = read_exact-ok closed_at_eof 4 s e in
      elim (Bool-cases (ltb max_frame_bytes (of_le_bytes p))) [
        | inl large ↦ absurd (ground arith)
        | inr short ↦
            let first : read_first (of_le_bytes p) u ≡ ok (len, b) t = ground arith in
            let (says, rest, ends') = read_first-ok (of_le_bytes p) u first in
            record {
              prefix = p;
              four = four;
              says = says;
              short = ground arith;
              splits = ground arith;
              ends = ends' ∙ ends;
            }
      ]
]

pub read_body-ok :
    (len b : ℕ) (s : Source) {body : List ℕ} {t : Source}
    → read_body len b s ≡ ok body t
    → (0 < len) × (length body ≡ len) × (t.ending ≡ s.ending) × (b ∷ s.bytes ≡ body ++ t.bytes)
unfolding read_body
read_body-ok len b s {body} {t} h = elim (Read-cases (read_exact io (len - 1) s)) [
  | inr (inl (why, e)) ↦ ground arith
  | inr (inr e) ↦ ground (arith, read_exact-panic io (len - 1) s)
  | inl (rest, u, e) ↦ ground (arith, read_exact-ok io (len - 1) s e)
]

read_frame_header-panic : (s : Source) → read_frame_header s ≢ panic
unfolding read_frame_header read_first
read_frame_header-panic s h = ground arith

read_body-panic : (len b : ℕ) (s : Source) → read_body len b s ≡ panic → len ≡ 0
unfolding read_body
read_body-panic len b s h = ground arith

-- A body that is read is a whole frame's: it is not empty, is at most the limit long, and stood
-- behind its own length in front of what is left.
pub read_frame-ok :
    (s : Source) {body : List ℕ} {t : Source}
    → read_frame s ≡ ok body t
    → (prefix : List ℕ) × (length prefix ≡ 4)
      × (of_le_bytes prefix ≡ length body)
      × (0 < length body)
      × (length body ≤ max_frame_bytes)
      × (s.bytes ≡ prefix ++ (body ++ t.bytes))
unfolding read_frame
read_frame-ok s {body} {t} h = elim (Read-cases (read_frame_header s)) [
  | inr (inl (why, e)) ↦ absurd (ground arith)
  | inr (inr e) ↦ absurd (ground arith)
  | inl ((len, b), u, e) ↦
      let head = read_frame_header-ok s e in
      let rest : read_body len b u ≡ ok body t = ground arith in
      let (some_len, len_is, _, front) = read_body-ok len b u rest in
      (
        head.prefix,
        head.four,
        head.says ∙ sym len_is,
        omega arith,
        omega (arith, head.short),
        head.splits ∙ ap (◌++◌ head.prefix) front,
      )
]

-- Reading a frame panics exactly on a length prefix of 0 with another byte behind it.
pub read_frame_panics :
    (s : Source)
    → (read_frame s ≡ panic) ↔ (
        (prefix : List ℕ) × (b : ℕ) × (rest : List ℕ) × (length prefix ≡ 4)
        × (of_le_bytes prefix ≡ 0)
        × (s.bytes ≡ prefix ++ b ∷ rest))
unfolding read_frame
read_frame_panics s = (
  λ h. elim (Read-cases (read_frame_header s)) [
    | inr (inl (why, e)) ↦ absurd (ground arith)
    | inr (inr e) ↦ absurd (read_frame_header-panic s e)
    | inl ((len, b), u, e) ↦
        let head = read_frame_header-ok s e in
        let body : read_body len b u ≡ panic = ground arith in
        (head.prefix, b, u.bytes, head.four, head.says ∙ read_body-panic len b u body, head.splits)
  ],
  λ (prefix, b, rest, four, zero_len, front). rw (
    read_frame_header-front prefix b rest s four (omega (arith, zero_len)) front,
    zero_len,
    read_frame,
  ),
)

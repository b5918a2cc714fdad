-- ===== src/Frame/Input.antt =====
-- What a reader does on the bytes that are there.
use lin_sight.Base.{
  ℕ, ◌-◌, ◌≤◌, ◌≡◌, ◌≢◌, refl, List, [], ◌∷◌, ◌++◌, arith, leb, length, take, drop, Bool-cases, inl,
  inr, ◌⊎◌, sym, leb→le, take-append, drop-append, take-drop, length-take, length-append,
}
use lin_sight.Frame.{
  Source, Ending, FrameError, io, Read, ok, err, panic, read_exact, read_first, read_frame_header,
  read_body, read_frame, first_of, closed_at_eof, max_frame_bytes,
}
use lin_sight.Frame.Bytes.{to_le_bytes, of_le_bytes, of_le_bytes-to_le_bytes}

abbrev pub with_bytes : Source → List ℕ → Source
with_bytes s bs = record s { bytes = bs }

-- The bytes in front are read whatever stands behind them.
pub read_exact-front :
    (e : Ending → FrameError) (n : ℕ) (xs ys : List ℕ) (s : Source)
    → length xs ≡ n
    → s.bytes ≡ xs ++ ys
    → read_exact e n s ≡ ok xs (with_bytes s ys)
unfolding read_exact
read_exact-front e n xs ys s len front =
    rw (front, ← len, take-append xs ys, drop-append xs ys) (ground (arith, length-append xs ys))

read_first-front :
    (len b : ℕ) (bs : List ℕ) (s : Source)
    → s.bytes ≡ b ∷ bs
    → read_first len s ≡ ok (len, b) (with_bytes s bs)
unfolding read_first first_of
read_first-front len b bs s front = rw (read_exact-front closed_at_eof 1 (b ∷ []) bs s refl front)

pub read_frame_header-front :
    (p : List ℕ) (b : ℕ) (bs : List ℕ) (s : Source)
    → length p ≡ 4
    → of_le_bytes p ≤ max_frame_bytes
    → s.bytes ≡ p ++ b ∷ bs
    → read_frame_header s ≡ ok (of_le_bytes p, b) (with_bytes s bs)
unfolding read_frame_header
read_frame_header-front p b bs s four short front =
    rw (read_exact-front closed_at_eof 4 p (b ∷ bs) s four front)
      (ground (arith, read_first-front (of_le_bytes p) b bs (with_bytes s (b ∷ bs)) refl))

pub read_body-front :
    (b : ℕ) (bs rest : List ℕ) (s : Source)
    → s.bytes ≡ bs ++ rest
    → read_body (length (b ∷ bs)) b s ≡ ok (b ∷ bs) (with_bytes s rest)
unfolding read_body
read_body-front b [] rest s front = ground arith
read_body-front b (c ∷ cs) rest s front =
    ground
      (arith, read_exact-front io (length (b ∷ c ∷ cs) - 1) (c ∷ cs) rest s (omega arith) front)

-- A whole frame in front is read as its body.
pub read_frame-front :
    (b : ℕ) (bs rest : List ℕ) (s : Source)
    → length (b ∷ bs) ≤ max_frame_bytes
    → s.bytes ≡ to_le_bytes (length (b ∷ bs)) ++ b ∷ (bs ++ rest)
    → read_frame s ≡ ok (b ∷ bs) (with_bytes s rest)
unfolding read_frame
read_frame-front b bs rest s short front =
    let len : of_le_bytes (to_le_bytes (length (b ∷ bs))) ≡ length (b ∷ bs) =
      of_le_bytes-to_le_bytes (length (b ∷ bs)) (omega arith) in
    rw
      (
        read_frame_header-front (to_le_bytes (length (b ∷ bs))) b (bs ++ rest) s
            (unfold to_le_bytes in refl) (rw len short) front,
        len,
      )
      (read_body-front b bs rest (with_bytes s (bs ++ rest)) refl)

-- What was read stood in front.
pub read_exact-ok :
    (e : Ending → FrameError) (n : ℕ) (s : Source) {xs : List ℕ} {t : Source}
    → read_exact e n s ≡ ok xs t
    → (length xs ≡ n) × (s.bytes ≡ xs ++ t.bytes) × (t.ending ≡ s.ending)
unfolding read_exact
read_exact-ok e n s {xs} {t} h = elim (Bool-cases (leb n (length s.bytes))) [
  | inl enough ↦
      let is_xs : take n s.bytes ≡ xs = ground arith in
      let is_t : with_bytes s (drop n s.bytes) ≡ t = ground arith in
      rw (← is_xs, ← is_t)
        (length-take n s.bytes (leb→le n (length s.bytes) enough), sym (take-drop n s.bytes), refl)
  | inr short ↦ absurd (ground arith)
]

pub read_exact-panic : (e : Ending → FrameError) (n : ℕ) (s : Source) → read_exact e n s ≢ panic
unfolding read_exact
read_exact-panic e n s h = ground arith

-- A header that is read.
pub record Header (s : Source) (len b : ℕ) (t : Source) : Type 0 where
  pub prefix : List ℕ
  pub four : length prefix ≡ 4
  pub says : of_le_bytes prefix ≡ len
  pub short : len ≤ max_frame_bytes
  pub splits : s.bytes ≡ prefix ++ b ∷ t.bytes
  pub ends : t.ending ≡ s.ending

pub Read-cases :
    {A : Type 0} (r : Read A)
    → ((a : A) × (t : Source) × (r ≡ ok a t)) ⊎ ((e : FrameError) × (r ≡ err e)) ⊎ (r ≡ panic)
Read-cases (ok a t) = inl (a, t, refl)
Read-cases (err e) = inr (inl (e, refl))
Read-cases panic = inr (inr refl)

singleton_of : (xs : List ℕ) → length xs ≡ 1 → xs ≡ first_of xs ∷ []
unfolding first_of
singleton_of [] h = absurd (omega arith)
singleton_of (x ∷ []) h = refl
singleton_of (x ∷ y ∷ xs) h = absurd (omega arith)

pub read_first-ok :
    (n : ℕ) (s : Source) {len b : ℕ} {t : Source}
    → read_first n s ≡ ok (len, b) t
    → (n ≡ len) × (s.bytes ≡ b ∷ t.bytes) × (t.ending ≡ s.ending)
unfolding read_first
read_first-ok n s {len} {b} {t} h = elim (Read-cases (read_exact closed_at_eof 1 s)) [
  | inl (first, u, e) ↦
      let (one, front, ends) = read_exact-ok closed_at_eof 1 s e in
      (ground arith, ground (arith, singleton_of first one), ground arith)
  | inr (inl (why, e)) ↦ absurd (ground arith)
  | inr (inr e) ↦ absurd (ground arith)
]

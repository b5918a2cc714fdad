-- ===== src/Frame/RoundTrip.antt =====
-- What one side writes the other side reads.
use lin_sight.Base.{
  ℕ, zero, suc, ◌+◌, ◌-◌, ◌≤◌, ◌≡◌, ◌≢◌, refl, ap, ◌∙◌, List, [], ◌∷◌, ◌++◌, some, arith, leb, ◌==◌,
  if◌then◌else◌, length, drop, min, Bool-cases, inl, inr, drop-drop, length-drop,
}
use mathlib.Core.List.{append_assoc}
use lin_sight.Frame.{
  Source, Codec, ok, err, io, read_message, decoded, skip_rounds, skip_frame_body, read_exact,
  max_frame_bytes,
}
use lin_sight.Frame.Bytes.{to_le_bytes}
use lin_sight.Frame.Input.{with_bytes, read_frame-front}
use lin_sight.Frame.Write.{Reserves, sent, write_frame, write_frame-sent}

-- What the code relies on in postcard: it decodes what it encodes, and no message encodes to
-- nothing.
pub record IsCodec {M : Type 0} (c : Codec M) : Type 0 where
  pub back : (m : M) (body : List ℕ) → c.to_bytes m ≡ some body → c.from_bytes body ≡ some m
  pub some_bytes : (m : M) → c.to_bytes m ≢ some []

module _ {M : Type 0} (c : Codec M) (law : IsCodec c) where
  pub read_message-front :
      (m : M) (body rest : List ℕ) (s : Source)
      → c.to_bytes m ≡ some body
      → length body ≤ max_frame_bytes
      → s.bytes ≡ (to_le_bytes (length body) ++ body) ++ rest
      → read_message c s ≡ ok m (with_bytes s rest)
  unfolding read_message decoded
  read_message-front m [] rest s encodes short front = absurd (law.some_bytes m encodes)
  read_message-front m (b ∷ bs) rest s encodes short front = rw (
    read_frame-front b bs rest s short
        (front ∙ append_assoc (to_le_bytes (length (b ∷ bs))) (b ∷ bs) rest),
    law.back m (b ∷ bs) encodes,
  )

  -- The bytes of the messages that a writer sent one after another.
  pub data Sends (reserve : ℕ → ℕ) : List M → List ℕ → Type 0 where
    nothing : Sends reserve [] []
    more :
        {ms : List M} {out : List ℕ} (cap : ℕ) (m : M) (bytes : List ℕ) (cap' : ℕ)
        → write_frame c reserve cap m ≡ sent bytes cap'
        → Sends reserve ms out
        → Sends reserve (m ∷ ms) (bytes ++ out)

  -- The messages of as many reads.
  pub data Reads : Source → List M → Source → Type 0 where
    done : {s t : Source} → s ≡ t → Reads s [] t
    got :
        {s u t : Source} {m : M} {ms : List M}
        → read_message c s ≡ ok m u
        → Reads u ms t
        → Reads s (m ∷ ms) t

  -- A reader gets back the messages that a writer sent, in order, and stands behind the last
  -- of them, whatever capacities the buffer has, if postcard decodes what it encodes and
  -- encodes no message to nothing.
  pub read-write_frame :
      (reserve : ℕ → ℕ) {ms : List M} {out : List ℕ} (s : Source) (rest : List ℕ)
      → Reserves reserve
      → Sends reserve ms out
      → s.bytes ≡ out ++ rest
      → Reads s ms (with_bytes s rest)
  read-write_frame reserve s rest grows nothing front = done (ap (λ b. with_bytes s b) front)
  read-write_frame reserve s rest grows (more {out} cap m bytes cap' sends others) front =
      let (body, encodes, short, is_frame) = write_frame-sent c reserve grows cap m sends in
      let front' : s.bytes ≡ (to_le_bytes (length body) ++ body) ++ (out ++ rest) =
        front ∙ append_assoc bytes out rest ∙ ap (λ x. x ++ (out ++ rest)) is_frame in
      got (read_message-front m body (out ++ rest) s encodes short front')
        (read-write_frame reserve (with_bytes s (out ++ rest)) rest grows others refl)

-- Skipping in rounds of at most 1024 bytes is skipping at once.
skip_rounds-eq :
    (fuel n : ℕ) (s : Source)
    → n ≤ fuel
    → skip_rounds fuel n s ≡ (
        if leb n (length s.bytes) then ok tt (with_bytes s (drop n s.bytes)) else err (io s.ending))
unfolding skip_rounds read_exact
skip_rounds-eq zero n s h = let none_left : n ≡ 0 = omega arith in rw none_left (ground arith)
skip_rounds-eq (suc fuel) n s h =
    let k = min n 1024 in
    let whole : k + (n - k) ≡ n = omega arith in
    let skipped : drop (n - k) (drop k s.bytes) ≡ drop n s.bytes =
      drop-drop k (n - k) s.bytes ∙ ap (λ i. drop i s.bytes) whole in
    elim (Bool-cases (n == 0)) [
      | inl nothing_left ↦ let none_left : n ≡ 0 = ground arith in rw none_left (ground arith)
      | inr some_left ↦
          let later = skip_rounds-eq fuel (n - k) (with_bytes s (drop k s.bytes)) (ground arith) in
          rw some_left (ground (arith, later, skipped, length-drop k s.bytes))
    ]

-- Skipping the rest of a frame in rounds of at most 1024 bytes takes exactly that many bytes
-- away, or fails where they run out; the loop always ends.
pub skip_frame_body-eq :
    (n : ℕ) (s : Source)
    → skip_frame_body n s ≡ (
        if leb n (length s.bytes) then ok tt (with_bytes s (drop n s.bytes)) else err (io s.ending))
unfolding skip_frame_body
skip_frame_body-eq n s = skip_rounds-eq n n s (omega arith)

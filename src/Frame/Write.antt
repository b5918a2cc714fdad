-- ===== src/Frame/Write.antt =====
-- `FrameWriter`: a message is serialised into a buffer that grows until it fits, and goes out behind
-- its length in one write.
use lin_sight.Base.{
  ℕ, zero, suc, ◌+◌, ◌≤◌, ◌<◌, ◌≡◌, List, ◌++◌, Option, none, some, arith, ltb, leb, if◌then◌else◌,
  length, max, Bool-cases, Option-cases, leb→le, inl, inr,
}
use lin_sight.Frame.{Codec, FrameError, decode, oversized, max_frame_bytes}
use lin_sight.Frame.Bytes.{to_le_bytes}

-- The bytes that go to `write_all`, with the capacity of `body_buf` after the call.
pub data Written : Type 0 where
  sent : List ℕ → ℕ → Written
  refused : FrameError → Written
  spins : Written

-- The loop of `serialize_body` on a body of `n` bytes, to the capacity that holds it. `reserve c`
-- is the capacity after `Vec::reserve` on a full buffer of `c` bytes.
unfoldable pub fit_rounds : (ℕ → ℕ) → ℕ → ℕ → ℕ → Option ℕ
fit_rounds reserve zero n cap = none
fit_rounds reserve (suc fuel) n cap =
    let more = fit_rounds reserve fuel n (reserve cap) in if leb n cap then some cap else more

-- `len` is compared before it is narrowed to a `u32`.
unfoldable pub frame : List ℕ → ℕ → Written
frame body cap =
    if ltb max_frame_bytes (length body)
    then refused (oversized (length body))
    else sent (to_le_bytes (length body) ++ body) cap

unfoldable pub write_body : (ℕ → ℕ) → List ℕ → ℕ → Written
unfolding frame
write_body reserve body cap = elim (fit_rounds reserve (length body + 1) (length body) cap) [
  | none ↦ spins
  | some cap' ↦ frame body cap'
]

unfoldable pub write_frame : {M : Type 0} → Codec M → (ℕ → ℕ) → ℕ → M → Written
unfolding write_body
write_frame c reserve cap m = elim (c.to_bytes m) [
  | none ↦ refused decode
  | some body ↦ write_body reserve body cap
]

-- `reserve(cap.max(256))` makes room for at least that many bytes more.
abbrev pub Reserves : (ℕ → ℕ) → Type 0
Reserves reserve = (cap : ℕ) → cap + max cap 256 ≤ reserve cap

fit_rounds_total :
    (reserve : ℕ → ℕ) (fuel n cap : ℕ)
    → Reserves reserve
    → 0 < fuel
    → n < fuel + cap
    → (cap' : ℕ) × (fit_rounds reserve fuel n cap ≡ some cap') × (n ≤ cap')
unfolding fit_rounds
fit_rounds_total reserve zero n cap grows some_fuel h = absurd (omega arith)
fit_rounds_total reserve (suc fuel) n cap grows some_fuel h = elim (Bool-cases (leb n cap)) [
  | inl fits ↦ (cap, rw fits, leb→le n cap fits)
  | inr over ↦ rw over (
      fit_rounds_total reserve fuel n (reserve cap) grows (ground arith)
        (ground (arith, grows cap)))
]

module _ {M : Type 0} (c : Codec M) (reserve : ℕ → ℕ) (grows : Reserves reserve) (cap : ℕ) where
  -- A message that postcard can encode is sent as its length and its encoding, in one write, if it
  -- fits a frame, and is refused with its true length if not; the buffer's loop always ends.
  pub write_frame_exact :
      (m : M) (body : List ℕ)
      → c.to_bytes m ≡ some body
      → (cap' : ℕ) × (length body ≤ cap')
        × (write_frame c reserve cap m ≡ (
            if ltb max_frame_bytes (length body)
            then refused (oversized (length body))
            else sent (to_le_bytes (length body) ++ body) cap'))
  unfolding write_frame write_body frame
  write_frame_exact m body encodes =
      let (cap', fits, large) =
        fit_rounds_total reserve (length body + 1) (length body) cap grows (omega arith)
          (omega arith) in
      (cap', large, rw (encodes, write_frame, fits, write_body))

  -- So what was sent is one whole frame of the message, within the limit.
  pub write_frame-sent :
      (m : M) {out : List ℕ} {cap' : ℕ}
      → write_frame c reserve cap m ≡ sent out cap'
      → (body : List ℕ) × (c.to_bytes m ≡ some body)
        × (length body ≤ max_frame_bytes)
        × (out ≡ to_le_bytes (length body) ++ body)
  unfolding write_frame
  write_frame-sent m {out} h = elim (Option-cases (c.to_bytes m)) [
    | inl cannot ↦ absurd (ground arith)
    | inr (body, encodes) ↦
        let (cap'', large, result) = write_frame_exact m body encodes in
        (body, encodes, ground (arith, result), ground (arith, result))
  ]

-- ===== src/Frame/Response/Wait.antt =====
-- The wait finds the response behind any frames that are not for it.
use lin_sight.Base.{
  subst, All, ℕ, zero, suc, ◌+◌, ◌-◌, ◌≤◌, ◌<◌, ◌≡◌, ◌≢◌, ◌∙◌, refl, sym, ap, Bool, true, false,
  not, List, [], ◌∷◌, ◌++◌, some, arith, ltb, ◌==◌, if◌then◌else◌, length, Bool-cases, inl, inr,
  length-append, drop-append,
}
use lin_sight.Base.Keys.{beq_refl, nat_eq}
use mathlib.Core.List.{append_assoc}
use lin_sight.Messages.{ServerMsg, Reply, response, bye, server_tag}
use lin_sight.Frame.{Source, Codec, ok, read_frame_header, skip_frame_body, max_frame_bytes}
use lin_sight.Frame.Bytes.{to_le_bytes, of_le_bytes, of_le_bytes-to_le_bytes}
use lin_sight.Frame.Input.{with_bytes, read_frame_header-front, read_body-front}
use lin_sight.Frame.Write.{Reserves, sent, write_frame, write_frame-sent}
use lin_sight.Frame.RoundTrip.{IsCodec, Sends, nothing, more, skip_frame_body-eq}
use lin_sight.Frame.Response.{
  Round, again, replied, on_response, with_body, skipped, round, rounds, read_server_response,
}

-- postcard writes the index of the variant first.
abbrev pub Tagged : {F V : Type 0} → Codec (ServerMsg F V) → Type 0
Tagged {F} {V} c =
    (m : ServerMsg F V) (b : ℕ) (bs : List ℕ) → c.to_bytes m ≡ some (b ∷ bs) → b ≡ server_tag m

-- A message that the wait for `req_id` passes over.
unfoldable pub is_noise : {F V : Type 0} → ℕ → ServerMsg F V → Bool
is_noise req_id (response rid result) = not (rid == req_id)
is_noise req_id (bye reason) = false
is_noise req_id _ = true

module _ {F V : Type 0} (c : Codec (ServerMsg F V)) (law : IsCodec c) (tagged : Tagged c)
    (req_id : ℕ) where
  -- The first bytes of a frame of a message.
  header_of :
      (m : ServerMsg F V) (b : ℕ) (bs rest : List ℕ) (s : Source)
      → length (b ∷ bs) ≤ max_frame_bytes
      → s.bytes ≡ (to_le_bytes (length (b ∷ bs)) ++ b ∷ bs) ++ rest
      → read_frame_header s ≡ ok (length (b ∷ bs), b) (with_bytes s (bs ++ rest))
  header_of m b bs rest s short front =
      let len : of_le_bytes (to_le_bytes (length (b ∷ bs))) ≡ length (b ∷ bs) =
        of_le_bytes-to_le_bytes (length (b ∷ bs)) (omega arith) in
      subst (λ n. read_frame_header s ≡ ok (n, b) (with_bytes s (bs ++ rest))) len
        (read_frame_header-front (to_le_bytes (length (b ∷ bs))) b (bs ++ rest) s
          (unfold to_le_bytes in refl) (rw len short)
          (front ∙ append_assoc (to_le_bytes (length (b ∷ bs))) (b ∷ bs) rest))

  on_response_noise :
      (m : ServerMsg F V) (s : Source)
      → is_noise req_id m ≡ true
      → on_response req_id (some m) s ≡ again s
  unfolding on_response is_noise
  on_response_noise (response rid result) s h = ground arith
  on_response_noise _ s h = refl

  not_bye : (m : ServerMsg F V) → is_noise req_id m ≡ true → server_tag m ≢ 4
  unfolding server_tag is_noise
  not_bye (bye reason) h e = ground arith
  not_bye _ h e = ground arith

  skips :
      (bs rest : List ℕ) (s : Source)
      → Path
          (Round F V)
          (if ltb 1 (suc (length bs))
            then skipped (skip_frame_body (suc (length bs) - 1) (with_bytes s (bs ++ rest)))
            else again (with_bytes s (bs ++ rest)))
          (again (with_bytes s rest))
  unfolding skipped
  skips [] rest s = ground arith
  skips (x ∷ xs) rest s =
      rw (skip_frame_body-eq (suc (length (x ∷ xs)) - 1) (with_bytes s ((x ∷ xs) ++ rest)))
        (ground (arith, length-append (x ∷ xs) rest, drop-append (x ∷ xs) rest))

  round_noise :
      (m : ServerMsg F V) (b : ℕ) (bs rest : List ℕ) (s : Source)
      → c.to_bytes m ≡ some (b ∷ bs)
      → is_noise req_id m ≡ true
      → round c req_id (length (b ∷ bs)) b (with_bytes s (bs ++ rest)) ≡ again (with_bytes s rest)
  unfolding round
  round_noise m b bs rest s encodes noise = elim (Bool-cases (b == 5)) [
    | inl five ↦
        rw
          (
            five,
            read_body-front b bs rest (with_bytes s (bs ++ rest)) refl,
            with_body,
            law.back m (b ∷ bs) encodes,
          )
          (on_response_noise m (with_bytes s rest) noise)
    | inr not_five ↦ elim (Bool-cases (b == 4)) [
      | inl four ↦ absurd (not_bye m noise (sym (tagged m b bs encodes) ∙ ground arith))
      | inr not_four ↦ rw (not_five, not_four) (skips bs rest s)
    ]
  ]

  -- One frame of a message and the round it takes.
  rounds_step :
      (fuel : ℕ) (m : ServerMsg F V) (body rest : List ℕ) (s : Source)
      → c.to_bytes m ≡ some body
      → length body ≤ max_frame_bytes
      → is_noise req_id m ≡ true
      → s.bytes ≡ (to_le_bytes (length body) ++ body) ++ rest
      → rounds (suc fuel) c req_id s ≡ rounds fuel c req_id (with_bytes s rest)
  unfolding rounds
  rounds_step fuel m [] rest s encodes short noise front = absurd (law.some_bytes m encodes)
  rounds_step fuel m (b ∷ bs) rest s encodes short noise front =
      rw (rounds, header_of m b bs rest s short front, round_noise m b bs rest s encodes noise)

  rounds_hit :
      (fuel : ℕ) (result : Reply F V) (body rest : List ℕ) (s : Source)
      → c.to_bytes (response req_id result) ≡ some body
      → length body ≤ max_frame_bytes
      → s.bytes ≡ (to_le_bytes (length body) ++ body) ++ rest
      → rounds (suc fuel) c req_id s ≡ replied result (with_bytes s rest)
  unfolding rounds round on_response with_body server_tag
  rounds_hit fuel result [] rest s encodes short front =
      absurd (law.some_bytes (response req_id result) encodes)
  rounds_hit fuel result (b ∷ bs) rest s encodes short front =
      let is_five : b ≡ 5 = tagged (response req_id result) b bs encodes in
      let five : (b == 5) ≡ true = rw is_five refl in
      let same : (req_id == req_id) ≡ true = beq_refl req_id in
      let taken = read_body-front b bs rest (with_bytes s (bs ++ rest)) refl in
      let decodes = law.back (response req_id result) (b ∷ bs) encodes in
      rw (
        rounds,
        header_of (response req_id result) b bs rest s short front,
        five,
        taken,
        decodes,
        same,
      )

  -- A frame takes at least the four bytes of its length.
  shorter_by_prefix :
      {fuel : ℕ} (body left : List ℕ) (s : Source)
      → s.bytes ≡ (to_le_bytes (length body) ++ body) ++ left
      → length s.bytes < suc fuel
      → length left < fuel
  unfolding to_le_bytes
  shorter_by_prefix body left s front enough =
      let n = length body in
      let whole = ap length front in
      omega (arith, whole, length-append (to_le_bytes n ++ body) left)

  module _ (reserve : ℕ → ℕ) (grows : Reserves reserve) where
    rounds-response :
        (fuel : ℕ) {ms : List (ServerMsg F V)} {out : List ℕ} (cap : ℕ) (result : Reply F V)
        (bytes : List ℕ) (cap' : ℕ) (rest : List ℕ) (s : Source)
        → length s.bytes < fuel
        → Sends c law reserve ms out
        → All (λ m. is_noise req_id m ≡ true) ms
        → write_frame c reserve cap (response req_id result) ≡ sent bytes cap'
        → s.bytes ≡ out ++ (bytes ++ rest)
        → rounds fuel c req_id s ≡ replied result (with_bytes s rest)
    rounds-response zero cap result bytes cap' rest s enough sends noise writes front =
        absurd (omega arith)
    rounds-response (suc fuel) cap result bytes cap' rest s enough nothing noise writes front =
        let (body, encodes, short, is_frame) =
          write_frame-sent c reserve grows cap (response req_id result) writes in
        rounds_hit fuel result body rest s encodes short (front ∙ ap (λ x. x ++ rest) is_frame)
    rounds-response (suc fuel) cap result bytes cap' rest s enough
          (more {out} cap₁ m one cap₂ sent_one others) noise writes front =
        let (body, encodes, short, is_frame) = write_frame-sent c reserve grows cap₁ m sent_one in
        let left = out ++ (bytes ++ rest) in
        let front' : s.bytes ≡ (to_le_bytes (length body) ++ body) ++ left =
          front ∙ append_assoc one out (bytes ++ rest) ∙ ap (λ x. x ++ left) is_frame in
        let shorter : length left < fuel = shorter_by_prefix body left s front' enough in
        rounds_step fuel m body left s encodes short noise.0 front'
        ∙ rounds-response fuel cap result bytes cap' rest (with_bytes s left) shorter others noise.1
            writes refl

    -- Behind any frames that a writer sent, of which none answers the request or is a goodbye,
    -- the wait finds the response to its request and leaves the source behind it, if postcard
    -- decodes what it encodes and puts the index of the variant first.
    pub response_is_found :
        {ms : List (ServerMsg F V)} {out : List ℕ} (cap : ℕ) (result : Reply F V) (bytes : List ℕ)
        (cap' : ℕ) (rest : List ℕ) (s : Source)
        → Sends c law reserve ms out
        → All (λ m. is_noise req_id m ≡ true) ms
        → write_frame c reserve cap (response req_id result) ≡ sent bytes cap'
        → s.bytes ≡ out ++ (bytes ++ rest)
        → read_server_response c req_id s ≡ replied result (with_bytes s rest)
    unfolding read_server_response
    response_is_found cap result bytes cap' rest s sends noise writes front =
        rounds-response (length s.bytes + 1) cap result bytes cap' rest s (omega arith) sends noise
          writes front

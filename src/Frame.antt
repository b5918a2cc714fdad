-- ===== src/Frame.antt =====
-- crates/linsight-protocol/src/frame.rs: length-prefixed frames over a byte stream. The encoding of
-- a message is postcard's, a parameter.
pub mod Bytes
pub mod Input
pub mod Sound
pub mod Write
pub mod RoundTrip
pub mod Response
use lin_sight.Base.{
  ℕ, suc, ◌+◌, ◌-◌, ◌≡◌, List, [], ◌∷◌, ◌++◌, Option, none, some, ltb, leb, ◌==◌, if◌then◌else◌,
  length, take, drop, min, zero,
}
use Bytes.{of_le_bytes}

-- How the bytes of a connection end: closed by the peer, or another error.
pub data Ending : Type 0 where
  eof fault : Ending

pub record Source : Type 0 where
  pub bytes : List ℕ
  pub ending : Ending

pub data FrameError : Type 0 where
  io : Ending → FrameError
  decode : FrameError
  oversized : ℕ → FrameError
  closed : FrameError

-- `panic` is the panic of an index out of bounds.
pub data Read {ℓ} (A : Type ℓ) : Type ℓ where
  ok : A → Source → Read A
  err : FrameError → Read A
  panic : Read A

module _ {ℓ κ} {A : Type ℓ} {B : Type κ} where
  infixl 5 ◌>>=◌
  -- The next step goes on with what is left of the source.
  abbrev pub ◌>>=◌ : Read A → (A → Source → Read B) → Read B
  ok a s >>= g = g a s
  err e >>= g = err e
  panic >>= g = panic

-- `MAX_FRAME_BYTES`
abbrev pub max_frame_bytes : ℕ
max_frame_bytes = 1_048_576

-- `read_exact`, with the error that an end of the stream becomes.
unfoldable pub read_exact : (Ending → FrameError) → ℕ → Source → Read (List ℕ)
read_exact e n s =
    if leb n (length s.bytes)
    then ok (take n s.bytes) (record s { bytes = drop n s.bytes })
    else err (e s.ending)

-- In the header the end of the stream is a closed connection.
unfoldable pub closed_at_eof : Ending → FrameError
closed_at_eof eof = closed
closed_at_eof fault = io fault

unfoldable pub first_of : List ℕ → ℕ
first_of [] = 0
first_of (b ∷ bs) = b

unfoldable pub read_first : ℕ → Source → Read (ℕ × ℕ)
unfolding read_exact closed_at_eof first_of
read_first len s = read_exact closed_at_eof 1 s >>= λ first t. ok (len, first_of first) t

-- The length prefix and the first byte of the body.
unfoldable pub read_frame_header : Source → Read (ℕ × ℕ)
unfolding read_exact closed_at_eof read_first
read_frame_header s = read_exact closed_at_eof 4 s >>= λ len_buf t.
    let len = of_le_bytes len_buf in
    if ltb max_frame_bytes len then err (oversized len) else read_first len t

-- The body of a frame with this header; `body[0] = first` panics on an empty body.
unfoldable pub read_body : ℕ → ℕ → Source → Read (List ℕ)
unfolding read_exact
read_body len first s =
    if len == 0
    then panic
    else if ltb 1 len
    then (read_exact io (len - 1) s >>= λ rest t. ok (first ∷ rest) t)
    else ok (first ∷ []) s

unfoldable pub read_frame : Source → Read (List ℕ)
unfolding read_frame_header read_body
read_frame s = read_frame_header s >>= λ (len, first) t. read_body len first t

-- postcard, for one type of messages.
pub record Codec (M : Type 0) : Type 0 where
  pub to_bytes : M → Option (List ℕ)
  pub from_bytes : List ℕ → Option M

unfoldable pub decoded : {M : Type 0} → Option M → Source → Read M
decoded none s = err decode
decoded (some m) s = ok m s

-- `read_client` and `read_server`
unfoldable pub read_message : {M : Type 0} → Codec M → Source → Read M
unfolding read_frame decoded
read_message c s = read_frame s >>= λ body t. decoded (c.from_bytes body) t

-- `skip_frame_body`: the loop reads away at most 1024 bytes a round.
unfoldable pub skip_rounds : ℕ → ℕ → Source → Read (Unit {0})
unfolding read_exact
skip_rounds zero remaining s = ok tt s
skip_rounds (suc fuel) remaining s =
    let more = read_exact io (min remaining 1024) s >>= λ _ t.
    skip_rounds fuel (remaining - min remaining 1024) t in
    if remaining == 0 then ok tt s else more

unfoldable pub skip_frame_body : ℕ → Source → Read (Unit {0})
unfolding skip_rounds
skip_frame_body remaining s = skip_rounds remaining remaining s

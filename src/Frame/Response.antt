-- ===== src/Frame/Response.antt =====
-- `read_server_response`: the wait for the response to one request, past whatever the daemon pushes.
pub mod Wait
pub mod Ends
use lin_sight.Base.{
  ℕ, zero, suc, ◌+◌, ◌-◌, ◌≡◌, List, [], ◌∷◌, Option, none, some, ltb, ◌==◌, if◌then◌else◌, length,
  Text,
}
use lin_sight.Messages.{ServerMsg, Reply, ResponsePayload, ProtoError, response, bye, welcome}
use lin_sight.Messages
use lin_sight.Frame.{
  Source, Codec, FrameError, decode, Read, ok, err, panic, read_frame_header, read_body,
  skip_frame_body,
}

pub data Answer (F V : Type 0) : Type 0 where
  payload : ResponsePayload F V → Source → Answer F V
  server : ProtoError → Answer F V
  disconnected : Text → Answer F V
  frame_error : FrameError → Answer F V
  panicked : Answer F V
  spins : Answer F V

-- What one frame leads to.
pub data Round (F V : Type 0) : Type 0 where
  stop : Answer F V → Round F V
  again : Source → Round F V

module _ {F V : Type 0} where
  unfoldable pub replied : Reply F V → Source → Answer F V
  replied (Messages.Reply.ok p) s = payload p s
  replied (Messages.Reply.err e) s = server e

  -- The decoded body of a frame whose first byte is the index of `Response`.
  unfoldable pub on_response : ℕ → Option (ServerMsg F V) → Source → Round F V
  unfolding replied
  on_response req_id none s = stop (frame_error decode)
  on_response req_id (some (response rid result)) s =
      if rid == req_id then stop (replied result s) else again s
  on_response req_id (some _) s = again s

  -- The same for `Bye`.
  unfoldable pub on_bye : Option (ServerMsg F V) → Source → Round F V
  on_bye none s = stop (frame_error decode)
  on_bye (some (bye reason)) s = stop (disconnected reason)
  on_bye (some _) s = again s

  unfoldable pub with_body : (List ℕ → Source → Round F V) → Read (List ℕ) → Round F V
  with_body k (ok body s) = k body s
  with_body k (err e) = stop (frame_error e)
  with_body k panic = stop panicked

  unfoldable pub skipped : Read (Unit {0}) → Round F V
  skipped (ok _ s) = again s
  skipped (err e) = stop (frame_error e)
  skipped panic = stop panicked

  unfoldable pub round : Codec (ServerMsg F V) → ℕ → ℕ → ℕ → Source → Round F V
  unfolding on_response on_bye with_body skipped
  round c req_id len first s =
      if first == 5
      then with_body (λ body t. on_response req_id (c.from_bytes body) t) (read_body len first s)
      else if first == 4
      then with_body (λ body t. on_bye (c.from_bytes body) t) (read_body len first s)
      else if ltb 1 len
      then skipped (skip_frame_body (len - 1) s)
      else again s

  unfoldable pub rounds : ℕ → Codec (ServerMsg F V) → ℕ → Source → Answer F V
  rounds zero c req_id s = spins
  rounds (suc fuel) c req_id s = elim (read_frame_header s) [
    | err e ↦ frame_error e
    | panic ↦ panicked
    | ok (len, first) t ↦ elim (round c req_id len first t) [
      | stop a ↦ a
      | again u ↦ rounds fuel c req_id u
    ]
  ]

  -- Each round takes at least a header away.
  unfoldable pub read_server_response : Codec (ServerMsg F V) → ℕ → Source → Answer F V
  unfolding rounds
  read_server_response c req_id s = rounds (length s.bytes + 1) c req_id s

-- ===== src/Requests/Dispatch/Answered.antt =====
-- Every request is answered once, and what an answer leaves of the pump interval.
use lin_sight.Base.{ℕ, ◌≡◌, Option, none, some, ◌⊎◌}
use lin_sight.Messages.{Reply, response}
use lin_sight.Registry
use lin_sight.Requests.{Env, Conn, Served, served, failed, panicked}
use lin_sight.Alerts.Engine.{Engine}

module _ {F V W : Type 0} where
  -- The socket after a request, unless the write failed; `none` is a panic.
  abbrev pub socket : Served F V W → Option (Option W)
  socket (served c) = some (some c.writer)
  socket (failed c) = some none
  socket (panicked c) = none

  abbrev pub conn_after : Served F V W → Conn F V W
  conn_after (served c) = c
  conn_after (failed c) = c
  conn_after (panicked c) = c

module _ {F V W : Type 0} (env : Env F V W) (w : W) (req_id : ℕ) where
  -- All that was written is one response with the request's id.
  abbrev pub Answers : Served F V W → Type 0
  Answers out = (reply : Reply F V) × (socket out ≡ some (env.write w (response req_id reply)))

  -- One response, or a panic for a reason.
  abbrev pub Handled : Type 0 → Served F V W → Type 0
  Handled B out = Answers out ⊎ ((d : Conn F V W) × (out ≡ panicked d) × B)

-- ===== src/Workspace/Supervised.antt =====
-- How long the supervisor leaves a connection silent; `gaps` are the seconds between its visits.
use lin_sight.Base.{ℕ, ◌+◌, ◌-◌, ◌<◌, ◌≤◌, max, true, List, [], ◌∷◌, arith, All}
use lin_sight.Workspace.{Supervisor, supervisor_act, supervise}

-- The longest time since the last keepalive that a visit finds.
unfoldable pub longest_silence : List ℕ → ℕ → Supervisor → ℕ
longest_silence [] now v = 0
longest_silence (gap ∷ gaps) now v =
    max (now + gap - v.last_keepalive)
      (longest_silence gaps (now + gap) (supervise true true (now + gap) v))

supervise_recent :
    (now : ℕ) (v : Supervisor) → now - (supervise true true now v).last_keepalive < 600
unfolding supervise supervisor_act
supervise_recent now v = ground arith

-- While the connection is alive and the visits are at most `g` seconds apart, the supervisor never
-- finds 600 + `g` seconds of silence behind it, if the last keepalive was less than 600 seconds ago
-- at first.
pub longest_silence_bounded :
    (g : ℕ) (gaps : List ℕ) (now : ℕ) (v : Supervisor)
    → All (λ gap. gap ≤ g) gaps
    → now - v.last_keepalive < 600
    → longest_silence gaps now v < 600 + g
unfolding longest_silence
longest_silence_bounded g [] now v small recent = omega arith
longest_silence_bounded g (gap ∷ gaps) now v small recent = omega (
  arith,
  small.0,
  recent,
  longest_silence_bounded g gaps (now + gap) (supervise true true (now + gap) v) small.1
      (supervise_recent (now + gap) v),
)

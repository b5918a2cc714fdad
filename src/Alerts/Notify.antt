-- ===== src/Alerts/Notify.antt =====
-- `build_notifications`: the targets of a rule that fires.
use lin_sight.Base.{List, [], ◌∷◌, none, some, if◌then◌else◌, Text, codes}
use lin_sight.Base.Keys.{text_beq}
use lin_sight.Alerts.Split.{Split, ok, err, shell_split}
use lin_sight.Core.Chars.{strip_prefix}

pub data NotifyJob : Type 0 where
  desktop : Text → Text → NotifyJob
  exec : Text → Text → List Text → NotifyJob

-- The jobs for the pool, and the calls of `fire_webhook`, which are made at once.
pub record Notified : Type 0 where
  pub jobs : List NotifyJob
  pub webhooks : List (Text × Text × Text)

abbrev pub no_one : Notified
no_one = record { jobs = []; webhooks = [] }

abbrev with_job : NotifyJob → Notified → Notified
with_job j n = record n { jobs = j ∷ n.jobs }

unfoldable pub exec_job : Text → Text → Split → Notified → Notified
exec_job name target (ok []) rest = rest
exec_job name target (ok (a ∷ args)) rest = with_job (exec name target (a ∷ args)) rest
exec_job name target (err why) rest = rest

-- One target, in front of the others.
unfoldable pub notify_one : Text → Text → Text → Notified → Notified
unfolding exec_job shell_split strip_prefix
notify_one name expr target rest =
    if text_beq target (codes "desktop")
    then with_job (desktop name expr) rest
    else elim (strip_prefix (codes "exec:") target) [
      | some cmd ↦ exec_job name target (shell_split cmd) rest
      | none ↦ elim (strip_prefix (codes "webhook:") target) [
        | some url ↦ record rest { webhooks = (name, expr, url) ∷ rest.webhooks }
        | none ↦ rest
      ]
    ]

unfoldable pub build_notifications : Text → Text → List Text → Notified
unfolding notify_one
build_notifications name expr [] = no_one
build_notifications name expr (t ∷ ts) = notify_one name expr t (build_notifications name expr ts)

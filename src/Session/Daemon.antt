-- ===== src/Session/Daemon.antt =====
-- The daemon as all its sessions over one scheduler: which critical sections may follow one another.
pub mod Invariant
use lin_sight.Base.{ℕ, ◌<◌, ◌≡◌, List, [], ◌∷◌, Option, none, some}
use lin_sight.Base.Keys.{nat_eq}
use lin_sight.Base.Dict.{Dict, lookup, insert, remove, sum_of}
use lin_sight.Core.Samples.{SensorId}
use lin_sight.Scheduler.Rate.{Floats}
use lin_sight.Scheduler.Table.{Scheduler, Descriptor, init}
use lin_sight.Scheduler.Tick.{Sampled, tick_plan, tick_commit}
use lin_sight.Session.{Session, Work, fresh_session, subscribe_each, take_sensors, drain, release}
use lin_sight.Session.Ledger.{stake}

-- `MAX_CLIENT_SESSIONS`
abbrev pub max_client_sessions : ℕ
max_client_sessions = 64

pub record Daemon (F V : Type 0) : Type 0 where
  pub scheduler : Scheduler F V
  pub sessions : Dict ℕ Session

-- The number of live sessions, the counter of `accept_loop`.
abbrev pub live : Dict ℕ Session → ℕ
live = sum_of (λ _. 1)

abbrev pub start : {F V : Type 0} → List (Descriptor F V) → Daemon F V
start host = record { scheduler = init host; sessions = [] }

module _ {F : Type 0} (V : Type 0) (f : Floats F) where
  abbrev work_of : Daemon F V → Session → Work F V
  work_of d se = record { scheduler = d.scheduler; local = se.local; degraded = [] }

  pub data Step (d : Daemon F V) : Daemon F V → Type 0 where
    -- `accept_loop` takes a connection below the cap.
    connects :
        (c : ℕ)
        → lookup c d.sessions ≡ none
        → live d.sessions < max_client_sessions
        → Step d (record d { sessions = insert c fresh_session d.sessions })
    -- The critical sections of the read loop, and of the end of a session.
    subscribes :
        (c : ℕ) (se : Session) (rate_hz : Option F) (sensors : List SensorId) (w : Work F V)
        → lookup c d.sessions ≡ some se
        → se.pending ≡ []
        → subscribe_each f rate_hz (work_of d se) sensors ≡ some w
        → Step d (record {
          scheduler = w.scheduler;
          sessions = insert c (record se { local = w.local }) d.sessions;
        })
    takes :
        (c : ℕ) (se : Session) (sensors : List SensorId)
        → lookup c d.sessions ≡ some se
        → Step d (record d { sessions = insert c (take_sensors se sensors) d.sessions })
    drains :
        (c : ℕ) (se : Session)
        → lookup c d.sessions ≡ some se
        → Step d (record d { sessions = insert c (drain se) d.sessions })
    releases :
        (c : ℕ) (se : Session)
        → lookup c d.sessions ≡ some se
        → Step d (record {
          scheduler = release d.scheduler se.pending;
          sessions = insert c (record se { pending = [] }) d.sessions;
        })
    ends :
        (c : ℕ)
        → lookup c d.sessions ≡ some fresh_session
        → Step d (record d { sessions = remove c d.sessions })
    -- The two critical sections of the sampler.
    plans : (now : ℕ) → Step d (record d { scheduler = (tick_plan d.scheduler now).1 })
    commits :
        (results : List (SensorId × Sampled V)) (now : ℕ)
        → Step d (record d { scheduler = (tick_commit d.scheduler results now).scheduler })

  pub data Reach (d : Daemon F V) : Daemon F V → Type 0 where
    here : Reach d d
    next : {e g : Daemon F V} → Reach d e → Step e g → Reach d g

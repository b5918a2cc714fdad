-- ===== src/Session/Ledger.antt =====
-- The tokens of a session, counted at each sensor and period.
use lin_sight.Base.{
  ℕ, ◌+◌, ◌≤◌, ◌≡◌, refl, ◌&&◌, List, [], ◌∷◌, ◌++◌, none, arith, ◌==◌, if◌then◌else◌, Bool-cases,
  inl, inr, All,
}
use lin_sight.Base.Keys.{text_beq, text_eq, nat_eq, pair_eq, text_beq_iff}
use lin_sight.Base.Dict.{lookup, insert}
use lin_sight.Core.Samples.{SensorId}
use lin_sight.Scheduler.Table.{Subscription}
use lin_sight.Session.{Ledger, Session, take_sensor, take_sensors, tokens, drain}

abbrev pub hit : SensorId → ℕ → SensorId → ℕ → ℕ
hit id p j q = if text_beq id j && p == q then 1 else 0

-- How many tokens of the ledger are at a sensor and a period.
unfoldable pub held : SensorId → ℕ → Ledger → ℕ
held j q [] = 0
held j q (((id, p), sub) ∷ m) = hit id p j q + held j q m

unfoldable pub owed : SensorId → ℕ → List Subscription → ℕ
owed j q [] = 0
owed j q (sub ∷ subs) = hit sub.sensor sub.period j q + owed j q subs

-- What a session holds of the scheduler's counts.
abbrev pub stake : SensorId → ℕ → Session → ℕ
stake j q se = held j q se.local + owed j q se.pending

-- Each token stands under its own sensor and period.
abbrev pub LedgerOk : Ledger → Type 0
LedgerOk = All (λ r. (r.1.sensor ≡ r.0.0) × (r.1.period ≡ r.0.1))

pub owed-append :
    (j : SensorId) (q : ℕ) (xs ys : List Subscription)
    → owed j q (xs ++ ys) ≡ owed j q xs + owed j q ys
unfolding owed
owed-append j q [] ys = omega arith
owed-append j q (x ∷ xs) ys = omega (arith, owed-append j q xs ys)

pub held-insert :
    (id : SensorId) (p : ℕ) (sub : Subscription) (m : Ledger) (j : SensorId) (q : ℕ)
    → lookup (id, p) m ≡ none
    → held j q (insert (id, p) sub m) ≡ held j q m + hit id p j q
unfolding held lookup insert
held-insert id p sub [] j q h = omega arith
held-insert id p sub (((i, r), s) ∷ m) j q h = ground (arith, held-insert id p sub m j q)

pub lookup-held : (id : SensorId) (p : ℕ) (m : Ledger) → lookup (id, p) m ≡ none → held id p m ≡ 0
unfolding held lookup
lookup-held id p [] h = refl
lookup-held id p (((i, r), s) ∷ m) h = ground (arith, lookup-held id p m)

pub take_sensor-stake :
    (id : SensorId) (m : Ledger) (j : SensorId) (q : ℕ)
    → LedgerOk m
    → held j q (take_sensor id m).1 + owed j q (take_sensor id m).0 ≡ held j q m
unfolding take_sensor held owed
take_sensor-stake id [] j q v = refl
take_sensor-stake id (((i, p), sub) ∷ m) j q v = elim (Bool-cases (text_beq i id)) [
  | inl same ↦ rw same (rw (v.0.0, v.0.1) (omega (arith, take_sensor-stake id m j q v.1)))
  | inr other ↦ rw other (omega (arith, take_sensor-stake id m j q v.1))
]

pub take_sensor-LedgerOk : (id : SensorId) (m : Ledger) → LedgerOk m → LedgerOk (take_sensor id m).1
unfolding take_sensor
take_sensor-LedgerOk id [] v = tt
take_sensor-LedgerOk id (((i, p), sub) ∷ m) v = ground (arith, take_sensor-LedgerOk id m v.1)

pub tokens-owed :
    (m : Ledger) (j : SensorId) (q : ℕ) → LedgerOk m → owed j q (tokens m) ≡ held j q m
unfolding tokens held owed
tokens-owed [] j q v = refl
tokens-owed (((i, p), sub) ∷ m) j q v = rw (v.0.0, v.0.1) (omega (arith, tokens-owed m j q v.1))

-- Taking tokens out of the ledger leaves the stake of the session.
pub take_sensors-stake :
    (se : Session) (ids : List SensorId)
    → LedgerOk se.local
    → LedgerOk (take_sensors se ids).local
      × ((j : SensorId) (q : ℕ) → stake j q (take_sensors se ids) ≡ stake j q se)
unfolding take_sensors
take_sensors-stake se [] v = (v, λ j q. refl)
take_sensors-stake se (id ∷ ids) v =
    let (v', same) =
      take_sensors-stake
        (record {
          local = (take_sensor id se.local).1;
          pending = se.pending ++ (take_sensor id se.local).0;
        })
        ids (take_sensor-LedgerOk id se.local v) in
    (
      v',
      λ j q. omega (
        arith,
        same j q,
        take_sensor-stake id se.local j q v,
        owed-append j q se.pending (take_sensor id se.local).0,
      ),
    )

pub drain-stake :
    (se : Session) (j : SensorId) (q : ℕ) → LedgerOk se.local → stake j q (drain se) ≡ stake j q se
unfolding drain held
drain-stake se j q v =
    omega (arith, owed-append j q se.pending (tokens se.local), tokens-owed se.local j q v)

pub held-insert_once :
    (id : SensorId) (p : ℕ) (sub : Subscription) (m : Ledger) (j : SensorId) (q : ℕ)
    → lookup (id, p) m ≡ none
    → held j q m ≤ 1
    → held j q (insert (id, p) sub m) ≤ 1
held-insert_once id p sub m j q h once =
    ground (arith, held-insert id p sub m j q h, lookup-held id p m h, text_beq_iff id j)

-- ===== src/Session/Balance.antt =====
-- What the steps of one session do to the scheduler's counts, next to what the others hold.
use lin_sight.Base.{
  ℕ, ◌+◌, ◌-◌, ◌≤◌, ◌<◌, ◌≡◌, refl, List, [], ◌∷◌, ◌++◌, Option, some, arith, Option-cases, inl,
  inr, u32_mod, subst,
}
use lin_sight.Base.Keys.{text_eq, nat_eq, pair_eq}
use lin_sight.Base.Dict.{lookup, insert-All}
use lin_sight.Base.Partial.{>>=-eq-some}
use lin_sight.Core.Samples.{SensorId}
use lin_sight.Scheduler.Rate.{Floats}
use lin_sight.Scheduler.Table.{
  Scheduler, Subscription, subscribed, subscribe, unsubscribe, Subscribed-cases,
}
use lin_sight.Scheduler.Counts.{SchedulerOk, holders}
use lin_sight.Scheduler.Counts.Join.{subscribe_inv, subscribe-SchedulerOk, subscribe-holders}
use lin_sight.Scheduler.Counts.Leave.{unsubscribe-SchedulerOk, unsubscribe-holders}
use lin_sight.Session.{Work, keep_token, subscribe_one, subscribe_each, release}
use lin_sight.Session.Ledger.{held, owed, LedgerOk, held-insert, held-insert_once}

pub release-SchedulerOk :
    {F V : Type 0} (s : Scheduler F V) (subs : List Subscription)
    → SchedulerOk s
    → SchedulerOk (release s subs)
unfolding release
release-SchedulerOk s [] v = v
release-SchedulerOk s (sub ∷ subs) v =
    release-SchedulerOk (unsubscribe s sub) subs (unsubscribe-SchedulerOk s v sub)

pub release-holders :
    {F V : Type 0} (s : Scheduler F V) (subs : List Subscription) (j : SensorId) (q : ℕ)
    → SchedulerOk s
    → holders j q (release s subs) ≡ holders j q s - owed j q subs
unfolding release owed
release-holders s [] j q v = omega arith
release-holders s (sub ∷ subs) j q v = omega (
  arith,
  release-holders (unsubscribe s sub) subs j q (unsubscribe-SchedulerOk s v sub),
  unsubscribe-holders s v sub j q,
)

module _ {F V : Type 0} (f : Floats F) (rate : Option F) (others : SensorId → ℕ → ℕ)
    (few : (j : SensorId) (q : ℕ) → others j q + 2 < u32_mod) where
  -- The counts are the tokens of this ledger, each at most once, and those of the others.
  pub record WorkOk (w : Work F V) : Type 0 where
    pub scheduler_ok : SchedulerOk w.scheduler
    pub ledger_ok : LedgerOk w.local
    pub once : (j : SensorId) (q : ℕ) → held j q w.local ≤ 1
    pub balanced : (j : SensorId) (q : ℕ) → holders j q w.scheduler ≡ held j q w.local + others j q

  room : (w : Work F V) (j : SensorId) (q : ℕ) → WorkOk w → holders j q w.scheduler + 1 < u32_mod
  room w j q v = omega (arith, v.balanced j q, v.once j q, few j q)

  keep_token-WorkOk :
      (w : Work F V) (id : SensorId) (sub : Subscription) (s : Scheduler F V)
      → WorkOk w
      → subscribe f w.scheduler id rate ≡ subscribed sub s
      → WorkOk (keep_token w id sub s)
  unfolding keep_token
  keep_token-WorkOk w id sub s v granted =
      let (d, e, _, _, _, is_id, _) = subscribe_inv w.scheduler f id rate granted in
      let ok =
        subscribe-SchedulerOk w.scheduler f id rate v.scheduler_ok granted
          (room w id sub.period v) in
      let counts =
        subscribe-holders w.scheduler f id rate v.scheduler_ok granted (room w id sub.period v) in
      elim (Option-cases (lookup (id, sub.period) w.local)) [
        | inl absent ↦
            rw (absent, keep_token)
              (record {
                scheduler_ok = ok;
                ledger_ok = insert-All _ (id, sub.period) sub w.local v.ledger_ok (is_id, refl);
                once = λ j q. held-insert_once id sub.period sub w.local j q absent (v.once j q);
                balanced = λ j q. omega (
                  arith,
                  counts j q,
                  held-insert id sub.period sub w.local j q absent,
                  v.balanced j q,
                );
              })
        | inr (old, present) ↦
            rw (present, keep_token)
              (record {
                scheduler_ok = unsubscribe-SchedulerOk s ok sub;
                ledger_ok = v.ledger_ok;
                once = v.once;
                balanced = λ j q.
                    ground
                      (arith, counts j q, unsubscribe-holders s ok sub j q, v.balanced j q, is_id);
              })
      ]

  pub subscribe_one-WorkOk :
      (w : Work F V) (id : SensorId) {w' : Work F V}
      → WorkOk w
      → subscribe_one f rate w id ≡ some w'
      → WorkOk w'
  unfolding subscribe_one
  subscribe_one-WorkOk w id {w'} v h = elim (Subscribed-cases (subscribe f w.scheduler id rate)) [
    | inl (_, refused) ↦
        let same : record w { degraded = w.degraded ++ id ∷ [] } ≡ w' = ground arith in
        subst WorkOk same (record {
          scheduler_ok = v.scheduler_ok;
          ledger_ok = v.ledger_ok;
          once = v.once;
          balanced = v.balanced;
        })
    | inr (inl panic) ↦ absurd (ground arith)
    | inr (inr (sub, s, granted)) ↦
        let same : keep_token w id sub s ≡ w' = ground arith in
        subst WorkOk same (keep_token-WorkOk w id sub s v granted)
  ]

  pub subscribe_each-WorkOk :
      (ids : List SensorId) (w : Work F V) {w' : Work F V}
      → WorkOk w
      → subscribe_each f rate w ids ≡ some w'
      → WorkOk w'
  unfolding subscribe_each
  subscribe_each-WorkOk [] w {w'} v h = let same : w ≡ w' = cc in subst WorkOk same v
  subscribe_each-WorkOk (id ∷ ids) w v h =
      let (next, one, rest) = >>=-eq-some (subscribe_one f rate w id) _ h in
      subscribe_each-WorkOk ids next (subscribe_one-WorkOk w id v one) rest

-- ===== src/Alerts/Engine.antt =====
-- The alert engine. `V` stands for `f64`; instants and durations are counts of nanoseconds, and
-- `duration_since` stops at 0.
pub mod Rules
pub mod Log
pub mod Apply
pub mod Observe
use lin_sight.Base.{
  ℕ, ◌+◌, ◌-◌, ◌≡◌, Bool, true, false, not, ◌&&◌, ◌||◌, List, [], ◌∷◌, ◌++◌, Option, none, some,
  ltb, leb, ◌==◌, if◌then◌else◌, Text, codes, length, take, zero, suc,
}
use lin_sight.Base.Keys.{text_beq, text_eq, nat_eq, contains}
use lin_sight.Base.Dict.{Dict, lookup, insert, has_key}
use lin_sight.Core.Samples.{SensorId, Sample, Reading, scalar, counter}
use lin_sight.Core.Chars.{is_ascii_alphanumeric, is_ascii_alphabetic}
use lin_sight.Core.Order.{text_leb}
use lin_sight.Alerts.Notify.{Notified, no_one, build_notifications}

pub data AlertEventKind : Type 0 where
  fired cleared : AlertEventKind

pub record AlertEvent : Type 0 where
  pub rule : Text
  pub ts_micros : ℕ
  pub kind : AlertEventKind

pub data EvalOutcome : Type 0 where
  ok : Bool → EvalOutcome
  err : Text → EvalOutcome
  timeout panic : EvalOutcome

-- `CompiledRule`
pub record Rule : Type 0 where
  pub name : Text
  pub expr : Text
  pub rewritten_expr : Text
  pub for_duration : ℕ
  pub cooldown : ℕ
  pub notify : List Text
  pub enabled : Bool
  pub triggered_at : Option ℕ
  pub fired : Bool
  pub last_fired_at : Option ℕ
  pub referenced_sensors : List Text

-- `recorded` is what the history writer was handed, newest first, if one is attached.
pub record Engine (V : Type 0) : Type 0 where
  pub rules : List Rule
  pub values : Dict Text V
  pub ctx : Dict Text V
  pub events : List AlertEvent
  pub event_writer : Bool
  pub recorded : List AlertEvent

pub record EvalJob (V : Type 0) : Type 0 where
  pub idx : ℕ
  pub rewritten_expr : Text
  pub ctx : Dict Text V

abbrev pub event_capacity : ℕ
event_capacity = 512

abbrev pub values_cap : ℕ
values_cap = 4096

-- `replace('.', "__")`
unfoldable pub rewritten : Text → Text
rewritten [] = []
rewritten (c ∷ cs) = if c == b'.' then b'_' ∷ b'_' ∷ rewritten cs else c ∷ rewritten cs

unfoldable pub is_sensor_token : Text → Bool
is_sensor_token [] = false
is_sensor_token (c ∷ cs) = contains b'.' (c ∷ cs) && is_ascii_alphabetic c

-- `push_if_sensor_token`, on the tokens in the order of the text.
unfoldable pub push_token : Text → List Text → List Text
unfolding is_sensor_token
push_token token out = if is_sensor_token token then token ∷ out else out

unfoldable pub tokens_of : Text → Text → List Text
unfolding push_token
tokens_of current [] = push_token current []
tokens_of current (c ∷ cs) =
    let longer = tokens_of (current ++ c ∷ []) cs in
    let next = tokens_of [] cs in
    if is_ascii_alphanumeric c || c == b'.' || c == b'_' then longer else push_token current next

-- `sort` and `dedup` in one: equal neighbours are kept once.
unfoldable pub sorted_in : Text → List Text → List Text
unfolding text_leb
sorted_in t [] = t ∷ []
sorted_in t (u ∷ us) =
    let later = sorted_in t us in
    if text_beq t u then u ∷ us else if text_leb t u then t ∷ u ∷ us else u ∷ later

unfoldable pub sort_dedup : List Text → List Text
unfolding sorted_in
sort_dedup [] = []
sort_dedup (t ∷ ts) = sorted_in t (sort_dedup ts)

unfoldable pub extract_sensor_refs : Text → List Text
unfolding tokens_of sort_dedup
extract_sensor_refs expr = sort_dedup (tokens_of [] expr)

-- One evaluation of a rule: the rule afterwards, and the event that it makes.
unfoldable pub within_cooldown : Rule → ℕ → Bool
within_cooldown r now = elim (r.last_fired_at) [
  | none ↦ false
  | some last ↦ ltb (now - last) r.cooldown
]

unfoldable pub since : Option ℕ → ℕ → ℕ
since none now = now
since (some t) now = t

unfoldable pub apply_truth : Rule → Bool → ℕ → Rule × Option AlertEventKind
unfolding within_cooldown since
apply_truth r true now =
    let from = since r.triggered_at now in
    let held = record r { triggered_at = some from } in
    if not r.fired && leb r.for_duration (now - from) && not (within_cooldown r now)
    then (record held { fired = true; last_fired_at = some now }, some fired)
    else (held, none)
apply_truth r false now =
    (record r { triggered_at = none; fired = false }, if r.fired then some cleared else none)

unfoldable pub apply_outcome : Rule → EvalOutcome → ℕ → Rule × Option AlertEventKind
unfolding apply_truth
apply_outcome r (ok b) now = apply_truth r b now
apply_outcome r (err why) now = (r, none)
apply_outcome r timeout now = (r, none)
apply_outcome r panic now = (r, none)

unfoldable pub notified_by : Rule → Option AlertEventKind → Notified
unfolding build_notifications
notified_by r (some fired) = build_notifications r.name r.expr r.notify
notified_by r (some cleared) = no_one
notified_by r none = no_one

-- `VecDeque` with the newest event in front; `pop_back` makes room.
unfoldable pub pop_back {ℓ} : {A : Type ℓ} → List A → List A
pop_back [] = []
pop_back (x ∷ []) = []
pop_back (x ∷ y ∷ ys) = x ∷ pop_back (y ∷ ys)

unfoldable pub rule_at : ℕ → List Rule → Option Rule
rule_at i [] = none
rule_at zero (r ∷ rs) = some r
rule_at (suc i) (r ∷ rs) = rule_at i rs

unfoldable pub set_rule : ℕ → Rule → List Rule → List Rule
set_rule i r [] = []
set_rule zero r (q ∷ rs) = r ∷ rs
set_rule (suc i) r (q ∷ rs) = q ∷ set_rule i r rs

abbrev pub referenced : List Rule → Text → Bool
referenced [] id = false
referenced (r ∷ rs) id = contains id r.referenced_sensors || referenced rs id

module _ {V : Type 0} where
  unfoldable pub push_event : Engine V → AlertEvent → Engine V
  unfolding pop_back
  push_event g e = record g {
    events = e ∷ (if length g.events == event_capacity then pop_back g.events else g.events);
    recorded = if g.event_writer then e ∷ g.recorded else g.recorded;
  }

  -- The event of an evaluation, at the wall clock's time.
  unfoldable pub push_kind : Engine V → Text → ℕ → Option AlertEventKind → Engine V
  unfolding push_event
  push_kind g name wall none = g
  push_kind g name wall (some k) = push_event g (record { rule = name; ts_micros = wall; kind = k })

  -- `apply_eval_result`; `none` is the panic of an index out of range.
  unfoldable pub apply_eval_result :
      Engine V → ℕ → EvalOutcome → ℕ → ℕ → Option (Engine V × Notified)
  unfolding rule_at set_rule push_kind apply_outcome notified_by
  apply_eval_result g idx outcome now wall = elim (rule_at idx g.rules) [
    | none ↦ none
    | some r ↦
        let (r', k) = apply_outcome r outcome now in
        some
          (push_kind (record g { rules = set_rule idx r' g.rules }) r.name wall k, notified_by r k)
  ]

  unfoldable pub retain_referenced : List Rule → Dict Text V → Dict Text V
  retain_referenced rs [] = []
  retain_referenced rs ((id, v) ∷ m) =
      let rest = retain_referenced rs m in if referenced rs id then (id, v) ∷ rest else rest

  unfoldable pub ctx_of : Dict Text V → Dict Text V → Dict Text V
  ctx_of built [] = built
  ctx_of built ((id, v) ∷ m) = ctx_of (insert (rewritten id) v built) m

  unfoldable pub prune_unreferenced_values : Engine V → Engine V
  unfolding retain_referenced ctx_of
  prune_unreferenced_values g =
      let kept = retain_referenced g.rules g.values in
      if length kept == length g.values
      then record g { values = kept }
      else record g { values = kept; ctx = ctx_of [] kept }

  -- `value_of` of a counter is its conversion to `f64`.
  unfoldable pub numeric : (ℕ → V) → Reading V → Option V
  numeric of_counter (scalar v) = some v
  numeric of_counter (counter n) = some (of_counter n)
  numeric of_counter _ = none

  unfoldable pub jobs_from : ℕ → Text → Dict Text V → List Rule → List (EvalJob V)
  jobs_from i id ctx [] = []
  jobs_from i id ctx (r ∷ rs) =
      let rest = jobs_from (suc i) id ctx rs in
      if r.enabled && contains id r.referenced_sensors
      then record { idx = i; rewritten_expr = r.rewritten_expr; ctx = ctx } ∷ rest
      else rest

  unfoldable pub make_room : Engine V → Text → Engine V
  unfolding prune_unreferenced_values
  make_room g id =
      if not (has_key id g.values) && leb values_cap (length g.values)
      then prune_unreferenced_values g
      else g

  -- The value of a sensor goes into the values and, under its rewritten name, into the context.
  unfoldable pub store : Engine V → Text → V → Engine V
  store g id v = record g { values = insert id v g.values; ctx = insert (rewritten id) v g.ctx }

  unfoldable pub observe : (ℕ → V) → Engine V → Sample V → Engine V × List (EvalJob V)
  unfolding numeric make_room store jobs_from
  observe of_counter g sample = elim (numeric of_counter sample.reading) [
    | none ↦ (g, [])
    | some v ↦
        let g' = store (make_room g sample.sensor) sample.sensor v in
        (g', jobs_from 0 sample.sensor g'.ctx g'.rules)
  ]

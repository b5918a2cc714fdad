-- ===== src/Alerts/Firing.antt =====
-- The alarm of one rule over a run of evaluations.
use lin_sight.Base.{
  ℕ, ◌-◌, ◌≤◌, ◌≡◌, refl, ap, Bool, true, false, not, ◌&&◌, List, [], ◌∷◌, Option, none, some,
  arith, leb, Bool-cases, Option-cases, sym, ◌∙◌, inl, inr,
}
use lin_sight.Alerts.Engine.{
  Rule, EvalOutcome, ok, err, timeout, panic, AlertEventKind, fired, cleared, apply_truth,
  apply_outcome, within_cooldown, since,
}

-- A run of evaluations of a rule, the newest first, with the alarm events that it made at their
-- times.
pub record Run : Type 0 where
  pub rule : Rule
  pub log : List (ℕ × AlertEventKind)

abbrev pub logged :
    ℕ → Option AlertEventKind → List (ℕ × AlertEventKind) → List (ℕ × AlertEventKind)
logged now none log = log
logged now (some k) log = (now, k) ∷ log

unfoldable pub evaluated : Run → EvalOutcome → ℕ → Run
unfolding apply_outcome
evaluated x o now =
    let (r', k) = apply_outcome x.rule o now in record { rule = r'; log = logged now k x.log }

unfoldable pub run : Rule → List (ℕ × EvalOutcome) → Run
unfolding evaluated
run r [] = record { rule = r; log = [] }
run r ((now, o) ∷ os) = evaluated (run r os) o now

-- Whether a log that begins at the end ends with the alarm on.
abbrev pub alarm : List (ℕ × AlertEventKind) → Bool
alarm [] = false
alarm ((t, fired) ∷ log) = true
alarm ((t, cleared) ∷ log) = false

-- The alarm goes on and off by turns.
abbrev pub Alternates : List (ℕ × AlertEventKind) → Type 0
Alternates [] = Unit {0}
Alternates ((t, fired) ∷ log) = (alarm log ≡ false) × Alternates log
Alternates ((t, cleared) ∷ log) = (alarm log ≡ true) × Alternates log

-- The time of the last alarm.
abbrev pub last_fired : List (ℕ × AlertEventKind) → Option ℕ
last_fired [] = none
last_fired ((t, fired) ∷ log) = some t
last_fired ((t, cleared) ∷ log) = last_fired log

-- An alarm comes no sooner than the cooldown after the one before.
abbrev pub Apart : ℕ → ℕ → Option ℕ → Type 0
Apart cooldown t none = Unit {0}
Apart cooldown t (some last) = cooldown ≤ t - last

abbrev pub Cooled : ℕ → List (ℕ × AlertEventKind) → Type 0
Cooled cooldown [] = Unit {0}
Cooled cooldown ((t, fired) ∷ log) = Apart cooldown t (last_fired log) × Cooled cooldown log
Cooled cooldown ((t, cleared) ∷ log) = Cooled cooldown log

unfoldable pub begun : Option ℕ → ℕ → ℕ
begun none now = now
begun (some t) now = t

-- The time of the first of the truths that nothing false interrupted.
unfoldable pub true_since : List (ℕ × EvalOutcome) → Option ℕ
unfolding begun
true_since [] = none
true_since ((now, ok true) ∷ os) = some (begun (true_since os) now)
true_since ((now, ok false) ∷ os) = none
true_since ((now, err why) ∷ os) = true_since os
true_since ((now, timeout) ∷ os) = true_since os
true_since ((now, panic) ∷ os) = true_since os

abbrev pub resting : Rule → Rule
resting r = record r { triggered_at = none; fired = false; last_fired_at = none }

-- What a run of a rule keeps, `held` being the time since when its condition holds.
record RunOk (cooldown for_duration : ℕ) (held : Option ℕ) (x : Run) : Type 0 where
  on_off : x.rule.fired ≡ alarm x.log
  turns : Alternates x.log
  latest : x.rule.last_fired_at ≡ last_fired x.log
  cooled : Cooled cooldown x.log
  is_held : x.rule.triggered_at ≡ held
  same_cooldown : x.rule.cooldown ≡ cooldown
  same_for : x.rule.for_duration ≡ for_duration

cooldown_over :
    (r : Rule) (now : ℕ) → within_cooldown r now ≡ false → Apart r.cooldown now r.last_fired_at
unfolding within_cooldown
cooldown_over r now h = elim (Option-cases r.last_fired_at) [
  | inl never ↦ rw never tt
  | inr (last, e) ↦ rw e (ground arith)
]

since-begun : (o : Option ℕ) (now : ℕ) → since o now ≡ begun o now
unfolding since begun
since-begun none now = refl
since-begun (some t) now = refl

module _ {cd fd : ℕ} {held : Option ℕ} where
  evaluated-false :
      (x : Run) (now : ℕ) → RunOk cd fd held x → RunOk cd fd none (evaluated x (ok false) now)
  unfolding evaluated apply_truth
  evaluated-false x now v = elim (Bool-cases x.rule.fired) [
    | inl on ↦ record {
      on_off = rw on refl;
      turns = rw on (sym v.on_off ∙ on, v.turns);
      latest = rw on v.latest;
      cooled = rw on v.cooled;
      is_held = refl;
      same_cooldown = v.same_cooldown;
      same_for = v.same_for;
    }
    | inr off ↦ record {
      on_off = rw off (sym (sym v.on_off ∙ off));
      turns = rw off v.turns;
      latest = rw off v.latest;
      cooled = rw off v.cooled;
      is_held = refl;
      same_cooldown = v.same_cooldown;
      same_for = v.same_for;
    }
  ]

  cooled-Apart :
      (x : Run) (now : ℕ)
      → RunOk cd fd held x
      → within_cooldown x.rule now ≡ false
      → Apart cd now (last_fired x.log)
  cooled-Apart x now v h = rw (← v.latest, ← v.same_cooldown) (cooldown_over x.rule now h)

  evaluated-true :
      (x : Run) (now : ℕ)
      → RunOk cd fd held x
      → RunOk cd fd (some (begun held now)) (evaluated x (ok true) now)
  unfolding evaluated apply_truth since
  evaluated-true x now v =
      let from = since x.rule.triggered_at now in
      let fires =
        not x.rule.fired
        && leb x.rule.for_duration (now - from)
        && not (within_cooldown x.rule now) in
      elim (Bool-cases fires) [
        | inl now_on ↦ record {
          on_off = rw now_on refl;
          turns = rw now_on (sym v.on_off ∙ ground arith, v.turns);
          latest = rw now_on refl;
          cooled = rw now_on (cooled-Apart x now v (ground arith), v.cooled);
          is_held = rw (now_on, v.is_held) (ap some (since-begun held now));
          same_cooldown = rw now_on v.same_cooldown;
          same_for = rw now_on v.same_for;
        }
        | inr stays ↦ record {
          on_off = rw stays v.on_off;
          turns = rw stays v.turns;
          latest = rw stays v.latest;
          cooled = rw stays v.cooled;
          is_held = rw (stays, v.is_held) (ap some (since-begun held now));
          same_cooldown = rw stays v.same_cooldown;
          same_for = rw stays v.same_for;
        }
      ]

run-RunOk :
    (r : Rule) (os : List (ℕ × EvalOutcome))
    → RunOk r.cooldown r.for_duration (true_since os) (run (resting r) os)
unfolding run true_since since
run-RunOk r [] = record {
  on_off = refl;
  turns = tt;
  latest = refl;
  cooled = tt;
  is_held = refl;
  same_cooldown = refl;
  same_for = refl;
}
run-RunOk r ((now, ok true) ∷ os) = evaluated-true (run (resting r) os) now (run-RunOk r os)
run-RunOk r ((now, ok false) ∷ os) = evaluated-false (run (resting r) os) now (run-RunOk r os)
run-RunOk r ((now, err why) ∷ os) = run-RunOk r os
run-RunOk r ((now, timeout) ∷ os) = run-RunOk r os
run-RunOk r ((now, panic) ∷ os) = run-RunOk r os

-- Over any run of evaluations of a rule at rest, failures and timeouts included, the alarm goes on
-- and off by turns, the rule's flag says which it is, and between the times of two alarms lies at
-- least the cooldown.
pub alarms_by_turns :
    (r : Rule) (os : List (ℕ × EvalOutcome))
    → Alternates (run (resting r) os).log
      × ((run (resting r) os).rule.fired ≡ alarm (run (resting r) os).log)
      × Cooled r.cooldown (run (resting r) os).log
alarms_by_turns r os = let v = run-RunOk r os in (v.turns, v.on_off, v.cooled)

-- An evaluation that sets off the alarm ends a stretch of evaluations, none of them false, that
-- began with a true one at least `for` before.
pub alarm_is_earned :
    (r : Rule) (os : List (ℕ × EvalOutcome)) (now : ℕ) (o : EvalOutcome)
    → (apply_outcome (run (resting r) os).rule o now).1 ≡ some fired
    → (t : ℕ) × (true_since ((now, o) ∷ os) ≡ some t) × (r.for_duration ≤ now - t)
unfolding true_since since apply_outcome apply_truth
alarm_is_earned r os now (ok true) h =
    let v = run-RunOk r os in
    (since (true_since os) now, refl, rw (← v.is_held, ← v.same_for) (ground arith))
alarm_is_earned r os now (ok false) h = absurd (ground arith)
alarm_is_earned r os now (err why) h = absurd (ground arith)
alarm_is_earned r os now timeout h = absurd (ground arith)
alarm_is_earned r os now panic h = absurd (ground arith)

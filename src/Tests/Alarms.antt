-- ===== src/Tests/Alarms.antt =====
-- Alerts: a rule that waits 2 and cools down 10, arguments, addresses and hosts.
use lin_sight.Base.{
  ℕ, refl, none, some, ◌≡◌, ◌≤◌, ◌-◌, ◌+◌, ◌↔◌, ◌⊎◌, Text, Option, List, true, false, [], ◌∷◌,
  if◌then◌else◌, codes,
}
use lin_sight.Base.Keys.{text_beq}
use lin_sight.Alerts.Split.{Split, shell_split, quoted, shell_split-quoted}
use lin_sight.Alerts.Split
use lin_sight.Alerts.Webhook.{IpAddr, v4, v6, is_restricted_ip}
use lin_sight.Alerts.Webhook.Ranges.{v6_blocks}
use lin_sight.Alerts.Engine.{
  Engine, Rule, AlertEvent, fired, EvalOutcome, ok, timeout, apply_outcome, apply_truth,
  within_cooldown, since,
}
use lin_sight.Core.Samples.{Sample, scalar}
use lin_sight.Base.Keys.{text_eq, nat_eq}
use lin_sight.Alerts.Engine.Rules.{RuleInput}
use lin_sight.Alerts.Firing.{
  run, evaluated, resting, Alternates, Cooled, alarm, true_since, alarms_by_turns, alarm_is_earned,
}

abbrev rule : Rule
rule = record {
  name = codes "hot";
  expr = [];
  rewritten_expr = [];
  for_duration = 2;
  cooldown = 10;
  notify = [];
  enabled = true;
  triggered_at = none;
  fired = false;
  last_fired_at = none;
  referenced_sensors = [];
}

abbrev history : List (ℕ × EvalOutcome)
history = (3, timeout) ∷ (1, ok true) ∷ []

alarms_by_turns_example :
    Alternates (run (resting rule) history).log
    × ((run (resting rule) history).rule.fired ≡ alarm (run (resting rule) history).log)
    × Cooled 10 (run (resting rule) history).log
alarms_by_turns_example = alarms_by_turns rule history

alarm_is_earned_example : (t : ℕ) × (true_since ((4, ok true) ∷ history) ≡ some t) × (2 ≤ 4 - t)
unfolding run apply_outcome apply_truth within_cooldown since evaluated
alarm_is_earned_example = alarm_is_earned rule history 4 (ok true) refl

abbrev engine : Engine ℕ
engine = record {
  rules = rule ∷ [];
  values = [];
  ctx = [];
  events = [];
  event_writer = true;
  recorded = [];
}

abbrev event : AlertEvent
event = record { rule = codes "hot"; ts_micros = 5; kind = fired }

abbrev input : RuleInput
input = record {
  name = codes "cold";
  expr = codes "cpu.temp";
  for_duration = 0;
  cooldown = 0;
  notify = [];
  enabled = none;
}

shell_split-quoted_example :
    shell_split (quoted (codes "say" ∷ codes "a \"b\"" ∷ []))
    ≡ Split.Split.ok (codes "say" ∷ codes "a \"b\"" ∷ [])
shell_split-quoted_example = shell_split-quoted (codes "say" ∷ codes "a \"b\"" ∷ [])

v6_blocks_example : (is_restricted_ip (v6 0 0 0 0 0 0xffff 0x7f00 1) ≡ true) ↔ (
    ((0xfe80 ≤ 0) × (0 ≤ 0xfebf))
    ⊎ ((0xfc00 ≤ 0) × (0 ≤ 0xfdff))
    ⊎ (((0 + 0 + 0 + 0 + 0 + 0xffff + 0x7f00) ≡ 0) × (1 ≤ 1)))
v6_blocks_example = v6_blocks 0 0 0 0 0 0xffff 0x7f00 1

-- A parser that knows one address.
abbrev parse_one : Text → Option IpAddr
parse_one s = if text_beq s (codes "127.0.0.1") then some (v4 127 0 0 1) else none

abbrev hot_sample : Sample ℕ
hot_sample = record { sensor = codes "cpu"; ts_micros = 3; reading = scalar 70 }

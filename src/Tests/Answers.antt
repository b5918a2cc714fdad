-- ===== src/Tests/Answers.antt =====
-- Requests to a daemon with two graphics cards, whose files can all be written.
use lin_sight.Base.{
  ℕ, ◌*◌, ◌/◌, ◌%◌, ◌==◌, leb, if◌then◌else◌, u64_max, refl, none, some, arith, ◌≡◌, List, [], ◌∷◌,
  true, false, codes,
}
use lin_sight.Base.Keys.{text_eq, text_beq}
use lin_sight.Base.Dict.{lookup, insert, has_key}
use lin_sight.Core.Chars.{
  trim, trim_start, trim_end, keep_end, is_whitespace, is_control, find_char,
}
use lin_sight.Core.Hardware.{ok, validate_nickname, check_trimmed}
use lin_sight.Messages.{ServerMsg, RequestOp, set_nickname, set_daemon_settings}
use lin_sight.Alerts.Engine.{EvalOutcome}
use lin_sight.Registry.{
  Registry, build, rebuild_labels, add_manifests, add_manifest, add_devices, add_device,
  add_sensors, add_sensor, entry_or_default, filled, revalidated, overlaid, labels_of,
}
use lin_sight.Registry
use lin_sight.Registry.Snapshot.{Keyed}
use lin_sight.Requests.{Env, Conn, RuleConfig, Seconds}
use lin_sight.Requests.Info.{build_sensor_info}
use lin_sight.Requests.Info.Renamed.{set_nickname-build_sensor_info}
use lin_sight.Requests.Configs.{loaded_engine}
use lin_sight.Core.Numbers.{parse_unsigned, decimal}
use lin_sight.Requests.Dispatch.{handle_request}
use lin_sight.Requests.Dispatch.Answered.{conn_after}
use lin_sight.Requests.Dispatch.Wired.{ConnOk, handle_request-ConnOk}
use lin_sight.Requests.Dispatch.Renaming.{Renaming, handle_request-Renaming}
use lin_sight.Tests.Fixtures.{Rate, table}
use lin_sight.Tests.Devices.{first_key}
use lin_sight.Tests.Registries.{cards, temperature}
use lin_sight.Tests.Outboxes.{two_clients, append_write}

abbrev hot_config : RuleConfig
hot_config = record {
  name = codes "hot";
  expr = codes "xe.temp > 90";
  for_duration = some (codes "5s");
  cooldown = none;
  notify = [];
  enabled = none;
}

-- Whole seconds, of which a `Duration` holds less than 2 ^ 64.
abbrev seconds : Seconds ℕ
seconds = record {
  parse = parse_unsigned u64_max;
  over = λ n k. n / k;
  times = λ n k. n * k;
  from_secs = λ n. if leb n u64_max then some (n * 1_000_000_000) else none;
  as_secs = λ d. d / 1_000_000_000;
  at_least = λ n k. leb k n;
  at_least_milli = λ n. leb 1 n;
  is_multiple = λ n k. n % k == 0;
  truncated = λ n. n;
  text = decimal;
  bad_number = λ t. t;
  bad_unit = λ t. t;
}

abbrev env : Env Rate ℕ (List (ServerMsg Rate ℕ))
env = record {
  write = append_write;
  sensor_error = λ t. t;
  key_error = λ e. [];
  nickname_error = λ e. [];
  plugin_id_for = λ id. some (codes "xe");
  sample_now = λ id. none;
  save_nicknames = λ m. none;
  query_history = λ path id since until n. ok [];
  f64 = seconds;
  save_rules = λ path xs. none;
  eval_limited = λ e ctx. EvalOutcome.ok true;
  events_json = λ events. none;
  history_path = codes "history.db";
  spawn_history = λ path. none;
  alerts_path = codes "alerts.toml";
  read_rules = λ path. ok (hot_config ∷ []);
}

abbrev conn : Conn Rate ℕ (List (ServerMsg Rate ℕ))
conn = record {
  shared = record {
    scheduler = record table { history_db_path = some (codes "history.db") };
    engine = loaded_engine [];
    registry = cards;
    clients = two_clients;
    saved_nicknames = none;
    saved_rules = none;
    prom_bind = none;
  };
  pump_interval_ms = 150;
  writer = [];
}

abbrev renaming : RequestOp
renaming = set_nickname first_key (some (codes "Desk"))

conn-ConnOk : ConnOk conn
conn-ConnOk = record {
  not_fast = omega arith;
  not_slow = omega arith;
  wired = record {
    history_wired = refl;
    alerts_wired = refl;
    events_wired = λ h. absurd (ground arith);
  };
}

handle_request-ConnOk_example : ConnOk (
    conn_after (handle_request env conn 7 (set_daemon_settings (some false) (some true) none none)))
handle_request-ConnOk_example =
    handle_request-ConnOk env conn 7 (set_daemon_settings (some false) (some true) none none)
      conn-ConnOk

handle_request-Renaming_example :
    Renaming env conn 7 first_key
      (some (codes "Desk"))
      (conn_after (handle_request env conn 7 renaming)).shared
handle_request-Renaming_example = handle_request-Renaming env conn 7 first_key (some (codes "Desk"))

cards-Keyed : Keyed cards.devices
unfolding build rebuild_labels add_manifests add_manifest add_devices add_device add_sensors
    add_sensor entry_or_default lookup insert has_key text_beq filled
cards-Keyed = ((refl, (refl, tt)), (refl, (refl, tt)))

abbrev renamed_cards : Registry
renamed_cards =
    rebuild_labels (record cards { nicknames = insert first_key (codes "Desk") cards.nicknames })

desk_is_valid : validate_nickname (codes "Desk") ≡ ok (some (codes "Desk"))
unfolding validate_nickname check_trimmed trim trim_start trim_end keep_end is_whitespace is_control
    find_char
desk_is_valid = refl

cards_renamed : Registry.set_nickname cards first_key (some (codes "Desk")) ≡ ok renamed_cards
unfolding Registry.set_nickname revalidated overlaid validate_nickname check_trimmed trim trim_start
    trim_end keep_end is_whitespace is_control find_char build rebuild_labels add_manifests
    add_manifest add_devices add_device add_sensors add_sensor entry_or_default lookup insert
    has_key text_beq filled
cards_renamed = refl

set_nickname-build_sensor_info_example :
    (build_sensor_info env.plugin_id_for renamed_cards temperature).device_label
    ≡ some (codes "Desk")
set_nickname-build_sensor_info_example =
    set_nickname-build_sensor_info env.plugin_id_for cards renamed_cards first_key (codes "Desk")
      (codes "Desk") temperature cards-Keyed cards_renamed desk_is_valid refl

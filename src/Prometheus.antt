-- ===== src/Prometheus.antt =====
-- apps/linsightd/src/prom.rs: the text that the exporter answers with, and its reading of a request.
pub mod Labels
pub mod Lines
pub mod Request
use lin_sight.Base.{
  ℕ, ◌≡◌, Bool, List, [], ◌∷◌, ◌++◌, Option, none, some, Text, codes, if◌then◌else◌, ◌==◌,
}
use lin_sight.Base.Keys.{text_eq}
use lin_sight.Base.Dict.{Dict, lookup}
use lin_sight.Core.Chars.{is_ascii_alphanumeric}
use lin_sight.Core.Numbers.{decimal}
use lin_sight.Core.Samples.{SensorId, Sample, Reading, scalar, counter, table, state, symbol}
use lin_sight.Core.Hardware.{HardwareDevice, DeviceKey, as_str}
use lin_sight.Scheduler.Table.{Descriptor}
use lin_sight.Registry.{Registry, snapshot, nicknames_snapshot}
use lin_sight.Requests.Info.{device_of, plugin_or_unknown}

-- What `push_escaped_label` appends.
unfoldable pub escaped_label : Text → Text
escaped_label [] = []
escaped_label (c ∷ cs) =
    let rest = escaped_label cs in
    if c == b'\\'
    then b'\\' ∷ b'\\' ∷ rest
    else if c == b'"'
    then b'\\' ∷ b'"' ∷ rest
    else if c == 10
    then b'\\' ∷ b'n' ∷ rest
    else c ∷ rest

unfoldable pub sanitized : Text → Text
unfolding is_ascii_alphanumeric
sanitized [] = []
sanitized (c ∷ cs) =
    let rest = sanitized cs in if is_ascii_alphanumeric c then c ∷ rest else b'_' ∷ rest

unfoldable pub sanitize_metric_name : Text → Text
unfolding sanitized
sanitize_metric_name s = codes "linsight_" ++ sanitized s

unfoldable pub device_label_part : Option DeviceKey → Text
unfolding escaped_label
device_label_part none = []
device_label_part (some key) = codes "\",device_key=\"" ++ escaped_label key

-- What `emit_sample_line` appends.
unfoldable pub sample_line : Text → Text → Option DeviceKey → Text → Text
unfolding escaped_label device_label_part
sample_line metric unit device_key value =
    metric
    ++ codes "{unit=\""
    ++ escaped_label unit
    ++ device_label_part device_key
    ++ codes "\"} "
    ++ value
    ++ 10 ∷ []

-- A `ScrapeRow` whose sample was taken, with its device.
pub record ScrapeRow (F V : Type 0) : Type 0 where
  pub descriptor : Descriptor F V
  pub sample : Option (Sample V)
  pub plugin_id : Text
  pub device_key : Option DeviceKey

abbrev or_key : Option DeviceKey → Option DeviceKey → Option DeviceKey
or_key none k = k
or_key (some j) k = some j

module _ {F V : Type 0} where
  -- The three lines of one metric.
  unfoldable pub metric_lines : ScrapeRow F V → Text → Text → Text
  unfolding sanitize_metric_name sample_line symbol
  metric_lines row type value =
      let d = row.descriptor in
      let metric = sanitize_metric_name d.id in
      codes "# HELP "
      ++ metric
      ++ codes " "
      ++ d.display_name
      ++ 10 ∷ codes "# TYPE "
      ++ metric
      ++ codes " "
      ++ type
      ++ 10 ∷ sample_line metric (symbol d.unit) (or_key row.device_key d.device_key) value

  -- `show` is `to_string` of an `f64`.
  unfoldable pub row_lines : (V → Text) → ScrapeRow F V → Text
  unfolding metric_lines decimal
  row_lines show row = elim (row.sample) [
    | none ↦ []
    | some x ↦ elim (x.reading) [
      | scalar v ↦ metric_lines row (codes "gauge") (show v)
      | counter n ↦ metric_lines row (codes "counter") (decimal n)
      | table _ ↦ []
      | state _ ↦ []
    ]
  ]

  unfoldable pub rows_lines : (V → Text) → List (ScrapeRow F V) → Text
  unfolding row_lines
  rows_lines show [] = []
  rows_lines show (row ∷ rows) = row_lines show row ++ rows_lines show rows

abbrev pub or_empty : Option Text → Text
or_empty none = []
or_empty (some t) = t

unfoldable pub info_line : Dict Text Text → HardwareDevice → Text
unfolding escaped_label as_str
info_line nicknames dev =
    codes "linsight_hardware_info{device_key=\""
    ++ escaped_label dev.key
    ++ codes "\",category=\""
    ++ as_str dev.category
    ++ codes "\",model=\""
    ++ escaped_label dev.model
    ++ codes "\",vendor=\""
    ++ escaped_label (or_empty dev.vendor)
    ++ codes "\",nickname=\""
    ++ escaped_label (or_empty (lookup dev.key nicknames))
    ++ codes "\",plugin_id=\""
    ++ escaped_label dev.plugin_id
    ++ codes "\"} 1"
    ++ 10 ∷ []

unfoldable pub info_lines : Dict Text Text → List HardwareDevice → Text
unfolding info_line
info_lines nicknames [] = []
info_lines nicknames (dev ∷ devs) = info_line nicknames dev ++ info_lines nicknames devs

module _ {F V : Type 0} where
  unfoldable pub render :
      (V → Text) → List HardwareDevice → Dict Text Text → List (ScrapeRow F V) → Text
  unfolding rows_lines info_lines
  render show devices nicknames rows =
      codes "# linsight Prometheus exporter"
      ++ 10 ∷ rows_lines show rows
      ++ codes "# HELP linsight_hardware_info Static hardware metadata"
      ++ 10 ∷ codes "# TYPE linsight_hardware_info gauge"
      ++ 10 ∷ info_lines nicknames devices

  -- The rows of a scrape: each sensor of the host, sampled by `sample_to`, with its device.
  unfoldable pub scrape_rows :
      (SensorId → Option Text)
      → (SensorId → Option (Sample V))
      → Registry
      → List (Descriptor F V)
      → List (ScrapeRow F V)
  unfolding device_of plugin_or_unknown
  scrape_rows plugin_id_for sample_to r [] = []
  scrape_rows plugin_id_for sample_to r (d ∷ ds) =
      let plugin_id = plugin_or_unknown (plugin_id_for d.id) in
      record {
        descriptor = d;
        sample = sample_to d.id;
        plugin_id = plugin_id;
        device_key = device_of r plugin_id d.device_key d.device_id;
      }
      ∷ scrape_rows plugin_id_for sample_to r ds

  unfoldable pub render_for_scrape :
      (V → Text)
      → (SensorId → Option Text)
      → (SensorId → Option (Sample V))
      → Registry
      → List (Descriptor F V)
      → Text
  unfolding render scrape_rows snapshot nicknames_snapshot
  render_for_scrape show plugin_id_for sample_to r host =
      render show (snapshot r) (nicknames_snapshot r) (scrape_rows plugin_id_for sample_to r host)

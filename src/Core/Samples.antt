-- ===== src/Core/Samples.antt =====
-- crates/linsight-core/src/types.rs: readings and samples, and what describes a
-- sensor. `V` stands for `f64`.
use lin_sight.Base.{ℕ, List, Text, codes}

pub data Cell (V : Type 0) : Type 0 where
  text : Text → Cell V
  number : V → Cell V
  bytes : ℕ → Cell V

pub record TableRow (V : Type 0) : Type 0 where
  pub cells : List (Cell V)

pub data Reading (V : Type 0) : Type 0 where
  scalar : V → Reading V
  counter : ℕ → Reading V
  table : List (TableRow V) → Reading V
  state : Text → Reading V

-- `SensorId` is a wrapper of a `String`.
abbrev pub SensorId : Type 0
SensorId = Text

pub record Sample (V : Type 0) : Type 0 where
  pub sensor : SensorId
  pub ts_micros : ℕ
  pub reading : Reading V

pub data MeasureUnit : Type 0 where
  percent celsius bytes bytes_per_sec hertz watts volts rpm count : MeasureUnit
  custom : Text → MeasureUnit

pub data Category : Type 0 where
  cpu gpu memory storage network custom : Category

pub data SensorKind : Type 0 where
  scalar counter table state : SensorKind

-- `Unit::symbol`
unfoldable pub symbol : MeasureUnit → Text
symbol percent = codes "%"
symbol celsius = codes "°C"
symbol MeasureUnit.bytes = codes "B"
symbol bytes_per_sec = codes "B/s"
symbol hertz = codes "Hz"
symbol watts = codes "W"
symbol volts = codes "V"
symbol rpm = codes "rpm"
symbol count = codes ""
symbol (MeasureUnit.custom s) = s

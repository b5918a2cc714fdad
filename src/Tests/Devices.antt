-- ===== src/Tests/Devices.antt =====
-- Keys, nicknames and the labels of two graphics cards.
use lin_sight.Base.{none, arith, ◌≢◌, Text, [], codes}
use lin_sight.Base.Keys.{text_eq}
use lin_sight.Core.Chars.{split_once}
use lin_sight.Core.Hardware.{HardwareDevice, gpu, payload_of}

abbrev pub first_key : Text
first_key = codes "pci:0000:03"

abbrev pub second_key : Text
second_key = codes "pci:0000:0a"

abbrev pub card : Text → HardwareDevice
card key = record {
  key = key;
  category = gpu;
  model = codes "Arc";
  vendor = none;
  location = none;
  plugin_id = codes "xe";
  plugin_device_id = key;
  sensor_ids = [];
}

payloads_differ : payload_of first_key ≢ payload_of second_key
unfolding payload_of split_once
payloads_differ h = ground arith

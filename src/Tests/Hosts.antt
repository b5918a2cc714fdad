-- ===== src/Tests/Hosts.antt =====
-- One plugin file beside built-in plugins that all fail: a card with a temperature.
use lin_sight.Base.{
  ℕ, ◌≡◌, ◌≤◌, inl, refl, true, List, [], ◌∷◌, some, Text, codes, All, ltb, if◌then◌else◌,
}
use lin_sight.Base.Keys.{text_eq, text_beq, contains}
use lin_sight.Base.Dict.{Dict, lookup, insert, has_key}
use lin_sight.Core.Samples.{SensorId, Reading, scalar}
use lin_sight.Core.Hardware.{
  Checked, ok, err, HardwareDevice, try_new_sensor, try_new_key, key_char, check_payload,
  check_scheme,
}
use lin_sight.Core.Chars.{
  any_char, is_whitespace, byte_len, split_once, find_char, is_ascii_alphanumeric,
  is_ascii_alphabetic, is_ascii_digit, utf8_len,
}
use lin_sight.Scheduler.Tick.{PluginError, timeout}
use lin_sight.Registry.{build}
use lin_sight.Plugins.{
  ManifestText, PluginManifest, Instance, devices_by_plugin, host_init, is_registered, add_plugin,
  accept_all, accept_one, check_devices, check_ids, check_sensors, validate_manifest,
}
use lin_sight.Plugins.Listing.{Listed}
use lin_sight.Plugins.Loader.{
  Files, load_dynamic_plugins, with_builtins_and_config, config_of, drop_library, finish_register,
  load_file, load_from_dir, load_library, load_with_metadata, register_builtins, register_inited,
  register_with_config, register_with_config_checked,
}
use lin_sight.Plugins.Calls.{inits, released}
use lin_sight.Plugins.Stages.{loaded}
use lin_sight.Plugins.Loaded.{loaded_once, loaded_devices}
use lin_sight.Tests.Fixtures.{Rate}
use lin_sight.Tests.Devices.{first_key, card}
use lin_sight.Tests.Registries.{temperature}

abbrev xe : PluginManifest Rate ℕ
xe = record {
  plugin_id = codes "xe";
  display_name = codes "Xe";
  version = codes "1";
  sensors = temperature ∷ [];
  devices = card first_key ∷ [];
}

abbrev texts : ManifestText
texts = record { bad_key = λ k e. k; duplicate = λ k. k; dangling = λ s k. k; bad_id = λ p s. s }

abbrev init : Instance → ℕ → Checked PluginError (PluginManifest Rate ℕ)
init p config = if ltb p.library 18 then err (timeout []) else ok xe

abbrev files : Files Rate ℕ ℕ
files = record {
  has_so_extension = λ path. true;
  canonicalize = λ path. some path;
  load_one = λ n path. some (some (codes "xe"));
  instantiate = λ p. true;
  init = init;
  null = 0;
  is_null = λ c. ltb c 1;
  errors = texts;
}

abbrev configs : Dict Text ℕ
configs = (codes "xe", 5) ∷ []

abbrev dirs : List (List Text)
dirs = (codes "/usr/lib/xe.so" ∷ codes "/usr/lib/again.so" ∷ []) ∷ []

loaded_once_example :
    ((p : Instance) → inits p (loaded files configs dirs).calls ≤ 1)
    × All
        (λ e.
          (inits e.plugin (loaded files configs dirs).calls ≡ 1)
          × (released e.plugin (loaded files configs dirs).calls ≡ 0))
        (loaded files configs dirs).host.plugins
loaded_once_example = loaded_once files configs dirs

abbrev measured : Instance → SensorId → Checked PluginError (Reading ℕ)
measured p id = ok (scalar p.library)

temperature-Listed : Listed temperature 0 (loaded files configs dirs).host.plugins
unfolding load_dynamic_plugins host_init with_builtins_and_config try_new_sensor any_char
    is_whitespace try_new_key byte_len split_once contains text_beq find_char key_char
    is_ascii_alphanumeric is_registered add_plugin has_key insert lookup is_ascii_alphabetic
    is_ascii_digit utf8_len check_payload check_scheme config_of drop_library finish_register
    load_file load_from_dir load_library load_with_metadata register_builtins register_inited
    register_with_config register_with_config_checked accept_all accept_one check_devices check_ids
    check_sensors validate_manifest
temperature-Listed = inl refl

loaded_devices_example :
    (dev : HardwareDevice) × (lookup first_key
        (build (devices_by_plugin (loaded files configs dirs).host) []).devices
      ≡ some dev)
loaded_devices_example =
    loaded_devices files configs dirs [] 0 temperature first_key temperature-Listed refl

-- ===== src/Plugins/Loader.antt =====
-- apps/linsightd/src/plugin_host.rs: the built-in plugins, the plugins of the files of a directory, and the
-- calls that their instances get. What a file and its plugin do is a parameter; the files and the
-- built-in plugins are numbered in the order in which they are taken.
use lin_sight.Base.{
  ℕ, ◌+◌, Bool, true, false, not, List, [], ◌∷◌, ◌++◌, Option, none, some, Text, codes,
  if◌then◌else◌,
}
use lin_sight.Base.Keys.{text_eq, text_beq}
use lin_sight.Base.Dict.{Dict, lookup}
use lin_sight.Core.Hardware.{Checked, ok, err}
use lin_sight.Scheduler.Tick.{PluginError}
use lin_sight.Plugins.{
  PluginManifest, ManifestText, Instance, PluginHost, host_init, is_registered, add_plugin,
  no_plugins,
}

-- `C` is a JSON value.
pub record Files (F V C : Type 0) : Type 0 where
  pub has_so_extension : Text → Bool
  pub canonicalize : Text → Option Text
  -- The n-th file: the id in its metadata, if it has one, or nothing if it cannot be loaded.
  pub load_one : ℕ → Text → Option (Option Text)
  pub instantiate : Instance → Bool
  pub init : Instance → C → Checked PluginError (PluginManifest F V)
  pub null : C
  pub is_null : C → Bool
  pub errors : ManifestText

pub data Call : Type 0 where
  inited : Instance → Call
  shut_down : Instance → Call
  dropped : Instance → Call
  unmapped : ℕ → Call

pub record Loading (F V : Type 0) : Type 0 where
  pub host : PluginHost F V
  pub next : ℕ
  pub calls : List Call

-- The drop of an `Option<Library>`
unfoldable pub drop_library : Instance → Bool → List Call
drop_library p mapped = if mapped then unmapped p.library ∷ [] else []

module _ {F V : Type 0} where
  abbrev pub called : List Call → Loading F V → Loading F V
  called cs s = record s { calls = s.calls ++ cs }

  unfoldable pub finish_register : Instance → Bool → PluginManifest F V → Loading F V → Loading F V
  unfolding drop_library
  finish_register p mapped m s =
      if is_registered m.plugin_id s.host.plugins
      then called (shut_down p ∷ dropped p ∷ drop_library p mapped) s
      else record s { host = add_plugin p mapped m s.host }

  abbrev pub unexpected : Option Text → PluginManifest F V → Bool
  unexpected none m = false
  unexpected (some id) m = not (text_beq m.plugin_id id)

  -- `register_with_config_checked` once the plugin's `init` has returned. Where it failed, the
  -- parameters are dropped from the last to the first: the library before the plugin.
  unfoldable pub register_inited :
      Instance
      → Bool
      → Option Text
      → Checked PluginError (PluginManifest F V)
      → Loading F V
      → Loading F V
  unfolding finish_register drop_library
  register_inited p mapped expected (err e) s = called (drop_library p mapped ++ dropped p ∷ []) s
  register_inited p mapped expected (ok m) s =
      if unexpected expected m
      then called (shut_down p ∷ dropped p ∷ drop_library p mapped) s
      else finish_register p mapped m s

module _ {F V C : Type 0} (f : Files F V C) where
  unfoldable pub register_with_config_checked :
      Instance → Bool → C → Option Text → Loading F V → Loading F V
  unfolding register_inited
  register_with_config_checked p mapped config expected s =
      register_inited p mapped expected (host_init f.errors (f.init p config))
        (called (inited p ∷ []) s)

  unfoldable pub register_with_config : Instance → Bool → C → Loading F V → Loading F V
  unfolding register_with_config_checked
  register_with_config p mapped config s = register_with_config_checked p mapped config none s

  unfoldable pub config_of : Dict Text C → Text → C
  config_of configs id = elim (lookup id configs) [ none ↦ f.null | some c ↦ c ]

  abbrev pub fresh : ℕ → Loading F V → Instance
  fresh n s = record { library = s.next; number = n }

  unfoldable pub register_builtins : Dict Text C → List Text → Loading F V → Loading F V
  unfolding register_with_config config_of
  register_builtins configs [] s = s
  register_builtins configs (id ∷ ids) s =
      let s' = register_with_config (fresh 0 s) false (config_of configs id) s in
      register_builtins configs ids (record s' { next = s.next + 1 })

  -- A file whose library has metadata.
  unfoldable pub load_with_metadata : Dict Text C → Text → Loading F V → Loading F V
  unfolding register_with_config_checked config_of
  load_with_metadata configs id s =
      if f.instantiate (fresh 0 s)
      then register_with_config_checked (fresh 0 s) true (config_of configs id) (some id) s
      else called (unmapped s.next ∷ []) s

  -- The probe is given up, and another instance gets the configuration.
  unfoldable pub reinstantiate : C → Loading F V → Loading F V
  unfolding register_with_config
  reinstantiate config s =
      let s' = called (shut_down (fresh 0 s) ∷ dropped (fresh 0 s) ∷ []) s in
      if f.instantiate (fresh 1 s)
      then register_with_config (fresh 1 s) true config s'
      else called (unmapped s.next ∷ []) s'

  unfoldable pub register_probed : Dict Text C → PluginManifest F V → Loading F V → Loading F V
  unfolding finish_register reinstantiate
  register_probed configs m s = elim (lookup m.plugin_id configs) [
    | none ↦ finish_register (fresh 0 s) true m s
    | some config ↦
        if f.is_null config then finish_register (fresh 0 s) true m s else reinstantiate config s
  ]

  -- A file whose library has none: an `init` with no configuration shows the id.
  unfoldable pub probe :
      Dict Text C → Checked PluginError (PluginManifest F V) → Loading F V → Loading F V
  unfolding register_probed
  probe configs (err e) s = called (dropped (fresh 0 s) ∷ unmapped s.next ∷ []) s
  probe configs (ok m) s = register_probed configs m s

  unfoldable pub load_without_metadata : Dict Text C → Loading F V → Loading F V
  unfolding probe
  load_without_metadata configs s =
      if f.instantiate (fresh 0 s)
      then probe configs (host_init f.errors (f.init (fresh 0 s) f.null))
          (called (inited (fresh 0 s) ∷ []) s)
      else called (unmapped s.next ∷ []) s

  unfoldable pub load_library : Dict Text C → Option Text → Loading F V → Loading F V
  unfolding load_with_metadata load_without_metadata
  load_library configs (some id) s = load_with_metadata configs id s
  load_library configs none s = load_without_metadata configs s

  unfoldable pub load_file : Dict Text C → Text → Loading F V → Loading F V
  unfolding load_library
  load_file configs path s =
      if f.has_so_extension path
      then elim (f.canonicalize path) [
        | none ↦ s
        | some real ↦ elim (f.load_one s.next real) [
          | none ↦ record s { next = s.next + 1 }
          | some metadata ↦
              let s' = load_library configs metadata s in record s' { next = s.next + 1 }
        ]
      ]
      else s

  unfoldable pub load_from_dir : Dict Text C → List Text → Loading F V → Loading F V
  unfolding load_file
  load_from_dir configs [] s = s
  load_from_dir configs (path ∷ paths) s = load_from_dir configs paths (load_file configs path s)

  -- A directory that cannot be read has no files here.
  unfoldable pub load_dynamic_plugins : Dict Text C → List (List Text) → Loading F V → Loading F V
  unfolding load_from_dir
  load_dynamic_plugins configs [] s = s
  load_dynamic_plugins configs (dir ∷ dirs) s =
      load_dynamic_plugins configs dirs (load_from_dir configs dir s)

  abbrev pub builtins : List Text
  builtins =
      codes "linsight-sensors-cpu"
      ∷ codes "linsight-sensors-amdgpu"
      ∷ codes "linsight-sensors-mem"
      ∷ codes "linsight-sensors-xe"
      ∷ codes "linsight-sensors-system"
      ∷ codes "linsight-sensors-disk"
      ∷ codes "linsight-sensors-hwmon"
      ∷ codes "linsight-sensors-fs"
      ∷ codes "linsight-sensors-nvml"
      ∷ codes "linsight-sensors-nvme"
      ∷ codes "linsight-sensors-net"
      ∷ codes "linsight-sensors-proc"
      ∷ codes "linsight-sensors-zram"
      ∷ codes "linsight-sensors-i915"
      ∷ codes "linsight-sensors-systemd"
      ∷ codes "linsight-sensors-sock"
      ∷ codes "linsight-sensors-containers"
      ∷ codes "linsight-sensors-smart"
      ∷ []

  unfoldable pub with_builtins_and_config : Dict Text C → Loading F V
  unfolding register_builtins
  with_builtins_and_config configs =
      register_builtins configs builtins (record { host = no_plugins; next = 0; calls = [] })

-- ===== src/Plugins/Loaded.antt =====
-- The plugins of the daemon once they are loaded: their sensors, their instances, their devices.
use lin_sight.Base.{
  ℕ, ◌≡◌, ◌≤◌, refl, inl, inr, true, List, [], ◌∷◌, none, some, Text, All, Bool-cases, Option-cases,
  zero, suc, ap, ◌∙◌, arith, map, subst,
}
use lin_sight.Base.Keys.{text_eq, text_beq}
use lin_sight.Base.Dict.{Dict, lookup}
use lin_sight.Core.Samples.{SensorId, Reading}
use lin_sight.Core.Hardware.{HardwareDevice, DeviceKey, Checked}
use lin_sight.Scheduler.Table.{Descriptor}
use lin_sight.Scheduler.Tick.{PluginError}
use lin_sight.Registry.{Manifest, build, filled}
use lin_sight.Registry.Build.{declared, build-lookup, first_in, cited}
use lin_sight.Plugins.{
  Instance, PluginEntry, PluginHost, returned, plugin_at, plugin_id_for, sample_to, stamped,
  devices_by_plugin, manifest_of,
}
use lin_sight.Plugins.Checks.{Grounded, declares, NamesOneOf}
use lin_sight.Plugins.Listing.{Listed, Among}
use lin_sight.Plugins.Loader.{Files, Call}
use lin_sight.Plugins.Live.{Alive}
use lin_sight.Plugins.Calls.{inits, released}
use lin_sight.Plugins.Stages.{loaded, loaded-Between}

declares-first_in :
    (plugin_id k : Text) (ds : List HardwareDevice)
    → declares k ds ≡ true
    → (dev : HardwareDevice) × (first_in plugin_id k ds ≡ some dev)
declares-first_in plugin_id k [] h = absurd (cc)
declares-first_in plugin_id k (d ∷ ds) h = elim (Bool-cases (text_beq d.key k)) [
  | inl same ↦ (filled plugin_id d, rw same refl)
  | inr other ↦
      let (dev, found) = declares-first_in plugin_id k ds (ground (arith, other)) in
      (dev, rw other found)
]

module _ {F V : Type 0} where
  -- What a call about a sensor gives: the word of the one plugin that lists it, or of none.
  pub record OwnedBy (h : PluginHost F V)
      (sample : Instance → SensorId → Checked PluginError (Reading V)) (id : SensorId)
      (ts_micros : ℕ) : Type 0 where
    pub index : ℕ
    pub descriptor : Descriptor F V
    pub entry : PluginEntry F V
    pub at_index : plugin_at index h.plugins ≡ some entry
    pub lists : Among descriptor entry.sensors
    pub named : descriptor.id ≡ id
    pub alone :
        (i : ℕ) (d : Descriptor F V)
        → Listed d i h.plugins
        → d.id ≡ id
        → (i ≡ index) × (d ≡ descriptor)
    pub answers :
        sample_to sample h id ts_micros ≡ returned (stamped id ts_micros (sample entry.plugin id))
    pub belongs : plugin_id_for h id ≡ returned (some entry.meta.plugin_id)

  Grounded-declares :
      (k : Text) (d : Descriptor F V) (ds : List HardwareDevice) (ss : List (Descriptor F V))
      → Grounded ds ss
      → Among d ss
      → d.device_key ≡ some k
      → declares k ds ≡ true
  Grounded-declares k d ds [] g a named = absurd a
  Grounded-declares k d ds (s ∷ ss) g (inl same) named =
      subst (NamesOneOf ds) (ap (λ (x : Descriptor F V). x.device_key) same ∙ named) g.0
  Grounded-declares k d ds (s ∷ ss) g (inr later) named =
      Grounded-declares k d ds ss g.1 later named

  declared-here :
      (k : Text) (m : Manifest F V) (ms : List (Manifest F V)) {dev : HardwareDevice}
      → first_in m.plugin_id k m.devices ≡ some dev
      → declared k (m ∷ ms) ≡ some (record dev { sensor_ids = cited k (m ∷ ms) })
  declared-here k m ms {dev} found = rw (found, declared) refl

  declared-later :
      (k : Text) (m : Manifest F V) (ms : List (Manifest F V))
      → first_in m.plugin_id k m.devices ≡ none
      → declared k (m ∷ ms) ≡ declared k ms
  declared-later k m ms absent = rw (absent, declared) refl

  declared-known :
      (k : Text) (d : Descriptor F V) (i : ℕ) (es : List (PluginEntry F V))
      → All (λ e. Grounded e.devices e.sensors) es
      → Listed d i es
      → d.device_key ≡ some k
      → (dev : HardwareDevice) × (declared k (map manifest_of es) ≡ some dev)
  unfolding manifest_of
  declared-known k d i [] g l named = absurd l
  declared-known k d zero (e ∷ es) g l named =
      let there = Grounded-declares k d e.devices e.sensors g.0 l named in
      let (dev, found) = declares-first_in e.meta.plugin_id k e.devices there in
      (_, declared-here k (manifest_of e) (map manifest_of es) {dev = dev} found)
  declared-known k d (suc i) (e ∷ es) g l named =
      elim (Option-cases (first_in e.meta.plugin_id k e.devices)) [
        | inr (dev, found) ↦
            (_, declared-here k (manifest_of e) (map manifest_of es) {dev = dev} found)
        | inl absent ↦
            let (dev, later) = declared-known k d i es g.1 l named in
            (dev, declared-later k (manifest_of e) (map manifest_of es) absent ∙ later)
      ]

Alive-counts :
    {F V : Type 0} (a : ℕ) (cs : List Call) (es : List (PluginEntry F V))
    → All (Alive a cs) es
    → All (λ e. (inits e.plugin cs ≡ 1) × (released e.plugin cs ≡ 0)) es
Alive-counts a cs [] h = tt
Alive-counts a cs (e ∷ es) h = ((h.0.1, h.0.2), Alive-counts a cs es h.1)

module _ {F V C : Type 0} (f : Files F V C) (configs : Dict Text C) (dirs : List (List Text)) where
  -- Whatever the files hold and however the plugins behave, no instance of a plugin is initialised
  -- twice; and each instance that ends up registered has been initialised, and neither it was shut
  -- down or dropped nor its library unmapped.
  pub loaded_once :
      ((p : Instance) → inits p (loaded f configs dirs).calls ≤ 1)
      × All
          (λ e.
            (inits e.plugin (loaded f configs dirs).calls ≡ 1)
            × (released e.plugin (loaded f configs dirs).calls ≡ 0))
          (loaded f configs dirs).host.plugins
  loaded_once =
      let s = loaded f configs dirs in
      let v = loaded-Between f configs dirs in
      (v.once, Alive-counts s.next s.calls s.host.plugins v.alive)

  -- A sensor that a loaded plugin lists names no device, or one that the hardware registry knows that is
  -- built from the loaded plugins.
  pub loaded_devices :
      (nicknames : Dict Text Text) (i : ℕ) (d : Descriptor F V) (key : DeviceKey)
      → Listed d i (loaded f configs dirs).host.plugins
      → d.device_key ≡ some key
      → (dev : HardwareDevice) × (lookup key
            (build (devices_by_plugin (loaded f configs dirs).host) nicknames).devices
          ≡ some dev)
  unfolding devices_by_plugin
  loaded_devices nicknames i d key listed named =
      let h = (loaded f configs dirs).host in
      let (dev, found) =
        declared-known key d i h.plugins (loaded-Between f configs dirs).sound listed named in
      (dev, build-lookup (devices_by_plugin h) nicknames key ∙ found)

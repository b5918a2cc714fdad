-- ===== src/Plugins/Stages.antt =====
-- Each stage of the loader keeps the account of the instances.
use lin_sight.Base.{
  ℕ, ◌+◌, ◌≡◌, refl, subst, inl, inr, Bool, true, false, List, [], ◌∷◌, Option, none, some, Text,
  suc, arith, Bool-cases, Option-cases,
}
use lin_sight.Base.Keys.{text_eq}
use lin_sight.Base.Dict.{Dict, lookup}
use lin_sight.Core.Hardware.{Checked, ok, err}
use lin_sight.Scheduler.Tick.{PluginError}
use lin_sight.Plugins.{PluginManifest, Instance, host_init, no_plugins}
use lin_sight.Plugins.Owners.{no_plugins-HostOk}
use lin_sight.Plugins.Loader.{
  Files, inited, shut_down, dropped, unmapped, Loading, called, register_with_config_checked,
  register_with_config, config_of, fresh, register_builtins, load_with_metadata, reinstantiate,
  register_probed, probe, load_without_metadata, load_library, load_file, load_from_dir,
  load_dynamic_plugins, builtins, with_builtins_and_config,
}
use lin_sight.Plugins.Checks.{Grounded, host_init-Grounded}
use lin_sight.Plugins.Live.{
  Between, Within, Ready, Untouched, begun, done, drops-Within, finish_register-Between,
  register_inited-Between, init-Within, init-Ready,
}
use lin_sight.Plugins.Calls.{inits-append, released-append}

module _ {F V C : Type 0} (f : Files F V C) (configs : Dict Text C) where
  checked-Between :
      (k : ℕ) (p : Instance) (mapped : Bool) (config : C) (expected : Option Text) (s : Loading F V)
      → Within k s
      → Untouched k p s
      → Between (suc k) (register_with_config_checked f p mapped config expected s)
  unfolding register_with_config_checked
  checked-Between k p mapped config expected s v u =
      register_inited-Between k p mapped expected (host_init f.errors (f.init p config))
        (called (inited p ∷ []) s) (init-Within k p s v u.0 u.1) (init-Ready k p s u.0 u.1 u.2)
        (λ m good. host_init-Grounded f.errors (f.init p config) {m = m} good)

  unmapped-Within : (k : ℕ) (s : Loading F V) → Within k s → Within k (called (unmapped k ∷ []) s)
  unmapped-Within k s v = drops-Within k (unmapped k ∷ []) s v (refl, tt) (λ q. refl)

  untouched : (s : Loading F V) (n : ℕ) → Between s.next s → Untouched s.next (fresh f n s) s
  untouched s n v = let unseen = v.later (fresh f n s) (omega arith) in (refl, unseen.0, unseen.1)

  with_metadata-Between :
      (id : Text) (s : Loading F V)
      → Between s.next s
      → Between (suc s.next) (load_with_metadata f configs id s)
  unfolding load_with_metadata
  with_metadata-Between id s v = elim (Bool-cases (f.instantiate (fresh f 0 s))) [
    | inl there ↦
        rw (there, load_with_metadata)
          (checked-Between s.next (fresh f 0 s) true (config_of f configs id) (some id) s
            (begun s.next s v) (untouched s 0 v))
    | inr missing ↦
        rw (missing, load_with_metadata)
          (done s.next _ (unmapped-Within s.next s (begun s.next s v)))
  ]

  -- The second instance of a library, after the first has been let go.
  reinstantiate-Between :
      (config : C) (s : Loading F V)
      → Within s.next s
      → Untouched s.next (fresh f 1 s) s
      → Between (suc s.next) (reinstantiate f config s)
  unfolding reinstantiate register_with_config
  reinstantiate-Between config s v u =
      let cs = shut_down (fresh f 0 s) ∷ dropped (fresh f 0 s) ∷ [] in
      let w = drops-Within s.next cs s v (refl, (refl, tt)) (λ q. refl) in
      let still : Untouched s.next (fresh f 1 s) (called cs s) = (
        refl,
        omega (arith, u.1, inits-append (fresh f 1 s) s.calls cs),
        ground (arith, u.2, released-append (fresh f 1 s) s.calls cs),
      ) in
      elim (Bool-cases (f.instantiate (fresh f 1 s))) [
        | inl there ↦
            rw (there, reinstantiate)
              (checked-Between s.next (fresh f 1 s) true config none (called cs s) w still)
        | inr missing ↦
            rw (missing, reinstantiate) (done s.next _ (unmapped-Within s.next (called cs s) w))
      ]

  register_probed-Between :
      (m : PluginManifest F V) (s : Loading F V)
      → Within s.next s
      → Ready s.next (fresh f 0 s) s
      → Grounded m.devices m.sensors
      → Untouched s.next (fresh f 1 s) s
      → Between (suc s.next) (register_probed f configs m s)
  unfolding register_probed
  register_probed-Between m s v r g u = elim (Option-cases (lookup m.plugin_id configs)) [
    | inl plain ↦
        rw (plain, register_probed) (finish_register-Between s.next (fresh f 0 s) true m s v r g)
    | inr (config, found) ↦ elim (Bool-cases (f.is_null config)) [
      | inl null ↦
          rw (found, register_probed)
            (rw null (finish_register-Between s.next (fresh f 0 s) true m s v r g))
      | inr given ↦ rw (found, register_probed) (rw given (reinstantiate-Between config s v u))
    ]
  ]

  probe-Between :
      (c : Checked PluginError (PluginManifest F V)) (s : Loading F V)
      → Within s.next s
      → Ready s.next (fresh f 0 s) s
      → ((m : PluginManifest F V) → c ≡ ok m → Grounded m.devices m.sensors)
      → Untouched s.next (fresh f 1 s) s
      → Between (suc s.next) (probe f configs c s)
  unfolding probe
  probe-Between (err e) s v r g u = done s.next _ (
      drops-Within s.next (dropped (fresh f 0 s) ∷ unmapped s.next ∷ []) s v (refl, (refl, tt))
        (λ q. refl))
  probe-Between (ok m) s v r g u = register_probed-Between m s v r (g m refl) u

  without_metadata-Between :
      (s : Loading F V)
      → Between s.next s
      → Between (suc s.next) (load_without_metadata f configs s)
  unfolding load_without_metadata
  without_metadata-Between s v =
      let first = untouched s 0 v in
      let second = untouched s 1 v in
      let s' = called (inited (fresh f 0 s) ∷ []) s in
      let still : Untouched s.next (fresh f 1 s) s' = (
        refl,
        ground (arith, second.1, inits-append (fresh f 1 s) s.calls (inited (fresh f 0 s) ∷ [])),
        omega (arith, second.2, released-append (fresh f 1 s) s.calls (inited (fresh f 0 s) ∷ [])),
      ) in
      elim (Bool-cases (f.instantiate (fresh f 0 s))) [
        | inl there ↦
            rw (there, load_without_metadata)
              (probe-Between (host_init f.errors (f.init (fresh f 0 s) f.null)) s'
                (init-Within s.next (fresh f 0 s) s (begun s.next s v) refl first.1)
                (init-Ready s.next (fresh f 0 s) s refl first.1 first.2)
                (λ m good. host_init-Grounded f.errors (f.init (fresh f 0 s) f.null) {m = m} good)
                still)
        | inr missing ↦
            rw (missing, load_without_metadata)
              (done s.next _ (unmapped-Within s.next s (begun s.next s v)))
      ]

  library-Between :
      (metadata : Option Text) (s : Loading F V)
      → Between s.next s
      → Between (suc s.next) (load_library f configs metadata s)
  unfolding load_library
  library-Between (some id) s v = with_metadata-Between id s v
  library-Between none s v = without_metadata-Between s v

  advanced :
      (n : ℕ) (s : Loading F V) → Between (suc n) s → Between (n + 1) (record s { next = n + 1 })
  advanced n s v =
      let next : suc n ≡ n + 1 = omega arith in
      let w = subst (λ k. Between k s) next v in
      record {
        host_ok = w.host_ok;
        sound = w.sound;
        alive = w.alive;
        once = w.once;
        later = w.later;
      }

  load_file-Between :
      (path : Text) (s : Loading F V)
      → Between s.next s
      → Between (load_file f configs path s).next (load_file f configs path s)
  unfolding load_file
  load_file-Between path s v = elim (Bool-cases (f.has_so_extension path)) [
    | inr other ↦ rw (other, load_file) v
    | inl shared ↦ elim (Option-cases (f.canonicalize path)) [
      | inl gone ↦ simp (load_file, shared, gone) v
      | inr (real, found) ↦ elim (Option-cases (f.load_one s.next real)) [
        | inl bad ↦
            simp (load_file, shared, found, bad)
              (advanced s.next s (done s.next s (begun s.next s v)))
        | inr (metadata, opened) ↦
            simp (load_file, shared, found, opened)
              (advanced s.next (load_library f configs metadata s) (library-Between metadata s v))
      ]
    ]
  ]

  load_from_dir-Between :
      (paths : List Text) (s : Loading F V)
      → Between s.next s
      → Between (load_from_dir f configs paths s).next (load_from_dir f configs paths s)
  unfolding load_from_dir
  load_from_dir-Between [] s v = v
  load_from_dir-Between (path ∷ paths) s v =
      load_from_dir-Between paths (load_file f configs path s) (load_file-Between path s v)

  load_dynamic_plugins-Between :
      (dirs : List (List Text)) (s : Loading F V)
      → Between s.next s
      → Between (load_dynamic_plugins f configs dirs s).next (load_dynamic_plugins f configs dirs s)
  unfolding load_dynamic_plugins
  load_dynamic_plugins-Between [] s v = v
  load_dynamic_plugins-Between (dir ∷ dirs) s v =
      load_dynamic_plugins-Between dirs (load_from_dir f configs dir s)
        (load_from_dir-Between dir s v)

  register_builtins-Between :
      (ids : List Text) (s : Loading F V)
      → Between s.next s
      → Between (register_builtins f configs ids s).next (register_builtins f configs ids s)
  unfolding register_builtins register_with_config
  register_builtins-Between [] s v = v
  register_builtins-Between (id ∷ ids) s v =
      let s' = register_with_config f (fresh f 0 s) false (config_of f configs id) s in
      register_builtins-Between ids (record s' { next = s.next + 1 })
        (advanced s.next s' (
          checked-Between s.next (fresh f 0 s) false (config_of f configs id) none s
            (begun s.next s v) (untouched s 0 v)))

  -- The plugins of the daemon: the built-in ones, and those of the directories.
  abbrev pub loaded : List (List Text) → Loading F V
  loaded dirs = load_dynamic_plugins f configs dirs (with_builtins_and_config f configs)

  pub loaded-Between : (dirs : List (List Text)) → Between (loaded dirs).next (loaded dirs)
  unfolding with_builtins_and_config
  loaded-Between dirs = load_dynamic_plugins-Between dirs (with_builtins_and_config f configs) (
      register_builtins-Between (builtins f) (record { host = no_plugins; next = 0; calls = [] })
        (record {
          host_ok = no_plugins-HostOk;
          sound = tt;
          alive = tt;
          once = λ p. omega arith;
          later = λ p h. (refl, refl);
        }))

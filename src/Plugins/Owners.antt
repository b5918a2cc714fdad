-- ===== src/Plugins/Owners.antt =====
-- Each sensor has one owner, which exists, and each plugin id one plugin.
use lin_sight.Base.{
  ℕ, ◌≡◌, refl, sym, ap, ◌∙◌, subst, ◌⊎◌, inl, inr, Bool, false, List, [], ◌∷◌, ◌++◌, none, some,
  length, length-append, arith, Bool-cases, All, All-last,
}
use lin_sight.Base.Keys.{text_eq, text_beq, text_beq_iff, beq_refl}
use lin_sight.Base.Dict.{Dict, lookup, insert, has_key, lookup-insert, lookup-has_key}
use lin_sight.Core.Samples.{SensorId}
use lin_sight.Scheduler.Table.{Descriptor}
use lin_sight.Plugins.Checks.{Grounded, accept_all-Grounded}
use lin_sight.Plugins.{
  PluginManifest, Instance, PluginEntry, PluginHost, Accepted, is_registered, accept_one,
  accept_all, add_plugin, no_plugins,
}
use lin_sight.Plugins.Listing.{
  Among, Listed, DistinctIds, Among-append, Among-last, Among-cases, Listed-append, Listed-last,
  Listed-cases, DistinctIds-append,
}

module _ {F V : Type 0} where
  -- The registry and the lists of the plugins agree: each sensor has the owner that lists it, and no
  -- other plugin lists it.
  pub record HostOk (h : PluginHost F V) : Type 0 where
    pub owned :
        (id : SensorId) (i : ℕ) (d : Descriptor F V)
        → lookup id h.registry ≡ some (i, d)
        → Listed d i h.plugins × (d.id ≡ id)
    pub listed :
        (i : ℕ) (d : Descriptor F V) → Listed d i h.plugins → lookup d.id h.registry ≡ some (i, d)
    pub distinct : DistinctIds h.plugins
    pub counted : All (λ e. e.sensor_count ≡ length e.sensors) h.plugins

  -- The loop over a manifest's sensors, for the plugins so far.
  record LoopOk (es : List (PluginEntry F V)) (a : Accepted F V) : Type 0 where
    owned :
        (id : SensorId) (i : ℕ) (d : Descriptor F V)
        → lookup id a.registry ≡ some (i, d)
        → (Listed d i es ⊎ ((i ≡ length es) × Among d a.sensors)) × (d.id ≡ id)
    listed : (i : ℕ) (d : Descriptor F V) → Listed d i es → lookup d.id a.registry ≡ some (i, d)
    fresh : (d : Descriptor F V) → Among d a.sensors → lookup d.id a.registry ≡ some (length es, d)
    counted : a.accepted ≡ length a.sensors

  absent :
      (id other : SensorId) (i j : ℕ) (x d : Descriptor F V)
      (m : Dict SensorId (ℕ × Descriptor F V))
      → has_key id m ≡ false
      → lookup other m ≡ some (j, d)
      → lookup other (insert id (i, x) m) ≡ some (j, d)
  absent id other i j x d m new found = elim (Bool-cases (text_beq id other)) [
    | inl same ↦
        let e : id ≡ other = (text_beq_iff id other).0 same in
        let missing : lookup other m ≡ none =
          subst (λ k. lookup k m ≡ none) e (lookup-has_key id m new) in
        absurd (let clash : none ≡ some (j, d) = sym missing ∙ found in cc)
    | inr differs ↦ lookup-insert id other (i, x) m ∙ rw differs found
  ]

  inserted-cases :
      (id other : SensorId) (p q : ℕ × Descriptor F V) (m : Dict SensorId (ℕ × Descriptor F V))
      → lookup other (insert id p m) ≡ some q
      → ((id ≡ other) × (p ≡ q)) ⊎ (lookup other m ≡ some q)
  inserted-cases id other p q m h =
      let found = sym (lookup-insert id other p m) ∙ h in
      elim (Bool-cases (text_beq id other)) [
        | inl same ↦ inl ((text_beq_iff id other).0 same, ground (arith, found, same))
        | inr differs ↦ inr (sym (rw differs refl) ∙ found)
      ]

  owned_now :
      (es : List (PluginEntry F V)) (x : Descriptor F V) (a : Accepted F V)
      → LoopOk es a
      → (id : SensorId) (i : ℕ) (d : Descriptor F V)
      → lookup id (insert x.id (length es, x) a.registry) ≡ some (i, d)
      → (Listed d i es ⊎ ((i ≡ length es) × Among d (a.sensors ++ x ∷ []))) × (d.id ≡ id)
  owned_now es x a v id i d h = elim (inserted-cases x.id id (length es, x) (i, d) a.registry h) [
    | inl (same, here) ↦
        let x_is_d : x ≡ d = ap (λ p. p.1) here in
        (
          inr (
            ap (λ p. p.0) (sym here),
            subst (λ y. Among y (a.sensors ++ x ∷ [])) x_is_d (Among-last x a.sensors),
          ),
          ap (λ (y : Descriptor F V). y.id) (sym x_is_d) ∙ same,
        )
    | inr old ↦
        let (place, named) = v.owned id i d old in
        (
          elim place [
            | inl before ↦ inl before
            | inr (here, among) ↦ inr (here, Among-append d x a.sensors among)
          ],
          named,
        )
  ]

  fresh_now :
      (es : List (PluginEntry F V)) (x : Descriptor F V) (a : Accepted F V)
      → LoopOk es a
      → has_key x.id a.registry ≡ false
      → (d : Descriptor F V) → Among d (a.sensors ++ x ∷ [])
      → lookup d.id (insert x.id (length es, x) a.registry) ≡ some (length es, d)
  fresh_now es x a v new d h = elim (Among-cases d x a.sensors h) [
    | inl before ↦ absent x.id d.id (length es) (length es) x d a.registry new (v.fresh d before)
    | inr x_is_d ↦
        subst
          (λ (y : Descriptor F V).
            lookup y.id (insert x.id (length es, x) a.registry) ≡ some (length es, y))
          x_is_d (lookup-insert x.id x.id (length es, x) a.registry ∙ rw (beq_refl x.id) refl)
  ]

  accept_one-LoopOk :
      (es : List (PluginEntry F V)) (x : Descriptor F V) (a : Accepted F V)
      → LoopOk es a
      → LoopOk es (accept_one (length es) x a)
  unfolding accept_one
  accept_one-LoopOk es x a v = elim (Bool-cases (has_key x.id a.registry)) [
    | inl known ↦ simp (accept_one, known) v
    | inr new ↦
        simp (accept_one, new)
          (record {
            owned = owned_now es x a v;
            listed = λ i d h. absent x.id d.id (length es) i x d a.registry new (v.listed i d h);
            fresh = fresh_now es x a v new;
            counted = omega (arith, v.counted, length-append a.sensors (x ∷ []));
          })
  ]

  accept_all-LoopOk :
      (es : List (PluginEntry F V)) (ds : List (Descriptor F V)) (a : Accepted F V)
      → LoopOk es a
      → LoopOk es (accept_all (length es) ds a)
  unfolding accept_all
  accept_all-LoopOk es [] a v = v
  accept_all-LoopOk es (d ∷ ds) a v =
      accept_all-LoopOk es ds (accept_one (length es) d a) (accept_one-LoopOk es d a v)

  pub no_plugins-HostOk : HostOk no_plugins
  unfolding lookup
  no_plugins-HostOk = record {
    owned = λ id i d h. absurd (let clash : none ≡ some (i, d) = h in cc);
    listed = λ i d h. absurd h;
    distinct = tt;
    counted = tt;
  }

  -- A plugin whose id is new keeps the owners of all sensors, and takes the sensors that have none.
  pub add_plugin-HostOk :
      (plugin : Instance) (mapped : Bool) (m : PluginManifest F V) (h : PluginHost F V)
      → HostOk h
      → is_registered m.plugin_id h.plugins ≡ false
      → HostOk (add_plugin plugin mapped m h)
  unfolding add_plugin
  add_plugin-HostOk plugin mapped m h v new =
      let start : Accepted F V = record { registry = h.registry; sensors = []; accepted = 0 } in
      let w = accept_all-LoopOk h.plugins m.sensors start (record {
        owned = λ id i d found. (inl (v.owned id i d found).0, (v.owned id i d found).1);
        listed = v.listed;
        fresh = λ d a. absurd a;
        counted = refl;
      }) in
      let a = accept_all (length h.plugins) m.sensors start in
      let e : PluginEntry F V = record {
        plugin = plugin;
        mapped = mapped;
        meta = record {
          plugin_id = m.plugin_id;
          display_name = m.display_name;
          version = m.version;
        };
        sensor_count = a.accepted;
        devices = m.devices;
        sensors = a.sensors;
      } in
      record {
        owned = λ id i d found. (
          elim (w.owned id i d found).0 [
            | inl before ↦ Listed-append d i e h.plugins before
            | inr (here, among) ↦
                subst (λ k. Listed d k (h.plugins ++ e ∷ [])) (sym here)
                  (Listed-last d e h.plugins among)
          ],
          (w.owned id i d found).1,
        );
        listed = λ i d l. elim (Listed-cases d i e h.plugins l) [
          | inl before ↦ w.listed i d before
          | inr (here, among) ↦
              subst (λ k. lookup d.id a.registry ≡ some (k, d)) (sym here) (w.fresh d among)
        ];
        distinct = DistinctIds-append e h.plugins new v.distinct;
        counted = All-last (λ p. p.sensor_count ≡ length p.sensors) h.plugins e v.counted w.counted;
      }

  pub add_plugin-All :
      (P : PluginEntry F V → Type 0) (plugin : Instance) (mapped : Bool) (m : PluginManifest F V)
      (h : PluginHost F V)
      → All P h.plugins
      → ((e : PluginEntry F V) → e.plugin ≡ plugin → P e)
      → All P (add_plugin plugin mapped m h).plugins
  unfolding add_plugin
  add_plugin-All P plugin mapped m h old new = All-last P h.plugins _ old (new _ refl)

  pub add_plugin-Grounded :
      (plugin : Instance) (mapped : Bool) (m : PluginManifest F V) (h : PluginHost F V)
      → All (λ e. Grounded e.devices e.sensors) h.plugins
      → Grounded m.devices m.sensors
      → All (λ e. Grounded e.devices e.sensors) (add_plugin plugin mapped m h).plugins
  unfolding add_plugin
  add_plugin-Grounded plugin mapped m h old new =
      All-last (λ e. Grounded e.devices e.sensors) h.plugins _ old
        (accept_all-Grounded m.devices (length h.plugins) m.sensors
          (record { registry = h.registry; sensors = []; accepted = 0 }) new tt)

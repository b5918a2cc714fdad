-- ===== src/Plugins/Listing.antt =====
-- Which plugin lists a sensor.
use lin_sight.Base.{
  ℕ, ◌≡◌, refl, ap, ◌⊎◌, inl, inr, false, ◌||◌, List, [], ◌∷◌, ◌++◌, some, Text, length, zero, suc,
  arith,
}
use lin_sight.Base.Keys.{text_eq, text_beq, text_beq_iff}
use lin_sight.Scheduler.Table.{Descriptor}
use lin_sight.Plugins.{PluginEntry, is_registered, plugin_at}

module _ {F V : Type 0} where
  abbrev pub Among : Descriptor F V → List (Descriptor F V) → Type 0
  Among d [] = ⊥
  Among d (x ∷ xs) = (x ≡ d) ⊎ Among d xs

  -- The plugin at an index lists a sensor.
  abbrev pub Listed : Descriptor F V → ℕ → List (PluginEntry F V) → Type 0
  Listed d i [] = ⊥
  Listed d zero (e ∷ es) = Among d e.sensors
  Listed d (suc i) (e ∷ es) = Listed d i es

  abbrev pub DistinctIds : List (PluginEntry F V) → Type 0
  DistinctIds [] = Unit {0}
  DistinctIds (e ∷ es) = (is_registered e.meta.plugin_id es ≡ false) × DistinctIds es

  pub Among-append :
      (d x : Descriptor F V) (xs : List (Descriptor F V)) → Among d xs → Among d (xs ++ x ∷ [])
  Among-append d x [] h = absurd h
  Among-append d x (y ∷ ys) (inl e) = inl e
  Among-append d x (y ∷ ys) (inr h) = inr (Among-append d x ys h)

  pub Among-last : (x : Descriptor F V) (xs : List (Descriptor F V)) → Among x (xs ++ x ∷ [])
  Among-last x [] = inl refl
  Among-last x (y ∷ ys) = inr (Among-last x ys)

  pub Among-cases :
      (d x : Descriptor F V) (xs : List (Descriptor F V))
      → Among d (xs ++ x ∷ [])
      → Among d xs ⊎ (x ≡ d)
  Among-cases d x [] (inl e) = inr e
  Among-cases d x [] (inr h) = absurd h
  Among-cases d x (y ∷ ys) (inl e) = inl (inl e)
  Among-cases d x (y ∷ ys) (inr h) = elim (Among-cases d x ys h) [
    | inl b ↦ inl (inr b)
    | inr e ↦ inr e
  ]

  pub Listed-append :
      (d : Descriptor F V) (i : ℕ) (e : PluginEntry F V) (es : List (PluginEntry F V))
      → Listed d i es
      → Listed d i (es ++ e ∷ [])
  Listed-append d i e [] h = absurd h
  Listed-append d zero e (x ∷ es) h = h
  Listed-append d (suc i) e (x ∷ es) h = Listed-append d i e es h

  pub Listed-last :
      (d : Descriptor F V) (e : PluginEntry F V) (es : List (PluginEntry F V))
      → Among d e.sensors
      → Listed d (length es) (es ++ e ∷ [])
  Listed-last d e [] h = h
  Listed-last d e (x ∷ es) h = Listed-last d e es h

  pub Listed-cases :
      (d : Descriptor F V) (i : ℕ) (e : PluginEntry F V) (es : List (PluginEntry F V))
      → Listed d i (es ++ e ∷ [])
      → Listed d i es ⊎ ((i ≡ length es) × Among d e.sensors)
  Listed-cases d zero e [] h = inr (refl, h)
  Listed-cases d (suc i) e [] h = absurd h
  Listed-cases d zero e (x ∷ es) h = inl h
  Listed-cases d (suc i) e (x ∷ es) h = elim (Listed-cases d i e es h) [
    | inl b ↦ inl b
    | inr (here, a) ↦ inr (ap suc here, a)
  ]

  pub Listed-plugin_at :
      (d : Descriptor F V) (i : ℕ) (es : List (PluginEntry F V))
      → Listed d i es
      → (e : PluginEntry F V) × (plugin_at i es ≡ some e) × Among d e.sensors
  unfolding plugin_at
  Listed-plugin_at d i [] h = absurd h
  Listed-plugin_at d zero (e ∷ es) h = (e, refl, h)
  Listed-plugin_at d (suc i) (e ∷ es) h = Listed-plugin_at d i es h

  is_registered-append :
      (id : Text) (e : PluginEntry F V) (es : List (PluginEntry F V))
      → is_registered id (es ++ e ∷ []) ≡ (is_registered id es || text_beq e.meta.plugin_id id)
  unfolding is_registered
  is_registered-append id e [] = ground arith
  is_registered-append id e (x ∷ es) = ground (arith, is_registered-append id e es)

  pub DistinctIds-append :
      (e : PluginEntry F V) (es : List (PluginEntry F V))
      → is_registered e.meta.plugin_id es ≡ false
      → DistinctIds es
      → DistinctIds (es ++ e ∷ [])
  unfolding is_registered
  DistinctIds-append e [] new v = (refl, tt)
  DistinctIds-append e (x ∷ es) new v =
      let one = text_beq_iff x.meta.plugin_id e.meta.plugin_id in
      let two = text_beq_iff e.meta.plugin_id x.meta.plugin_id in
      let later : is_registered e.meta.plugin_id es ≡ false = ground arith in
      (
        ground (arith, is_registered-append x.meta.plugin_id e es, one, two),
        DistinctIds-append e es later v.1,
      )

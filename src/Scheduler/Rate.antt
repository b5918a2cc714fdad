-- ===== src/Scheduler/Rate.antt =====
-- The rate arithmetic of `subscribe`, over the operations of `f32` and `f64`.
use lin_sight.Base.{
  ℕ, ◌≤◌, ◌≡◌, Bool, true, false, not, ◌||◌, Option, none, some, arith, if◌then◌else◌, Bool-cases,
  Option-cases, refl, inl, inr, ◌⊎◌, ◌↔◌, ◌≢◌, subst,
}
use lin_sight.Base.Partial.{◌>>=◌, >>=-eq-some}

-- What the code uses of `f32`. `period_of x` is `(1_000_000.0 / x as f64) as u64`.
pub record Floats (F : Type 0) : Type 0 where
  pub lt : F → F → Bool
  pub le : F → F → Bool
  pub is_nan : F → Bool
  pub is_finite : F → Bool
  pub zero_rate : F
  pub min_rate : F
  pub max_rate : F
  pub period_of : F → ℕ

-- What IEEE 754 and the cast to `u64` promise of these, at 0.1 Hz and 20 Hz.
pub record IsIeee {F : Type 0} (f : Floats F) : Type 0 where
  pub nan_le : (x y : F) → f.is_nan y ≡ true → f.le x y ≡ false
  pub nan_lt : (x y : F) → f.is_nan x ≡ true → (f.lt x y ≡ false) × (f.lt y x ≡ false)
  pub nan_finite : (x : F) → f.is_nan x ≡ true → f.is_finite x ≡ false
  pub le_of_not_lt :
      (x y : F) → f.is_nan x ≡ false → f.is_nan y ≡ false → f.lt x y ≡ false → f.le y x ≡ true
  pub le_trans : (x y z : F) → f.le x y ≡ true → f.le y z ≡ true → f.le x z ≡ true
  pub min_nan : f.is_nan f.min_rate ≡ false
  pub max_nan : f.is_nan f.max_rate ≡ false
  pub min_min : f.le f.min_rate f.min_rate ≡ true
  pub max_max : f.le f.max_rate f.max_rate ≡ true
  pub min_max : f.le f.min_rate f.max_rate ≡ true
  pub period_slow : (x : F) → f.le f.min_rate x ≡ true → f.period_of x ≤ 10_000_000
  pub period_fast :
      (x : F) → f.le f.min_rate x ≡ true → f.le x f.max_rate ≡ true → 50_000 ≤ f.period_of x

module _ {F : Type 0} (f : Floats F) where
  -- `f32::clamp`; `none` is its panic, unless `lo ≤ hi`.
  unfoldable pub f32_clamp : F → F → F → Option F
  f32_clamp x lo hi =
      if f.le lo hi then some (if f.lt x lo then lo else if f.lt hi x then hi else x) else none

  -- `f32::min`, which ignores a NaN on one side.
  unfoldable pub f32_min : F → F → F
  f32_min x y = if f.is_nan x then y else if f.lt y x then y else x

  -- `SensorDescriptor::clamped_rate_hz`
  unfoldable pub clamped_rate_hz : F → Option F
  unfolding f32_clamp
  clamped_rate_hz native_rate_hz = f32_clamp native_rate_hz f.min_rate f.max_rate

  unfoldable pub requested_rate : F → Option F → Option F
  unfolding f32_clamp f32_min
  requested_rate native none = some native
  requested_rate native (some r) = do
    clamped ← f32_clamp r f.min_rate native
    some (f32_min native clamped)

  -- The guard against a rate that is not finite or not positive.
  unfoldable pub settle : F → F
  settle effective =
      if not (f.is_finite effective) || f.le effective f.zero_rate then f.min_rate else effective

  -- The rate that `subscribe` settles on; `none` is a panic.
  unfoldable pub effective_rate : F → Option F → Option F
  effective_rate native_rate_hz requested_rate_hz = do
    native ← clamped_rate_hz native_rate_hz
    effective ← requested_rate native requested_rate_hz
    some (settle effective)

  -- `period_micros` of a subscription
  unfoldable pub period_micros : F → Option F → Option ℕ
  period_micros native_rate_hz requested_rate_hz = do
    effective ← effective_rate native_rate_hz requested_rate_hz
    some (f.period_of effective)

module _ {F : Type 0} (f : Floats F) (law : IsIeee f) where
  abbrev InRange : F → Type 0
  InRange x = (f.le f.min_rate x ≡ true) × (f.le x f.max_rate ≡ true)

  -- A clamped number lies in the bounds, or it is the NaN that was clamped.
  f32_clamp_range :
      (x lo hi y : F)
      → f.is_nan lo ≡ false
      → f.is_nan hi ≡ false
      → f.le lo lo ≡ true
      → f.le hi hi ≡ true
      → f32_clamp f x lo hi ≡ some y
      → f.is_nan x ≡ false
      → (f.le lo y ≡ true) × (f.le y hi ≡ true)
  unfolding f32_clamp
  f32_clamp_range x lo hi y a b c d e g =
      ground (arith, law.le_of_not_lt x lo g a, law.le_of_not_lt hi x b g)

  not_nan : (x y : F) → f.le x y ≡ true → f.is_nan y ≡ false
  not_nan x y h = ground (arith, law.nan_le x y)

  f32_clamp_nan :
      (x lo hi : F) → f.is_nan x ≡ true → f.le lo hi ≡ true → f32_clamp f x lo hi ≡ some x
  unfolding f32_clamp
  f32_clamp_nan x lo hi n h = ground (arith, law.nan_lt x lo n, law.nan_lt x hi n)

  -- What `requested_rate` makes of a native rate in the range.
  requested_rate_range :
      (native : F) (requested : Option F) (e : F)
      → InRange native
      → requested_rate f native requested ≡ some e
      → InRange e
  unfolding requested_rate
  requested_rate_range native none e r g = ground arith
  requested_rate_range native (some r) e range g = elim (Bool-cases (f.is_nan r)) [
    | inl nan ↦ ground (
      arith,
      f32_clamp_nan r f.min_rate native nan range.0,
      law.nan_lt r native nan,
      not_nan f.min_rate native range.0,
    )
    | inr real ↦ ground (
      arith,
      law.le_of_not_lt r f.min_rate real law.min_nan,
      law.le_of_not_lt native r (not_nan f.min_rate native range.0) real,
      law.min_min,
      law.le_trans r native f.max_rate,
    )
  ]

  clamped_rate_hz_cases :
      (raw : F) {native : F}
      → clamped_rate_hz f raw ≡ some native
      → ((f.is_nan native ≡ true) × (native ≡ raw)) ⊎ InRange native
  unfolding clamped_rate_hz
  clamped_rate_hz_cases raw {native} h = elim (Bool-cases (f.is_nan raw)) [
    | inl nan ↦ ground (arith, f32_clamp_nan raw f.min_rate f.max_rate nan law.min_max)
    | inr real ↦ inr (
        f32_clamp_range raw f.min_rate f.max_rate native law.min_nan law.max_nan law.min_min
          law.max_max h real)
  ]

  -- A NaN is not a bound to clamp by.
  requested_rate_nan :
      (native : F) (requested : Option F) {e : F}
      → f.is_nan native ≡ true
      → requested_rate f native requested ≡ some e
      → e ≡ native
  unfolding requested_rate
  requested_rate_nan native none n h = ground arith
  requested_rate_nan native (some r) n h = ground (arith, law.nan_le f.min_rate native n)

  -- The guard mends a NaN and keeps a rate in the range in it.
  settle_range : (e : F) → (f.is_nan e ≡ true) ⊎ InRange e → InRange (settle f e)
  unfolding settle
  settle_range e h = ground (arith, law.nan_finite e, law.min_min, law.min_max)

  requested_rate_cases :
      (raw : F) (requested : Option F) {native e : F}
      → clamped_rate_hz f raw ≡ some native
      → requested_rate f native requested ≡ some e
      → (f.is_nan e ≡ true) ⊎ InRange e
  requested_rate_cases raw requested {native} {e} clamped asked =
      elim (clamped_rate_hz_cases raw clamped) [
        | inl (nan, _) ↦ inl (ground (arith, requested_rate_nan native requested nan asked))
        | inr range ↦ inr (requested_rate_range native requested e range asked)
      ]

  effective_rate_range :
      (raw : F) (requested : Option F) {e : F} → effective_rate f raw requested ≡ some e → InRange e
  unfolding effective_rate
  effective_rate_range raw requested {e} h =
      let (native, clamped, rest) = >>=-eq-some (clamped_rate_hz f raw) _ h in
      let (e', asked, settled) = >>=-eq-some (requested_rate f native requested) _ rest in
      let same : settle f e' ≡ e = cc in
      subst InRange same (settle_range e' (requested_rate_cases raw requested clamped asked))

  -- Every subscription that is granted has a period between 50 ms and 10 s, whatever rate the
  -- descriptor and the client name.
  pub period_micros_range :
      (raw : F) (requested : Option F) {p : ℕ}
      → period_micros f raw requested ≡ some p
      → (50_000 ≤ p) × (p ≤ 10_000_000)
  unfolding period_micros
  period_micros_range raw requested h =
      let (e, settled, read) = >>=-eq-some (effective_rate f raw requested) _ h in
      let (low, high) = effective_rate_range raw requested settled in
      ground (arith, law.period_slow e low, law.period_fast e low high)

  -- The two roundings of a NaN, and of a rate in the range, by what the client names.
  clamped_rate_hz_nan : (raw : F) → f.is_nan raw ≡ true → clamped_rate_hz f raw ≡ some raw
  unfolding clamped_rate_hz
  clamped_rate_hz_nan raw nan = f32_clamp_nan raw f.min_rate f.max_rate nan law.min_max

  requested_rate-none :
      (native : F) (requested : Option F)
      → requested_rate f native requested ≡ none
      → (f.le f.min_rate native ≡ false) × (requested ≢ none)
  unfolding requested_rate
  requested_rate-none native none h = cc
  requested_rate-none native (some r) h = ground arith

  requested_rate_panics :
      (native : F) (requested : Option F)
      → f.is_nan native ≡ true
      → requested ≢ none
      → requested_rate f native requested ≡ none
  unfolding requested_rate
  requested_rate_panics native none n h = absurd (h refl)
  requested_rate_panics native (some r) n h = ground (arith, law.nan_le f.min_rate native n)

  clamped_rate_hz_total : (raw : F) → clamped_rate_hz f raw ≢ none
  unfolding clamped_rate_hz
  clamped_rate_hz_total raw h = ground (arith, law.min_max)

  effective_rate-none :
      (raw : F) (requested : Option F) {native : F}
      → clamped_rate_hz f raw ≡ some native
      → effective_rate f raw requested ≡ none
      → (f.is_nan raw ≡ true) × (requested ≢ none)
  unfolding effective_rate
  effective_rate-none raw requested {native} clamped h =
      let stuck : requested_rate f native requested ≡ none = ground arith in
      let (low, named) = requested_rate-none native requested stuck in
      (ground (arith, clamped_rate_hz_cases raw clamped), named)

  -- `subscribe` panics in the rate arithmetic exactly if the descriptor's rate is a NaN and the
  -- client names a rate.
  pub period_micros_panics :
      (raw : F) (requested : Option F)
      → (period_micros f raw requested ≡ none) ↔ ((f.is_nan raw ≡ true) × (requested ≢ none))
  unfolding period_micros effective_rate
  period_micros_panics raw requested = (
    λ h. elim (Option-cases (clamped_rate_hz f raw)) [
      | inl stuck ↦ absurd (clamped_rate_hz_total raw stuck)
      | inr (native, clamped) ↦ effective_rate-none raw requested clamped (ground arith)
    ],
    λ (nan, named). rw (
      clamped_rate_hz_nan raw nan,
      requested_rate_panics raw requested nan named,
      period_micros,
      effective_rate,
    ),
  )

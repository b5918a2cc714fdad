-- ===== src/Plugins/Live.antt =====
-- The life of the instances: what has been registered is initialised once and still there.
use lin_sight.Base.{
  ℕ, ◌+◌, ◌≤◌, ◌<◌, ◌≡◌, ◌≢◌, refl, sym, subst, inl, inr, Bool, true, false, List, [], ◌∷◌, ◌++◌,
  Option, Text, suc, arith, Bool-cases, All,
}
use lin_sight.Base.Keys.{text_eq}
use lin_sight.Core.Hardware.{Checked, ok, err}
use lin_sight.Scheduler.Tick.{PluginError}
use lin_sight.Plugins.{PluginManifest, Instance, PluginEntry, is_registered, add_plugin}
use lin_sight.Plugins.Checks.{Grounded}
use lin_sight.Plugins.Owners.{add_plugin-Grounded, HostOk, add_plugin-HostOk, add_plugin-All}
use lin_sight.Plugins.Loader.{
  Call, inited, shut_down, dropped, unmapped, Loading, drop_library, called, finish_register,
  unexpected, register_inited,
}
use lin_sight.Plugins.Calls.{
  same-le, same-cases, inits, released, inits-append, released-append, Concerns, elsewhere,
}

module _ {F V : Type 0} where
  -- An entry of a library before `a`, whose instance is alive.
  abbrev pub Alive : ℕ → List Call → PluginEntry F V → Type 0
  Alive a cs e = (e.plugin.library < a) × (inits e.plugin cs ≡ 1) × (released e.plugin cs ≡ 0)

  -- The libraries before `a` are done with, and those from `b` on are not begun.
  pub record LoadOk (a b : ℕ) (s : Loading F V) : Type 0 where
    pub host_ok : HostOk s.host
    pub sound : All (λ e. Grounded e.devices e.sensors) s.host.plugins
    pub alive : All (Alive a s.calls) s.host.plugins
    pub once : (p : Instance) → inits p s.calls ≤ 1
    pub later : (p : Instance) → b ≤ p.library → (inits p s.calls ≡ 0) × (released p s.calls ≡ 0)

  abbrev pub Between : ℕ → Loading F V → Type 0
  Between k = LoadOk k k

  abbrev pub Within : ℕ → Loading F V → Type 0
  Within k = LoadOk k (suc k)

  Alive-append :
      (k : ℕ) (xs ys : List Call) (es : List (PluginEntry F V))
      → Concerns k ys
      → All (Alive k xs) es
      → All (Alive k (xs ++ ys)) es
  Alive-append k xs ys [] c h = tt
  Alive-append k xs ys (e ∷ es) c h =
      let apart : e.plugin.library ≢ k =
        λ same_library. absurd (omega (arith, h.0.0, same_library)) in
      let rest = elsewhere k e.plugin ys c apart in
      (
        (
          h.0.0,
          omega (arith, inits-append e.plugin xs ys, h.0.1, rest.0),
          omega (arith, released-append e.plugin xs ys, h.0.2, rest.1),
        ),
        Alive-append k xs ys es c h.1,
      )

  Alive-later :
      (a b : ℕ) (cs : List Call) (es : List (PluginEntry F V))
      → a ≤ b
      → All (Alive a cs) es
      → All (Alive b cs) es
  Alive-later a b cs [] le h = tt
  Alive-later a b cs (e ∷ es) le h =
      ((omega (arith, h.0.0, le), h.0.1, h.0.2), Alive-later a b cs es le h.1)

  pub begun : (k : ℕ) (s : Loading F V) → Between k s → Within k s
  begun k s v = record {
    host_ok = v.host_ok;
    sound = v.sound;
    alive = v.alive;
    once = v.once;
    later = λ p h. v.later p (omega (arith, h));
  }

  pub done : (k : ℕ) (s : Loading F V) → Within k s → Between (suc k) s
  done k s v = record {
    host_ok = v.host_ok;
    sound = v.sound;
    alive = Alive-later k (suc k) s.calls s.host.plugins (omega arith) v.alive;
    once = v.once;
    later = v.later;
  }

  called-Within :
      (k : ℕ) (cs : List Call) (s : Loading F V)
      → Within k s
      → Concerns k cs
      → ((p : Instance) → inits p s.calls + inits p cs ≤ 1)
      → Within k (called cs s)
  called-Within k cs s v c few = record {
    host_ok = v.host_ok;
    sound = v.sound;
    alive = Alive-append k s.calls cs s.host.plugins c v.alive;
    once = λ p. omega (arith, inits-append p s.calls cs, few p);
    later = λ p h.
        let apart : p.library ≢ k = λ same_library. absurd (omega (arith, h, same_library)) in
        let rest = elsewhere k p cs c apart in
        let before = v.later p h in
        (
          omega (arith, inits-append p s.calls cs, rest.0, before.0),
          omega (arith, released-append p s.calls cs, rest.1, before.1),
        );
  }

  -- An instance of the library at hand that was initialised, and is there.
  abbrev pub Ready : ℕ → Instance → Loading F V → Type 0
  Ready k p s = (p.library ≡ k) × (inits p s.calls ≡ 1) × (released p s.calls ≡ 0)

  register-Between :
      (k : ℕ) (p : Instance) (mapped : Bool) (m : PluginManifest F V) (s : Loading F V)
      → Within k s
      → Ready k p s
      → Grounded m.devices m.sensors
      → is_registered m.plugin_id s.host.plugins ≡ false
      → Between (suc k) (record s { host = add_plugin p mapped m s.host })
  register-Between k p mapped m s v r g new = record {
    host_ok = add_plugin-HostOk p mapped m s.host v.host_ok new;
    sound = add_plugin-Grounded p mapped m s.host v.sound g;
    alive =
        add_plugin-All (Alive (suc k) s.calls) p mapped m s.host
          (Alive-later k (suc k) s.calls s.host.plugins (omega arith) v.alive)
          (λ e is_p.
            subst (λ q. (q.library < suc k) × (inits q s.calls ≡ 1) × (released q s.calls ≡ 0))
              (sym is_p) (omega (arith, r.0), r.1, r.2));
    once = v.once;
    later = v.later;
  }

  -- An instance that is let go.
  pub drops-Within :
      (k : ℕ) (cs : List Call) (s : Loading F V)
      → Within k s
      → Concerns k cs
      → ((p : Instance) → inits p cs ≡ 0)
      → Within k (called cs s)
  drops-Within k cs s v c none_there =
      called-Within k cs s v c (λ p. omega (arith, v.once p, none_there p))

  let_go-Within :
      (k : ℕ) (p : Instance) (mapped : Bool) (s : Loading F V)
      → Within k s
      → p.library ≡ k
      → Within k (called (shut_down p ∷ dropped p ∷ drop_library p mapped) s)
  unfolding drop_library
  let_go-Within k p true s v at_k =
      drops-Within k (shut_down p ∷ dropped p ∷ unmapped p.library ∷ []) s v
        (at_k, (at_k, (at_k, tt))) (λ q. refl)
  let_go-Within k p false s v at_k =
      drops-Within k (shut_down p ∷ dropped p ∷ []) s v (at_k, (at_k, tt)) (λ q. refl)

  unloaded-Within :
      (k : ℕ) (p : Instance) (mapped : Bool) (s : Loading F V)
      → Within k s
      → p.library ≡ k
      → Within k (called (drop_library p mapped ++ dropped p ∷ []) s)
  unfolding drop_library
  unloaded-Within k p true s v at_k =
      drops-Within k (unmapped p.library ∷ dropped p ∷ []) s v (at_k, (at_k, tt)) (λ q. refl)
  unloaded-Within k p false s v at_k = drops-Within k (dropped p ∷ []) s v (at_k, tt) (λ q. refl)

  pub finish_register-Between :
      (k : ℕ) (p : Instance) (mapped : Bool) (m : PluginManifest F V) (s : Loading F V)
      → Within k s
      → Ready k p s
      → Grounded m.devices m.sensors
      → Between (suc k) (finish_register p mapped m s)
  unfolding finish_register
  finish_register-Between k p mapped m s v r g =
      elim (Bool-cases (is_registered m.plugin_id s.host.plugins)) [
        | inl taken ↦ rw (taken, finish_register) (done k _ (let_go-Within k p mapped s v r.0))
        | inr new ↦ rw (new, finish_register) (register-Between k p mapped m s v r g new)
      ]

  pub register_inited-Between :
      (k : ℕ) (p : Instance) (mapped : Bool) (expected : Option Text)
      (c : Checked PluginError (PluginManifest F V)) (s : Loading F V)
      → Within k s
      → Ready k p s
      → ((m : PluginManifest F V) → c ≡ ok m → Grounded m.devices m.sensors)
      → Between (suc k) (register_inited p mapped expected c s)
  unfolding register_inited
  register_inited-Between k p mapped expected (err e) s v r g =
      done k _ (unloaded-Within k p mapped s v r.0)
  register_inited-Between k p mapped expected (ok m) s v r g =
      elim (Bool-cases (unexpected expected m)) [
        | inl differs ↦ rw (differs, register_inited) (done k _ (let_go-Within k p mapped s v r.0))
        | inr agrees ↦
            rw (agrees, register_inited) (finish_register-Between k p mapped m s v r (g m refl))
      ]

  -- The call of `init` on an instance that had none.
  pub init-Within :
      (k : ℕ) (p : Instance) (s : Loading F V)
      → Within k s
      → p.library ≡ k
      → inits p s.calls ≡ 0
      → Within k (called (inited p ∷ []) s)
  init-Within k p s v at_k first =
      called-Within k (inited p ∷ []) s v (at_k, tt)
        (λ q. elim (same-cases q p) [
          | inl same_one ↦
              let q_first : inits q s.calls ≡ 0 =
                subst (λ r. inits r s.calls ≡ 0) (sym same_one) first in
              omega (arith, q_first, same-le q p)
          | inr other ↦ omega (arith, v.once q, other)
        ])

  pub init-Ready :
      (k : ℕ) (p : Instance) (s : Loading F V)
      → p.library ≡ k
      → inits p s.calls ≡ 0
      → released p s.calls ≡ 0
      → Ready k p (called (inited p ∷ []) s)
  init-Ready k p s at_k first kept = (
    at_k,
    ground (arith, inits-append p s.calls (inited p ∷ [])),
    omega (arith, kept, released-append p s.calls (inited p ∷ [])),
  )

  -- An instance of the library at hand that had no call.
  abbrev pub Untouched : ℕ → Instance → Loading F V → Type 0
  Untouched k p s = (p.library ≡ k) × (inits p s.calls ≡ 0) × (released p s.calls ≡ 0)

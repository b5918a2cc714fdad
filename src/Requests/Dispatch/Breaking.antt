-- ===== src/Requests/Dispatch/Breaking.antt =====
-- The requests that end in a panic: those that have a duration parsed that `Duration` cannot hold.
use lin_sight.Base.{
  ◌≡◌, refl, ap, sym, ◌∙◌, subst, Bool, true, false, List, [], ◌∷◌, ◌++◌, Option, none, some, Text,
  codes, arith, Bool-cases, Option-cases, inl, inr, ◌⊎◌,
}
use lin_sight.Core.Chars.{trim}
use lin_sight.Core.Hardware.{ok, err, Checked-cases}
use lin_sight.Messages.{RequestOp, upsert_alert, set_daemon_settings}
use lin_sight.Requests.{Env, Shared, RuleConfig, Fault, says, panics}
use lin_sight.Requests.Configs.{
  split_number, in_seconds, from_secs_f64, parse_duration, opt_parse_duration, in_context,
  compile_rule, compile_rules, load_rules,
}
use lin_sight.Requests.Rules.{durations}
use lin_sight.Requests.Settings.{
  toggle_history, toggle_alerts, switched, error_list, prom_errors, change_settings, spoken,
}

spoken-append :
    (xs ys : List Fault) → spoken (xs ++ ys) ≡ none → (spoken xs ≡ none) ⊎ (spoken ys ≡ none)
unfolding spoken
spoken-append [] ys h = inr h
spoken-append (panics ∷ xs) ys h = inl refl
spoken-append (says e ∷ xs) ys h = ground (arith, h, spoken-append xs ys)

spoken-prom_errors : (prom : Option Bool) → spoken (prom_errors prom) ≡ none → ⊥
unfolding spoken prom_errors
spoken-prom_errors none h = ground (arith, h)
spoken-prom_errors (some true) h = ground (arith, h)
spoken-prom_errors (some false) h = ground (arith, h)

module _ {F V W : Type 0} (env : Env F V W) where
  -- A duration that is a number and a unit, on whose seconds `from_secs_f64` panics.
  abbrev pub Overlong : Option Text → Type 0
  Overlong o =
      (t : Text) × (o ≡ some t)
      × (n : V) × (env.f64.parse (split_number (trim t)).0 ≡ some n)
      × (secs : V) × (in_seconds env.f64 n (split_number (trim t)).1 ≡ some secs)
      × (env.f64.from_secs secs ≡ none)

  abbrev AnyOverlong : List RuleConfig → Type 0
  AnyOverlong [] = ⊥
  AnyOverlong (x ∷ xs) = (Overlong x.for_duration ⊎ Overlong x.cooldown) ⊎ AnyOverlong xs

  -- The requests that break off in a panic.
  pub data Breaks : RequestOp → Type 0 where
    in_request :
        (name expr : Text) (for_duration cooldown : Option Text) (notify : List Text)
        (enabled : Option Bool)
        → Overlong for_duration ⊎ Overlong cooldown
        → Breaks (upsert_alert name expr for_duration cooldown notify enabled)
    in_file :
        (history prom : Option Bool) (prom_bind : Option Text) (rules : List RuleConfig)
        → env.read_rules env.alerts_path ≡ ok rules
        → AnyOverlong rules
        → Breaks (set_daemon_settings history (some true) prom prom_bind)

  parse_duration-panics : (t : Text) → parse_duration env.f64 t ≡ err panics → Overlong (some t)
  unfolding parse_duration from_secs_f64
  parse_duration-panics t h =
      let num = (split_number (trim t)).0 in
      let unit = (split_number (trim t)).1 in
      elim (Option-cases (env.f64.parse num)) [
        | inl bad ↦ absurd (ground (arith, simp (parse_duration, bad) at h))
        | inr (n, number) ↦ elim (Option-cases (in_seconds env.f64 n unit)) [
          | inl bad ↦ absurd (ground (arith, simp (parse_duration, number, bad) at h))
          | inr (secs, good) ↦ elim (Option-cases (env.f64.from_secs secs)) [
            | inl broken ↦ (t, refl, n, number, secs, good, broken)
            | inr (d, fits) ↦
                absurd
                  (ground (arith, simp (parse_duration, number, good, from_secs_f64, fits) at h))
          ]
        ]
      ]

  opt_parse_duration-panics : (o : Option Text) → opt_parse_duration env o ≡ err panics → Overlong o
  unfolding opt_parse_duration
  opt_parse_duration-panics none h = absurd (ground (arith, h))
  opt_parse_duration-panics (some []) h = absurd (ground (arith, h))
  opt_parse_duration-panics (some (c ∷ cs)) h = parse_duration-panics (c ∷ cs) h

  pub durations-panics :
      (for_duration cooldown : Option Text)
      → durations env for_duration cooldown ≡ err panics
      → Overlong for_duration ⊎ Overlong cooldown
  unfolding durations
  durations-panics for_duration cooldown h =
      elim (Checked-cases (opt_parse_duration env for_duration)) [
        | inr (e, bad) ↦
            let it : e ≡ panics = ground (arith, simp (durations, bad) at h) in
            inl (opt_parse_duration-panics for_duration (bad ∙ ap err it))
        | inl (f, good) ↦ elim (Checked-cases (opt_parse_duration env cooldown)) [
          | inr (e, bad) ↦
              let it : e ≡ panics = ground (arith, simp (durations, good, bad) at h) in
              inr (opt_parse_duration-panics cooldown (bad ∙ ap err it))
          | inl (d, fine) ↦ absurd (ground (arith, simp (durations, good, fine) at h))
        ]
      ]

  in_context-panics : (t : Text) (e : Fault) → in_context t e ≡ panics → e ≡ panics
  unfolding in_context
  in_context-panics t (says x) h = absurd (ground (arith, h))
  in_context-panics t panics h = refl

  compile_rule-panics :
      (x : RuleConfig)
      → compile_rule env x ≡ err panics
      → Overlong x.for_duration ⊎ Overlong x.cooldown
  unfolding compile_rule
  compile_rule-panics x h = elim (Checked-cases (opt_parse_duration env x.for_duration)) [
    | inr (e, bad) ↦
        let it : in_context (codes "rule " ++ x.name ++ codes ": bad `for`") e ≡ panics =
          ground (arith, simp (compile_rule, bad) at h) in
        inl (opt_parse_duration-panics x.for_duration (bad ∙ ap err (in_context-panics _ e it)))
    | inl (f, good) ↦ elim (Checked-cases (opt_parse_duration env x.cooldown)) [
      | inr (e, bad) ↦
          let it : in_context (codes "rule " ++ x.name ++ codes ": bad `cooldown`") e ≡ panics =
            ground (arith, simp (compile_rule, good, bad) at h) in
          inr (opt_parse_duration-panics x.cooldown (bad ∙ ap err (in_context-panics _ e it)))
      | inl (d, fine) ↦ absurd (ground (arith, simp (compile_rule, good, fine) at h))
    ]
  ]

  compile_rules-panics : (xs : List RuleConfig) → compile_rules env xs ≡ err panics → AnyOverlong xs
  unfolding compile_rules
  compile_rules-panics [] h = absurd (ground (arith, h))
  compile_rules-panics (x ∷ xs) h = elim (Checked-cases (compile_rule env x)) [
    | inr (e, bad) ↦
        let it : e ≡ panics = ground (arith, simp (compile_rules, bad) at h) in
        inl (compile_rule-panics x (bad ∙ ap err it))
    | inl (r, good) ↦ elim (Checked-cases (compile_rules env xs)) [
      | inr (e, bad) ↦
          let it : e ≡ panics = ground (arith, simp (compile_rules, good, bad) at h) in
          inr (compile_rules-panics xs (bad ∙ ap err it))
      | inl (rs, fine) ↦ absurd (ground (arith, simp (compile_rules, good, fine) at h))
    ]
  ]

  load_rules-panics :
      (path : Text)
      → load_rules env path ≡ err panics
      → (rules : List RuleConfig) × (env.read_rules path ≡ ok rules) × AnyOverlong rules
  unfolding load_rules
  load_rules-panics path h = elim (Checked-cases (env.read_rules path)) [
    | inr (e, bad) ↦ absurd (ground (arith, simp (load_rules, bad) at h))
    | inl (rules, good) ↦ (rules, good, compile_rules-panics rules (simp (load_rules, good) at h))
  ]

  toggle_history-says :
      (s : Shared F V) (b : Bool) → spoken (error_list (toggle_history env s b).1) ≡ none → ⊥
  unfolding toggle_history spoken error_list
  toggle_history-says s false h = ground (arith, h)
  toggle_history-says s true h = elim (Bool-cases (s.scheduler.history)) [
    | inl on ↦ ground (arith, simp (toggle_history, on) at h)
    | inr off ↦ elim (Option-cases (env.spawn_history env.history_path)) [
      | inl spawned ↦ ground (arith, simp (toggle_history, off, spawned) at h)
      | inr (e, failure) ↦ ground (arith, simp (toggle_history, off, failure) at h)
    ]
  ]

  toggle_alerts-panics :
      (s : Shared F V) (b : Bool)
      → spoken (error_list (toggle_alerts env s b).1) ≡ none
      → (b ≡ true) × (load_rules env env.alerts_path ≡ err panics)
  unfolding toggle_alerts spoken error_list
  toggle_alerts-panics s false h = absurd (ground (arith, h))
  toggle_alerts-panics s true h = elim (Bool-cases (s.scheduler.alerts)) [
    | inl on ↦ absurd (ground (arith, simp (toggle_alerts, on) at h))
    | inr off ↦ elim (Checked-cases (load_rules env env.alerts_path)) [
      | inl (rules, good) ↦ absurd (ground (arith, simp (toggle_alerts, off, good) at h))
      | inr (panics, bad) ↦ (refl, bad)
      | inr (says e, bad) ↦ absurd (ground (arith, simp (toggle_alerts, off, bad) at h))
    ]
  ]

  switched_alerts-panics :
      (alerts : Option Bool) (x : Shared F V × List Fault)
      → spoken (switched (toggle_alerts env) alerts x).1 ≡ none
      → (spoken x.1 ≡ none) ⊎ ((alerts ≡ some true) × (load_rules env env.alerts_path ≡ err panics))
  unfolding switched
  switched_alerts-panics none x h = inl h
  switched_alerts-panics (some b) x h =
      elim (spoken-append x.1 (error_list (toggle_alerts env x.0 b).1) h) [
        | inl before ↦ inl before
        | inr now ↦ let (on, broken) = toggle_alerts-panics x.0 b now in inr (ap some on, broken)
      ]

  switched_history-says :
      (history : Option Bool) (s : Shared F V)
      → spoken (switched (toggle_history env) history (s, [])).1 ≡ none
      → ⊥
  unfolding switched spoken
  switched_history-says none s h = ground (arith, h)
  switched_history-says (some b) s h = toggle_history-says s b h

  pub change_settings-Breaks :
      (s : Shared F V) (history alerts prom : Option Bool) (prom_bind : Option Text)
      → spoken (change_settings env s history alerts prom).1 ≡ none
      → Breaks (set_daemon_settings history alerts prom prom_bind)
  unfolding change_settings
  change_settings-Breaks s history alerts prom prom_bind h =
      let before = switched (toggle_history env) history (s, []) in
      elim (spoken-append (switched (toggle_alerts env) alerts before).1 (prom_errors prom) h) [
        | inr late ↦ absurd (spoken-prom_errors prom late)
        | inl early ↦ elim (switched_alerts-panics alerts before early) [
          | inl first ↦ absurd (switched_history-says history s first)
          | inr (on, broken) ↦
              let (rules, read, long) = load_rules-panics env.alerts_path broken in
              subst (λ a. Breaks (set_daemon_settings history a prom prom_bind)) (sym on)
                (in_file history prom prom_bind rules read long)
        ]
      ]

-- ===== src/Dashboards/Renames.antt =====
-- A renamed dashboard moves to a file that was free, with what it holds, and no other file changes.
use lin_sight.Base.{
  ◌≡◌, ◌≢◌, refl, ap, sym, ◌∙◌, subst, false, none, some, Text, arith, Bool-cases, Option-cases,
  inl, inr, ◌⊎◌,
}
use lin_sight.Base.Keys.{text_eq, text_beq}
use lin_sight.Base.Dict.{lookup, insert, has_key, lookup-has_key}
use lin_sight.Core.Hardware.{ok, err}
use lin_sight.Dashboards.{is_valid_slug, derive_slug}
use lin_sight.Dashboards.Files.{
  DashboardFile, Disk, DashboardError, invalid_slug, io, Io, Outcome, read_one, remove_file,
  write_one, write_fresh, renamed, answering, remove_old, rename_found, rename_dashboard_file,
}
use lin_sight.Dashboards.Named.{
  WellNamed, OnlyLeftovers, insert-SameBut, remove-SameBut, lookup-insert_self,
}
use lin_sight.Dashboards.Fresh.{Fresh, write_fresh-Fresh}

module _ {J : Type 0} where
  read_one-lookup :
      (slug : Text) (disk : Disk J) {d : DashboardFile J}
      → read_one slug disk ≡ some d
      → lookup slug disk ≡ some (some d)
  unfolding read_one
  read_one-lookup slug disk {d} h = elim (Option-cases (lookup slug disk)) [
    | inl absent ↦ absurd (ground (arith, absent))
    | inr (content, there) ↦ there ∙ ap some (sym (simp (read_one, there) refl) ∙ h)
  ]

module _ {J : Type 0} (env : Io J) where
  -- The outcome of a rename of the dashboard `d` in the file of a slug.
  abbrev pub Renamed : Text → Text → DashboardFile J → Disk J → Outcome J Text → Type 0
  Renamed slug name d disk o =
      ((new : Text) × (o.1 ≡ ok new)
        × ((new ≡ slug) ⊎ (has_key new disk ≡ false))
        × (lookup new o.0 ≡ some (some (renamed env name d new)))
        × ((other : Text) → other ≢ slug → other ≢ new → lookup other o.0 ≡ lookup other disk))
      ⊎ ((e : DashboardError) × (o.1 ≡ err e) × OnlyLeftovers (renamed env name d) disk o.0)

  same_file-Renamed :
      (slug name : Text) (d : DashboardFile J) (disk : Disk J)
      → d.slug ≡ slug
      → Renamed slug name d disk
          (answering env slug (write_one env (record d { name = name; updated_at = env.now }) disk))
  unfolding write_one
  same_file-Renamed slug name d disk named = elim (Bool-cases (is_valid_slug d.slug)) [
    | inr bad ↦ simp (write_one, bad) (inr (invalid_slug, refl, λ other. inl refl))
    | inl valid ↦
        elim (Bool-cases (env.replaces (record d { name = name; updated_at = env.now }))) [
          | inr failed ↦ simp (write_one, valid, failed) (inr (io, refl, λ other. inl refl))
          | inl written ↦
              simp (write_one, valid, written)
                (inl (
                  slug,
                  refl,
                  inl refl,
                  subst
                      (λ k.
                        lookup k (
                          insert d.slug (some (record d { name = name; updated_at = env.now }))
                            disk)
                        ≡ some (some (renamed env name d k)))
                      named
                      (lookup-insert_self d.slug
                        (some (record d { name = name; updated_at = env.now })) disk),
                  λ other apart away.
                      insert-SameBut d.slug (some (record d { name = name; updated_at = env.now }))
                        disk other (λ e. apart (e ∙ named)),
                ))
        ]
  ]

  moved-Renamed :
      (slug name : Text) (d : DashboardFile J) (disk : Disk J) (o : Outcome J Text)
      → lookup slug disk ≡ some (some d)
      → Fresh env (renamed env name d) disk o
      → Renamed slug name d disk (remove_old env slug o)
  unfolding remove_old remove_file
  moved-Renamed slug name d disk (disk', ok s) found (inl (new, r, valid, free, here, rest)) =
      let apart : new ≢ slug = λ e.
        let absent = subst (λ k. lookup k disk ≡ none) e (lookup-has_key new disk free) in
        let clash : none ≡ some (some d) = sym absent ∙ found in absurd (ground (arith, clash)) in
      elim (Bool-cases (env.removes slug)) [
        | inl gone ↦
            simp (remove_file, gone)
              (inl (
                new,
                r,
                inr free,
                remove-SameBut slug disk' new apart ∙ here,
                λ other old fresh. remove-SameBut slug disk' other old ∙ rest other fresh,
              ))
        | inr kept ↦
            simp (remove_file, kept)
              (inl (new, r, inr free, here, λ other old fresh. rest other fresh))
      ]
  moved-Renamed slug name d disk (disk', err e) found (inl (new, r, valid, free, here, rest)) =
      absurd (ground (arith, r))
  moved-Renamed slug name d disk (disk', ok s) found (inr (e, r, rest)) = absurd (ground (arith, r))
  moved-Renamed slug name d disk (disk', err e') found (inr (e, r, rest)) = inr (e, r, rest)

  -- A rename of a dashboard gives it the new name, with all else it holds, under its own slug or one
  -- whose file was free, and no third file changes; or it fails, and no file changes, but that a new
  -- one may be left, which is the renamed dashboard or cannot be read.
  pub rename-Renamed :
      (slug name : Text) (disk : Disk J) {d : DashboardFile J}
      → WellNamed disk
      → read_one slug disk ≡ some d
      → Renamed slug name d disk (rename_dashboard_file env slug name disk)
  unfolding rename_dashboard_file rename_found
  rename-Renamed slug name disk {d} v read =
      let found = read_one-lookup slug disk {d = d} read in
      let (named, valid) = v slug d found in
      elim (Bool-cases (text_beq (derive_slug env.hash name) slug)) [
        | inl stays ↦
            simp (rename_dashboard_file, valid, read, rename_found, stays)
              (same_file-Renamed slug name d disk named)
        | inr moves ↦
            simp (rename_dashboard_file, valid, read, rename_found, moves)
              (moved-Renamed slug name d disk
                (write_fresh env (derive_slug env.hash name) (renamed env name d) disk) found
                (write_fresh-Fresh env (derive_slug env.hash name) (renamed env name d) disk
                  (λ s. refl)))
      ]

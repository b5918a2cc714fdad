-- ===== src/Dashboards/Commands.antt =====
-- The operations of the user keep each dashboard in the file of its slug.
use lin_sight.Base.{
  ◌≡◌, refl, ap, sym, ◌&&◌, List, [], ◌∷◌, ◌++◌, codes, Option, none, some, Text, arith, Bool-cases,
  Option-cases, inl, inr,
}
use lin_sight.Base.Keys.{text_eq, text_beq}
use lin_sight.Base.Dict.{has_key}
use lin_sight.Core.Hardware.{ok, err}
use lin_sight.Dashboards.{is_valid_slug, derive_slug}
use lin_sight.Dashboards.Files.{
  any_bad, DashboardTile, DashboardFile, Disk, Io, Outcome, read_one, remove_file, write_one,
  write_fresh, blank, renamed, answering, remove_old, rename_found, rename_dashboard_file,
  duplicate_dashboard_file, create, remove_dashboard, save_layout, import_dashboard,
}
use lin_sight.Dashboards.Named.{WellNamed, insert-WellNamed, remove-WellNamed}
use lin_sight.Dashboards.Fresh.{write_fresh-Fresh, Fresh-WellNamed}

-- What the user does.
pub data Command (J : Type 0) : Type 0 where
  creates : Text → Command J
  renames : Text → Text → Command J
  duplicates : Text → Command J
  removes : Text → Command J
  saves : Text → Option (List (DashboardTile J)) → Command J
  imports : Option (Text × List (DashboardTile J)) → Command J

module _ {J : Type 0} (env : Io J) where
  abbrev pub run : Command J → Disk J → Disk J
  run (creates name) disk = (create env name disk).0
  run (renames slug name) disk = (rename_dashboard_file env slug name disk).0
  run (duplicates slug) disk = (duplicate_dashboard_file env slug disk).0
  run (removes slug) disk = (remove_dashboard env slug disk).0
  run (saves slug layout) disk = (save_layout env slug layout disk).0
  run (imports file) disk = (import_dashboard env file disk).0

  write_one-WellNamed :
      (d : DashboardFile J) (disk : Disk J) → WellNamed disk → WellNamed (write_one env d disk).0
  unfolding write_one
  write_one-WellNamed d disk v = elim (Bool-cases (is_valid_slug d.slug)) [
    | inr bad ↦ simp (write_one, bad) v
    | inl valid ↦ elim (Bool-cases (env.replaces d)) [
      | inr failed ↦ simp (write_one, valid, failed) v
      | inl written ↦
          simp (write_one, valid, written)
            (insert-WellNamed d.slug (some d) disk v (λ x same.
              let it : d ≡ x = ground (arith, same) in
              (ap (λ (y : DashboardFile J). y.slug) (sym it), valid)))
    ]
  ]

  fresh-WellNamed :
      (base : Text) (make : Text → DashboardFile J) (disk : Disk J)
      → ((slug : Text) → (make slug).slug ≡ slug)
      → WellNamed disk
      → WellNamed (write_fresh env base make disk).0
  fresh-WellNamed base make disk named v =
      Fresh-WellNamed env make disk (write_fresh env base make disk) named v
        (write_fresh-Fresh env base make disk named)

  remove_old-WellNamed :
      (slug : Text) (o : Outcome J Text) → WellNamed o.0 → WellNamed (remove_old env slug o).0
  unfolding remove_old remove_file
  remove_old-WellNamed slug (disk, err e) v = v
  remove_old-WellNamed slug (disk, ok s) v = elim (Bool-cases (env.removes slug)) [
    | inl removed ↦ simp (remove_old, remove_file, removed) (remove-WellNamed slug disk v)
    | inr kept ↦ simp (remove_old, remove_file, kept) v
  ]

  answering-WellNamed :
      (slug : Text) (o : Outcome J Text) → WellNamed o.0 → WellNamed (answering env slug o).0
  answering-WellNamed slug (disk, err e) v = v
  answering-WellNamed slug (disk, ok s) v = v

  rename_found-WellNamed :
      (slug name : Text) (d : DashboardFile J) (disk : Disk J)
      → WellNamed disk
      → WellNamed (rename_found env slug name d disk).0
  unfolding rename_found
  rename_found-WellNamed slug name d disk v =
      elim (Bool-cases (text_beq (derive_slug env.hash name) slug)) [
        | inr moves ↦
            simp (rename_found, moves)
              (remove_old-WellNamed slug
                (write_fresh env (derive_slug env.hash name) (renamed env name d) disk)
                (fresh-WellNamed (derive_slug env.hash name) (renamed env name d) disk (λ s. refl)
                  v))
        | inl stays ↦
            simp (rename_found, stays)
              (answering-WellNamed slug
                (write_one env (record d { name = name; updated_at = env.now }) disk)
                (write_one-WellNamed (record d { name = name; updated_at = env.now }) disk v))
      ]

  rename-WellNamed :
      (slug name : Text) (disk : Disk J)
      → WellNamed disk
      → WellNamed (rename_dashboard_file env slug name disk).0
  unfolding rename_dashboard_file
  rename-WellNamed slug name disk v = elim (Bool-cases (is_valid_slug slug)) [
    | inr bad ↦ simp (rename_dashboard_file, bad) v
    | inl valid ↦ elim (Option-cases (read_one slug disk)) [
      | inl absent ↦ simp (rename_dashboard_file, valid, absent) v
      | inr (d, found) ↦
          simp (rename_dashboard_file, valid, found) (rename_found-WellNamed slug name d disk v)
    ]
  ]

  duplicate-WellNamed :
      (slug : Text) (disk : Disk J)
      → WellNamed disk
      → WellNamed (duplicate_dashboard_file env slug disk).0
  unfolding duplicate_dashboard_file
  duplicate-WellNamed slug disk v = elim (Bool-cases (is_valid_slug slug)) [
    | inr bad ↦ simp (duplicate_dashboard_file, bad) v
    | inl valid ↦ elim (Option-cases (read_one slug disk)) [
      | inl absent ↦ simp (duplicate_dashboard_file, valid, absent) v
      | inr (d, found) ↦
          let name = d.name ++ codes " (copy)" in
          simp (duplicate_dashboard_file, valid, found)
            (fresh-WellNamed (derive_slug env.hash name) (blank env name d.layout) disk (λ s. refl)
              v)
    ]
  ]

  remove_dashboard-WellNamed :
      (slug : Text) (disk : Disk J) → WellNamed disk → WellNamed (remove_dashboard env slug disk).0
  unfolding remove_dashboard
  remove_dashboard-WellNamed slug disk v =
      elim (Bool-cases (is_valid_slug slug && has_key slug disk && env.removes slug)) [
        | inl gone ↦ simp (remove_dashboard, gone) (remove-WellNamed slug disk v)
        | inr kept ↦ simp (remove_dashboard, kept) v
      ]

  save_layout-WellNamed :
      (slug : Text) (parsed : Option (List (DashboardTile J))) (disk : Disk J)
      → WellNamed disk
      → WellNamed (save_layout env slug parsed disk).0
  unfolding save_layout
  save_layout-WellNamed slug parsed disk v = elim (Bool-cases (is_valid_slug slug)) [
    | inr bad ↦ simp (save_layout, bad) v
    | inl valid ↦ elim (Option-cases (read_one slug disk)) [
      | inl absent ↦ simp (save_layout, valid, absent) v
      | inr (d, found) ↦ elim (Option-cases parsed) [
        | inl garbage ↦ simp (save_layout, valid, found, garbage) v
        | inr (layout, given) ↦ elim (Bool-cases (any_bad layout)) [
          | inl bad ↦ simp (save_layout, valid, found, given, bad) v
          | inr fine ↦
              simp (save_layout, valid, found, given, fine)
                (write_one-WellNamed (record d { layout = layout; updated_at = env.now }) disk v)
        ]
      ]
    ]
  ]

  import-WellNamed :
      (name : Text) (layout : List (DashboardTile J)) (disk : Disk J)
      → WellNamed disk
      → WellNamed (import_dashboard env (some (name, layout)) disk).0
  unfolding import_dashboard
  import-WellNamed [] layout disk v = v
  import-WellNamed (c ∷ cs) layout disk v = elim (Bool-cases (any_bad layout)) [
    | inl bad ↦ simp (import_dashboard, bad) v
    | inr fine ↦
        simp (import_dashboard, fine)
          (fresh-WellNamed (derive_slug env.hash (c ∷ cs)) (blank env (c ∷ cs) layout) disk
            (λ s. refl) v)
  ]

  run-WellNamed : (c : Command J) (disk : Disk J) → WellNamed disk → WellNamed (run c disk)
  unfolding create import_dashboard
  run-WellNamed (creates name) disk v =
      fresh-WellNamed (derive_slug env.hash name) (blank env name []) disk (λ s. refl) v
  run-WellNamed (renames slug name) disk v = rename-WellNamed slug name disk v
  run-WellNamed (duplicates slug) disk v = duplicate-WellNamed slug disk v
  run-WellNamed (removes slug) disk v = remove_dashboard-WellNamed slug disk v
  run-WellNamed (saves slug layout) disk v = save_layout-WellNamed slug layout disk v
  run-WellNamed (imports none) disk v = v
  run-WellNamed (imports (some (name, layout))) disk v = import-WellNamed name layout disk v

  abbrev pub run_all : List (Command J) → Disk J → Disk J
  run_all [] disk = disk
  run_all (c ∷ cs) disk = run_all cs (run c disk)

  -- Whatever the user does with the dashboards, and whichever calls of the file system fail, every
  -- dashboard that can be read stays in the file that its own slug names, and the slug is valid.
  pub run_all-WellNamed :
      (cs : List (Command J)) (disk : Disk J) → WellNamed disk → WellNamed (run_all cs disk)
  run_all-WellNamed [] disk v = v
  run_all-WellNamed (c ∷ cs) disk v = run_all-WellNamed cs (run c disk) (run-WellNamed c disk v)

-- ===== src/Dashboards/Files.antt =====
-- apps/linsight-gui/src/qobjects/dashboards_model.rs: the operations on the files of the dashboards. What the
-- file system refuses is a parameter; other processes leave the directory alone.
use lin_sight.Base.{
  ℕ, ◌+◌, Bool, true, false, not, ◌&&◌, ◌||◌, List, [], ◌∷◌, ◌++◌, Option, none, some, Text, codes,
  ◌==◌, if◌then◌else◌, zero, suc,
}
use lin_sight.Base.Int.{ℤ, is_negative, is_non_positive}
use lin_sight.Base.Keys.{text_eq, text_beq}
use lin_sight.Base.Dict.{Dict, lookup, insert, remove, has_key}
use lin_sight.Base.Sorting.{sort_by}
use lin_sight.Core.Order.{text_leb}
use lin_sight.Core.Numbers.{decimal}
use lin_sight.Core.Hardware.{Checked, ok, err}
use lin_sight.Dashboards.{is_valid_slug, derive_slug}

pub record DashboardTile (J : Type 0) : Type 0 where
  pub id : Text
  pub x : ℤ
  pub y : ℤ
  pub w : ℤ
  pub h : ℤ
  pub options : J

pub record DashboardFile (J : Type 0) : Type 0 where
  pub schema_version : ℕ
  pub name : Text
  pub slug : Text
  pub layout : List (DashboardTile J)
  pub created_at : Text
  pub updated_at : Text

-- The files by their slugs; `none` is the content of one that cannot be read as a dashboard.
abbrev pub Disk : Type 0 → Type 0
Disk J = Dict Text (Option (DashboardFile J))

pub data DashboardError : Type 0 where
  invalid_slug : DashboardError
  not_found : DashboardError
  too_many : DashboardError
  slug_mismatch : DashboardError
  invalid_layout : DashboardError
  io : DashboardError

-- The clock, the hasher and the calls of the file system, which may fail.
pub record Io (J : Type 0) : Type 0 where
  pub now : Text
  pub hash : Text → ℕ
  pub schema_version : ℕ
  pub creates_dir : Bool
  pub opens : Text → Bool
  pub serialises : DashboardFile J → Bool
  pub syncs : DashboardFile J → Bool
  pub replaces : DashboardFile J → Bool
  pub removes : Text → Bool

abbrev pub Outcome : Type 0 → Type 0 → Type 0
Outcome J A = Disk J × Checked DashboardError A

module _ {J : Type 0} where
  unfoldable pub read_one : Text → Disk J → Option (DashboardFile J)
  read_one slug disk = elim (lookup slug disk) [ none ↦ none | some content ↦ content ]

  unfoldable pub bad_tile : DashboardTile J → Bool
  bad_tile t = elim (t.id) [
    | [] ↦ true
    | c ∷ cs ↦ is_non_positive t.w || is_non_positive t.h || is_negative t.x || is_negative t.y
  ]

  unfoldable pub any_bad : List (DashboardTile J) → Bool
  unfolding bad_tile
  any_bad [] = false
  any_bad (t ∷ ts) = bad_tile t || any_bad ts

unfoldable pub candidate : Text → ℕ → Text
candidate base i = if i == 0 then base else base ++ b'-' ∷ decimal (i + 1)

module _ {J : Type 0} (env : Io J) where
  -- The loop of `allocate_unique_slug` from `i` on.
  unfoldable pub allocate_from : ℕ → ℕ → Text → Disk J → Outcome J Text
  allocate_from zero i base disk = (disk, err too_many)
  allocate_from (suc n) i base disk =
      let slug = candidate base i in
      let rest = allocate_from n (i + 1) base disk in
      if not (is_valid_slug slug)
      then rest
      else if has_key slug disk
      then rest
      else if env.opens slug
      then (insert slug none disk, ok slug)
      else (disk, err io)

  unfoldable pub allocate_unique_slug : Text → Disk J → Outcome J Text
  allocate_unique_slug base disk =
      if not (is_valid_slug base)
      then (disk, err invalid_slug)
      else if env.creates_dir
      then allocate_from 99 0 base disk
      else (disk, err io)

  -- `let _ = remove_file(path)`
  unfoldable pub remove_file : Text → Disk J → Disk J
  remove_file slug disk = if env.removes slug then remove slug disk else disk

  unfoldable pub write_one : DashboardFile J → Disk J → Outcome J Text
  write_one d disk =
      if is_valid_slug d.slug
      then if env.replaces d then (insert d.slug (some d) disk, ok d.slug) else (disk, err io)
      else (disk, err invalid_slug)

  -- A serialisation that stops short leaves a file that cannot be read as a dashboard, as the reserved
  -- one is; a sync that fails leaves the whole of it.
  unfoldable pub write_reserved_dashboard_file : Text → DashboardFile J → Disk J → Outcome J Text
  unfolding remove_file
  write_reserved_dashboard_file reserved d disk =
      if not (text_beq d.slug reserved)
      then (remove_file reserved disk, err slug_mismatch)
      else if env.serialises d
      then if env.syncs d
        then (insert reserved (some d) disk, ok reserved)
        else (remove_file reserved (insert reserved (some d) disk), err io)
      else (remove_file reserved disk, err io)

  -- A new dashboard under a fresh slug, made from the slug.
  unfoldable pub write_fresh : Text → (Text → DashboardFile J) → Disk J → Outcome J Text
  write_fresh base make disk =
      let (disk', reserved) = allocate_unique_slug base disk in
      elim reserved [
        | err e ↦ (disk', err e)
        | ok slug ↦ write_reserved_dashboard_file slug (make slug) disk'
      ]

  abbrev pub blank : Text → List (DashboardTile J) → Text → DashboardFile J
  blank name layout slug = record {
    schema_version = env.schema_version;
    name = name;
    slug = slug;
    layout = layout;
    created_at = env.now;
    updated_at = env.now;
  }

  abbrev pub renamed : Text → DashboardFile J → Text → DashboardFile J
  renamed new_name d slug = record d { name = new_name; slug = slug; updated_at = env.now }

  -- The old file goes once the new one is written.
  unfoldable pub remove_old : Text → Outcome J Text → Outcome J Text
  unfolding remove_file
  remove_old old_slug (disk, err e) = (disk, err e)
  remove_old old_slug (disk, ok slug) = (remove_file old_slug disk, ok slug)

  abbrev pub answering : Text → Outcome J Text → Outcome J Text
  answering old_slug (disk, err e) = (disk, err e)
  answering old_slug (disk, ok s) = (disk, ok old_slug)

  unfoldable pub rename_found : Text → Text → DashboardFile J → Disk J → Outcome J Text
  unfolding write_one remove_old
  rename_found old_slug new_name d disk =
      let base = derive_slug env.hash new_name in
      if text_beq base old_slug
      then answering old_slug (write_one (record d { name = new_name; updated_at = env.now }) disk)
      else remove_old old_slug (write_fresh base (renamed new_name d) disk)

  unfoldable pub rename_dashboard_file : Text → Text → Disk J → Outcome J Text
  unfolding read_one rename_found
  rename_dashboard_file old_slug new_name disk =
      if is_valid_slug old_slug
      then elim (read_one old_slug disk) [
        | none ↦ (disk, err not_found)
        | some d ↦ rename_found old_slug new_name d disk
      ]
      else (disk, err invalid_slug)

  unfoldable pub duplicate_dashboard_file : Text → Disk J → Outcome J Text
  unfolding read_one
  duplicate_dashboard_file slug disk =
      if is_valid_slug slug
      then elim (read_one slug disk) [
        | none ↦ (disk, err not_found)
        | some d ↦
            let name = d.name ++ codes " (copy)" in
            write_fresh (derive_slug env.hash name) (blank name d.layout) disk
      ]
      else (disk, err invalid_slug)

  unfoldable pub create : Text → Disk J → Outcome J Text
  create name disk = write_fresh (derive_slug env.hash name) (blank name []) disk

  unfoldable pub remove_dashboard : Text → Disk J → Disk J × Bool
  remove_dashboard slug disk =
      if is_valid_slug slug && has_key slug disk && env.removes slug
      then (remove slug disk, true)
      else (disk, false)

  -- `parsed` is the layout that the JSON text holds.
  unfoldable pub save_layout : Text → Option (List (DashboardTile J)) → Disk J → Outcome J Text
  unfolding read_one any_bad write_one
  save_layout slug parsed disk =
      if is_valid_slug slug
      then elim (read_one slug disk) [
        | none ↦ (disk, err not_found)
        | some d ↦ elim parsed [
          | none ↦ (disk, err invalid_layout)
          | some layout ↦
              if any_bad layout
              then (disk, err invalid_layout)
              else write_one (record d { layout = layout; updated_at = env.now }) disk
        ]
      ]
      else (disk, err invalid_slug)

  -- `parsed` is the name and the layout of the file that is imported.
  unfoldable pub import_dashboard : Option (Text × List (DashboardTile J)) → Disk J → Outcome J Text
  unfolding any_bad
  import_dashboard none disk = (disk, err invalid_layout)
  import_dashboard (some ([], layout)) disk = (disk, err invalid_layout)
  import_dashboard (some (c ∷ cs, layout)) disk =
      if any_bad layout
      then (disk, err invalid_layout)
      else write_fresh (derive_slug env.hash (c ∷ cs)) (blank (c ∷ cs) layout) disk

module _ {J : Type 0} where
  unfoldable pub load_layout : Text → Disk J → List (DashboardTile J)
  unfolding read_one
  load_layout slug disk =
      if is_valid_slug slug then elim (read_one slug disk) [ none ↦ [] | some d ↦ d.layout ] else []

  unfoldable pub name_of : Text → Disk J → Text
  unfolding read_one
  name_of slug disk =
      if is_valid_slug slug then elim (read_one slug disk) [ none ↦ [] | some d ↦ d.name ] else []

  unfoldable pub readable : Disk J → List (DashboardFile J)
  readable [] = []
  readable ((slug, content) ∷ disk) =
      let rest = readable disk in
      let found : List (DashboardFile J) = elim content [ none ↦ rest | some d ↦ d ∷ rest ] in
      if is_valid_slug slug then found else rest

  -- `list_files`: the newest first.
  unfoldable pub list_files : Disk J → List (DashboardFile J)
  unfolding readable
  list_files disk = sort_by (λ a b. text_leb b.updated_at a.updated_at) (readable disk)

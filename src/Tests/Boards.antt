-- ===== src/Tests/Boards.antt =====
-- Dashboards: one called CPU, a name in another script, and a slug of 40 letters.
use lin_sight.Base.{
  ℕ, ◌≡◌, ◌≢◌, sym, ap, ◌∙◌, subst, inr, Bool-cases, ◌≤◌, refl, inl, true, false, List, [], ◌∷◌,
  none, some, Text, codes, arith,
}
use lin_sight.Base.Int.{pos}
use lin_sight.Base.Keys.{text_eq, text_beq, text_beq_iff}
use lin_sight.Base.Dict.{lookup, has_key}
use lin_sight.Core.Chars.{byte_len, utf8_len, all_chars, is_ascii_digit}
use lin_sight.Core.Hardware.{err}
use lin_sight.Dashboards.{
  is_valid_slug, derive_slug, starts_dash, ends_dash, double_dash, slug_char,
}
use lin_sight.Dashboards.Slugs.{derive_slug_valid}
use lin_sight.Dashboards.Files.{
  DashboardFile, Disk, Io, too_many, allocate_unique_slug, read_one, rename_dashboard_file,
}
use lin_sight.Dashboards.Named.{WellNamed}
use lin_sight.Dashboards.Commands.{
  Command, creates, renames, duplicates, removes, run_all, run_all-WellNamed,
}
use lin_sight.Dashboards.Renames.{Renamed, rename-Renamed}
use lin_sight.Dashboards.Long.{long_name_taken}

abbrev tick : Io ℕ
tick = record {
  now = codes "2026";
  hash = λ name. 7;
  schema_version = 1;
  creates_dir = true;
  opens = λ slug. true;
  serialises = λ d. true;
  syncs = λ d. true;
  replaces = λ d. true;
  removes = λ slug. true;
}

abbrev board : DashboardFile ℕ
board = record {
  schema_version = 1;
  name = codes "CPU";
  slug = codes "cpu";
  layout =
      record { id = codes "cpu.util"; x = pos 0; y = pos 0; w = pos 2; h = pos 1; options = 0 }
      ∷ [];
  created_at = codes "2025";
  updated_at = codes "2025";
}

abbrev disk : Disk ℕ
disk = (codes "cpu", some board) ∷ (codes "junk", none) ∷ []

cpu_valid : is_valid_slug (codes "cpu") ≡ true
unfolding is_valid_slug byte_len utf8_len starts_dash ends_dash double_dash all_chars slug_char
    is_ascii_digit
cpu_valid = refl

not_junk :
    (slug : Text) (d : DashboardFile ℕ)
    → text_beq (codes "cpu") slug ≡ false
    → lookup slug disk ≢ some (some d)
unfolding lookup
not_junk slug d other found = ground (arith, other)

disk-WellNamed : WellNamed disk
unfolding lookup text_beq
disk-WellNamed slug d found = elim (Bool-cases (text_beq (codes "cpu") slug)) [
  | inl same ↦
      let is_cpu : codes "cpu" ≡ slug = (text_beq_iff (codes "cpu") slug).0 same in
      let both : some (some board) ≡ some (some d) = sym (rw (same, lookup) refl) ∙ found in
      let it : board ≡ d = ground (arith, both) in
      (
        ap (λ (x : DashboardFile ℕ). x.slug) (sym it) ∙ is_cpu,
        subst (λ k. is_valid_slug k ≡ true) is_cpu cpu_valid,
      )
  | inr other ↦ absurd (not_junk slug d other found)
]

board_read : read_one (codes "cpu") disk ≡ some board
unfolding read_one lookup text_beq
board_read = refl

derive_slug_valid_example : is_valid_slug (derive_slug tick.hash (0x65e5 ∷ 0x672c ∷ [])) ≡ true
derive_slug_valid_example = derive_slug_valid tick.hash (0x65e5 ∷ 0x672c ∷ [])

abbrev commands : List (Command ℕ)
commands =
    creates (codes "GPU 1")
    ∷ renames (codes "cpu") (codes "GPU 1")
    ∷ duplicates (codes "gpu-1")
    ∷ removes (codes "junk")
    ∷ []

run_all-WellNamed_example : WellNamed (run_all tick commands disk)
run_all-WellNamed_example = run_all-WellNamed tick commands disk disk-WellNamed

rename-Renamed_example :
    Renamed tick
      (codes "cpu")
      (codes "All")
      board
      disk
      (rename_dashboard_file tick (codes "cpu") (codes "All") disk)
rename-Renamed_example =
    rename-Renamed tick (codes "cpu") (codes "All") disk {d = board} disk-WellNamed board_read

abbrev long_slug : Text
long_slug = codes "aaaaaaaaaaaaaaaaaaaaaaaaaaaaaaaaaaaaaaaa"

abbrev full : Disk ℕ
full = (long_slug, none) ∷ []

long_slug_valid : is_valid_slug long_slug ≡ true
unfolding is_valid_slug byte_len utf8_len starts_dash ends_dash double_dash all_chars slug_char
    is_ascii_digit
long_slug_valid = refl

long_slug_long : 39 ≤ byte_len long_slug
unfolding byte_len utf8_len
long_slug_long = omega arith

long_slug_taken : has_key long_slug full ≡ true
unfolding has_key text_beq
long_slug_taken = refl

long_name_taken_example : allocate_unique_slug tick long_slug full ≡ (full, err too_many)
long_name_taken_example =
    long_name_taken tick long_slug full long_slug_valid refl long_slug_long long_slug_taken

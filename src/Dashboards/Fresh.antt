-- ===== src/Dashboards/Fresh.antt =====
-- A new dashboard: its file was free, and no other file changes.
use lin_sight.Base.{
  ℕ, ◌+◌, ◌≡◌, ◌≢◌, refl, ap, sym, ◌∙◌, subst, true, false, Option, none, some, Text, zero, suc,
  arith, Bool-cases, inl, inr, ◌⊎◌,
}
use lin_sight.Base.Keys.{text_eq, text_beq, text_beq_iff, beq_refl}
use lin_sight.Base.Dict.{lookup, insert, has_key, lookup-remove, lookup-has_key}
use lin_sight.Core.Hardware.{ok, err}
use lin_sight.Dashboards.{is_valid_slug}
use lin_sight.Dashboards.Files.{
  DashboardFile, Disk, DashboardError, invalid_slug, too_many, io, Io, Outcome, candidate,
  allocate_from, allocate_unique_slug, remove_file, write_reserved_dashboard_file, write_fresh,
}
use lin_sight.Dashboards.Named.{
  WellNamed, SameBut, OnlyLeftovers, insert-SameBut, remove-SameBut, lookup-insert_self,
}

module _ {J : Type 0} (env : Io J) where
  -- The reservation of a fresh slug, or none and the disk as it was.
  abbrev Reserved : Disk J → Outcome J Text → Type 0
  Reserved disk o =
      ((slug : Text) × (o ≡ (insert slug none disk, ok slug))
        × (is_valid_slug slug ≡ true)
        × (has_key slug disk ≡ false))
      ⊎ ((e : DashboardError) × (o ≡ (disk, err e)))

  allocate_from-Reserved :
      (n i : ℕ) (base : Text) (disk : Disk J) → Reserved disk (allocate_from env n i base disk)
  unfolding allocate_from
  allocate_from-Reserved zero i base disk = inr (too_many, refl)
  allocate_from-Reserved (suc n) i base disk =
      let slug = candidate base i in
      let rest = allocate_from-Reserved n (i + 1) base disk in
      elim (Bool-cases (is_valid_slug slug)) [
        | inr bad ↦ simp (allocate_from, bad) rest
        | inl valid ↦ elim (Bool-cases (has_key slug disk)) [
          | inl taken ↦ simp (allocate_from, valid, taken) rest
          | inr free ↦ elim (Bool-cases (env.opens slug)) [
            | inl opened ↦ simp (allocate_from, valid, free, opened) (inl (slug, refl, valid, free))
            | inr refused ↦ simp (allocate_from, valid, free, refused) (inr (io, refl))
          ]
        ]
      ]

  allocate_unique_slug-Reserved :
      (base : Text) (disk : Disk J) → Reserved disk (allocate_unique_slug env base disk)
  unfolding allocate_unique_slug
  allocate_unique_slug-Reserved base disk = elim (Bool-cases (is_valid_slug base)) [
    | inr bad ↦ simp (allocate_unique_slug, bad) (inr (invalid_slug, refl))
    | inl valid ↦ elim (Bool-cases (env.creates_dir)) [
      | inr refused ↦ simp (allocate_unique_slug, valid, refused) (inr (io, refl))
      | inl made ↦ simp (allocate_unique_slug, valid, made) (allocate_from-Reserved 99 0 base disk)
    ]
  ]

  -- The outcome of a new dashboard: written under a slug that was free, with no other file touched;
  -- or an error, and no file that was there touched.
  abbrev pub Fresh : (Text → DashboardFile J) → Disk J → Outcome J Text → Type 0
  Fresh make disk o =
      ((slug : Text) × (o.1 ≡ ok slug)
        × (is_valid_slug slug ≡ true)
        × (has_key slug disk ≡ false)
        × (lookup slug o.0 ≡ some (some (make slug)))
        × SameBut slug disk o.0)
      ⊎ ((e : DashboardError) × (o.1 ≡ err e) × OnlyLeftovers make disk o.0)

  -- A new file that was given up: it is removed, or stays as it was left.
  given_up-OnlyLeftovers :
      (slug : Text) (make : Text → DashboardFile J) (content : Option (DashboardFile J))
      (disk left : Disk J)
      → is_valid_slug slug ≡ true
      → has_key slug disk ≡ false
      → (content ≡ none) ⊎ (content ≡ some (make slug))
      → lookup slug left ≡ some content
      → SameBut slug disk left
      → OnlyLeftovers make disk (remove_file env slug left)
  unfolding remove_file
  given_up-OnlyLeftovers slug make content disk left valid free what there rest other =
      let absent = lookup-has_key slug disk free in
      elim (Bool-cases (text_beq slug other)) [
        | inl same ↦
            let is_slug : slug ≡ other = (text_beq_iff slug other).0 same in
            subst
              (λ k.
                (lookup k (remove_file env slug left) ≡ lookup k disk)
                ⊎ ((lookup k disk ≡ none)
                    × (is_valid_slug k ≡ true)
                    × ((lookup k (remove_file env slug left) ≡ some none)
                        ⊎ (lookup k (remove_file env slug left) ≡ some (some (make k))))))
              is_slug
              (elim (Bool-cases (env.removes slug)) [
                | inl removed ↦
                    simp (remove_file, removed)
                      (inl (lookup-remove slug slug left ∙ rw (beq_refl slug) (sym absent)))
                | inr kept ↦
                    simp (remove_file, kept)
                      (inr (
                        absent,
                        valid,
                        elim what [
                          | inl broken ↦ inl (there ∙ ap some broken)
                          | inr whole ↦ inr (there ∙ ap some whole)
                        ],
                      ))
              ])
        | inr differs ↦
            let apart : other ≢ slug =
              λ e. absurd (ground (arith, differs, e, text_beq_iff slug other)) in
            elim (Bool-cases (env.removes slug)) [
              | inl removed ↦
                  simp (remove_file, removed)
                    (inl (remove-SameBut slug left other apart ∙ rest other apart))
              | inr kept ↦ simp (remove_file, kept) (inl (rest other apart))
            ]
      ]

  written-Fresh :
      (slug : Text) (make : Text → DashboardFile J) (disk : Disk J)
      → (make slug).slug ≡ slug
      → is_valid_slug slug ≡ true
      → has_key slug disk ≡ false
      → Fresh make disk (write_reserved_dashboard_file env slug (make slug) (insert slug none disk))
  unfolding write_reserved_dashboard_file
  written-Fresh slug make disk named valid free =
      let same = (text_beq_iff (make slug).slug slug).1 named in
      let reserved = insert slug none disk in
      let written = insert slug (some (make slug)) reserved in
      let here = lookup-insert_self slug (some (make slug)) reserved in
      let rest : SameBut slug disk written = λ other apart.
        insert-SameBut slug (some (make slug)) reserved other apart
        ∙ insert-SameBut slug none disk other apart in
      elim (Bool-cases (env.serialises (make slug))) [
        | inr stopped ↦
            simp (write_reserved_dashboard_file, same, stopped)
              (inr (
                io,
                refl,
                given_up-OnlyLeftovers slug make none disk reserved valid free (inl refl)
                    (lookup-insert_self slug none disk) (insert-SameBut slug none disk),
              ))
        | inl whole ↦ elim (Bool-cases (env.syncs (make slug))) [
          | inl synced ↦
              simp (write_reserved_dashboard_file, same, whole, synced)
                (inl (slug, refl, valid, free, here, rest))
          | inr unsynced ↦
              simp (write_reserved_dashboard_file, same, whole, unsynced)
                (inr (
                  io,
                  refl,
                  given_up-OnlyLeftovers slug make (some (make slug)) disk written valid free
                      (inr refl) here rest,
                ))
        ]
      ]

  pub write_fresh-Fresh :
      (base : Text) (make : Text → DashboardFile J) (disk : Disk J)
      → ((slug : Text) → (make slug).slug ≡ slug)
      → Fresh make disk (write_fresh env base make disk)
  unfolding write_fresh
  write_fresh-Fresh base make disk named = elim (allocate_unique_slug-Reserved base disk) [
    | inl (slug, reserved, valid, free) ↦
        simp (write_fresh, reserved) (written-Fresh slug make disk (named slug) valid free)
    | inr (e, refused) ↦ simp (write_fresh, refused) (inr (e, refl, λ other. inl refl))
  ]

  pub Fresh-WellNamed :
      (make : Text → DashboardFile J) (disk : Disk J) (o : Outcome J Text)
      → ((slug : Text) → (make slug).slug ≡ slug)
      → WellNamed disk
      → Fresh make disk o
      → WellNamed o.0
  Fresh-WellNamed make disk o named v (inl (slug, r, valid, free, here, rest)) other d found =
      elim (Bool-cases (text_beq other slug)) [
        | inl same ↦
            let is_slug : other ≡ slug = (text_beq_iff other slug).0 same in
            let both : some (some (make slug)) ≡ some (some d) =
              sym here ∙ subst (λ k. lookup k o.0 ≡ some (some d)) is_slug found in
            let it : make slug ≡ d = ground (arith, both) in
            (
              ap (λ (x : DashboardFile J). x.slug) (sym it) ∙ named slug ∙ sym is_slug,
              subst (λ k. is_valid_slug k ≡ true) (sym is_slug) valid,
            )
        | inr differs ↦
            let apart : other ≢ slug =
              λ e. absurd (ground (arith, differs, e, text_beq_iff other slug)) in
            v other d (sym (rest other apart) ∙ found)
      ]
  Fresh-WellNamed make disk o named v (inr (e, r, rest)) other d found = elim (rest other) [
    | inl same ↦ v other d (sym same ∙ found)
    | inr (absent, valid, inl broken) ↦
        let clash : some none ≡ some (some d) = sym broken ∙ found in absurd (ground (arith, clash))
    | inr (absent, valid, inr whole) ↦
        let both : some (some (make other)) ≡ some (some d) = sym whole ∙ found in
        let it : make other ≡ d = ground (arith, both) in
        (ap (λ (x : DashboardFile J). x.slug) (sym it) ∙ named other, valid)
  ]

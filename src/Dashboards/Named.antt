-- ===== src/Dashboards/Named.antt =====
-- What the operations leave alone: each dashboard stays in the file of its slug.
use lin_sight.Base.{
  ◌≡◌, ◌≢◌, refl, sym, ◌∙◌, subst, true, Option, none, some, Text, arith, Bool-cases, inl, inr, ◌⊎◌,
}
use lin_sight.Base.Keys.{text_eq, text_beq, text_beq_iff, beq_refl}
use lin_sight.Base.Dict.{lookup, insert, remove, lookup-insert, lookup-remove}
use lin_sight.Dashboards.{is_valid_slug}
use lin_sight.Dashboards.Files.{DashboardFile, Disk}

module _ {J : Type 0} where
  -- A dashboard that is read from a file has the slug that names the file, and the slug is valid.
  abbrev pub WellNamed : Disk J → Type 0
  WellNamed disk =
      (slug : Text) (d : DashboardFile J)
      → lookup slug disk ≡ some (some d)
      → (d.slug ≡ slug) × (is_valid_slug slug ≡ true)

  -- The files that are on the first disk are the same on the second, but that of one slug.
  abbrev pub SameBut : Text → Disk J → Disk J → Type 0
  SameBut slug before after =
      (other : Text) → other ≢ slug → lookup other after ≡ lookup other before

  -- The files are the same, but that there may be a new one, which cannot be read or is the dashboard
  -- that is made for its slug.
  abbrev pub OnlyLeftovers : (Text → DashboardFile J) → Disk J → Disk J → Type 0
  OnlyLeftovers make before after =
      (other : Text)
      → (lookup other after ≡ lookup other before)
        ⊎ ((lookup other before ≡ none)
            × (is_valid_slug other ≡ true)
            × ((lookup other after ≡ some none) ⊎ (lookup other after ≡ some (some (make other)))))

  pub insert-SameBut :
      (slug : Text) (content : Option (DashboardFile J)) (disk : Disk J)
      → SameBut slug disk (insert slug content disk)
  insert-SameBut slug content disk other apart = elim (Bool-cases (text_beq slug other)) [
    | inl same ↦ absurd (apart (sym ((text_beq_iff slug other).0 same)))
    | inr differs ↦ lookup-insert slug other content disk ∙ rw differs refl
  ]

  pub remove-SameBut : (slug : Text) (disk : Disk J) → SameBut slug disk (remove slug disk)
  remove-SameBut slug disk other apart = elim (Bool-cases (text_beq slug other)) [
    | inl same ↦ absurd (apart (sym ((text_beq_iff slug other).0 same)))
    | inr differs ↦ lookup-remove slug other disk ∙ rw differs refl
  ]

  pub lookup-insert_self :
      (slug : Text) (content : Option (DashboardFile J)) (disk : Disk J)
      → lookup slug (insert slug content disk) ≡ some content
  lookup-insert_self slug content disk =
      lookup-insert slug slug content disk ∙ rw (beq_refl slug) refl

  pub insert-WellNamed :
      (slug : Text) (content : Option (DashboardFile J)) (disk : Disk J)
      → WellNamed disk
      → ((d : DashboardFile J) → content ≡ some d → (d.slug ≡ slug) × (is_valid_slug slug ≡ true))
      → WellNamed (insert slug content disk)
  insert-WellNamed slug content disk v good other d found =
      elim (Bool-cases (text_beq slug other)) [
        | inl same ↦
            let is_slug : slug ≡ other = (text_beq_iff slug other).0 same in
            let here : some content ≡ some (some d) =
              sym (lookup-insert_self slug content disk)
              ∙ subst (λ k. lookup k (insert slug content disk) ≡ some (some d)) (sym is_slug)
                  found in
            let (named, valid) = good d (ground (arith, here)) in
            (named ∙ is_slug, subst (λ k. is_valid_slug k ≡ true) is_slug valid)
        | inr differs ↦
            v other d (sym (lookup-insert slug other content disk ∙ rw differs refl) ∙ found)
      ]

  pub remove-WellNamed :
      (slug : Text) (disk : Disk J) → WellNamed disk → WellNamed (remove slug disk)
  remove-WellNamed slug disk v other d found = elim (Bool-cases (text_beq slug other)) [
    | inl same ↦
        let gone : none ≡ some (some d) =
          sym (lookup-remove slug other disk ∙ rw same refl) ∙ found in
        absurd (ground (arith, gone))
    | inr differs ↦ v other d (sym (lookup-remove slug other disk ∙ rw differs refl) ∙ found)
  ]

-- ===== src/Core/Hardware/Labels.antt =====
-- The labels of devices tell them apart.
use lin_sight.Base.{
  ℕ, ◌≡◌, ◌≢◌, refl, ap, sym, ◌∙◌, true, List, [], ◌∷◌, ◌++◌, none, arith, Text, codes,
}
use lin_sight.Base.Keys.{text_eq, text_beq_iff}
use lin_sight.Base.Dict.{Dict, lookup}
use lin_sight.Core.Hardware.{HardwareDevice, rivals, payload_of, compute_device_label}

-- A rival in the list is found.
rivals-found :
    (t d : HardwareDevice) (nicknames : Dict Text Text) (xs ys : List HardwareDevice)
    → d.key ≢ t.key
    → d.model ≡ t.model
    → lookup d.key nicknames ≡ none
    → rivals t nicknames (xs ++ d ∷ ys) ≡ true
unfolding rivals
rivals-found t d nicknames [] ys other same bare =
    ground (arith, text_beq_iff d.key t.key, text_beq_iff d.model t.model)
rivals-found t d nicknames (x ∷ xs) ys other same bare =
    ground (arith, rivals-found t d nicknames xs ys other same bare)

label_of_rival :
    (t d : HardwareDevice) (nicknames : Dict Text Text) (xs ys : List HardwareDevice)
    → d.key ≢ t.key
    → d.model ≡ t.model
    → lookup t.key nicknames ≡ none
    → lookup d.key nicknames ≡ none
    → compute_device_label t (xs ++ d ∷ ys) nicknames
      ≡ t.model ++ codes " (" ++ payload_of t.key ++ codes ")"
unfolding compute_device_label
label_of_rival t d nicknames xs ys other same bare bare' =
    rw (compute_device_label, bare, rivals-found t d nicknames xs ys other same bare')

append_cancel : (p x y : Text) → p ++ x ≡ p ++ y → x ≡ y
append_cancel [] x y h = h
append_cancel (c ∷ cs) x y h = append_cancel cs x y (ground arith)

snoc_cancel : (c : ℕ) (x y : Text) → x ++ c ∷ [] ≡ y ++ c ∷ [] → x ≡ y
snoc_cancel c [] [] h = refl
snoc_cancel c [] (d ∷ []) h = absurd (ground arith)
snoc_cancel c [] (d ∷ e ∷ ys) h = absurd (ground arith)
snoc_cancel c (d ∷ []) [] h = absurd (ground arith)
snoc_cancel c (d ∷ e ∷ xs) [] h = absurd (ground arith)
snoc_cancel c (d ∷ xs) (e ∷ ys) h = ground (arith, snoc_cancel c xs ys (ground arith))

-- Two devices of one model without nicknames, whose keys differ behind the scheme, get different
-- labels in any list that holds them both.
pub labels_differ :
    (t d : HardwareDevice) (nicknames : Dict Text Text) (all xs ys zs ws : List HardwareDevice)
    → all ≡ xs ++ d ∷ ys
    → all ≡ zs ++ t ∷ ws
    → d.model ≡ t.model
    → lookup t.key nicknames ≡ none
    → lookup d.key nicknames ≡ none
    → payload_of t.key ≢ payload_of d.key
    → compute_device_label t all nicknames ≢ compute_device_label d all nicknames
labels_differ t d nicknames all xs ys zs ws has_d has_t same bare bare' differ h =
    let other : d.key ≢ t.key = λ e. differ (sym (ap payload_of e)) in
    let of_t =
      ap (λ l. compute_device_label t l nicknames) has_d
      ∙ label_of_rival t d nicknames xs ys other same bare bare' in
    let of_d =
      ap (λ l. compute_device_label d l nicknames) has_t
      ∙ label_of_rival d t nicknames zs ws (λ e. other (sym e)) (sym same) bare' bare in
    let equal : t.model ++ codes " (" ++ payload_of t.key ++ codes ")"
        ≡ t.model ++ codes " (" ++ payload_of d.key ++ codes ")" =
      sym of_t ∙ h ∙ of_d ∙ ap (λ m. m ++ codes " (" ++ payload_of d.key ++ codes ")") same in
    differ (append_cancel (t.model ++ codes " (") _ _ (snoc_cancel b')' _ _ equal))

-- ===== src/Core/Order.antt =====
-- `Ord` of Rust's strings: the order of the code points is that of the bytes of UTF-8.
use lin_sight.Base.{◌≡◌, refl, Bool, true, false, [], ◌∷◌, arith, ltb, ◌==◌, if◌then◌else◌, Text}

unfoldable pub text_leb : Text → Text → Bool
text_leb [] ys = true
text_leb (x ∷ xs) [] = false
text_leb (x ∷ xs) (y ∷ ys) = if x == y then text_leb xs ys else ltb x y

pub text_leb_total : (a b : Text) → text_leb a b ≡ false → text_leb b a ≡ true
unfolding text_leb
text_leb_total [] b h = absurd (ground arith)
text_leb_total (x ∷ xs) [] h = refl
text_leb_total (x ∷ xs) (y ∷ ys) h = ground (arith, text_leb_total xs ys)

pub text_leb_trans :
    (a b c : Text) → text_leb a b ≡ true → text_leb b c ≡ true → text_leb a c ≡ true
unfolding text_leb
text_leb_trans [] b c h g = refl
text_leb_trans (x ∷ xs) [] c h g = absurd (ground arith)
text_leb_trans (x ∷ xs) (y ∷ ys) [] h g = absurd (ground arith)
text_leb_trans (x ∷ xs) (y ∷ ys) (z ∷ zs) h g = ground (arith, text_leb_trans xs ys zs)

pub text_leb_antisym : (a b : Text) → text_leb a b ≡ true → text_leb b a ≡ true → a ≡ b
unfolding text_leb
text_leb_antisym [] [] h g = refl
text_leb_antisym [] (y ∷ ys) h g = absurd (ground arith)
text_leb_antisym (x ∷ xs) [] h g = absurd (ground arith)
text_leb_antisym (x ∷ xs) (y ∷ ys) h g = ground (arith, text_leb_antisym xs ys)

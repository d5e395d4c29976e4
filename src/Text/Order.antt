-- ===== src/Text/Order.antt =====
-- The operator `<` of Go on strings: byte by byte.
use scope_network.Prelude.{
  Bool, true, false, ◌&&◌, ◌||◌, [], ◌∷◌, ◌≡◌, ◌⊎◌, inl, inr, refl, arith, ltb, ◌==◌,
}
use scope_network.Text.Bytes.{Text}

abbrev pub text_less : Text → Text → Bool
text_less [] [] = false
text_less [] (b ∷ t) = true
text_less (a ∷ s) [] = false
text_less (a ∷ s) (b ∷ t) = ltb a b || (a == b && text_less s t)

pub text_less_irrefl : (s : Text) → text_less s s ≡ false
text_less_irrefl [] = refl
text_less_irrefl (a ∷ s) = ground (arith, text_less_irrefl s)

pub text_less_trans :
    (s t u : Text) → text_less s t ≡ true → text_less t u ≡ true → text_less s u ≡ true
text_less_trans [] [] u p q = cc
text_less_trans [] (b ∷ t) [] p q = cc
text_less_trans [] (b ∷ t) (c ∷ u) p q = refl
text_less_trans (a ∷ s) [] u p q = cc
text_less_trans (a ∷ s) (b ∷ t) [] p q = cc
text_less_trans (a ∷ s) (b ∷ t) (c ∷ u) p q = ground (arith, text_less_trans s t u)

-- Of two texts that are not the same one is less.
pub text_less_total : (s t : Text) → (text_less s t ≡ true) ⊎ ((s ≡ t) ⊎ (text_less t s ≡ true))
text_less_total [] [] = inr (inl refl)
text_less_total [] (b ∷ t) = inl refl
text_less_total (a ∷ s) [] = inr (inr refl)
text_less_total (a ∷ s) (b ∷ t) = ground (arith, text_less_total s t)

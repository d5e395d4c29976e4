-- ===== src/Text/Bytes.antt =====
-- A Go string is a sequence of bytes. Two strings are compared byte by byte.
use Prim.Native.Char.{code}
use native.Mathlib.Decide.{ℕ_discrete}
use scope_network.Prelude.{
  ℕ, String, Bool, true, false, ◌&&◌, List, [], ◌∷◌, ◌≡◌, refl, ◌↔◌, arith, ◌==◌,
}

abbrev pub Text : Type 0
Text = List ℕ

-- The code points of a literal; these are its bytes when the text is ASCII.
abbrev pub codes : String → Text
codes String.[] = []
codes (String.◌∷◌ c s) = code c ∷ codes s

-- The operator `==` of Go on strings.
unfoldable pub same : Text → Text → Bool
same [] [] = true
same (a ∷ s) (b ∷ t) = a == b && same s t
same _ _ = false

pub same_refl : (s : Text) → same s s ≡ true
unfolding same
same_refl [] = refl
same_refl (a ∷ s) = ground (arith, same_refl s)

eq_of_same : (s t : Text) → same s t ≡ true → s ≡ t
unfolding same
eq_of_same [] [] h = refl
eq_of_same [] (b ∷ t) h = ground arith
eq_of_same (a ∷ s) [] h = ground arith
eq_of_same (a ∷ s) (b ∷ t) h = ground (arith, eq_of_same s t)

same_of_eq : (s t : Text) → s ≡ t → same s t ≡ true
same_of_eq s t e = rw e (same_refl t)

-- The comparison decides equality.
pub same_iff : (s t : Text) → (same s t ≡ true) ↔ (s ≡ t)
same_iff s t = (eq_of_same s t, same_of_eq s t)

pub text_discrete : Discrete Text
text_discrete = hlevel ℕ_discrete

-- ===== src/Text/Affix.antt =====
-- strings.HasPrefix, HasSuffix, TrimPrefix and TrimSuffix.
use scope_network.Prelude.{
  ℕ, ◌-◌, Bool, true, false, ◌&&◌, ◌≡◌, refl, ap, sym, ◌∙◌, [], ◌∷◌, ◌++◌, arith, ◌==◌, leb,
  if◌then◌else◌, length, take, drop, length-append, take-append-drop,
}
use scope_network.Text.Bytes.{Text, same, same_iff, same_refl}

unfoldable pub has_prefix : Text → Text → Bool
has_prefix s [] = true
has_prefix [] (b ∷ p) = false
has_prefix (a ∷ s) (b ∷ p) = a == b && has_prefix s p

unfoldable pub trim_prefix : Text → Text → Text
unfolding has_prefix
trim_prefix s p = if has_prefix s p then drop (length p) s else s

-- `len(s) >= len(suffix) && s[len(s)-len(suffix):] == suffix`
unfoldable pub has_suffix : Text → Text → Bool
unfolding same
has_suffix s p = leb (length p) (length s) && same (drop (length s - length p) s) p

unfoldable pub trim_suffix : Text → Text → Text
unfolding has_suffix
trim_suffix s p = if has_suffix s p then take (length s - length p) s else s

pub drop-append : (s p : Text) → drop (length s) (s ++ p) ≡ p
drop-append [] p = refl
drop-append (a ∷ s) p = drop-append s p

pub take-append : (s p : Text) → take (length s) (s ++ p) ≡ s
take-append [] p = refl
take-append (a ∷ s) p = ap (◌∷◌ a) (take-append s p)

length-append-sub : (s p : Text) → length (s ++ p) - length p ≡ length s
length-append-sub s p = omega (arith, length-append s p)

pub has_suffix-append : (s p : Text) → has_suffix (s ++ p) p ≡ true
unfolding has_suffix
has_suffix-append s p =
    let fits : leb (length p) (length (s ++ p)) ≡ true = ground (arith, length-append s p) in
    rw (fits, length-append-sub s p, drop-append s p) (same_refl p)

pub trim_suffix-append : (s p : Text) → trim_suffix (s ++ p) p ≡ s
unfolding trim_suffix
trim_suffix-append s p = rw (has_suffix-append s p, length-append-sub s p) (take-append s p)

-- What carries the suffix is its trimmed form with the suffix put back.
pub append-trim_suffix : (s p : Text) → has_suffix s p ≡ true → trim_suffix s p ++ p ≡ s
unfolding trim_suffix has_suffix
append-trim_suffix s p h =
    let n : ℕ = length s - length p in
    let tail_is : drop n s ≡ p = (same_iff (drop n s) p).0 (ground arith) in
    rw h (ap (λ t. take n s ++ t) (sym tail_is) ∙ take-append-drop n s)

pub trim_prefix-append : (p s : Text) → trim_prefix (p ++ s) p ≡ s
unfolding trim_prefix
trim_prefix-append p s = rw (begins p s) (drop-append p s)
  where
    begins : (p s : Text) → has_prefix (p ++ s) p ≡ true
    begins [] s = refl
    begins (a ∷ p) s = ground (arith, begins p s)

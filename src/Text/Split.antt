-- ===== src/Text/Split.antt =====
-- strings.Split and SplitN(s, sep, 2) at a separator of one byte, and strings.Join.
use scope_network.Prelude.{ℕ, List, [], ◌∷◌, ◌++◌, ◌≡◌, ◌≢◌, refl, arith, ◌==◌, if◌then◌else◌, All}
use scope_network.Text.Bytes.{Text}

-- Puts a byte in front of the first part.
abbrev pub cons_first : ℕ → List Text → List Text
cons_first c [] = (c ∷ []) ∷ []
cons_first c (p ∷ ps) = (c ∷ p) ∷ ps

-- There is always a first part.
unfoldable pub split : Text → ℕ → List Text
split [] sep = [] ∷ []
split (c ∷ s) sep = let rest = split s sep in if c == sep then [] ∷ rest else cons_first c rest

-- At most two parts: the text before the first separator and all that follows it.
unfoldable pub split_two : Text → ℕ → List Text
split_two [] sep = [] ∷ []
split_two (c ∷ s) sep =
    let rest = split_two s sep in if c == sep then [] ∷ s ∷ [] else cons_first c rest

unfoldable pub join : List Text → Text → Text
join [] sep = []
join (p ∷ []) sep = p
join (p ∷ q ∷ ps) sep = p ++ (sep ++ join (q ∷ ps) sep)

abbrev pub Lacks : ℕ → Text → Type 0
Lacks b = All (λ c. c ≢ b)

pub split_at_sep : (s : Text) (sep : ℕ) → split (sep ∷ s) sep ≡ [] ∷ split s sep
unfolding split
split_at_sep s sep = ground arith

pub split-Lacks : (p : Text) (sep : ℕ) → Lacks sep p → split p sep ≡ p ∷ []
unfolding split
split-Lacks [] sep h = refl
split-Lacks (c ∷ p) sep (hc, h) = ground (arith, split-Lacks p sep h)

-- A part without a separator, a separator and a rest split into that part and the parts of the rest.
pub split-append : (p s : Text) (sep : ℕ) → Lacks sep p → split (p ++ sep ∷ s) sep ≡ p ∷ split s sep
unfolding split
split-append [] s sep h = split_at_sep s sep
split-append (c ∷ p) s sep (hc, h) = ground (arith, split-append p s sep h)

-- Parts without a separator come back from their join.
pub split-join :
    (p : Text) (ps : List Text) (sep : ℕ)
    → Lacks sep p
    → All (Lacks sep) ps
    → split (join (p ∷ ps) (sep ∷ [])) sep ≡ p ∷ ps
unfolding join
split-join p [] sep h hs = split-Lacks p sep h
split-join p (q ∷ qs) sep h (hq, hs) =
    rw (split-append p (join (q ∷ qs) (sep ∷ [])) sep h, split-join q qs sep hq hs)

pub split_two-append :
    (p s : Text) (sep : ℕ) → Lacks sep p → split_two (p ++ sep ∷ s) sep ≡ p ∷ s ∷ []
unfolding split_two
split_two-append [] s sep h = ground arith
split_two-append (c ∷ p) s sep (hc, h) = ground (arith, split_two-append p s sep h)

pub split_two-Lacks : (p : Text) (sep : ℕ) → Lacks sep p → split_two p sep ≡ p ∷ []
unfolding split_two
split_two-Lacks [] sep h = refl
split_two-Lacks (c ∷ p) sep (hc, h) = ground (arith, split_two-Lacks p sep h)

join-cons_first :
    (c : ℕ) (ps : List Text) (sep : Text) → ps ≢ [] → join (cons_first c ps) sep ≡ c ∷ join ps sep
unfolding join
join-cons_first c [] sep h = absurd (h refl)
join-cons_first c (p ∷ []) sep h = refl
join-cons_first c (p ∷ q ∷ ps) sep h = refl

split-ne-nil : (s : Text) (sep : ℕ) → split s sep ≢ []
unfolding split
split-ne-nil [] sep = cc
split-ne-nil (c ∷ s) sep = ground (arith, cons_first-ne-nil c (split s sep))
  where
    cons_first-ne-nil : (c : ℕ) (ps : List Text) → cons_first c ps ≢ []
    cons_first-ne-nil c [] = cc
    cons_first-ne-nil c (p ∷ ps) = cc

join-nil_first :
    (ps : List Text) (sep : ℕ) → ps ≢ [] → join ([] ∷ ps) (sep ∷ []) ≡ sep ∷ join ps (sep ∷ [])
unfolding join
join-nil_first [] sep h = absurd (h refl)
join-nil_first (p ∷ ps) sep h = refl

-- The parts, joined again, are the text.
pub join-split : (s : Text) (sep : ℕ) → join (split s sep) (sep ∷ []) ≡ s
unfolding split
join-split [] sep = unfold join in refl
join-split (c ∷ s) sep = ground (
  arith,
  join-split s sep,
  join-cons_first c (split s sep) (sep ∷ []) (split-ne-nil s sep),
  join-nil_first (split s sep) sep (split-ne-nil s sep),
)

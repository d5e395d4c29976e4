-- ===== src/Runner/Picking.antt =====
-- tools/runner/runner.go: what `pick` takes, and what sorting keeps. Lists are compared by the sums
-- of an arbitrary weight over their members: two lists with equal sums for every weight hold the
-- same members, as often.
use scope_network.Prelude.{
  ℕ, ◌+◌, Bool, true, false, List, [], ◌∷◌, ◌++◌, ◌≡◌, refl, ap, Option, none, some, arith, All,
  sym, Bool-cases, inl, inr,
}
use mathlib.Core.Option.{some_inj}
use scope_network.Prelude.Int.{pos, leb_ℤ}
use scope_network.Runner.{Test, insert_test, sort_reverse, pick, keep_first}

abbrev pub total {ℓ} : {A : Type ℓ} → (A → ℕ) → List A → ℕ
total f [] = 0
total f (x ∷ xs) = f x + total f xs

pub total-append {ℓ} :
    {A : Type ℓ} (f : A → ℕ) (xs ys : List A) → total f (xs ++ ys) ≡ total f xs + total f ys
total-append f [] ys = omega arith
total-append f (x ∷ xs) ys = omega (arith, total-append f xs ys)

total-insert_test :
    (f : Test → ℕ) (t : Test) (ts : List Test) → total f (insert_test t ts) ≡ f t + total f ts
unfolding insert_test
total-insert_test f t [] = refl
total-insert_test f t (u ∷ us) = ground (arith, total-insert_test f t us)

pub total-sort_reverse : (f : Test → ℕ) (ts : List Test) → total f (sort_reverse ts) ≡ total f ts
unfolding sort_reverse
total-sort_reverse f [] = refl
total-sort_reverse f (t ∷ ts) =
    omega (arith, total-insert_test f t (sort_reverse ts), total-sort_reverse f ts)

abbrev pub fits : ℕ → Test → Bool
fits available t = leb_ℤ t.hosts (pos available)

-- What `pick` finds in a list, as an account of the list.
pub data Picked (available : ℕ) (ts : List Test) : Option (Test × List Test) → Type 0 where
  nothing_fits : All (λ u. fits available u ≡ false) ts → Picked available ts none
  first :
      (before : List Test) (t : Test) (after : List Test)
      → ts ≡ before ++ t ∷ after
      → fits available t ≡ true
      → All (λ u. fits available u ≡ false) before
      → Picked available ts (some (t, before ++ after))

keep_first-Picked :
    {available : ℕ} {us : List Test} (u : Test) (found : Option (Test × List Test))
    → fits available u ≡ false
    → Picked available us found
    → Picked available (u ∷ us) (keep_first u found)
keep_first-Picked u none ne (nothing_fits all) = nothing_fits (ne, all)
keep_first-Picked u (some _) ne (first before t after e y all) =
    first (u ∷ before) t after (ap (λ l. u ∷ l) e) y (ne, all)

pub pick-Picked : (available : ℕ) (ts : List Test) → Picked available ts (pick available ts)
unfolding pick
pick-Picked available [] = nothing_fits tt
pick-Picked available (u ∷ us) = elim (Bool-cases (fits available u)) [
  | inl y ↦ rw y (first [] u us refl y tt)
  | inr ne ↦ rw ne (keep_first-Picked u (pick available us) ne (pick-Picked available us))
]

pub data Found (available : ℕ) (ts : List Test) (t : Test) (rest : List Test) : Type 0 where
  found :
      (before after : List Test)
      → ts ≡ before ++ t ∷ after
      → rest ≡ before ++ after
      → fits available t ≡ true
      → Found available ts t rest

Picked-some :
    {available : ℕ} {ts : List Test} {t : Test} {rest : List Test} (o : Option (Test × List Test))
    → Picked available ts o
    → o ≡ some (t, rest)
    → Found available ts t rest
Picked-some none p e = cc
Picked-some {available} {ts} {t} {rest} (some _) (first before u after split y all) e =
    let pair : (u, before ++ after) ≡ (t, rest) = some_inj.0 e in
    let same_test : u ≡ t = ap (λ q. q.0) pair in
    let same_rest : before ++ after ≡ rest = ap (λ q. q.1) pair in
    found before after (rw (← same_test) split) (sym same_rest) (rw (← same_test) y)

pub pick-some :
    (available : ℕ) (ts : List Test) (t : Test) (rest : List Test)
    → pick available ts ≡ some (t, rest)
    → Found available ts t rest
pick-some available ts t rest e = Picked-some (pick available ts) (pick-Picked available ts) e

-- Nothing is picked from a list only if nothing of it fits.
pub pick-none :
    (available : ℕ) (ts : List Test)
    → pick available ts ≡ none
    → All (λ u. fits available u ≡ false) ts
pick-none available ts e = go (pick available ts) (pick-Picked available ts) e
  where
    go :
        (o : Option (Test × List Test))
        → Picked available ts o
        → o ≡ none
        → All (λ u. fits available u ≡ false) ts
    go none (nothing_fits all) e = all
    go (some _) p e = cc

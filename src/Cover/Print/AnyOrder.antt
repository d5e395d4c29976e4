-- ===== src/Cover/Print/AnyOrder.antt =====
-- tools/cover/cover.go, `main`: the iteration over the map.
use scope_network.Prelude.{
  subst, ◌⊎◌, List, [], ◌∷◌, ◌≡◌, inl, inr, refl, sym, ap, ◌∙◌, Option, none, some, Bool-cases,
}
use mathlib.Core.Option.{some_inj}
use scope_network.Text.{Text, same, same_iff, same_refl}
use scope_network.Dict
use scope_network.Dict.{Dict, Distinct, IsIterationOrder}
use scope_network.Dict.Laws.{lookup-insert, insert-Distinct}
use scope_network.Errors.{Result, ok, err, Outcome, returns, panics, exits, from_returns}
use scope_network.Cover.{
  Block, Profile, merge, with_blocks, merge_blocks, merge_found, merge_profiles, merge_inputs,
}
use scope_network.Cover.Merging.{and_then_returns}
use scope_network.Cover.Print.{values, sort_profiles, print, main}
use scope_network.Cover.Print.Sorting.{
  IsRising, profile_of, IsFresh, profile_of-sort_profiles, sort_profiles-IsRising, rising_unique,
}

-- Every profile stands under its file name.
abbrev Named : Dict Profile → Type 0
Named m = (file : Text) (p : Profile) → Dict.lookup file m ≡ some p → p.file_name ≡ file

abbrev IsOutput : Dict Profile → Type 0
IsOutput m = Distinct m × Named m

tail-IsOutput :
    (file : Text) (p : Profile) (m : Dict Profile) → IsOutput ((file, p) ∷ m) → IsOutput m
unfolding Dict.lookup
tail-IsOutput file p m ((fresh, d), named) = (
  d,
  λ g q e. elim (Bool-cases (same file g)) [
    | inl y ↦ let eq : file ≡ g = (same_iff file g).0 y in absurd (cc (e, fresh, eq))
    | inr n ↦ named g q (rw n e)
  ],
)

profile_of-values :
    (m : Dict Profile) (file : Text) → IsOutput m → profile_of file (values m) ≡ Dict.lookup file m
unfolding profile_of Dict.lookup
profile_of-values [] file _ = refl
profile_of-values ((g, p) ∷ m) file ((fresh, d), named) =
    let e : p.file_name ≡ g = named g p (rw (same_refl g) refl) in
    rw (e, profile_of-values m file (tail-IsOutput g p m ((fresh, d), named))) refl

values-IsFresh : (m : Dict Profile) → IsOutput m → IsFresh (values m)
unfolding Dict.lookup
values-IsFresh [] _ = tt
values-IsFresh ((g, p) ∷ m) ((fresh, d), named) =
    let e : p.file_name ≡ g = named g p (rw (same_refl g) refl) in
    let rest = tail-IsOutput g p m ((fresh, d), named) in
    (rw e (profile_of-values m g rest ∙ fresh), values-IsFresh m rest)

with_blocks_name :
    (p out : Profile) (r : Outcome (List Block))
    → with_blocks p r ≡ returns out
    → out.file_name ≡ p.file_name
with_blocks_name p out (returns bs) e =
    let eq : record p { blocks = bs } ≡ out = from_returns e in rw (← eq) refl
with_blocks_name p out panics e = cc
with_blocks_name p out exits e = cc

merge_found_name :
    (ip out : Profile) (found : Option Profile)
    → merge_found found ip ≡ returns out
    → ((op : Profile) → found ≡ some op → op.file_name ≡ ip.file_name)
    → out.file_name ≡ ip.file_name
unfolding merge
merge_found_name ip out none e _ = let eq : ip ≡ out = from_returns e in rw (← eq) refl
merge_found_name ip out (some op) e named =
    with_blocks_name op out (merge_blocks op.blocks ip.blocks) e ∙ named op refl

insert-IsOutput :
    (ip out : Profile) (m : Dict Profile)
    → merge_found (Dict.lookup ip.file_name m) ip ≡ returns out
    → IsOutput m
    → IsOutput (Dict.insert ip.file_name out m)
insert-IsOutput ip out m e (d, named) = (
  insert-Distinct ip.file_name out m d,
  λ file p found.
      let there = sym (lookup-insert ip.file_name file out m) ∙ found in
      elim (Bool-cases (same ip.file_name file)) [
        | inl y ↦
            let key : ip.file_name ≡ file = (same_iff ip.file_name file).0 y in
            let eq : out ≡ p = some_inj.0 (rw y at there) in
            rw (← eq)
              (merge_found_name ip out (Dict.lookup ip.file_name m) e (named ip.file_name) ∙ key)
        | inr n ↦ named file p (rw n at there)
      ],
)

merge_profiles-IsOutput :
    (ips : List Profile) (m out : Dict Profile)
    → merge_profiles ips m ≡ returns out
    → IsOutput m
    → IsOutput out
unfolding merge_profiles
merge_profiles-IsOutput [] m out e o = let eq : m ≡ out = from_returns e in subst IsOutput eq o
merge_profiles-IsOutput (ip ∷ ips) m out e o =
    let (p, e₀, e₁) = and_then_returns (merge_found (Dict.lookup ip.file_name m) ip) _ out e in
    merge_profiles-IsOutput ips (Dict.insert ip.file_name p m) out e₁ (insert-IsOutput ip p m e₀ o)

merge_inputs-IsOutput :
    (inputs : List (Result (List Profile))) (m out : Dict Profile)
    → merge_inputs inputs m ≡ returns out
    → IsOutput m
    → IsOutput out
unfolding merge_inputs
merge_inputs-IsOutput [] m out e o = let eq : m ≡ out = from_returns e in subst IsOutput eq o
merge_inputs-IsOutput (err x ∷ inputs) m out e o = cc
merge_inputs-IsOutput (ok ips ∷ inputs) m out e o =
    let (mid, e₀, e₁) = and_then_returns (merge_profiles ips m) (merge_inputs inputs) out e in
    merge_inputs-IsOutput inputs mid out e₁ (merge_profiles-IsOutput ips m mid e₀ o)

nothing : (file : Text) (p : Profile) → Dict.lookup file [] ≡ some p → p.file_name ≡ file
unfolding Dict.lookup
nothing file p e = cc

outcome_cases :
    {A : Type 0} (r : Outcome A) → ((a : A) × (r ≡ returns a)) ⊎ ((r ≡ panics) ⊎ (r ≡ exits))
outcome_cases (returns a) = inl (a, refl)
outcome_cases panics = inr (inl refl)
outcome_cases exits = inr (inr refl)

module _ (f : Dict Profile → Dict Profile) (f_order : IsIterationOrder f) where
  shuffled-IsOutput : (m : Dict Profile) → IsOutput m → IsOutput (f m)
  shuffled-IsOutput m (d, named) =
      (f_order.once m d, λ file p found. named file p (sym (f_order.visits m file d) ∙ found))

  pub sorted-IsRising : (m : Dict Profile) → IsOutput m → IsRising (sort_profiles (values (f m)))
  sorted-IsRising m o =
      sort_profiles-IsRising (values (f m)) (values-IsFresh (f m) (shuffled-IsOutput m o))

  profile_of-sorted :
      (m : Dict Profile) (file : Text)
      → IsOutput m
      → profile_of file (sort_profiles (values (f m))) ≡ Dict.lookup file m
  profile_of-sorted m file (d, named) =
      let o = shuffled-IsOutput m (d, named) in
      profile_of-sort_profiles (values (f m)) file (values-IsFresh (f m) o)
      ∙ profile_of-values (f m) file o
      ∙ f_order.visits m file d

same_sorted :
    (f g : Dict Profile → Dict Profile)
    → IsIterationOrder f
    → IsIterationOrder g
    → (m : Dict Profile) → IsOutput m
    → sort_profiles (values (f m)) ≡ sort_profiles (values (g m))
same_sorted f g p q m o =
    rising_unique (sort_profiles (values (f m))) (sort_profiles (values (g m)))
      (sorted-IsRising f p m o) (sorted-IsRising g q m o)
      λ file. profile_of-sorted f p m file o ∙ sym (profile_of-sorted g q m file o)

-- What `main` prints, and whether it panics, does not depend on the order in which it iterates over
-- the map: the file names are its keys, they differ, and it sorts by them.
pub main_any_order :
    (f g : Dict Profile → Dict Profile) (inputs : List (Result (List Profile)))
    → IsIterationOrder f
    → IsIterationOrder g
    → main f inputs ≡ main g inputs
unfolding main
main_any_order f g inputs p q = elim (outcome_cases (merge_inputs inputs [])) [
  | inl (out, e) ↦
      let o = merge_inputs-IsOutput inputs [] out e (tt, λ file p found. nothing file p found) in
      rw e (ap (λ ps. returns (print ps)) (same_sorted f g p q out o))
  | inr (inl e) ↦ rw e refl
  | inr (inr e) ↦ rw e refl
]

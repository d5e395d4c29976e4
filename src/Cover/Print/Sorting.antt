-- ===== src/Cover/Print/Sorting.antt =====
-- tools/cover/cover.go: profiles sorted by file names that differ are one list.
use scope_network.Prelude.{
  true, false, List, [], ◌∷◌, ◌≡◌, ◌⊎◌, inl, inr, refl, sym, ap, ◌∙◌, Option, none, some, arith,
  if◌then◌else◌, Bool-cases, All,
}
use mathlib.Core.Option.{some_inj}
use scope_network.Text.{Text, same, same_iff, same_refl}
use scope_network.Text.Order.{text_less, text_less_irrefl, text_less_trans, text_less_total}
use scope_network.Cover.{Profile}
use scope_network.Cover.Print.{insert_profile, sort_profiles}

-- The first profile of the file.
unfoldable pub profile_of : Text → List Profile → Option Profile
profile_of file [] = none
profile_of file (p ∷ ps) = if same p.file_name file then some p else profile_of file ps

abbrev pub Below : Text → List Profile → Type 0
Below file = All (λ p. text_less file p.file_name ≡ true)

-- The file names rise, so that none stands twice.
abbrev pub IsRising : List Profile → Type 0
IsRising [] = Unit
IsRising (p ∷ ps) = Below p.file_name ps × IsRising ps

Below-trans : (f g : Text) (ps : List Profile) → text_less f g ≡ true → Below g ps → Below f ps
Below-trans f g [] h _ = tt
Below-trans f g (p ∷ ps) h (b, bs) = (text_less_trans f g p.file_name h b, Below-trans f g ps h bs)

less-ne : (f g : Text) → text_less f g ≡ true → same g f ≡ false
less-ne f g h = elim (Bool-cases (same g f)) [
  | inl y ↦ let e : g ≡ f = (same_iff g f).0 y in absurd (cc (h, text_less_irrefl f, e))
  | inr n ↦ n
]

profile_of-Below : (file : Text) (ps : List Profile) → Below file ps → profile_of file ps ≡ none
unfolding profile_of
profile_of-Below file [] _ = refl
profile_of-Below file (p ∷ ps) (b, bs) =
    rw (less-ne file p.file_name b) (profile_of-Below file ps bs)

Below-insert_profile :
    (f : Text) (p : Profile) (ps : List Profile)
    → text_less f p.file_name ≡ true
    → Below f ps
    → Below f (insert_profile p ps)
unfolding insert_profile
Below-insert_profile f p [] h _ = (h, tt)
Below-insert_profile f p (q ∷ qs) h (b, bs) = ground (arith, Below-insert_profile f p qs h bs)

total : (f g : Text) → same f g ≡ false → text_less g f ≡ false → text_less f g ≡ true
total f g ne n = elim (text_less_total f g) [
  | inl y ↦ y
  | inr (inl e) ↦ let y : same f g ≡ true = (same_iff f g).1 e in absurd (cc (y, ne))
  | inr (inr y) ↦ absurd (cc (y, n))
]

found-Below :
    (low file : Text) (p : Profile) (ps : List Profile)
    → Below low ps
    → profile_of file ps ≡ some p
    → text_less low file ≡ true
unfolding profile_of
found-Below low file p [] _ e = cc
found-Below low file p (q ∷ qs) (b, bs) e = elim (Bool-cases (same q.file_name file)) [
  | inl y ↦ let eq : q.file_name ≡ file = (same_iff q.file_name file).0 y in rw (← eq) b
  | inr n ↦ found-Below low file p qs bs (rw n at e)
]

fresh-ne :
    (p q : Profile) (qs : List Profile)
    → profile_of p.file_name (q ∷ qs) ≡ none
    → (same q.file_name p.file_name ≡ false) × (profile_of p.file_name qs ≡ none)
unfolding profile_of
fresh-ne p q qs fresh = elim (Bool-cases (same q.file_name p.file_name)) [
  | inl y ↦ ground (arith, rw y at fresh)
  | inr n ↦ (n, rw n at fresh)
]

-- A name that is not in the list is put in its place.
insert_profile-IsRising :
    (p : Profile) (ps : List Profile)
    → profile_of p.file_name ps ≡ none
    → IsRising ps
    → IsRising (insert_profile p ps)
unfolding insert_profile
insert_profile-IsRising p [] fresh _ = (tt, tt)
insert_profile-IsRising p (q ∷ qs) fresh (b, bs) =
    elim (Bool-cases (text_less p.file_name q.file_name)) [
      | inl y ↦ rw y ((y, Below-trans p.file_name q.file_name qs y b), (b, bs))
      | inr n ↦
          let (ne, fresh') = fresh-ne p q qs fresh in
          let above : text_less q.file_name p.file_name ≡ true =
            total q.file_name p.file_name ne n in
          rw n
            (Below-insert_profile q.file_name p qs above b, insert_profile-IsRising p qs fresh' bs)
    ]

profile_of-insert_profile :
    (p : Profile) (ps : List Profile) (file : Text)
    → profile_of p.file_name ps ≡ none
    → profile_of file (insert_profile p ps)
      ≡ (if same p.file_name file then some p else profile_of file ps)
unfolding insert_profile profile_of
profile_of-insert_profile p [] file fresh = refl
profile_of-insert_profile p (q ∷ qs) file fresh =
    let (ne, fresh') = fresh-ne p q qs fresh in
    ground (
      arith,
      profile_of-insert_profile p qs file fresh',
      same_iff p.file_name file,
      same_iff q.file_name file,
      same_iff q.file_name p.file_name,
    )

head_of :
    (x y : Profile) (qs : List Profile)
    → Below y.file_name qs
    → profile_of x.file_name (y ∷ qs) ≡ some x
    → (x ≡ y) ⊎ (text_less y.file_name x.file_name ≡ true)
unfolding profile_of
head_of x y qs c h = elim (Bool-cases (same y.file_name x.file_name)) [
  | inl e ↦ let eq : y ≡ x = some_inj.0 (rw e at h) in inl (sym eq)
  | inr n ↦ inr (found-Below y.file_name x.file_name x qs c (rw n at h))
]

tails_agree :
    (x : Profile) (ps qs : List Profile)
    → Below x.file_name ps
    → Below x.file_name qs
    → ((file : Text) → profile_of file (x ∷ ps) ≡ profile_of file (x ∷ qs))
    → (file : Text) → profile_of file ps ≡ profile_of file qs
unfolding profile_of
tails_agree x ps qs b c h file = elim (Bool-cases (same x.file_name file)) [
  | inl y ↦
      let e : x.file_name ≡ file = (same_iff x.file_name file).0 y in
      rw (← e) (profile_of-Below x.file_name ps b ∙ sym (profile_of-Below x.file_name qs c))
  | inr n ↦ let this = h file in rw n at this
]

profile_of_head : (x : Profile) (ps : List Profile) → profile_of x.file_name (x ∷ ps) ≡ some x
unfolding profile_of
profile_of_head x ps = rw (same_refl x.file_name) refl

nothing_there :
    (x : Profile) (ps qs : List Profile)
    → profile_of x.file_name [] ≡ profile_of x.file_name (x ∷ ps)
    → [] ≡ qs
unfolding profile_of
nothing_there x ps qs e = let here = profile_of_head x ps in absurd (cc (e, here))

heads_agree :
    (x y : Profile)
    → (x ≡ y) ⊎ (text_less y.file_name x.file_name ≡ true)
    → (y ≡ x) ⊎ (text_less x.file_name y.file_name ≡ true)
    → x ≡ y
heads_agree x y (inl e) _ = e
heads_agree x y (inr _) (inl e) = sym e
heads_agree x y (inr a) (inr b) =
    absurd
      (cc (text_less_trans x.file_name y.file_name x.file_name b a, text_less_irrefl x.file_name))

-- Rising lists in which every file has the same profile are equal.
pub rising_unique :
    (ps qs : List Profile)
    → IsRising ps
    → IsRising qs
    → ((file : Text) → profile_of file ps ≡ profile_of file qs)
    → ps ≡ qs
rising_unique [] [] p q h = refl
rising_unique [] (y ∷ qs) p q h = nothing_there y qs (y ∷ qs) (h y.file_name)
rising_unique (x ∷ ps) [] p q h = sym (nothing_there x ps (x ∷ ps) (sym (h x.file_name)))
rising_unique (x ∷ ps) (y ∷ qs) (b, p) (c, q) h =
    let there = head_of x y qs c (sym (h x.file_name) ∙ profile_of_head x ps) in
    let back = head_of y x ps b (h y.file_name ∙ profile_of_head y qs) in
    let e : x ≡ y = heads_agree x y there back in
    let c' : Below x.file_name qs = rw e c in
    let h' : (file : Text) → profile_of file (x ∷ ps) ≡ profile_of file (x ∷ qs) =
      λ file. h file ∙ ap (λ z. profile_of file (z ∷ qs)) (sym e) in
    ap (λ z. z ∷ ps) e ∙ ap (λ zs. y ∷ zs) (rising_unique ps qs p q (tails_agree x ps qs b c' h'))

-- No two profiles are of the same file.
abbrev pub IsFresh : List Profile → Type 0
IsFresh [] = Unit
IsFresh (p ∷ ps) = (profile_of p.file_name ps ≡ none) × IsFresh ps

pub profile_of-sort_profiles :
    (ps : List Profile) (file : Text)
    → IsFresh ps
    → profile_of file (sort_profiles ps) ≡ profile_of file ps
unfolding sort_profiles profile_of
profile_of-sort_profiles [] file _ = refl
profile_of-sort_profiles (p ∷ ps) file (fresh, rest) =
    profile_of-insert_profile p (sort_profiles ps) file
      (profile_of-sort_profiles ps p.file_name rest ∙ fresh)
    ∙ ap (λ found. if same p.file_name file then some p else found)
        (profile_of-sort_profiles ps file rest)

pub sort_profiles-IsRising : (ps : List Profile) → IsFresh ps → IsRising (sort_profiles ps)
unfolding sort_profiles
sort_profiles-IsRising [] _ = tt
sort_profiles-IsRising (p ∷ ps) (fresh, rest) =
    insert_profile-IsRising p (sort_profiles ps)
      (profile_of-sort_profiles ps p.file_name rest ∙ fresh) (sort_profiles-IsRising ps rest)

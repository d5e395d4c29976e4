-- ===== src/Cover/Sources.antt =====
-- tools/cover/cover.go, `merge`: when the profiles are not of the same source.
use scope_network.Prelude.{
  true, false, List, [], ◌∷◌, ◌≡◌, ◌≢◌, ◌⊎◌, inl, inr, ◌↔◌, refl, arith, Bool-cases,
}
use scope_network.Errors.{Outcome, returns, panics, exits}
use scope_network.Cover.Merging.{Merged, no_left, no_right, both, left, right, merge_blocks-Merged}
use scope_network.Cover.Sorted.{StartsBefore, IsSorted, before_all, same_before_all}
use scope_network.Cover.{
  Block, same_start, starts_before, same_extent, add_counts, with_block, merge_blocks,
}

-- Two blocks that start together, and of which the ends or the numbers of statements differ.
abbrev pub Clash : Block → Block → Type 0
Clash b c = (same_start b c ≡ true) × (same_extent b c ≡ false)

abbrev pub ClashesIn : Block → List Block → Type 0
ClashesIn b [] = ⊥
ClashesIn b (c ∷ cs) = Clash b c ⊎ ClashesIn b cs

-- Some block of the one list clashes with some block of the other.
abbrev pub SomeClash : List Block → List Block → Type 0
SomeClash [] cs = ⊥
SomeClash (b ∷ bs) cs = ClashesIn b cs ⊎ SomeClash bs cs

not_later : (b : Block) (cs : List Block) → StartsBefore b cs → ¬ ClashesIn b cs
not_later b [] _ h = elim h [ ]
not_later b (c ∷ cs) (p, ps) (inl (e, z)) = ground arith
not_later b (c ∷ cs) (p, ps) (inr h) = not_later b cs ps h

-- A block that starts before all of the one list plays no part in a clash.
without :
    (c : Block) (bs cs : List Block) → StartsBefore c bs → SomeClash bs (c ∷ cs) → SomeClash bs cs
without c [] cs _ h = elim h [ ]
without c (b ∷ bs) cs (p, ps) (inl (inl (e, z))) = absurd (ground arith)
without c (b ∷ bs) cs (p, ps) (inl (inr h)) = inl h
without c (b ∷ bs) cs (p, ps) (inr h) = inr (without c bs cs ps h)

no_clash :
    (bs cs out : List Block) → Merged bs cs out → IsSorted bs → IsSorted cs → ¬ SomeClash bs cs
no_clash _ _ _ (no_left cs) p q h = h
no_clash _ _ _ (no_right b bs) p q h = nothing (b ∷ bs) h
  where
    nothing : (bs : List Block) → ¬ SomeClash bs []
    nothing [] h' = elim h' [ ]
    nothing (b ∷ bs) (inl h') = elim h' [ ]
    nothing (b ∷ bs) (inr h') = nothing bs h'
no_clash _ _ _ (both b c bs cs out e z m) (p, ps) (q, qs) (inl (inl (e', z'))) = ground arith
no_clash _ _ _ (both b c bs cs out e z m) (p, ps) (q, qs) (inl (inr h)) =
    not_later b cs (same_before_all b c cs e q) h
no_clash _ _ _ (both b c bs cs out e z m) (p, ps) (q, qs) (inr h) =
    no_clash bs cs out m ps qs (without c bs cs (same_before_all c b bs (ground arith) p) h)
no_clash _ _ _ (left b c bs cs out e m) (p, ps) (q, qs) (inl h) =
    not_later b (c ∷ cs) (e, before_all b c cs e q) h
no_clash _ _ _ (left b c bs cs out e m) (p, ps) (q, qs) (inr h) =
    no_clash bs (c ∷ cs) out m ps (q, qs) h
no_clash _ _ _ (right b c bs cs out e z m) (p, ps) (q, qs) h =
    let later : starts_before c b ≡ true = ground arith in
    no_clash (b ∷ bs) cs out m (p, ps) qs
      (without c (b ∷ bs) cs (later, before_all c b bs later p) h)

with_block-panics : (b : Block) (r : Outcome (List Block)) → with_block b r ≡ panics → r ≡ panics
with_block-panics b (returns bs) e = cc
with_block-panics b panics e = refl
with_block-panics b exits e = cc

more : (c : Block) (bs cs : List Block) → SomeClash bs cs → SomeClash bs (c ∷ cs)
more c [] cs h = elim h [ ]
more c (b ∷ bs) cs (inl h) = inl (inr h)
more c (b ∷ bs) cs (inr h) = inr (more c bs cs h)

clash_of_panics : (bs cs : List Block) → merge_blocks bs cs ≡ panics → SomeClash bs cs
unfolding merge_blocks
clash_of_panics [] cs e = cc
clash_of_panics (b ∷ bs) [] e = cc
clash_of_panics (b ∷ bs) (c ∷ cs) e = elim (Bool-cases (same_start b c)) [
  | inl y ↦ elim (Bool-cases (same_extent b c)) [
    | inl z ↦ inr (
        more c bs cs
          (clash_of_panics bs cs (with_block-panics (add_counts b c) _ (rw (y, z) at e))))
    | inr z ↦ inl (inl (y, z))
  ]
  | inr y ↦ elim (Bool-cases (starts_before b c)) [
    | inl z ↦ inr (clash_of_panics bs (c ∷ cs) (with_block-panics b _ (rw (y, z) at e)))
    | inr z ↦
        more c (b ∷ bs) cs (clash_of_panics (b ∷ bs) cs (with_block-panics c _ (rw (y, z) at e)))
  ]
]

with_block-ne-exits : (b : Block) (r : Outcome (List Block)) → r ≢ exits → with_block b r ≢ exits
with_block-ne-exits b (returns bs) h e = cc
with_block-ne-exits b panics h e = cc
with_block-ne-exits b exits h e = h refl

merge_blocks-ne-exits : (bs cs : List Block) → merge_blocks bs cs ≢ exits
unfolding merge_blocks
merge_blocks-ne-exits [] cs = cc
merge_blocks-ne-exits (b ∷ bs) [] = cc
merge_blocks-ne-exits (b ∷ bs) (c ∷ cs) = ground (
  arith,
  with_block-ne-exits (add_counts b c) (merge_blocks bs cs) (merge_blocks-ne-exits bs cs),
  with_block-ne-exits b (merge_blocks bs (c ∷ cs)) (merge_blocks-ne-exits bs (c ∷ cs)),
  with_block-ne-exits c (merge_blocks (b ∷ bs) cs) (merge_blocks-ne-exits (b ∷ bs) cs),
)

-- Of profiles whose blocks are sorted by their starts, none twice, the merge panics exactly when a
-- block of the one and a block of the other start together and differ in their ends or in their
-- numbers of statements.
pub merge_panics_iff :
    (bs cs : List Block)
    → IsSorted bs
    → IsSorted cs
    → (merge_blocks bs cs ≡ panics) ↔ SomeClash bs cs
merge_panics_iff bs cs p q = (clash_of_panics bs cs, λ h. go (merge_blocks bs cs) refl h)
  where
    go : (r : Outcome (List Block)) → merge_blocks bs cs ≡ r → SomeClash bs cs → r ≡ panics
    go (returns out) e h = absurd (no_clash bs cs out (merge_blocks-Merged bs cs out e) p q h)
    go panics e h = refl
    go exits e h = absurd (merge_blocks-ne-exits bs cs e)

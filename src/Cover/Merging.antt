-- ===== src/Cover/Merging.antt =====
-- tools/cover/cover.go, `merge`: the rounds of a merge that does not panic.
use scope_network.Prelude.{
  true, false, List, [], ◌∷◌, ◌≡◌, refl, subst, arith, Bool-cases, inl, inr,
}
use scope_network.Errors.{Outcome, returns, panics, exits}
use scope_network.Cover.{
  Block, same_start, starts_before, same_extent, add_counts, with_block, merge_blocks, and_then,
}

pub and_then_returns :
    {A B : Type 0} (r : Outcome A) (f : A → Outcome B) (b : B)
    → and_then r f ≡ returns b
    → (a : A) × (r ≡ returns a) × (f a ≡ returns b)
and_then_returns (returns a) f b e = (a, refl, e)
and_then_returns panics f b e = cc
and_then_returns exits f b e = cc

pub data Merged : List Block → List Block → List Block → Type 0 where
  no_left : (cs : List Block) → Merged [] cs cs
  no_right : (b : Block) (bs : List Block) → Merged (b ∷ bs) [] (b ∷ bs)
  both :
      (b c : Block) (bs cs out : List Block)
      → same_start b c ≡ true
      → same_extent b c ≡ true
      → Merged bs cs out
      → Merged (b ∷ bs) (c ∷ cs) (add_counts b c ∷ out)
  left :
      (b c : Block) (bs cs out : List Block)
      → starts_before b c ≡ true
      → Merged bs (c ∷ cs) out
      → Merged (b ∷ bs) (c ∷ cs) (b ∷ out)
  right :
      (b c : Block) (bs cs out : List Block)
      → same_start b c ≡ false
      → starts_before b c ≡ false
      → Merged (b ∷ bs) cs out
      → Merged (b ∷ bs) (c ∷ cs) (c ∷ out)

with_block_returns :
    (b : Block) (r : Outcome (List Block)) (out : List Block)
    → with_block b r ≡ returns out
    → (bs : List Block) × (r ≡ returns bs) × (b ∷ bs ≡ out)
with_block_returns b (returns bs) out e = (bs, refl, cc)
with_block_returns b panics out e = cc
with_block_returns b exits out e = cc

pub merge_blocks-Merged :
    (bs cs out : List Block) → merge_blocks bs cs ≡ returns out → Merged bs cs out
unfolding merge_blocks
merge_blocks-Merged [] cs out e = subst (Merged [] cs) (cc e) (no_left cs)
merge_blocks-Merged (b ∷ bs) [] out e = subst (Merged (b ∷ bs) []) (cc e) (no_right b bs)
merge_blocks-Merged (b ∷ bs) (c ∷ cs) out e = elim (Bool-cases (same_start b c)) [
  | inl y ↦ elim (Bool-cases (same_extent b c)) [
    | inl z ↦
        let (rest, e', eq) =
          with_block_returns (add_counts b c) (merge_blocks bs cs) out (rw (y, z) at e) in
        subst (Merged (b ∷ bs) (c ∷ cs)) eq
          (both b c bs cs rest y z (merge_blocks-Merged bs cs rest e'))
    | inr z ↦ ground (arith, rw (y, z) at e)
  ]
  | inr y ↦ elim (Bool-cases (starts_before b c)) [
    | inl z ↦
        let (rest, e', eq) = with_block_returns b (merge_blocks bs (c ∷ cs)) out (rw (y, z) at e) in
        subst (Merged (b ∷ bs) (c ∷ cs)) eq
          (left b c bs cs rest z (merge_blocks-Merged bs (c ∷ cs) rest e'))
    | inr z ↦
        let (rest, e', eq) = with_block_returns c (merge_blocks (b ∷ bs) cs) out (rw (y, z) at e) in
        subst (Merged (b ∷ bs) (c ∷ cs)) eq
          (right b c bs cs rest y z (merge_blocks-Merged (b ∷ bs) cs rest e'))
  ]
]

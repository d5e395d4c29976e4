-- ===== src/Cover/Sorted.antt =====
-- tools/cover/cover.go, `merge`: the order of the blocks.
use scope_network.Prelude.{true, List, [], ◌∷◌, ◌≡◌, arith, All}
use scope_network.Errors.{returns}
use scope_network.Cover.Merging.{Merged, no_left, no_right, both, left, right, merge_blocks-Merged}
use scope_network.Cover.{Block, same_start, starts_before, merge_blocks}

-- The block starts before all of the list.
abbrev pub StartsBefore : Block → List Block → Type 0
StartsBefore b = All (λ c. starts_before b c ≡ true)

-- Each block starts before all that follow it.
abbrev pub IsSorted : List Block → Type 0
IsSorted [] = Unit
IsSorted (b ∷ bs) = StartsBefore b bs × IsSorted bs

before_trans :
    (a b c : Block) → starts_before a b ≡ true → starts_before b c ≡ true → starts_before a c ≡ true
before_trans a b c p q = ground arith

pub before_all :
    (a b : Block) (bs : List Block)
    → starts_before a b ≡ true
    → StartsBefore b bs
    → StartsBefore a bs
before_all a b [] p _ = tt
before_all a b (c ∷ bs) p (q, all) = (before_trans a b c p q, before_all a b bs p all)

pub same_before_all :
    (b c : Block) (bs : List Block) → same_start b c ≡ true → StartsBefore c bs → StartsBefore b bs
same_before_all b c [] e _ = tt
same_before_all b c (d ∷ bs) e (q, all) = (ground arith, same_before_all b c bs e all)

StartsBefore-Merged :
    (a : Block) (bs cs out : List Block)
    → Merged bs cs out
    → StartsBefore a bs
    → StartsBefore a cs
    → StartsBefore a out
StartsBefore-Merged a _ _ _ (no_left cs) p q = q
StartsBefore-Merged a _ _ _ (no_right b bs) p q = p
StartsBefore-Merged a _ _ _ (both b c bs cs out e z m) (p, ps) (q, qs) =
    (p, StartsBefore-Merged a bs cs out m ps qs)
StartsBefore-Merged a _ _ _ (left b c bs cs out e m) (p, ps) q =
    (p, StartsBefore-Merged a bs (c ∷ cs) out m ps q)
StartsBefore-Merged a _ _ _ (right b c bs cs out e z m) p (q, qs) =
    (q, StartsBefore-Merged a (b ∷ bs) cs out m p qs)

Merged-IsSorted :
    (bs cs out : List Block) → Merged bs cs out → IsSorted bs → IsSorted cs → IsSorted out
Merged-IsSorted _ _ _ (no_left cs) p q = q
Merged-IsSorted _ _ _ (no_right b bs) p q = p
Merged-IsSorted _ _ _ (both b c bs cs out e z m) (p, ps) (q, qs) = (
  StartsBefore-Merged b bs cs out m p (same_before_all b c cs e q),
  Merged-IsSorted bs cs out m ps qs,
)
Merged-IsSorted _ _ _ (left b c bs cs out e m) (p, ps) (q, qs) = (
  StartsBefore-Merged b bs (c ∷ cs) out m p (e, before_all b c cs e q),
  Merged-IsSorted bs (c ∷ cs) out m ps (q, qs),
)
Merged-IsSorted _ _ _ (right b c bs cs out e z m) (p, ps) (q, qs) =
    let later : starts_before c b ≡ true = ground arith in
    (
      StartsBefore-Merged c (b ∷ bs) cs out m (later, before_all c b bs later p) q,
      Merged-IsSorted (b ∷ bs) cs out m (p, ps) qs,
    )

-- The merge of two profiles whose blocks are sorted by their starts, none twice, is so sorted.
pub merge_blocks-IsSorted :
    (bs cs out : List Block)
    → IsSorted bs
    → IsSorted cs
    → merge_blocks bs cs ≡ returns out
    → IsSorted out
merge_blocks-IsSorted bs cs out p q e =
    Merged-IsSorted bs cs out (merge_blocks-Merged bs cs out e) p q

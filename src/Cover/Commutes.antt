-- ===== src/Cover/Commutes.antt =====
-- tools/cover/cover.go, `merge`: the order of the two profiles.
use scope_network.Prelude.{List, [], ◌∷◌, ◌≡◌, refl, arith}
use scope_network.Cover.{Block, merge_blocks}

-- The merged blocks, and whether merging panics, do not depend on which list comes first.
merge_blocks_comm : (bs cs : List Block) → merge_blocks bs cs ≡ merge_blocks cs bs
unfolding merge_blocks
merge_blocks_comm [] [] = refl
merge_blocks_comm [] (c ∷ cs) = refl
merge_blocks_comm (b ∷ bs) [] = refl
merge_blocks_comm (b ∷ bs) (c ∷ cs) =
    ground
      (arith, merge_blocks_comm bs cs, merge_blocks_comm bs (c ∷ cs), merge_blocks_comm (b ∷ bs) cs)

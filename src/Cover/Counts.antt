-- ===== src/Cover/Counts.antt =====
-- tools/cover/cover.go, `merge`: how often a block was run.
use scope_network.Prelude.{
  ℕ, ◌+◌, ◌%◌, ◌^◌, Bool, true, ◌&&◌, List, [], ◌∷◌, ◌≡◌, arith, ◌==◌, if◌then◌else◌,
}
use scope_network.Errors.{returns}
use scope_network.Cover.Merging.{Merged, no_left, no_right, both, left, right, merge_blocks-Merged}
use scope_network.Cover.{Block, same_start, merge_blocks}

abbrev pub starts_at : ℕ → ℕ → Block → Bool
starts_at line col b = b.start_line == line && b.start_col == col

-- The counts of the blocks that start at a position, added up.
abbrev pub count_at : ℕ → ℕ → List Block → ℕ
count_at line col [] = 0
count_at line col (b ∷ bs) = (if starts_at line col b then b.count else 0) + count_at line col bs

starts_at_same :
    (line col : ℕ) (b c : Block)
    → same_start b c ≡ true
    → starts_at line col b ≡ starts_at line col c
starts_at_same line col b c e = ground arith

count_at-Merged :
    (bs cs out : List Block) (line col : ℕ)
    → Merged bs cs out
    → count_at line col out % 2 ^ 64 ≡ (count_at line col bs + count_at line col cs) % 2 ^ 64
count_at-Merged _ _ _ line col (no_left cs) = omega arith
count_at-Merged _ _ _ line col (no_right b bs) = omega arith
count_at-Merged _ _ _ line col (both b c bs cs out e z m) =
    ground (arith, count_at-Merged bs cs out line col m, starts_at_same line col b c e)
count_at-Merged _ _ _ line col (left b c bs cs out e m) =
    omega (arith, count_at-Merged bs (c ∷ cs) out line col m)
count_at-Merged _ _ _ line col (right b c bs cs out e z m) =
    omega (arith, count_at-Merged (b ∷ bs) cs out line col m)

-- At every position the merged count is the sum of both, as an `int` adds: modulo 2 ^ 64.
pub count_at-merge_blocks :
    (bs cs out : List Block) (line col : ℕ)
    → merge_blocks bs cs ≡ returns out
    → count_at line col out % 2 ^ 64 ≡ (count_at line col bs + count_at line col cs) % 2 ^ 64
count_at-merge_blocks bs cs out line col e =
    count_at-Merged bs cs out line col (merge_blocks-Merged bs cs out e)

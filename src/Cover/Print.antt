-- ===== src/Cover/Print.antt =====
-- tools/cover/cover.go: the profiles of the map, sorted by their file names, and `print`.
pub mod Sorting
pub mod AnyOrder
use scope_network.Prelude.{ℕ, ◌-◌, ◌^◌, Bool, true, false, List, [], ◌∷◌, ◌++◌, ltb, if◌then◌else◌}
use scope_network.Prelude.Int.{ℤ, pos, negsuc}
use scope_network.Text.{Text, codes}
use scope_network.Text.Order.{text_less}
use scope_network.Text.Decimal.{itoa, format_int}
use scope_network.Dict.{Dict}
use scope_network.Errors.{Result, Outcome, returns, panics, exits}
use scope_network.Cover.{Block, Profile, merge_inputs, and_then}

abbrev pub values : Dict Profile → List Profile
values [] = []
values ((file, p) ∷ output) = p ∷ values output

-- `sort.Sort(byFileName(profiles))`. The file names differ, so that the result does not depend on
-- the algorithm.
unfoldable pub insert_profile : Profile → List Profile → List Profile
insert_profile p [] = p ∷ []
insert_profile p (q ∷ qs) =
    if text_less p.file_name q.file_name then p ∷ q ∷ qs else q ∷ insert_profile p qs

unfoldable pub sort_profiles : List Profile → List Profile
unfolding insert_profile
sort_profiles [] = []
sort_profiles (p ∷ ps) = insert_profile p (sort_profiles ps)

-- The `int` of 64 bits that the residue stands for.
abbrev pub signed : ℕ → ℤ
signed n = if ltb n (2 ^ 63) then pos n else negsuc (2 ^ 64 - n - 1)

-- "%s:%d.%d,%d.%d %d %d"
unfoldable pub block_line : Text → Block → Text
unfolding itoa format_int
block_line file b =
    file
    ++ (codes ":"
        ++ (itoa b.start_line
            ++ (codes "."
                ++ (itoa b.start_col
                    ++ (codes ","
                        ++ (itoa b.end_line
                            ++ (codes "."
                                ++ (itoa b.end_col
                                    ++ (codes " "
                                        ++ (itoa b.num_stmt
                                            ++ (codes " " ++ format_int (signed b.count))))))))))))

abbrev pub block_lines : Text → List Block → List Text
block_lines file [] = []
block_lines file (b ∷ bs) = block_line file b ∷ block_lines file bs

abbrev pub profile_lines : List Profile → List Text
profile_lines [] = []
profile_lines (p ∷ ps) = block_lines p.file_name p.blocks ++ profile_lines ps

unfoldable pub print : List Profile → List Text
unfolding block_line
print ps = codes "mode: atomic" ∷ profile_lines ps

-- `main`: `shuffle` is the order of the iteration over the map.
unfoldable pub main :
    (Dict Profile → Dict Profile) → List (Result (List Profile)) → Outcome (List Text)
unfolding merge_inputs sort_profiles print
main shuffle inputs =
    and_then (merge_inputs inputs [])
      λ output. returns (print (sort_profiles (values (shuffle output))))

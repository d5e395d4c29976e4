-- ===== src/Tests/Profiles.antt =====
-- tools/cover/cover.go at concrete values.
use scope_network.Prelude.{ℕ, ◌+◌, ◌%◌, ◌^◌, List, [], ◌∷◌, ◌≡◌, ◌↔◌, refl, arith}
use scope_network.Text.{Text, codes, same, same_iff}
use scope_network.Dict
use scope_network.Dict.{Dict, Distinct, IsIterationOrder}
use scope_network.Errors.{Result, ok, panics}
use scope_network.Cover.{Block, Profile, merge_blocks, merge_inputs}
use scope_network.Cover.Sorted.{IsSorted, merge_blocks-IsSorted}
use scope_network.Cover.Sources.{merge_panics_iff, SomeClash}
use scope_network.Cover.Print.{main}
use scope_network.Cover.Print.AnyOrder.{main_any_order}
use scope_network.Cover.Files.{all_counts, count_in}

abbrev block : ℕ → ℕ → ℕ → Block
block line statements times = record {
  start_line = line;
  start_col = 2;
  end_line = line + 3;
  end_col = 1;
  num_stmt = statements;
  count = times;
}

abbrev first_run : List Block
first_run = block 3 1 2 ∷ block 9 1 0 ∷ []

abbrev second_run : List Block
second_run = block 3 1 5 ∷ block 12 2 1 ∷ []

abbrev both_runs : List Block
both_runs = block 3 1 7 ∷ block 9 1 0 ∷ block 12 2 1 ∷ []

abbrev other_source : List Block
other_source = block 3 4 1 ∷ []

merge_blocks-IsSorted_example : IsSorted both_runs
unfolding merge_blocks
merge_blocks-IsSorted_example =
    merge_blocks-IsSorted first_run second_run both_runs (((refl, tt), (tt, tt)))
      (((refl, tt), (tt, tt))) refl

merge_panics_iff_example :
    (merge_blocks first_run other_source ≡ panics) ↔ SomeClash first_run other_source
merge_panics_iff_example =
    merge_panics_iff first_run other_source (((refl, tt), (tt, tt))) ((tt, tt))

abbrev main_go : Text
main_go = codes "main.go"

abbrev run_of : List Block → Result (List Profile)
run_of blocks = ok (record { file_name = main_go; mode = codes "atomic"; blocks = blocks } ∷ [])

all_counts_example :
    count_in main_go 3 2
        ((main_go, record { file_name = main_go; mode = codes "atomic"; blocks = both_runs }) ∷ [])
      % 2 ^ 64
    ≡ 7
unfolding merge_inputs Dict.lookup Dict.insert same
all_counts_example =
    all_counts (run_of first_run ∷ run_of second_run ∷ [])
      ((main_go, record { file_name = main_go; mode = codes "atomic"; blocks = both_runs }) ∷ [])
      main_go 3 2 refl

-- The order of a map with two entries is turned round.
abbrev swapped : Dict Profile → Dict Profile
swapped (a ∷ b ∷ []) = b ∷ a ∷ []
swapped m = m

swapped-IsIterationOrder : IsIterationOrder swapped
unfolding Dict.lookup
swapped-IsIterationOrder = record { once = once; visits = visits }
  where
    once : (m : Dict Profile) → Distinct m → Distinct (swapped m)
    once [] d = d
    once (a ∷ []) d = d
    once ((j, v) ∷ (k, w) ∷ []) d = ground (arith, d, same_iff j k, same_iff k j)
    once (a ∷ b ∷ c ∷ m) d = d

    visits :
        (m : Dict Profile) (k : Text) → Distinct m → Dict.lookup k (swapped m) ≡ Dict.lookup k m
    visits [] i d = refl
    visits (a ∷ []) i d = refl
    visits ((j, v) ∷ (k, w) ∷ []) i d = ground (arith, d, same_iff j i, same_iff k i, same_iff k j)
    visits (a ∷ b ∷ c ∷ m) i d = refl

same_order-IsIterationOrder : IsIterationOrder {V = Profile} (λ m. m)
same_order-IsIterationOrder = record { once = λ m d. d; visits = λ m k d. refl }

abbrev two_files : List (Result (List Profile))
two_files =
    run_of first_run
    ∷ ok (record { file_name = codes "api.go"; mode = codes "atomic"; blocks = second_run } ∷ [])
    ∷ []

main_any_order_example : main (λ m. m) two_files ≡ main swapped two_files
main_any_order_example =
    main_any_order (λ m. m) swapped two_files same_order-IsIterationOrder swapped-IsIterationOrder

-- ===== src/Cover.antt =====
-- tools/cover/cover.go: the coverage profiles of several runs, merged. The profiles as they are read
-- (golang.org/x/tools/cover) are an argument.
pub mod Commutes
pub mod Counts
pub mod Sorted
pub mod Sources
pub mod Merging
pub mod Files
pub mod Print
use scope_network.Prelude.{
  ℕ, ◌+◌, ◌%◌, ◌^◌, Bool, true, false, ◌&&◌, ◌||◌, List, [], ◌∷◌, Option, none, some, ltb, ◌==◌,
  if◌then◌else◌, map,
}
use scope_network.Text.{Text}
use scope_network.Dict
use scope_network.Dict.{Dict}
use scope_network.Errors.{Error, Result, ok, err, Outcome, returns, panics, exits}

-- The library's `ProfileBlock`. It reads every number from digits; `count` is the `int` of 64 bits
-- modulo 2 ^ 64.
pub record Block : Type 0 where
  pub start_line : ℕ
  pub start_col : ℕ
  pub end_line : ℕ
  pub end_col : ℕ
  pub num_stmt : ℕ
  pub count : ℕ

pub record Profile : Type 0 where
  pub file_name : Text
  pub mode : Text
  pub blocks : List Block

-- Both conditions on the starts of two blocks, and that on the rest of blocks that start together.
abbrev pub same_start : Block → Block → Bool
same_start b c = b.start_line == c.start_line && b.start_col == c.start_col

abbrev pub starts_before : Block → Block → Bool
starts_before b c =
    ltb b.start_line c.start_line || (b.start_line == c.start_line && ltb b.start_col c.start_col)

abbrev pub same_extent : Block → Block → Bool
same_extent b c = b.end_line == c.end_line && (b.end_col == c.end_col && b.num_stmt == c.num_stmt)

abbrev pub add_counts : Block → Block → Block
add_counts b c = record b { count = (b.count + c.count) % 2 ^ 64 }

abbrev pub with_block : Block → Outcome (List Block) → Outcome (List Block)
with_block b (returns bs) = returns (b ∷ bs)
with_block b panics = panics
with_block b exits = exits

-- The three loops of `merge`.
unfoldable pub merge_blocks : List Block → List Block → Outcome (List Block)
merge_blocks [] cs = returns cs
merge_blocks (b ∷ bs) [] = returns (b ∷ bs)
merge_blocks (b ∷ bs) (c ∷ cs) =
    let both = merge_blocks bs cs in
    let left = merge_blocks bs (c ∷ cs) in
    let right = merge_blocks (b ∷ bs) cs in
    if same_start b c
    then (if same_extent b c then with_block (add_counts b c) both else panics)
    else if starts_before b c
    then with_block b left
    else with_block c right

abbrev pub with_blocks : Profile → Outcome (List Block) → Outcome Profile
with_blocks p (returns bs) = returns (record p { blocks = bs })
with_blocks p panics = panics
with_blocks p exits = exits

unfoldable pub merge : Profile → Profile → Outcome Profile
unfolding merge_blocks
merge p q = with_blocks p (merge_blocks p.blocks q.blocks)

abbrev pub merge_found : Option Profile → Profile → Outcome Profile
merge_found none ip = returns ip
merge_found (some op) ip = merge op ip

abbrev pub and_then {ℓ κ} : {A : Type ℓ} {B : Type κ} → Outcome A → (A → Outcome B) → Outcome B
and_then (returns a) f = f a
and_then panics f = panics
and_then exits f = exits

-- The profiles of one input, put under their file names.
unfoldable pub merge_profiles : List Profile → Dict Profile → Outcome (Dict Profile)
unfolding merge
merge_profiles [] output = returns output
merge_profiles (ip ∷ ips) output =
    and_then (merge_found (Dict.lookup ip.file_name output) ip)
      λ p. merge_profiles ips (Dict.insert ip.file_name p output)

abbrev pub merge_input :
    Result (List Profile)
    → Dict Profile
    → (Dict Profile → Outcome (Dict Profile))
    → Outcome (Dict Profile)
merge_input (err e) output rest = panics
merge_input (ok ips) output rest = and_then (merge_profiles ips output) rest

-- The loop of `main` over its arguments, each as the library parses it.
unfoldable pub merge_inputs : List (Result (List Profile)) → Dict Profile → Outcome (Dict Profile)
unfolding merge_profiles
merge_inputs [] output = returns output
merge_inputs (input ∷ inputs) output = merge_input input output (merge_inputs inputs)

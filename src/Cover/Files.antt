-- ===== src/Cover/Files.antt =====
-- tools/cover/cover.go, `main`: the counts of all inputs, file by file.
use scope_network.Prelude.{
  ℕ, ◌+◌, ◌%◌, ◌^◌, List, [], ◌∷◌, ◌≡◌, refl, Option, none, some, arith, if◌then◌else◌, Bool-cases,
  inl, inr,
}
use scope_network.Text.{Text, same, same_iff}
use scope_network.Dict
use scope_network.Dict.{Dict}
use scope_network.Dict.Laws.{lookup-insert}
use scope_network.Errors.{Result, ok, err, Outcome, returns, panics, exits, from_returns}
use scope_network.Cover.Merging.{and_then_returns}
use scope_network.Cover.Counts.{count_at, count_at-merge_blocks}
use scope_network.Cover.{
  Block, Profile, merge_blocks, with_blocks, merge, merge_found, merge_profiles, merge_inputs,
}

module _ (file : Text) (line col : ℕ) where
  abbrev pub count_found : Option Profile → ℕ
  count_found none = 0
  count_found (some p) = count_at line col p.blocks

  -- The count of the position in the file's profile, 0 where there is none.
  abbrev pub count_in : Dict Profile → ℕ
  count_in output = count_found (Dict.lookup file output)

  -- The counts of the position in the profiles of the file.
  abbrev pub count_of_profiles : List Profile → ℕ
  count_of_profiles [] = 0
  count_of_profiles (p ∷ ps) =
      (if same p.file_name file then count_at line col p.blocks else 0) + count_of_profiles ps

  abbrev pub count_of_input : Result (List Profile) → ℕ
  count_of_input (ok ps) = count_of_profiles ps
  count_of_input (err e) = 0

  abbrev pub count_of_inputs : List (Result (List Profile)) → ℕ
  count_of_inputs [] = 0
  count_of_inputs (input ∷ inputs) = count_of_input input + count_of_inputs inputs

  with_blocks_count :
      (p q out : Profile) (r : Outcome (List Block))
      → merge_blocks p.blocks q.blocks ≡ r
      → with_blocks p r ≡ returns out
      → count_at line col out.blocks % 2 ^ 64
        ≡ (count_at line col p.blocks + count_at line col q.blocks) % 2 ^ 64
  with_blocks_count p q out (returns bs) e f =
      let eq : record p { blocks = bs } ≡ out = from_returns f in
      rw (← eq) (count_at-merge_blocks p.blocks q.blocks bs line col e)
  with_blocks_count p q out panics e f = cc
  with_blocks_count p q out exits e f = cc

  merge_found_count :
      (found : Option Profile) (ip out : Profile)
      → merge_found found ip ≡ returns out
      → count_at line col out.blocks % 2 ^ 64
        ≡ (count_found found + count_at line col ip.blocks) % 2 ^ 64
  unfolding merge
  merge_found_count none ip out e = let eq : ip ≡ out = from_returns e in rw (← eq) (omega arith)
  merge_found_count (some op) ip out e =
      with_blocks_count op ip out (merge_blocks op.blocks ip.blocks) refl e

  count_in-insert :
      (ip p : Profile) (output : Dict Profile)
      → merge_found (Dict.lookup ip.file_name output) ip ≡ returns p
      → count_in (Dict.insert ip.file_name p output) % 2 ^ 64
        ≡ (count_in output + (if same ip.file_name file then count_at line col ip.blocks else 0))
          % 2 ^ 64
  count_in-insert ip p output e = elim (Bool-cases (same ip.file_name file)) [
    | inl y ↦
        let key : ip.file_name ≡ file = (same_iff ip.file_name file).0 y in
        let sum = merge_found_count (Dict.lookup ip.file_name output) ip p e in
        rw (lookup-insert ip.file_name file p output, y) (rw key at sum)
    | inr ne ↦ rw (lookup-insert ip.file_name file p output, ne) (omega arith)
  ]

  count_in-merge_profiles :
      (ips : List Profile) (output out : Dict Profile)
      → merge_profiles ips output ≡ returns out
      → count_in out % 2 ^ 64 ≡ (count_in output + count_of_profiles ips) % 2 ^ 64
  unfolding merge_profiles
  count_in-merge_profiles [] output out e =
      let eq : output ≡ out = from_returns e in rw (← eq) (omega arith)
  count_in-merge_profiles (ip ∷ ips) output out e =
      let (p, e₀, e₁) =
        and_then_returns (merge_found (Dict.lookup ip.file_name output) ip) _ out e in
      omega (
        arith,
        count_in-insert ip p output e₀,
        count_in-merge_profiles ips (Dict.insert ip.file_name p output) out e₁,
      )

  count_in-merge_inputs :
      (inputs : List (Result (List Profile))) (output out : Dict Profile)
      → merge_inputs inputs output ≡ returns out
      → count_in out % 2 ^ 64 ≡ (count_in output + count_of_inputs inputs) % 2 ^ 64
  unfolding merge_inputs
  count_in-merge_inputs [] output out e =
      let eq : output ≡ out = from_returns e in rw (← eq) (omega arith)
  count_in-merge_inputs (err x ∷ inputs) output out e = cc
  count_in-merge_inputs (ok ips ∷ inputs) output out e =
      let (mid, e₀, e₁) =
        and_then_returns (merge_profiles ips output) (merge_inputs inputs) out e in
      omega
        (arith, count_in-merge_profiles ips output mid e₀, count_in-merge_inputs inputs mid out e₁)

-- What `main` merges, if it does not panic, has at every position of every file the sum of the
-- counts there in all inputs, as an `int` adds: modulo 2 ^ 64.
pub all_counts :
    (inputs : List (Result (List Profile))) (out : Dict Profile) (file : Text) (line col : ℕ)
    → merge_inputs inputs [] ≡ returns out
    → count_in file line col out % 2 ^ 64 ≡ count_of_inputs file line col inputs % 2 ^ 64
unfolding Dict.lookup
all_counts inputs out file line col e =
    omega (arith, count_in-merge_inputs file line col inputs [] out e)

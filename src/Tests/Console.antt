-- ===== src/Tests/Console.antt =====
-- The console of tools/runner/runner.go at concrete values.
use scope_network.Prelude.{ℕ, ◌+◌, true, false, List, [], ◌∷◌, ◌++◌, ◌≡◌, ◌⊎◌, refl, none, some}
use scope_network.Text.{codes}
use scope_network.Errors.{external}
use scope_network.Runner.Picking.{total}
use scope_network.Runner.Run.{
  Line, running, finished_with_error, output, empty_line, scheduler_error, ended,
}
use scope_network.Runner.Console.{
  alone, Launch, Shared, begin, Step, lock, print, unlock, print_alone, Reach, here, next,
  parts_of_run,
}
use scope_network.Runner.Console.Blocks.{concat}
use scope_network.Runner.Console.Whole.{IsDone, all_blocks, blocks_together, all_printed}
use scope_network.Runner.Console.Progress.{console_never_stuck}

-- A test that fails, and of which the scheduler cannot be told.
abbrev failing : Launch
failing = record {
  name = codes "a_test.sh";
  hosts = codes "h1" ∷ [];
  attempt = record {
    wait = ended (some (external (codes "exit status 1")));
    output = codes "no route";
    duration = 5;
  };
  answer = some (external (codes "timeout"));
}

abbrev first_line : Line
first_line = running (codes "a_test.sh") (codes "h1" ∷ [])

abbrev end_block : List Line
end_block =
    finished_with_error (codes "a_test.sh") 5 (external (codes "exit status 1"))
    ∷ output (codes "no route")
    ∷ empty_line
    ∷ []

abbrev told_error : Line
told_error = scheduler_error (external (codes "timeout"))

abbrev one : List Launch
one = failing ∷ []

-- The test was said to run, and its end is about to be printed.
abbrev midway : Shared
midway = record {
  held = true;
  console = first_line ∷ [];
  routines =
      (record { current = some end_block; parts = alone (external (codes "timeout")) ∷ [] }) ∷ [];
}

midway-Reach : Reach (begin false true one) midway
unfolding parts_of_run
midway-Reach =
    next
      (next
        (next (next here (lock [] (first_line ∷ []) _ [] refl refl refl))
          (print [] first_line [] _ [] refl refl))
        (unlock [] _ [] refl refl))
      (lock [] end_block _ [] refl refl refl)

abbrev finished : Shared
finished = record {
  held = false;
  console = first_line ∷ end_block ++ told_error ∷ [];
  routines = (record { current = none; parts = [] }) ∷ [];
}

finished-Reach : Reach (begin false true one) finished
finished-Reach =
    next
      (next
        (next (next (next midway-Reach (print [] _ _ _ [] refl refl)) (print [] _ _ _ [] refl refl))
          (print [] empty_line [] _ [] refl refl))
        (unlock [] _ [] refl refl))
      (print_alone [] (external (codes "timeout")) [] [] refl refl)

blocks_together_example :
    (done left : List (List Line)) × (printed : List Line) × (first_line ∷ []
      ≡ concat done ++ printed)
    × ((printed ≡ [])
        ⊎ ((rest : List Line) × (others : List (List Line)) × (left ≡ (printed ++ rest) ∷ others)))
    × ((g : List Line → ℕ) → total g done + total g left ≡ total g (all_blocks false true one))
blocks_together_example = blocks_together false true one midway midway-Reach

all_printed_example :
    (done : List (List Line)) × (first_line ∷ end_block ≡ concat done)
    × ((g : List Line → ℕ) → total g done ≡ total g (all_blocks false true one))
all_printed_example = all_printed false true one finished finished-Reach ((refl, refl), tt)

console_never_stuck_example : IsDone midway ⊎ ((u : Shared) × Step midway u)
console_never_stuck_example = console_never_stuck false true one midway midway-Reach

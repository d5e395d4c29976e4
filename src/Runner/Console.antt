-- ===== src/Runner/Console.antt =====
-- tools/runner/runner.go: the goroutines of `parallel`, of which each runs a test, at the console and
-- its lock. A step is one call of Lock, Unlock or Print. That a goroutine starts only when hosts are
-- free leaves fewer orders than the steps here.
pub mod Blocks
pub mod Steps
pub mod Whole
pub mod Alone
pub mod Progress
use scope_network.Prelude.{
  Bool, true, false, ◌&&◌, List, [], ◌∷◌, ◌++◌, ◌≡◌, Option, none, some, map, if◌then◌else◌,
}
use scope_network.Text.{Text}
use scope_network.Errors.{Error}
use scope_network.Runner.Run.{
  Line, running, scheduler_error, Attempt, error_of, is_error, report_lines,
}

-- What is left of `run`: blocks of lines that it prints under the lock, and an error of the scheduler,
-- which it prints without.
pub data Part : Type 0 where
  block : List Line → Part
  alone : Error → Part

-- `current` has the lines that it has yet to print under the lock that it holds.
pub record Routine : Type 0 where
  pub current : Option (List Line)
  pub parts : List Part

-- A test, its hosts, what its child comes to, and what the scheduler answers when it is told.
pub record Launch : Type 0 where
  pub name : Text
  pub hosts : List Text
  pub attempt : Attempt
  pub answer : Option Error

abbrev pub told : Bool → Option Error → List Part
told true (some e) = alone e ∷ []
told _ _ = []

module _ (verbose use_scheduler : Bool) where
  unfoldable pub parts_of_run : Launch → List Part
  unfolding report_lines
  parts_of_run l =
      block (running l.name l.hosts ∷ [])
      ∷ block (report_lines verbose l.name l.attempt)
      ∷ told (is_error (error_of l.attempt.wait) && use_scheduler) l.answer

  abbrev pub launched : Launch → Routine
  launched l = record { current = none; parts = parts_of_run l }

pub record Shared : Type 0 where
  pub held : Bool
  pub console : List Line
  pub routines : List Routine

abbrev pub begin : Bool → Bool → List Launch → Shared
begin verbose use_scheduler ls = record {
  held = false;
  console = [];
  routines = map (launched verbose use_scheduler) ls;
}

pub data Step (s u : Shared) : Type 0 where
  lock :
      (before : List Routine) (ls : List Line) (ps : List Part) (after : List Routine)
      → s.held ≡ false
      → s.routines ≡ before ++ (record { current = none; parts = block ls ∷ ps }) ∷ after
      → u ≡ record s {
        held = true;
        routines = before ++ (record { current = some ls; parts = ps }) ∷ after;
      }
      → Step s u
  print :
      (before : List Routine) (l : Line) (ls : List Line) (ps : List Part) (after : List Routine)
      → s.routines ≡ before ++ (record { current = some (l ∷ ls); parts = ps }) ∷ after
      → u ≡ record s {
        console = s.console ++ l ∷ [];
        routines = before ++ (record { current = some ls; parts = ps }) ∷ after;
      }
      → Step s u
  unlock :
      (before : List Routine) (ps : List Part) (after : List Routine)
      → s.routines ≡ before ++ (record { current = some []; parts = ps }) ∷ after
      → u ≡ record s {
        held = false;
        routines = before ++ (record { current = none; parts = ps }) ∷ after;
      }
      → Step s u
  print_alone :
      (before : List Routine) (e : Error) (ps : List Part) (after : List Routine)
      → s.routines ≡ before ++ (record { current = none; parts = alone e ∷ ps }) ∷ after
      → u ≡ record s {
        console = s.console ++ scheduler_error e ∷ [];
        routines = before ++ (record { current = none; parts = ps }) ∷ after;
      }
      → Step s u

pub data Reach (s : Shared) : Shared → Type 0 where
  here : Reach s s
  next : {t u : Shared} → Reach s t → Step t u → Reach s u

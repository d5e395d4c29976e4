-- ===== src/Runner/Console/Whole.antt =====
-- tools/runner/runner.go: the console at every moment, and when all goroutines are done.
use scope_network.Prelude.{
  ℕ, ◌+◌, Bool, true, false, ◌&&◌, ◌||◌, ◌⊎◌, List, [], ◌∷◌, ◌++◌, ◌≡◌, refl, sym, ap, ◌∙◌,
  append-nil, Option, none, some, map, arith, if◌then◌else◌, All, inl, inr,
}
use scope_network.Text.{Text}
use scope_network.Errors.{Error}
use scope_network.Runner.Picking.{total, total-append}
use scope_network.Runner.Run.{
  Line, running, output, empty_line, Attempt, error_of, is_error, outcome_line, report_lines,
}
use scope_network.Runner.Console.{
  Part, block, alone, Routine, Launch, told, parts_of_run, launched, Shared, begin, Step, lock,
  print, unlock, print_alone, Reach, here, next,
}
use scope_network.Runner.Console.Blocks.{
  is_alone, locked_lines, concat, inside, part_weight, left_weight, Account, unlocked, locked,
  alone_lines,
}
use scope_network.Runner.Console.Steps.{Account-lock, Account-print, Account-unlock, Account-alone}

module _ (verbose use_scheduler : Bool) where
  -- The two blocks of a run.
  abbrev pub blocks_of : Launch → List (List Line)
  blocks_of l = (running l.name l.hosts ∷ []) ∷ report_lines verbose l.name l.attempt ∷ []

  abbrev pub all_blocks : List Launch → List (List Line)
  all_blocks [] = []
  all_blocks (l ∷ ls) = blocks_of l ++ all_blocks ls

  abbrev routines_of : List Launch → List Routine
  routines_of = map (launched verbose use_scheduler)

  parts_weight :
      (g : List Line → ℕ) (l : Launch)
      → total (part_weight g) (parts_of_run verbose use_scheduler l) ≡ total g (blocks_of l)
  unfolding parts_of_run
  parts_weight g l = go (is_error (error_of l.attempt.wait) && use_scheduler) l.answer
    where
      go :
          (b : Bool) (e : Option Error)
          → g (running l.name l.hosts ∷ [])
              + (g (report_lines verbose l.name l.attempt) + total (part_weight g) (told b e))
            ≡ total g (blocks_of l)
      go true (some x) = omega arith
      go true none = omega arith
      go false e = omega arith

  all_weight :
      (g : List Line → ℕ) (ls : List Launch)
      → total (left_weight g) (routines_of ls) ≡ total g (all_blocks ls)
  all_weight g [] = refl
  all_weight g (l ∷ ls) =
      omega (arith, parts_weight g l, all_weight g ls, total-append g (blocks_of l) (all_blocks ls))

  nobody_inside : (ls : List Launch) → inside (routines_of ls) ≡ []
  nobody_inside [] = refl
  nobody_inside (l ∷ ls) = nobody_inside ls

  report_lines_plain : (name : Text) (a : Attempt) → alone_lines (report_lines verbose name a) ≡ 0
  unfolding report_lines
  report_lines_plain name a =
      rw (outcome_plain (error_of a.wait))
        (omega (arith, extra (is_error (error_of a.wait) || verbose)))
    where
      extra : (b : Bool) → alone_lines (if b then output a.output ∷ empty_line ∷ [] else []) ≡ 0
      extra true = refl
      extra false = refl

      outcome_plain : (e : Option Error) → is_alone (outcome_line name a.duration e) ≡ false
      outcome_plain none = refl
      outcome_plain (some x) = refl

  all_plain : (ls : List Launch) → total alone_lines (all_blocks ls) ≡ 0
  all_plain [] = refl
  all_plain (l ∷ ls) = omega (arith, report_lines_plain l.name l.attempt, all_plain ls)

  abbrev weight : List Launch → (List Line → ℕ) → ℕ
  weight ls g = total g (all_blocks ls)

  Account-Step :
      (ls : List Launch) (s u : Shared) → Step s u → Account (weight ls) s → Account (weight ls) u
  Account-Step ls s u (lock before b ps after free e eq) account =
      rw eq (Account-lock before after (weight ls) s b ps free e account)
  Account-Step ls s u (print before l b ps after e eq) account =
      rw eq (Account-print before after (weight ls) s l b ps (all_plain ls) e account)
  Account-Step ls s u (unlock before ps after e eq) account =
      rw eq (Account-unlock before after (weight ls) s ps e account)
  Account-Step ls s u (print_alone before x ps after e eq) account =
      rw eq (Account-alone before after (weight ls) s x ps e account)

  pub Account-Reach :
      (ls : List Launch) (s : Shared)
      → Reach (begin verbose use_scheduler ls) s
      → Account (weight ls) s
  Account-Reach ls s here =
      unlocked [] refl (nobody_inside ls) refl λ g. omega (arith, all_weight g ls)
  Account-Reach ls s (next {t} r x) = Account-Step ls t s x (Account-Reach ls t r)

abbrev blocks_of_parts : List Part → List (List Line)
blocks_of_parts [] = []
blocks_of_parts (block ls ∷ ps) = ls ∷ blocks_of_parts ps
blocks_of_parts (alone e ∷ ps) = blocks_of_parts ps

abbrev blocks_left : List Routine → List (List Line)
blocks_left [] = []
blocks_left (r ∷ rs) = blocks_of_parts r.parts ++ blocks_left rs

blocks_of_parts_weight :
    (g : List Line → ℕ) (ps : List Part) → total g (blocks_of_parts ps) ≡ total (part_weight g) ps
blocks_of_parts_weight g [] = refl
blocks_of_parts_weight g (block ls ∷ ps) = omega (arith, blocks_of_parts_weight g ps)
blocks_of_parts_weight g (alone e ∷ ps) = omega (arith, blocks_of_parts_weight g ps)

blocks_left_weight :
    (g : List Line → ℕ) (rs : List Routine) → total g (blocks_left rs) ≡ total (left_weight g) rs
blocks_left_weight g [] = refl
blocks_left_weight g (r ∷ rs) = omega (
  arith,
  total-append g (blocks_of_parts r.parts) (blocks_left rs),
  blocks_of_parts_weight g r.parts,
  blocks_left_weight g rs,
)

-- The tests have ended, and nothing is left to print.
abbrev pub IsDone : Shared → Type 0
IsDone s = All (λ r. (r.current ≡ none) × (r.parts ≡ [])) s.routines

none_left :
    (rs : List Routine)
    → All (λ r. (r.current ≡ none) × (r.parts ≡ [])) rs
    → (inside rs ≡ []) × (blocks_left rs ≡ [])
none_left [] _ = (refl, refl)
none_left (r ∷ rs) ((c, p), all) = let (i, b) = none_left rs all in (rw c i, rw p b)

-- At every moment, in every order of the goroutines, the console without the errors of the scheduler
-- is whole blocks one after the other and the beginning of at most one of the blocks that are left;
-- the whole ones and those left are the two blocks of every run, each as often as it is started.
pub blocks_together :
    (verbose use_scheduler : Bool) (ls : List Launch) (s : Shared)
    → Reach (begin verbose use_scheduler ls) s
    → (done left : List (List Line)) × (printed : List Line) × (locked_lines s.console
        ≡ concat done ++ printed)
      × ((printed ≡ [])
          ⊎ ((rest : List Line) × (others : List (List Line)) × (left
                ≡ (printed ++ rest) ∷ others)))
      × ((g : List Line → ℕ)
          → total g done + total g left ≡ total g (all_blocks verbose use_scheduler ls))
blocks_together verbose use_scheduler ls s r =
    by_account (Account-Reach verbose use_scheduler ls s r)
  where
    by_account :
        Account (λ g. total g (all_blocks verbose use_scheduler ls)) s
        → (done left : List (List Line)) × (printed : List Line) × (locked_lines s.console
            ≡ concat done ++ printed)
          × ((printed ≡ [])
              ⊎ ((rest : List Line) × (others : List (List Line)) × (left
                    ≡ (printed ++ rest) ∷ others)))
          × ((g : List Line → ℕ)
              → total g done + total g left ≡ total g (all_blocks verbose use_scheduler ls))
    by_account (unlocked done h i c w) = (
      done,
      blocks_left s.routines,
      [],
      c ∙ sym (append-nil (concat done)),
      inl refl,
      λ g. omega (arith, w g, blocks_left_weight g s.routines),
    )
    by_account (locked done printed rest h i c w) = (
      done,
      (printed ++ rest) ∷ blocks_left s.routines,
      printed,
      c,
      inr (rest, blocks_left s.routines, refl),
      λ g. omega (arith, w g, blocks_left_weight g s.routines),
    )

-- When all goroutines are done, the console without the errors of the scheduler is the two blocks of
-- every run, whole, in some order.
pub all_printed :
    (verbose use_scheduler : Bool) (ls : List Launch) (s : Shared)
    → Reach (begin verbose use_scheduler ls) s
    → IsDone s
    → (done : List (List Line)) × (locked_lines s.console ≡ concat done)
      × ((g : List Line → ℕ) → total g done ≡ total g (all_blocks verbose use_scheduler ls))
all_printed verbose use_scheduler ls s r d = by_account (Account-Reach verbose use_scheduler ls s r)
  where
    nothing : (inside s.routines ≡ []) × (blocks_left s.routines ≡ [])
    nothing = none_left s.routines d

    by_account :
        Account (λ g. total g (all_blocks verbose use_scheduler ls)) s
        → (done : List (List Line)) × (locked_lines s.console ≡ concat done)
          × ((g : List Line → ℕ) → total g done ≡ total g (all_blocks verbose use_scheduler ls))
    by_account (unlocked done h i c w) =
        (done, c, λ g. omega (arith, w g, blocks_left_weight g s.routines, ap (total g) nothing.1))
    by_account (locked done printed rest h i c w) = absurd (cc (i, nothing.0))

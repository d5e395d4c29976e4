-- ===== src/Runner/Console/Progress.antt =====
-- tools/runner/runner.go: the lock of the console is always given back.
use scope_network.Prelude.{
  ℕ, Bool, false, List, [], ◌∷◌, ◌++◌, ◌≡◌, ◌⊎◌, inl, inr, refl, ap, Option, none, some, All,
}
use scope_network.Runner.Run.{Line}
use scope_network.Runner.Console.{
  Part, block, alone, Routine, Launch, Shared, begin, Step, lock, print, unlock, print_alone, Reach,
}
use scope_network.Runner.Console.Blocks.{of_current, inside, Account, unlocked, locked}
use scope_network.Runner.Console.Whole.{IsDone, Account-Reach}

-- A list of goroutines at one that has a current block and parts.
record At (rs : List Routine) (c : Option (List Line)) (ps : List Part) : Type 0 where
  before : List Routine
  after : List Routine
  split : rs ≡ before ++ (record { current = c; parts = ps }) ∷ after

At-cons :
    (r : Routine) (rs : List Routine) (c : Option (List Line)) (ps : List Part)
    → At rs c ps
    → At (r ∷ rs) c ps
At-cons r rs c ps a = record { before = r ∷ a.before; after = a.after; split = ap (◌∷◌ r) a.split }

inside_from :
    (c : Option (List Line)) (ps : List Part) (rs : List Routine) (ls : List Line)
    → of_current c ++ inside rs ≡ ls ∷ []
    → (inside rs ≡ ls ∷ [] → (qs : List Part) × At rs (some ls) qs)
    → (qs : List Part) × At ((record { current = c; parts = ps }) ∷ rs) (some ls) qs
inside_from none ps rs ls e rest = let (qs, a) = rest e in (qs, At-cons _ rs (some ls) qs a)
inside_from (some ms) ps rs ls e rest =
    let eq : ms ≡ ls = cc (e) in
    (
      ps,
      record {
        before = [];
        after = rs;
        split = ap (λ z. (record { current = some z; parts = ps }) ∷ rs) eq;
      },
    )

parts_from :
    (c : Option (List Line)) (ps : List Part) (rs : List Routine)
    → of_current c ++ inside rs ≡ []
    → (inside rs ≡ []
        → All (λ r. (r.current ≡ none) × (r.parts ≡ [])) rs
          ⊎ ((p : Part) × (qs : List Part) × At rs none (p ∷ qs)))
    → All (λ r. (r.current ≡ none) × (r.parts ≡ [])) ((record { current = c; parts = ps }) ∷ rs)
      ⊎ ((p : Part) × (qs : List Part) × At
            ((record { current = c; parts = ps }) ∷ rs)
            none
            (p ∷ qs))
parts_from (some ms) ps rs e rest = cc
parts_from none (p ∷ ps) rs e rest = inr (p, ps, record { before = []; after = rs; split = refl })
parts_from none [] rs e rest = later (rest e)
  where
    later :
        All (λ r. (r.current ≡ none) × (r.parts ≡ [])) rs
          ⊎ ((p : Part) × (qs : List Part) × At rs none (p ∷ qs))
        → All
            (λ r. (r.current ≡ none) × (r.parts ≡ []))
            ((record { current = none; parts = [] }) ∷ rs)
          ⊎ ((p : Part) × (qs : List Part) × At
                ((record { current = none; parts = [] }) ∷ rs)
                none
                (p ∷ qs))
    later (inl all) = inl ((refl, refl), all)
    later (inr (p, qs, a)) = inr (p, qs, At-cons _ rs none (p ∷ qs) a)

-- What the goroutines have left: one is in its block, one may go on, or all are done.
find_inside :
    (rs : List Routine) (ls : List Line)
    → inside rs ≡ ls ∷ []
    → (ps : List Part) × At rs (some ls) ps
find_inside [] ls e = cc
find_inside (r ∷ rs) ls e = inside_from r.current r.parts rs ls e (find_inside rs ls)

find_parts :
    (rs : List Routine)
    → inside rs ≡ []
    → All (λ r. (r.current ≡ none) × (r.parts ≡ [])) rs
      ⊎ ((p : Part) × (ps : List Part) × At rs none (p ∷ ps))
find_parts [] e = inl tt
find_parts (r ∷ rs) e = parts_from r.current r.parts rs e (find_parts rs)

step_inside :
    (s : Shared) (ls : List Line) (ps : List Part)
    → At s.routines (some ls) ps
    → (u : Shared) × Step s u
step_inside s [] ps a = (_, unlock a.before ps a.after a.split refl)
step_inside s (l ∷ ls) ps a = (_, print a.before l ls ps a.after a.split refl)

step_outside :
    (s : Shared) (p : Part) (ps : List Part)
    → s.held ≡ false
    → At s.routines none (p ∷ ps)
    → (u : Shared) × Step s u
step_outside s (block ls) ps free a = (_, lock a.before ls ps a.after free a.split refl)
step_outside s (alone e) ps free a = (_, print_alone a.before e ps a.after a.split refl)

-- From every moment that the goroutines can come to, one of them can go on, until all are done.
pub console_never_stuck :
    (verbose use_scheduler : Bool) (ls : List Launch) (s : Shared)
    → Reach (begin verbose use_scheduler ls) s
    → IsDone s ⊎ ((u : Shared) × Step s u)
console_never_stuck verbose use_scheduler ls s r =
    by_account (Account-Reach verbose use_scheduler ls s r)
  where
    by_parts :
        s.held ≡ false
        → IsDone s ⊎ ((p : Part) × (ps : List Part) × At s.routines none (p ∷ ps))
        → IsDone s ⊎ ((u : Shared) × Step s u)
    by_parts free (inl d) = inl d
    by_parts free (inr (p, ps, a)) = inr (step_outside s p ps free a)

    by_account : {k : (List Line → ℕ) → ℕ} → Account k s → IsDone s ⊎ ((u : Shared) × Step s u)
    by_account (unlocked done h i c w) = by_parts h (find_parts s.routines i)
    by_account (locked done printed rest h i c w) =
        let (ps, a) = find_inside s.routines rest i in inr (step_inside s rest ps a)

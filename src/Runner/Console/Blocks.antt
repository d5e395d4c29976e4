-- ===== src/Runner/Console/Blocks.antt =====
-- tools/runner/runner.go: what the lock of the console keeps together.
use scope_network.Prelude.{
  ℕ, ◌+◌, Bool, true, false, List, [], ◌∷◌, ◌++◌, ◌≡◌, refl, sym, ap, ◌∙◌, append_assoc, append-nil,
  Option, none, some, arith, if◌then◌else◌, Bool-cases, inl, inr,
}
use scope_network.Runner.Picking.{total}
use scope_network.Runner.Run.{Line, scheduler_error}
use scope_network.Runner.Console.{Part, block, alone, Routine, Shared}

abbrev pub is_alone : Line → Bool
is_alone (scheduler_error e) = true
is_alone _ = false

-- The lines of the console without the errors of the scheduler.
abbrev pub locked_lines : List Line → List Line
locked_lines [] = []
locked_lines (l ∷ ls) = if is_alone l then locked_lines ls else l ∷ locked_lines ls

abbrev pub concat : List (List Line) → List Line
concat [] = []
concat (b ∷ bs) = b ++ concat bs

abbrev pub of_current : Option (List Line) → List (List Line)
of_current none = []
of_current (some ls) = ls ∷ []

-- What the goroutines have yet to print under a lock that they hold.
abbrev pub inside : List Routine → List (List Line)
inside [] = []
inside (r ∷ rs) = of_current r.current ++ inside rs

abbrev pub part_weight : (List Line → ℕ) → Part → ℕ
part_weight g (block ls) = g ls
part_weight g (alone e) = 0

abbrev pub left_weight : (List Line → ℕ) → Routine → ℕ
left_weight g r = total (part_weight g) r.parts

-- The finished blocks and the one in progress, and what is left, make up the blocks that weigh `k`.
pub data Account (k : (List Line → ℕ) → ℕ) (s : Shared) : Type 0 where
  unlocked :
      (done : List (List Line))
      → s.held ≡ false
      → inside s.routines ≡ []
      → locked_lines s.console ≡ concat done
      → ((g : List Line → ℕ) → total g done + total (left_weight g) s.routines ≡ k g)
      → Account k s
  locked :
      (done : List (List Line)) (printed ls : List Line)
      → s.held ≡ true
      → inside s.routines ≡ ls ∷ []
      → locked_lines s.console ≡ concat done ++ printed
      → ((g : List Line → ℕ)
          → total g done + (g (printed ++ ls) + total (left_weight g) s.routines) ≡ k g)
      → Account k s

pub inside-append : (xs ys : List Routine) → inside (xs ++ ys) ≡ inside xs ++ inside ys
inside-append [] ys = refl
inside-append (x ∷ xs) ys =
    ap (λ z. of_current x.current ++ z) (inside-append xs ys)
    ∙ sym (append_assoc (of_current x.current) (inside xs) (inside ys))

pub locked_lines-append :
    (xs ys : List Line) → locked_lines (xs ++ ys) ≡ locked_lines xs ++ locked_lines ys
locked_lines-append [] ys = refl
locked_lines-append (x ∷ xs) ys = ground (arith, locked_lines-append xs ys)

pub concat-append :
    (xs : List (List Line)) (ls : List Line) → concat (xs ++ ls ∷ []) ≡ concat xs ++ ls
concat-append [] ls = append-nil ls
concat-append (x ∷ xs) ls =
    ap (λ r. x ++ r) (concat-append xs ls) ∙ sym (append_assoc x (concat xs) ls)

pub none_inside : (xs ys : List (List Line)) → xs ++ ys ≡ [] → (xs ≡ []) × (ys ≡ [])
none_inside [] ys e = (refl, e)
none_inside (x ∷ xs) ys e = cc

pub one_inside :
    (xs ys : List (List Line)) (x l : List Line)
    → xs ++ x ∷ ys ≡ l ∷ []
    → (xs ≡ []) × (x ≡ l) × (ys ≡ [])
one_inside [] ys x l e = (refl, cc, cc)
one_inside (z ∷ []) ys x l e = cc
one_inside (z ∷ z' ∷ xs) ys x l e = cc

-- The errors of the scheduler in a block.
abbrev pub alone_lines : List Line → ℕ
alone_lines [] = 0
alone_lines (l ∷ ls) = (if is_alone l then 1 else 0) + alone_lines ls

alone_lines-append : (xs ys : List Line) → alone_lines (xs ++ ys) ≡ alone_lines xs + alone_lines ys
alone_lines-append [] ys = omega arith
alone_lines-append (x ∷ xs) ys = omega (arith, alone_lines-append xs ys)

pub not_alone :
    (l : Line) (ls printed : List Line) → alone_lines (printed ++ l ∷ ls) ≡ 0 → is_alone l ≡ false
not_alone l ls printed e = elim (Bool-cases (is_alone l)) [
  | inl y ↦
      let sum = alone_lines-append printed (l ∷ ls) in
      let one : alone_lines (l ∷ ls) ≡ 1 + alone_lines ls = rw y refl in
      absurd (omega (arith, sum, one, e))
  | inr n ↦ n
]

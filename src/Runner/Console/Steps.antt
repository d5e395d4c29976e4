-- ===== src/Runner/Console/Steps.antt =====
-- tools/runner/runner.go: the steps of the goroutines at the console, one by one.
use scope_network.Prelude.{
  ℕ, ◌+◌, true, false, List, [], ◌∷◌, ◌++◌, ◌≡◌, refl, sym, ap, ◌∙◌, append_assoc, append-nil, none,
  some, arith,
}
use scope_network.Errors.{Error}
use scope_network.Runner.Picking.{total, total-append}
use scope_network.Runner.Run.{Line, scheduler_error}
use scope_network.Runner.Console.{Part, block, alone, Routine, Shared}
use scope_network.Runner.Console.Blocks.{
  is_alone, locked_lines, concat, of_current, inside, part_weight, left_weight, Account, unlocked,
  locked, inside-append, locked_lines-append, concat-append, none_inside, one_inside, alone_lines,
  not_alone,
}

module _ (before : List Routine) (after : List Routine) where
  inside_at :
      (rs : List Routine) (r : Routine)
      → rs ≡ before ++ r ∷ after
      → inside rs ≡ inside before ++ (of_current r.current ++ inside after)
  inside_at rs r e = ap inside e ∙ inside-append before (r ∷ after)

  weight_at :
      (g : List Line → ℕ) (rs : List Routine) (r : Routine)
      → rs ≡ before ++ r ∷ after
      → total (left_weight g) rs
        ≡ total (left_weight g) before
          + (total (part_weight g) r.parts + total (left_weight g) after)
  weight_at g rs r e =
      ap (total (left_weight g)) e ∙ total-append (left_weight g) before (r ∷ after)

  pub Account-lock :
      (k : (List Line → ℕ) → ℕ) (s : Shared) (ls : List Line) (ps : List Part)
      → s.held ≡ false
      → s.routines ≡ before ++ (record { current = none; parts = block ls ∷ ps }) ∷ after
      → Account k s
      → Account k (record s {
        held = true;
        routines = before ++ (record { current = some ls; parts = ps }) ∷ after;
      })
  Account-lock k s ls ps free e (unlocked done h i c w) =
      let old : Routine = record { current = none; parts = block ls ∷ ps } in
      let new : Routine = record { current = some ls; parts = ps } in
      let (b, a) =
        none_inside (inside before) (inside after) (sym (inside_at s.routines old e) ∙ i) in
      locked done [] ls refl (inside_at (before ++ new ∷ after) new refl ∙ rw (b, a) refl)
        (c ∙ sym (append-nil (concat done)))
        λ g.
          omega
            (arith, w g, weight_at g s.routines old e, weight_at g (before ++ new ∷ after) new refl)
  Account-lock k s ls ps free e (locked done printed ls' h i c w) = absurd (cc (free, h))

  pub Account-print :
      (k : (List Line → ℕ) → ℕ) (s : Shared) (l : Line) (ls : List Line) (ps : List Part)
      → k alone_lines ≡ 0
      → s.routines ≡ before ++ (record { current = some (l ∷ ls); parts = ps }) ∷ after
      → Account k s
      → Account k (record s {
        console = s.console ++ l ∷ [];
        routines = before ++ (record { current = some ls; parts = ps }) ∷ after;
      })
  Account-print k s l ls ps plain e (unlocked done h i c w) =
      let old : Routine = record { current = some (l ∷ ls); parts = ps } in
      let (b, a) =
        none_inside (inside before) ((l ∷ ls) ∷ inside after)
          (sym (inside_at s.routines old e) ∙ i) in
      absurd (cc a)
  Account-print k s l ls ps plain e (locked done printed ls' h i c w) =
      let old : Routine = record { current = some (l ∷ ls); parts = ps } in
      let new : Routine = record { current = some ls; parts = ps } in
      let (b, x, a) =
        one_inside (inside before) (inside after) (l ∷ ls) ls'
          (sym (inside_at s.routines old e) ∙ i) in
      let ordinary : is_alone l ≡ false =
        not_alone l ls printed
          (omega (arith, ap alone_lines (ap (λ z. printed ++ z) x), w alone_lines, plain)) in
      locked done (printed ++ l ∷ []) ls h
        (inside_at (before ++ new ∷ after) new refl ∙ rw (b, a) refl)
        (locked_lines-append s.console (l ∷ [])
          ∙ (rw ordinary (ap (λ z. z ++ l ∷ []) c) ∙ append_assoc (concat done) printed (l ∷ [])))
        λ g. omega (
          arith,
          w g,
          ap g (ap (λ z. printed ++ z) x),
          ap g (append_assoc printed (l ∷ []) ls),
          weight_at g s.routines old e,
          weight_at g (before ++ new ∷ after) new refl,
        )

  pub Account-unlock :
      (k : (List Line → ℕ) → ℕ) (s : Shared) (ps : List Part)
      → s.routines ≡ before ++ (record { current = some []; parts = ps }) ∷ after
      → Account k s
      → Account k (record s {
        held = false;
        routines = before ++ (record { current = none; parts = ps }) ∷ after;
      })
  Account-unlock k s ps e (unlocked done h i c w) =
      let old : Routine = record { current = some []; parts = ps } in
      let (b, a) =
        none_inside (inside before) ([] ∷ inside after) (sym (inside_at s.routines old e) ∙ i) in
      absurd (cc a)
  Account-unlock k s ps e (locked done printed ls' h i c w) =
      let old : Routine = record { current = some []; parts = ps } in
      let new : Routine = record { current = none; parts = ps } in
      let (b, x, a) =
        one_inside (inside before) (inside after) [] ls' (sym (inside_at s.routines old e) ∙ i) in
      unlocked (done ++ printed ∷ []) refl
        (inside_at (before ++ new ∷ after) new refl ∙ rw (b, a) refl)
        (c ∙ sym (concat-append done printed))
        λ g. omega (
          arith,
          w g,
          ap g (ap (λ z. printed ++ z) x),
          ap g (append-nil printed),
          total-append g done (printed ∷ []),
          weight_at g s.routines old e,
          weight_at g (before ++ new ∷ after) new refl,
        )

  pub Account-alone :
      (k : (List Line → ℕ) → ℕ) (s : Shared) (x : Error) (ps : List Part)
      → s.routines ≡ before ++ (record { current = none; parts = alone x ∷ ps }) ∷ after
      → Account k s
      → Account k (record s {
        console = s.console ++ scheduler_error x ∷ [];
        routines = before ++ (record { current = none; parts = ps }) ∷ after;
      })
  Account-alone k s x ps e account = by_account account
    where
      old : Routine
      old = record { current = none; parts = alone x ∷ ps }

      new : Routine
      new = record { current = none; parts = ps }

      same_inside : inside (before ++ new ∷ after) ≡ inside s.routines
      same_inside = inside_at (before ++ new ∷ after) new refl ∙ sym (inside_at s.routines old e)

      same_lines : locked_lines (s.console ++ scheduler_error x ∷ []) ≡ locked_lines s.console
      same_lines =
          locked_lines-append s.console (scheduler_error x ∷ [])
          ∙ append-nil (locked_lines s.console)

      by_account :
          Account k s
          → Account k (record s {
            console = s.console ++ scheduler_error x ∷ [];
            routines = before ++ new ∷ after;
          })
      by_account (unlocked done h i c w) = unlocked done h (same_inside ∙ i) (same_lines ∙ c) λ g.
          omega
            (arith, w g, weight_at g s.routines old e, weight_at g (before ++ new ∷ after) new refl)
      by_account (locked done printed ls h i c w) =
          locked done printed ls h (same_inside ∙ i) (same_lines ∙ c) λ g.
            omega (
              arith,
              w g,
              weight_at g s.routines old e,
              weight_at g (before ++ new ∷ after) new refl,
            )

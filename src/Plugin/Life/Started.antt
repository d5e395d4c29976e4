-- ===== src/Plugin/Life/Started.antt =====
-- main.go, `main` up to `Serve`: the turns that it takes.
use scope_network.Prelude.{
  ℕ, ◌+◌, ◌≤◌, true, false, List, [], ◌∷◌, ◌≡◌, ◌⊎◌, inl, inr, refl, sym, ap, subst, Option, none,
  some, arith,
}
use scope_network.Errors.{Error, Outcome, returns, panics, exits}
use scope_network.Traffic.Act.{World}
use scope_network.Plugin.{Plugin, main}
use scope_network.Plugin.Life.{
  Files, Phase, removing, making, listening, creating, serving, waiting, End, no_socket, no_plugin,
  not_served, Life, begin, Turn, of_main, of_handler, interrupt, serve_error, run,
}
use scope_network.Plugin.Life.Interrupted.{no_files, Removes}
use scope_network.Plugin.Life.Signals.{state, runs, run_ended, interrupted_run}

-- The turns of `main` among all turns.
abbrev is_of_main : Turn → ℕ
is_of_main of_main = 1
is_of_main _ = 0

abbrev pub turns_of_main : List Turn → ℕ
turns_of_main [] = 0
turns_of_main (t ∷ ts) = is_of_main t + turns_of_main ts

-- What becomes of the process: it serves with its socket, or has lost it to an error of `Serve`; or
-- it has ended because it was not set up.
abbrev pub Settled : Outcome (Plugin × World) → Life → Type 0
Settled (returns p) s =
    (s.phase ≡ serving)
    × (((s.ended ≡ none) × (s.files ≡ record { directory = true; socket = true }))
        ⊎ (s.ended ≡ some not_served))
Settled exits s = (s.ended ≡ some no_socket) ⊎ (s.ended ≡ some no_plugin)
Settled panics s = ⊥

abbrev both : Files
both = record { directory = true; socket = true }

abbrev made_dir : Files
made_dir = record { directory = true; socket = false }

module _ (remove_all : Files → Files) (removes : Removes remove_all) where
  from_serving :
      (ts : List Turn)
      → (runs remove_all none none none ts (state both serving waiting none)).handler ≡ waiting
      → Settled
          (main none none none)
          (runs remove_all none none none ts (state both serving waiting none))
  unfolding run main
  from_serving [] w = (refl, inl (refl, refl))
  from_serving (of_main ∷ ts) w = from_serving ts w
  from_serving (of_handler ∷ ts) w = from_serving ts w
  from_serving (interrupt ∷ ts) w = interrupted_run remove_all none none none ts both serving w
  from_serving (serve_error ∷ ts) w =
      let e =
        run_ended remove_all none none none ts (record { directory = true; socket = false }) serving
          waiting not_served in
      (ap (λ (s : Life). s.phase) e, inr (ap (λ (s : Life). s.ended) e))

  fails :
      (m l d : Option Error) (ts : List Turn) (f : Files) (p : Phase) (end : End)
      → (end ≡ no_socket) ⊎ (end ≡ no_plugin)
      → main m l d ≡ exits
      → Settled (main m l d) (runs remove_all m l d ts (state f p waiting (some end)))
  fails m l d ts f p end which e =
      let e' = run_ended remove_all m l d ts f p waiting end in rw (e, e') (by_end end which)
    where
      by_end :
          (end : End)
          → (end ≡ no_socket) ⊎ (end ≡ no_plugin)
          → (some end ≡ some no_socket) ⊎ (some end ≡ some no_plugin)
      by_end end (inl x) = inl (ap some x)
      by_end end (inr x) = inr (ap some x)

  from_creating :
      (docker : Option Error) (ts : List Turn)
      → 1 ≤ turns_of_main ts
      → (runs remove_all none none docker ts (state both creating waiting none)).handler ≡ waiting
      → Settled
          (main none none docker)
          (runs remove_all none none docker ts (state both creating waiting none))
  unfolding run
  from_creating docker [] n w = absurd (omega (arith, n))
  from_creating none (of_main ∷ ts) n w = from_serving ts w
  from_creating (some x) (of_main ∷ ts) n w =
      fails none none (some x) ts both creating no_plugin (inr refl) (unfold main in refl)
  from_creating docker (of_handler ∷ ts) n w = from_creating docker ts (omega (arith, n)) w
  from_creating docker (interrupt ∷ ts) n w =
      interrupted_run remove_all none none docker ts both creating w
  from_creating docker (serve_error ∷ ts) n w = from_creating docker ts (omega (arith, n)) w

  from_listening :
      (listen docker : Option Error) (ts : List Turn)
      → 2 ≤ turns_of_main ts
      → (runs remove_all none listen docker ts (state made_dir listening waiting none)).handler
        ≡ waiting
      → Settled
          (main none listen docker)
          (runs remove_all none listen docker ts (state made_dir listening waiting none))
  unfolding run
  from_listening listen docker [] n w = absurd (omega (arith, n))
  from_listening none docker (of_main ∷ ts) n w = from_creating docker ts (omega (arith, n)) w
  from_listening (some x) docker (of_main ∷ ts) n w =
      fails none (some x) docker ts made_dir listening no_socket (inl refl) (unfold main in refl)
  from_listening listen docker (of_handler ∷ ts) n w =
      from_listening listen docker ts (omega (arith, n)) w
  from_listening listen docker (interrupt ∷ ts) n w =
      interrupted_run remove_all none listen docker ts made_dir listening w
  from_listening listen docker (serve_error ∷ ts) n w =
      from_listening listen docker ts (omega (arith, n)) w

  from_making :
      (mkdir listen docker : Option Error) (ts : List Turn)
      → 3 ≤ turns_of_main ts
      → (runs remove_all mkdir listen docker ts (state no_files making waiting none)).handler
        ≡ waiting
      → Settled
          (main mkdir listen docker)
          (runs remove_all mkdir listen docker ts (state no_files making waiting none))
  unfolding run
  from_making mkdir listen docker [] n w = absurd (omega (arith, n))
  from_making none listen docker (of_main ∷ ts) n w =
      from_listening listen docker ts (omega (arith, n)) w
  from_making (some x) listen docker (of_main ∷ ts) n w =
      fails (some x) listen docker ts no_files making no_socket (inl refl) (unfold main in refl)
  from_making mkdir listen docker (of_handler ∷ ts) n w =
      from_making mkdir listen docker ts (omega (arith, n)) w
  from_making mkdir listen docker (interrupt ∷ ts) n w =
      interrupted_run remove_all mkdir listen docker ts no_files making w
  from_making mkdir listen docker (serve_error ∷ ts) n w =
      from_making mkdir listen docker ts (omega (arith, n)) w

  from_removing :
      (mkdir listen docker : Option Error) (ts : List Turn) (files : Files)
      → 4 ≤ turns_of_main ts
      → (runs remove_all mkdir listen docker ts (begin files)).handler ≡ waiting
      → Settled (main mkdir listen docker) (runs remove_all mkdir listen docker ts (begin files))
  unfolding run
  from_removing mkdir listen docker [] files n w = absurd (omega (arith, n))
  from_removing mkdir listen docker (of_main ∷ ts) files n w =
      let start : Files → Life = λ f. state f making waiting none in
      subst
        (λ f. Settled (main mkdir listen docker) (runs remove_all mkdir listen docker ts (start f)))
        (sym (removes files))
        (from_making mkdir listen docker ts (omega (arith, n)) (
          subst (λ f. (runs remove_all mkdir listen docker ts (start f)).handler ≡ waiting)
            (removes files) w))
  from_removing mkdir listen docker (of_handler ∷ ts) files n w =
      from_removing mkdir listen docker ts files (omega (arith, n)) w
  from_removing mkdir listen docker (interrupt ∷ ts) files n w =
      interrupted_run remove_all mkdir listen docker ts files removing w
  from_removing mkdir listen docker (serve_error ∷ ts) files n w =
      from_removing mkdir listen docker ts files (omega (arith, n)) w

-- When `main` has had four turns and no signal has come, then, in whatever order the goroutines run
-- and whatever files an earlier process has left, it is as `main` returns: it serves on its socket,
-- or an error of `Serve` has ended it; or, where `main` exits, it has ended for want of a socket or
-- of a plugin. RemoveAll is taken to succeed.
pub settles :
    (mkdir listen docker : Option Error) (remove_all : Files → Files) (ts : List Turn)
    (files : Files)
    → Removes remove_all
    → 4 ≤ turns_of_main ts
    → let s = run mkdir listen docker remove_all ts (begin files) in
      s.handler ≡ waiting → Settled (main mkdir listen docker) s
settles mkdir listen docker remove_all ts files removes n w =
    from_removing remove_all removes mkdir listen docker ts files n w

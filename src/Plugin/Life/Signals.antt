-- ===== src/Plugin/Life/Signals.antt =====
-- main.go, `setupSignals`: a goroutine that has had its signal does not go back to its wait.
use scope_network.Prelude.{List, [], ◌∷◌, ◌≡◌, refl, sym, subst, ◌≢◌, Option, none, some, arith}
use scope_network.Errors.{Error}
use scope_network.Plugin.Life.{
  Files, Phase, removing, making, listening, creating, serving, Handler, waiting, interrupted,
  exiting, End, Life, Turn, of_main, of_handler, interrupt, serve_error, main_turn,
  serve_error_turn, turn_unless, run,
}

abbrev pub state : Files → Phase → Handler → Option End → Life
state f p h e = record { files = f; phase = p; handler = h; ended = e }

module _ (remove_all : Files → Files) where
  abbrev pub runs : Option Error → Option Error → Option Error → List Turn → Life → Life
  runs mkdir listen docker = run mkdir listen docker remove_all

  pub run_ended :
      (m l d : Option Error) (ts : List Turn) (f : Files) (p : Phase) (h : Handler) (end : End)
      → runs m l d ts (state f p h (some end)) ≡ state f p h (some end)
  unfolding run
  run_ended m l d [] f p h end = refl
  run_ended m l d (t ∷ ts) f p h end = run_ended m l d ts f p h end

  abbrev Signalled : Handler → Type 0
  Signalled waiting = ⊥
  Signalled _ = Unit

  main_turn_handler :
      (m l d : Option Error) (p : Phase) (s : Life)
      → (main_turn m l d remove_all p s).handler ≡ s.handler
  main_turn_handler m l d removing s = refl
  main_turn_handler none l d making s = refl
  main_turn_handler (some x) l d making s = refl
  main_turn_handler m none d listening s = ground arith
  main_turn_handler m (some x) d listening s = refl
  main_turn_handler m l none creating s = refl
  main_turn_handler m l (some x) creating s = refl
  main_turn_handler m l d serving s = refl

  serve_error_turn_handler :
      (m l d : Option Error) (p : Phase) (s : Life)
      → (serve_error_turn m l d remove_all p s).handler ≡ s.handler
  serve_error_turn_handler m l d removing s = refl
  serve_error_turn_handler m l d making s = refl
  serve_error_turn_handler m l d listening s = refl
  serve_error_turn_handler m l d creating s = refl
  serve_error_turn_handler m l d serving s = refl

  -- The turn leaves a handler that has had its signal past its wait.
  turn-Signalled :
      (m l d : Option Error) (t : Turn) (f : Files) (p : Phase) (h : Handler) (e : Option End)
      → Signalled h
      → Signalled (turn_unless m l d remove_all e t (state f p h e)).handler
  turn-Signalled m l d t f p h (some end) x = x
  turn-Signalled m l d of_main f p h none x =
      subst Signalled (sym (main_turn_handler m l d p (state f p h none))) x
  turn-Signalled m l d of_handler f p waiting none x = x
  turn-Signalled m l d of_handler f p interrupted none x = tt
  turn-Signalled m l d of_handler f p exiting none x = tt
  turn-Signalled m l d interrupt f p waiting none x = tt
  turn-Signalled m l d interrupt f p interrupted none x = tt
  turn-Signalled m l d interrupt f p exiting none x = tt
  turn-Signalled m l d serve_error f p h none x =
      subst Signalled (sym (serve_error_turn_handler m l d p (state f p h none))) x

  run-Signalled :
      (m l d : Option Error) (ts : List Turn) (s : Life)
      → Signalled s.handler
      → Signalled (runs m l d ts s).handler
  unfolding run
  run-Signalled m l d [] s x = x
  run-Signalled m l d (t ∷ ts) s x =
      run-Signalled m l d ts (turn_unless m l d remove_all s.ended t s)
        (turn-Signalled m l d t s.files s.phase s.handler s.ended x)

  not_waiting : (h : Handler) → Signalled h → h ≢ waiting
  not_waiting waiting x = elim x [ ]
  not_waiting interrupted x = λ e. cc
  not_waiting exiting x = λ e. cc

  pub interrupted_run :
      {A : Type 0} (m l d : Option Error) (ts : List Turn) (f : Files) (p : Phase)
      → (runs m l d ts (state f p interrupted none)).handler ≡ waiting
      → A
  interrupted_run m l d ts f p e =
      absurd (not_waiting _ (run-Signalled m l d ts (state f p interrupted none) tt) e)

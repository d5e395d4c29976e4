-- ===== src/Plugin/Life/Interrupted.antt =====
-- main.go, `setupSignals`: what an interrupt leaves.
use scope_network.Prelude.{ℕ, ◌+◌, false, List, [], ◌∷◌, ◌≡◌, ◌⊎◌, Option, some}
use scope_network.Errors.{Error}
use scope_network.Plugin.Life.{Files, on_interrupt, not_served, Life, Turn, of_handler}
use scope_network.Plugin.Life.Signals.{runs}

abbrev pub no_files : Files
no_files = record { directory = false; socket = false }

-- What RemoveAll promises where it succeeds.
abbrev pub Removes : (Files → Files) → Type 0
Removes remove_all = (f : Files) → remove_all f ≡ no_files

-- The turns of the goroutine of `setupSignals` among all turns.
abbrev is_of_handler : Turn → ℕ
is_of_handler of_handler = 1
is_of_handler _ = 0

abbrev pub turns_of_handler : List Turn → ℕ
turns_of_handler [] = 0
turns_of_handler (t ∷ ts) = is_of_handler t + turns_of_handler ts

-- The process has ended: by the interrupt, with no files, or by an error of `Serve` before.
abbrev pub Stopped : Life → Type 0
Stopped s = ((s.ended ≡ some on_interrupt) × (s.files ≡ no_files)) ⊎ (s.ended ≡ some not_served)

module _ (mkdir listen docker : Option Error) (remove_all : Files → Files)
    (removes : Removes remove_all) where
  abbrev outcome : List Turn → Life → Life
  outcome = runs remove_all mkdir listen docker

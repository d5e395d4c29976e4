-- ===== src/Plugin/Life.antt =====
-- main.go: the goroutine of `main` and that of `setupSignals`, turn by turn, and the directory of the
-- socket. A turn is one call to the operating system or to the Docker library; the other goroutines
-- do not touch the directory.
pub mod Signals
pub mod Started
pub mod Interrupted
use scope_network.Prelude.{
  ℕ, Bool, true, false, ◌&&◌, not, List, [], ◌∷◌, Option, none, some, if◌then◌else◌,
}
use scope_network.Errors.{Error}

-- Whether the directory of the socket is there, and the socket in it.
pub record Files : Type 0 where
  pub directory : Bool
  pub socket : Bool

-- What `main` does next: RemoveAll, MkdirAll and Listen of `setupSocket`, `NewPlugin`, `Serve`.
pub data Phase : Type 0 where
  removing making listening creating serving : Phase

-- What the goroutine of `setupSignals` does next: wait, RemoveAll, Exit.
pub data Handler : Type 0 where
  waiting interrupted exiting : Handler

-- Why the process has ended.
pub data End : Type 0 where
  on_interrupt no_socket no_plugin not_served : End

abbrev pub status_of : End → ℕ
status_of on_interrupt = 0
status_of no_socket = 1
status_of no_plugin = 1
status_of not_served = 1

pub record Life : Type 0 where
  pub files : Files
  pub phase : Phase
  pub handler : Handler
  pub ended : Option End

-- `setupSignals` comes first: from here on a signal is sent to its channel.
abbrev pub begin : Files → Life
begin files = record { files = files; phase = removing; handler = waiting; ended = none }

-- A turn of `main`, of the other goroutine, an interrupt, and an error of `Serve`.
pub data Turn : Type 0 where
  of_main of_handler interrupt serve_error : Turn

abbrev ends : End → Life → Life
ends end s = record s { ended = some end }

-- The answers of MkdirAll, Listen and the Docker library, as far as they do not depend on the files,
-- and what RemoveAll leaves of them.
module _ (mkdir listen docker : Option Error) (remove_all : Files → Files) where
  abbrev pub made : Option Error → Life → Life
  made none s = record s {
    files = record { directory = true; socket = s.files.socket };
    phase = listening;
  }
  made (some e) s = ends no_socket s

  -- The address of a socket is in use while the file is there.
  abbrev pub listened : Option Error → Life → Life
  listened none s =
      if s.files.directory && not s.files.socket
      then record s { files = record { directory = true; socket = true }; phase = creating }
      else ends no_socket s
  listened (some e) s = ends no_socket s

  abbrev pub created : Option Error → Life → Life
  created none s = record s { phase = serving }
  created (some e) s = ends no_plugin s

  abbrev pub main_turn : Phase → Life → Life
  main_turn removing s = record s { files = remove_all s.files; phase = making }
  main_turn making s = made mkdir s
  main_turn listening s = listened listen s
  main_turn creating s = created docker s
  main_turn serving s = s

  abbrev pub handler_turn : Handler → Life → Life
  handler_turn waiting s = s
  handler_turn interrupted s = record s { files = remove_all s.files; handler = exiting }
  handler_turn exiting s = ends on_interrupt s

  abbrev pub interrupt_turn : Handler → Life → Life
  interrupt_turn waiting s = record s { handler = interrupted }
  interrupt_turn _ s = s

  -- `Serve` closes the listener, which removes its socket.
  abbrev pub serve_error_turn : Phase → Life → Life
  serve_error_turn serving s =
      ends not_served
        (record s { files = record { directory = s.files.directory; socket = false } })
  serve_error_turn _ s = s

  abbrev pub live_turn : Turn → Life → Life
  live_turn of_main s = main_turn s.phase s
  live_turn of_handler s = handler_turn s.handler s
  live_turn interrupt s = interrupt_turn s.handler s
  live_turn serve_error s = serve_error_turn s.phase s

  abbrev pub turn_unless : Option End → Turn → Life → Life
  turn_unless none t s = live_turn t s
  turn_unless (some end) t s = s

  unfoldable pub run : List Turn → Life → Life
  run [] s = s
  run (t ∷ ts) s = run ts (turn_unless s.ended t s)

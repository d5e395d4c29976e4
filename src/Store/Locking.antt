-- ===== src/Store/Locking.antt =====
-- store.go, the mutex: every method is `lock`, its body, `unlock`. Goroutines are numbered, and a
-- run is a sequence of their steps. `ForEach` reads the map as it is at each of its rounds.
pub mod Snapshot
pub mod Invariant
pub mod Linear
use scope_network.Prelude.{
  ℕ, Bool, true, false, List, [], ◌∷◌, ◌++◌, map, ◌≡◌, Option, none, some, ◌==◌, if◌then◌else◌,
}
use scope_network.Text.{Text}
use scope_network.Dict
use scope_network.Dict.{Dict}
use scope_network.Store.{Container, Store, container, set_container, delete_container, for_each}

pub data Call : Type 0 where
  get : Text → Call
  set : Text → Container → Call
  delete : Text → Call
  each : Call

pub data Reply : Type 0 where
  found : Option Container → Reply
  done : Reply
  visited : Dict Container → Reply

abbrev record_visit : Text → Container → Dict Container → Dict Container
record_visit id c seen = seen ++ (id, c) ∷ []

-- Where a goroutine is: outside the store, before the body of a call, in the loop of `ForEach`
-- with the keys to come and the entries seen, or before the deferred `Unlock`.
pub data Phase : Type 0 where
  outside : Phase
  entered : Call → Phase
  visiting : List Text → Dict Container → Phase
  leaving : Phase

pub record System : Type 0 where
  pub store : Store
  pub holder : Option ℕ
  pub phase : ℕ → Phase
  pub history : List (ℕ × Call × Reply)

abbrev pub update : (ℕ → Phase) → ℕ → Phase → ℕ → Phase
update f t x i = if i == t then x else f i

abbrev pub keys : Dict Container → List Text
keys = map (λ e. e.0)

-- What a round of the loop adds: an entry that is there when its turn comes.
abbrev pub live : Text → Option Container → Dict Container
live id none = []
live id (some c) = (id, c) ∷ []

-- A call whose body is one access to the map.
abbrev pub IsAccess : Call → Type 0
IsAccess each = ⊥
IsAccess _ = Unit

module _ (shuffle : Dict Container → Dict Container) where
  -- The calls as if each ran alone.
  unfoldable pub perform : Call → Store → Store × Reply
  perform (get id) s = (s, found (container s id))
  perform (set id c) s = (set_container s id c, done)
  perform (delete id) s = (delete_container s id, done)
  perform each s = (s, visited (for_each shuffle s record_visit []))

  pub data Step (s u : System) : Type 0 where
    lock :
        (t : ℕ) (c : Call)
        → s.phase t ≡ outside
        → s.holder ≡ none
        → u ≡ record s { holder = some t; phase = update s.phase t (entered c) }
        → Step s u
    access :
        (t : ℕ) (c : Call)
        → IsAccess c
        → s.phase t ≡ entered c
        → u ≡ record s {
          store = (perform c s.store).0;
          phase = update s.phase t leaving;
          history = s.history ++ (t, c, (perform c s.store).1) ∷ [];
        }
        → Step s u
    begin :
        (t : ℕ)
        → s.phase t ≡ entered each
        → u
          ≡ record s { phase = update s.phase t (visiting (keys (shuffle s.store.containers)) []) }
        → Step s u
    visit :
        (t : ℕ) (id : Text) (ids : List Text) (seen : Dict Container)
        → s.phase t ≡ visiting (id ∷ ids) seen
        → u ≡ record s {
          phase = update s.phase t (visiting ids (seen ++ live id (container s.store id)));
        }
        → Step s u
    finish :
        (t : ℕ) (seen : Dict Container)
        → s.phase t ≡ visiting [] seen
        → u ≡ record s {
          phase = update s.phase t leaving;
          history = s.history ++ (t, each, visited seen) ∷ [];
        }
        → Step s u
    unlock :
        (t : ℕ)
        → s.phase t ≡ leaving
        → u ≡ record s { holder = none; phase = update s.phase t outside }
        → Step s u

  pub data Reach (s : System) : System → Type 0 where
    here : Reach s s
    next : {t u : System} → Reach s t → Step t u → Reach s u

-- No goroutine has begun.
abbrev pub start : Store → System
start s = record { store = s; holder = none; phase = λ t. outside; history = [] }

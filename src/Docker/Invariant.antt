-- ===== src/Docker/Invariant.antt =====
-- What holds of the store whatever the daemon does, also after a panic.
use scope_network.Prelude.{ℕ, List, [], ◌∷◌, ◌≡◌, ◌≢◌, some, arith, inl, inr}
use scope_network.Text.{Text}
use scope_network.Dict
use scope_network.Errors.{Result, ok, err}
use scope_network.Store.{
  State, created, running, stopped, destroyed, Container, Store, new_store, container,
}
use scope_network.Store.Laws.{IsStore}
use scope_network.Docker.{
  Inspection, ApiEvent, Daemon, Client, End, returned, panicked, update_container, listed_state,
  get_containers, handle_event, handle_events, follow_events, scan_and_follow, session, go_on,
  start,
}
use scope_network.Docker.Sync.{
  entry, Inspection-cases, container-update_container, update_container-IsStore,
}

pub record IsTracked (s : Store) : Type 0 where
  pub distinct : IsStore s
  pub live : (j : Text) (c : Container) → container s j ≡ some c → c.state ≢ destroyed

entry-live : (st : State) (pid : ℕ) (c : Container) → entry st pid ≡ some c → c.state ≢ destroyed
entry-live created pid c e = ground arith
entry-live running pid c e = ground arith
entry-live stopped pid c e = ground arith
entry-live destroyed pid c e = cc

update_container-IsTracked :
    (s : Store) (id : Text) (st : State) (pid : ℕ)
    → IsTracked s
    → IsTracked (update_container s id st pid)
update_container-IsTracked s id st pid v = record {
  distinct = update_container-IsStore s id st pid v.distinct;
  live = λ j c e.
      ground (
        arith,
        container-update_container s id j st pid v.distinct,
        entry-live st pid c,
        v.live j c,
      );
}

handle_event-IsTracked :
    (e : ApiEvent) (i : Inspection) (s : Store) → IsTracked s → IsTracked (handle_event e i s)
unfolding handle_event
handle_event-IsTracked e i s v = grind (arith, update_container-IsTracked)

handle_events-IsTracked :
    (es : List (ApiEvent × Inspection)) (s : Store) → IsTracked s → IsTracked (handle_events es s)
unfolding handle_events
handle_events-IsTracked [] s v = v
handle_events-IsTracked ((e, i) ∷ es) s v =
    handle_events-IsTracked es _ (handle_event-IsTracked e i s v)

get_containers-IsTracked :
    (inspect : Text → Inspection) (ids : List Text) (s : Store)
    → IsTracked s
    → IsTracked (get_containers inspect ids s).1
unfolding get_containers
get_containers-IsTracked inspect [] s v = v
get_containers-IsTracked inspect (id ∷ ids) s v = elim (Inspection-cases (inspect id)) [
  | inl (c, e) ↦ rw e (
      get_containers-IsTracked inspect ids _
        (update_container-IsTracked s id (listed_state c.state) c.state.pid v))
  | inr (inl e) ↦ rw e v
  | inr (inr (x, e)) ↦ rw e (get_containers-IsTracked inspect ids s v)
]

follow_events-IsTracked :
    (es : List (ApiEvent × Inspection)) (r : End × Store)
    → IsTracked r.1
    → IsTracked (follow_events es r).1
follow_events-IsTracked es (returned, s) v = handle_events-IsTracked es s v
follow_events-IsTracked es (panicked, s) v = v

scan_and_follow-IsTracked :
    (l : Result (List Text)) (d : Daemon) (s : Store)
    → IsTracked s
    → IsTracked (scan_and_follow l d s).1
scan_and_follow-IsTracked (err e) d s v = v
scan_and_follow-IsTracked (ok ids) d s v =
    follow_events-IsTracked d.events _ (get_containers-IsTracked d.inspect ids s v)

session-IsTracked : (d : Daemon) (c : Client) → IsTracked c.store → IsTracked (session d c).1.store
unfolding session
session-IsTracked d c v = ground (arith, scan_and_follow-IsTracked d.listing d c.store v)

go_on-IsTracked :
    (r : End × Client) (rest : Client → End × Client)
    → IsTracked r.1.store
    → ((c : Client) → IsTracked c.store → IsTracked (rest c).1.store)
    → IsTracked (go_on r rest).1.store
go_on-IsTracked (returned, c) rest v keep = keep c v
go_on-IsTracked (panicked, c) rest v keep = v

-- After any rounds of `Start`, whatever the daemon listed, sent and answered, and whether or not
-- the last round panicked, no container id stands twice in the store and no stored container is in
-- the state Destroyed.
pub start-IsTracked :
    (ds : List Daemon) (c : Client) → IsTracked c.store → IsTracked (start ds c).1.store
unfolding start
start-IsTracked [] c v = v
start-IsTracked (d ∷ ds) c v =
    go_on-IsTracked (session d c) (start ds) (session-IsTracked d c v)
      λ c' v'. start-IsTracked ds c' v'

pub new_store-IsTracked : IsTracked new_store
unfolding container Dict.lookup
new_store-IsTracked = record { distinct = tt; live = λ j c e. cc }

-- ===== src/Docker/Rounds.antt =====
-- One round of `Start`, and all of them: what the store holds afterwards, container by container.
use scope_network.Prelude.{List, [], ◌∷◌, ◌≡◌, refl, Option, none, some, arith, if◌then◌else◌}
use scope_network.Text.{Text}
use scope_network.Errors.{Result, ok, err}
use scope_network.Store.{Container, Store, container}
use scope_network.Store.Laws.{IsStore}
use scope_network.Docker.{
  Inspection, ApiEvent, Daemon, Client, End, returned, panicked, get_containers, follow_events,
  scan_and_follow, session, start,
}
use scope_network.Docker.Sync.{
  last_event, listed, is_in, overwrite, get_containers-IsStore, handle_events-IsStore,
  container-get_containers, container-handle_events,
}

-- What a round says of a container: its last event, or else the listing. A round whose listener or
-- whose listing was refused says nothing.
abbrev pub listing_says : Result (List Text) → Daemon → Text → Option (Option Container)
listing_says (err e) d j = none
listing_says (ok ids) d j = elim (last_event d.events j) [
  | some x ↦ some x
  | none ↦ if is_in j ids then listed (d.inspect j) else none
]

abbrev pub round_says : Daemon → Text → Option (Option Container)
round_says d j = elim d.add_error [ none ↦ listing_says d.listing d j | some e ↦ none ]

-- What the rounds before say stays where a round says nothing.
abbrev pub rounds_say : List Daemon → Text → Option Container → Option Container
rounds_say [] j old = old
rounds_say (d ∷ ds) j old = rounds_say ds j (overwrite (round_says d j) old)

follow_events-IsStore :
    (es : List (ApiEvent × Inspection)) (r : End × Store)
    → IsStore r.1
    → IsStore (follow_events es r).1
follow_events-IsStore es (returned, s) h = handle_events-IsStore es s h
follow_events-IsStore es (panicked, s) h = h

scan_and_follow-IsStore :
    (l : Result (List Text)) (d : Daemon) (s : Store)
    → IsStore s
    → IsStore (scan_and_follow l d s).1
scan_and_follow-IsStore (err e) d s h = h
scan_and_follow-IsStore (ok ids) d s h =
    follow_events-IsStore d.events _ (get_containers-IsStore d.inspect ids s h)

pub session-IsStore : (d : Daemon) (c : Client) → IsStore c.store → IsStore (session d c).1.store
unfolding session
session-IsStore d c h = grind (arith, scan_and_follow-IsStore)

follow_listing :
    (d : Daemon) (s : Store) (j : Text) (ids : List Text)
    → IsStore s
    → (follow_events d.events (get_containers d.inspect ids s)).0 ≡ returned
    → container (follow_events d.events (get_containers d.inspect ids s)).1 j
      ≡ overwrite (listing_says (ok ids) d j) (container s j)
follow_listing d s j ids h e = ground (
  arith,
  container-get_containers d.inspect ids s j h,
  container-handle_events d.events (get_containers d.inspect ids s).1 j
      (get_containers-IsStore d.inspect ids s h),
)

-- A round that returns leaves each container as the round says, and as it was where the round says
-- nothing.
pub container-session :
    (d : Daemon) (c : Client) (j : Text)
    → IsStore c.store
    → (session d c).0 ≡ returned
    → container (session d c).1.store j ≡ overwrite (round_says d j) (container c.store j)
unfolding session
container-session d c j h e = grind (arith, follow_listing)

-- After any rounds of `Start` that all return, the store holds for each container what the last
-- round that says something of it says, its last event or else its listed state, and what it held
-- before if none does.
pub container-start :
    (ds : List Daemon) (c : Client) (j : Text)
    → IsStore c.store
    → (start ds c).0 ≡ returned
    → container (start ds c).1.store j ≡ rounds_say ds j (container c.store j)
unfolding start
container-start [] c j h e = refl
container-start (d ∷ ds) c j h e =
    ground (
      arith,
      container-session d c j h,
      container-start ds (session d c).1 j (session-IsStore d c h),
    )

-- ===== src/Docker/Crash.antt =====
-- docker.go: when the client's goroutine dereferences a nil pointer, and its event listeners.
use scope_network.Prelude.{List, [], ◌∷◌, ◌≡◌, ◌≢◌, ◌⊎◌, inl, inr, ◌↔◌, refl, none, arith, All}
use scope_network.Text.{Text}
use scope_network.Errors.{Result, ok, err}
use scope_network.Store.{Store}
use scope_network.Docker.{
  Inspection, known, no_such_container, failed, ApiEvent, Daemon, Client, End, returned, panicked,
  get_containers, follow_events, scan_and_follow, session, start,
}
use scope_network.Docker.Sync.{Inspection-cases}

-- Some id of the listing is gone when it is looked up.
abbrev pub SomeGone : (Text → Inspection) → List Text → Type 0
SomeGone inspect [] = ⊥
SomeGone inspect (id ∷ ids) = (inspect id ≡ no_such_container) ⊎ SomeGone inspect ids

abbrev pub ListingHasGone : Result (List Text) → Daemon → Type 0
ListingHasGone (ok ids) d = SomeGone d.inspect ids
ListingHasGone (err e) d = ⊥

-- A round that reads a listing of which some id is gone.
abbrev pub MeetsGone : Daemon → Type 0
MeetsGone d = (d.add_error ≡ none) × ListingHasGone d.listing d

abbrev pub SomeRoundMeetsGone : List Daemon → Type 0
SomeRoundMeetsGone [] = ⊥
SomeRoundMeetsGone (d ∷ ds) = MeetsGone d ⊎ SomeRoundMeetsGone ds

panics_of_gone :
    (inspect : Text → Inspection) (ids : List Text) (s : Store)
    → SomeGone inspect ids
    → (get_containers inspect ids s).0 ≡ panicked
unfolding get_containers
panics_of_gone inspect [] s h = elim h [ ]
panics_of_gone inspect (id ∷ ids) s h = elim (Inspection-cases (inspect id)) [
  | inl (c, e) ↦ rw e (panics_of_gone inspect ids _ (later (known c) e (λ x. cc) h))
  | inr (inl e) ↦ rw e refl
  | inr (inr (x, e)) ↦ rw e (panics_of_gone inspect ids s (later (failed x) e (λ y. cc) h))
]
  where
    later :
        (i : Inspection)
        → inspect id ≡ i
        → i ≢ no_such_container
        → (inspect id ≡ no_such_container) ⊎ SomeGone inspect ids
        → SomeGone inspect ids
    later i e ne (inl gone) = absurd (ne (cc))
    later i e ne (inr rest) = rest

gone_of_panics :
    (inspect : Text → Inspection) (ids : List Text) (s : Store)
    → (get_containers inspect ids s).0 ≡ panicked
    → SomeGone inspect ids
unfolding get_containers
gone_of_panics inspect [] s h = cc
gone_of_panics inspect (id ∷ ids) s h = elim (Inspection-cases (inspect id)) [
  | inl (c, e) ↦ inr (gone_of_panics inspect ids _ (rw e at h))
  | inr (inl e) ↦ inl e
  | inr (inr (x, e)) ↦ inr (gone_of_panics inspect ids s (rw e at h))
]

follow_panics :
    (es : List (ApiEvent × Inspection)) (r : End × Store)
    → ((follow_events es r).0 ≡ panicked) ↔ (r.0 ≡ panicked)
follow_panics es (returned, s) = ground arith
follow_panics es (panicked, s) = ground arith

scan_panics :
    (l : Result (List Text)) (d : Daemon) (s : Store)
    → ((scan_and_follow l d s).0 ≡ panicked) ↔ ListingHasGone l d
scan_panics (err e) d s = (λ h. cc, λ h. elim h [ ])
scan_panics (ok ids) d s =
    let f = follow_panics d.events (get_containers d.inspect ids s) in
    (λ h. gone_of_panics d.inspect ids s (f.0 h), λ h. f.1 (panics_of_gone d.inspect ids s h))

session_panics_iff : (d : Daemon) (c : Client) → ((session d c).0 ≡ panicked) ↔ MeetsGone d
unfolding session
session_panics_iff d c = ground (arith, scan_panics d.listing d c.store)

-- The goroutine of `Start` panics exactly when in some round the listener was added and the listing
-- read, and the look-up of a container of the listing answers `NoSuchContainer`.
pub start_panics_iff :
    (ds : List Daemon) (c : Client) → ((start ds c).0 ≡ panicked) ↔ SomeRoundMeetsGone ds
unfolding start
start_panics_iff [] c = (λ h. cc, λ h. elim h [ ])
start_panics_iff (d ∷ ds) c =
    ground (arith, session_panics_iff d c, start_panics_iff ds (session d c).1)

abbrev pub Removes : Daemon → Type 0
Removes d = d.remove_error ≡ none

session-listeners : (d : Daemon) (c : Client) → Removes d → (session d c).1.listeners ≡ c.listeners
unfolding session
session-listeners d c h = ground arith

-- The client's listener is removed in every round, also in one that fails or panics, if the daemon
-- accepts the removals.
pub start-listeners :
    (ds : List Daemon) (c : Client) → All Removes ds → (start ds c).1.listeners ≡ c.listeners
unfolding start
start-listeners [] c h = refl
start-listeners (d ∷ ds) c (h, hs) =
    ground (arith, session-listeners d c h, start-listeners ds (session d c).1 hs)

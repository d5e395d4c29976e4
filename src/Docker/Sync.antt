-- ===== src/Docker/Sync.antt =====
-- What the daemon's listing and its events leave in the store, container by container: the last
-- event that says something of a container decides, then the listing, then what was there.
use scope_network.Prelude.{
  ℕ, Bool, false, List, [], ◌∷◌, ◌≡◌, refl, Option, none, some, arith, if◌then◌else◌, inl, inr,
  ◌||◌, ◌⊎◌,
}
use scope_network.Text.{Text, same, same_iff}
use scope_network.Errors.{Error}
use scope_network.Store.{State, created, running, stopped, destroyed, Container, Store, container}
use scope_network.Store.Laws.{
  IsStore, container-set_container, container-delete_container, set_container-IsStore,
  delete_container-IsStore,
}
use scope_network.Docker.{
  DockerContainer, Inspection, known, no_such_container, failed, ApiEvent, update_container,
  listed_state, returned, get_containers, event_state, handle_event, handle_events,
}

-- What is stored for a state: nothing for a destroyed container.
abbrev pub entry : State → ℕ → Option Container
entry destroyed pid = none
entry st pid = some (record { state = st; pid = pid })

-- What an event says of its container: nothing, or that the store is to hold this of it.
abbrev pub event_says : ApiEvent → Inspection → Option (Option Container)
event_says e (failed x) = none
event_says e no_such_container = elim (event_state e.status) [
  | none ↦ none
  | some st ↦ some (entry st 0)
]
event_says e (known c) = elim (event_state e.status) [
  | none ↦ none
  | some st ↦ some (entry st c.state.pid)
]

abbrev pub last_event : List (ApiEvent × Inspection) → Text → Option (Option Container)
last_event [] j = none
last_event ((e, i) ∷ es) j = elim (last_event es j) [
  | some x ↦ some x
  | none ↦ if same e.id j then event_says e i else none
]

-- What the listing says of a container.
abbrev pub listed : Inspection → Option (Option Container)
listed (known c) = some (entry (listed_state c.state) c.state.pid)
listed no_such_container = none
listed (failed e) = none

abbrev pub is_in : Text → List Text → Bool
is_in j [] = false
is_in j (id ∷ ids) = same id j || is_in j ids

abbrev pub overwrite : Option (Option Container) → Option Container → Option Container
overwrite none old = old
overwrite (some x) old = x

pub container-update_container :
    (s : Store) (id j : Text) (st : State) (pid : ℕ)
    → IsStore s
    → container (update_container s id st pid) j
      ≡ (if same id j then entry st pid else container s j)
unfolding update_container
container-update_container s id j destroyed pid d = container-delete_container s id j d
container-update_container s id j created pid d = container-set_container s id j _
container-update_container s id j running pid d = container-set_container s id j _
container-update_container s id j stopped pid d = container-set_container s id j _

pub update_container-IsStore :
    (s : Store) (id : Text) (st : State) (pid : ℕ)
    → IsStore s
    → IsStore (update_container s id st pid)
unfolding update_container
update_container-IsStore s id destroyed pid d = delete_container-IsStore s id d
update_container-IsStore s id created pid d = set_container-IsStore s id _ d
update_container-IsStore s id running pid d = set_container-IsStore s id _ d
update_container-IsStore s id stopped pid d = set_container-IsStore s id _ d

pub handle_event-IsStore :
    (e : ApiEvent) (i : Inspection) (s : Store) → IsStore s → IsStore (handle_event e i s)
unfolding handle_event
handle_event-IsStore e i s d = grind (arith, update_container-IsStore)

pub container-handle_event :
    (e : ApiEvent) (i : Inspection) (s : Store) (j : Text)
    → IsStore s
    → container (handle_event e i s) j
      ≡ overwrite (if same e.id j then event_says e i else none) (container s j)
unfolding handle_event
container-handle_event e (failed x) s j d = ground arith
container-handle_event e no_such_container s j d = grind (arith, container-update_container)
container-handle_event e (known c) s j d = grind (arith, container-update_container)

pub handle_events-IsStore :
    (es : List (ApiEvent × Inspection)) (s : Store) → IsStore s → IsStore (handle_events es s)
unfolding handle_events
handle_events-IsStore [] s d = d
handle_events-IsStore ((e, i) ∷ es) s d =
    handle_events-IsStore es (handle_event e i s) (handle_event-IsStore e i s d)

-- After any run of events the store holds, for each container, what the last event that says
-- something of it said, and otherwise what it held before.
pub container-handle_events :
    (es : List (ApiEvent × Inspection)) (s : Store) (j : Text)
    → IsStore s
    → container (handle_events es s) j ≡ overwrite (last_event es j) (container s j)
unfolding handle_events
container-handle_events [] s j d = refl
container-handle_events ((e, i) ∷ es) s j d = ground (
  arith,
  container-handle_events es (handle_event e i s) j (handle_event-IsStore e i s d),
  container-handle_event e i s j d,
)

pub Inspection-cases :
    (i : Inspection)
    → ((c : DockerContainer) × (i ≡ known c))
      ⊎ ((i ≡ no_such_container) ⊎ ((x : Error) × (i ≡ failed x)))
Inspection-cases (known c) = inl (c, refl)
Inspection-cases no_such_container = inr (inl refl)
Inspection-cases (failed x) = inr (inr (x, refl))

pub get_containers-IsStore :
    (inspect : Text → Inspection) (ids : List Text) (s : Store)
    → IsStore s
    → IsStore (get_containers inspect ids s).1
unfolding get_containers
get_containers-IsStore inspect [] s d = d
get_containers-IsStore inspect (id ∷ ids) s d = elim (Inspection-cases (inspect id)) [
  | inl (c, e) ↦ rw e (
      get_containers-IsStore inspect ids _
        (update_container-IsStore s id (listed_state c.state) c.state.pid d))
  | inr (inl e) ↦ rw e d
  | inr (inr (x, e)) ↦ rw e (get_containers-IsStore inspect ids s d)
]

-- After a listing that was read to its end the store holds, for each container that is listed and
-- found, its listed state, and otherwise what it held before.
pub container-get_containers :
    (inspect : Text → Inspection) (ids : List Text) (s : Store) (j : Text)
    → IsStore s
    → (get_containers inspect ids s).0 ≡ returned
    → container (get_containers inspect ids s).1 j
      ≡ overwrite (if is_in j ids then listed (inspect j) else none) (container s j)
unfolding get_containers
container-get_containers inspect [] s j d h = refl
container-get_containers inspect (id ∷ ids) s j d h = elim (Inspection-cases (inspect id)) [
  | inl (c, e) ↦
      let s' = update_container s id (listed_state c.state) c.state.pid in
      ground (
        arith,
        e,
        container-get_containers inspect ids s' j
            (update_container-IsStore s id (listed_state c.state) c.state.pid d),
        container-update_container s id j (listed_state c.state) c.state.pid d,
        same_iff id j,
      )
  | inr (inl e) ↦ ground (arith, e)
  | inr (inr (x, e)) ↦ ground (arith, e, container-get_containers inspect ids s j d, same_iff id j)
]

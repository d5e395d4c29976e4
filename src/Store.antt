-- ===== src/Store.antt =====
-- store.go: the containers that the plugin knows of, by their ids. The methods below are the bodies
-- that run under the lock; the lock itself, and what goroutines do around it, is in Store/Locking.
pub mod Laws
pub mod Locking
use scope_network.Prelude.{ℕ, List, [], ◌∷◌, Option}
use scope_network.Text.{Text}
use scope_network.Dict
use scope_network.Dict.{Dict}

-- The constants of `State`, in their order.
pub data State : Type 0 where
  created running stopped destroyed : State

pub record Container : Type 0 where
  pub state : State
  pub pid : ℕ

pub record Store : Type 0 where
  pub containers : Dict Container

abbrev pub new_store : Store
new_store = record { containers = [] }

-- The container, if the id is found.
unfoldable pub container : Store → Text → Option Container
container s id = Dict.lookup id s.containers

unfoldable pub set_container : Store → Text → Container → Store
set_container s id c = record s { containers = Dict.insert id c s.containers }

unfoldable pub delete_container : Store → Text → Store
delete_container s id = record s { containers = Dict.erase id s.containers }

-- The loop over entries in the order of the iteration; the callback's own state is `acc`.
unfoldable pub visit_all {ℓ} : {S : Type ℓ} → Dict Container → (Text → Container → S → S) → S → S
visit_all [] callback acc = acc
visit_all ((id, c) ∷ entries) callback acc = visit_all entries callback (callback id c acc)

unfoldable pub for_each {ℓ} :
    {S : Type ℓ} → (Dict Container → Dict Container) → Store → (Text → Container → S → S) → S → S
unfolding visit_all
for_each shuffle s callback acc = visit_all (shuffle s.containers) callback acc

-- ===== src/Store/Laws.antt =====
-- What the store's operations do at every id, and the invariant that they keep.
use scope_network.Prelude.{◌≡◌, none, some, if◌then◌else◌}
use scope_network.Text.{Text, same}
use scope_network.Dict.{Distinct}
use scope_network.Dict.Laws.{lookup-insert, lookup-erase, insert-Distinct, erase-Distinct}
use scope_network.Store.{Container, Store, new_store, container, set_container, delete_container}

-- No container id stands twice.
abbrev pub IsStore : Store → Type 0
IsStore s = Distinct s.containers

pub new_store-IsStore : IsStore new_store
new_store-IsStore = tt

pub container-set_container :
    (s : Store) (id j : Text) (c : Container)
    → container (set_container s id c) j ≡ (if same id j then some c else container s j)
unfolding container set_container
container-set_container s id j c = lookup-insert id j c s.containers

pub container-delete_container :
    (s : Store) (id j : Text)
    → IsStore s
    → container (delete_container s id) j ≡ (if same id j then none else container s j)
unfolding container delete_container
container-delete_container s id j d = lookup-erase id j s.containers d

pub set_container-IsStore :
    (s : Store) (id : Text) (c : Container) → IsStore s → IsStore (set_container s id c)
unfolding set_container
set_container-IsStore s id c d = insert-Distinct id c s.containers d

pub delete_container-IsStore : (s : Store) (id : Text) → IsStore s → IsStore (delete_container s id)
unfolding delete_container
delete_container-IsStore s id d = erase-Distinct id s.containers d

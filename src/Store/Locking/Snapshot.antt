-- ===== src/Store/Locking/Snapshot.antt =====
-- What a loop over the keys collects from a map that does not change meanwhile.
use scope_network.Prelude.{
  List, [], ◌∷◌, ◌++◌, append_assoc, append-nil, ◌≡◌, ◌≢◌, refl, sym, ◌∙◌, Option, none, some,
  arith,
}
use scope_network.Text.{Text, same_iff, same_refl}
use scope_network.Dict
use scope_network.Dict.{Dict, Distinct, IsIterationOrder}
use scope_network.Store.{Container, Store, container, visit_all}
use scope_network.Store.Locking.{keys, live, record_visit}

-- The entries that the keys still find.
pub collect : List Text → (Text → Option Container) → Dict Container
collect [] f = []
collect (id ∷ ids) f = live id (f id) ++ collect ids f

pub collect-cons :
    (id : Text) (ids : List Text) (f : Text → Option Container)
    → collect (id ∷ ids) f ≡ live id (f id) ++ collect ids f
unfolding collect
collect-cons id ids f = refl

pub collect-nil : (f : Text → Option Container) → collect [] f ≡ []
unfolding collect
collect-nil f = refl

collect-agree :
    (m : Dict Container) (f : Text → Option Container)
    → Distinct m
    → ((k : Text) → Dict.lookup k m ≢ none → f k ≡ Dict.lookup k m)
    → collect (keys m) f ≡ m
unfolding collect
collect-agree [] f d agree = refl
collect-agree ((id, c) ∷ m) f (fresh, d) agree = rw (first, collect-agree m f d later) refl
  where
    here : Dict.lookup id ((id, c) ∷ m) ≡ some c
    here = unfold Dict.lookup in ground (arith, same_refl id)

    first : f id ≡ some c
    first = agree id (λ e. ground (arith, here)) ∙ here

    later : (k : Text) → Dict.lookup k m ≢ none → f k ≡ Dict.lookup k m
    later k h = unfold Dict.lookup in ground (arith, agree k, same_iff id k)

pub visit_all-record : (m seen : Dict Container) → visit_all m record_visit seen ≡ seen ++ m
unfolding visit_all
visit_all-record [] seen = sym (append-nil seen)
visit_all-record ((id, c) ∷ m) seen = simp (visit_all-record m, append_assoc)

-- The keys of an iteration order, looked up in the map, give the entries in that order.
pub collect-keys :
    (shuffle : Dict Container → Dict Container) (s : Store)
    → IsIterationOrder shuffle
    → Distinct s.containers
    → collect (keys (shuffle s.containers)) (container s) ≡ shuffle s.containers
collect-keys shuffle s o d =
    collect-agree (shuffle s.containers) (container s) (o.once s.containers d)
      λ k h. unfold container in sym (o.visits s.containers k d)

-- ===== src/Store/Locking/Invariant.antt =====
-- Mutual exclusion, and what holds between any two steps of the goroutines.
use scope_network.Prelude.{
  ℕ, List, [], ◌∷◌, ◌++◌, append_assoc, append-nil, ◌≡◌, ◌≢◌, refl, sym, ap, ◌∙◌, none, some, arith,
}
use scope_network.Text.{Text}
use scope_network.Dict.{Dict, IsIterationOrder}
use scope_network.Store.{Container, Store, container, for_each}
use scope_network.Store.Laws.{IsStore, set_container-IsStore, delete_container-IsStore}
use scope_network.Store.Locking.{
  Call, get, set, delete, each, Reply, visited, outside, entered, visiting, leaving, System, update,
  keys, live, perform, Step, lock, access, begin, visit, finish, unlock, Reach, here, next, start,
}
use scope_network.Store.Locking.Snapshot.{
  collect, collect-cons, collect-nil, collect-keys, visit_all-record,
}

module _ (shuffle : Dict Container → Dict Container) where
  -- The calls of the history, run one after the other, give each reply and the last store.
  abbrev pub Explains : Store → List (ℕ × Call × Reply) → Store → Type 0
  Explains s [] t = s ≡ t
  Explains s ((i, c, r) ∷ h) t =
      ((perform shuffle c s).1 ≡ r) × Explains (perform shuffle c s).0 h t

  Explains-append :
      (s t : Store) (h : List (ℕ × Call × Reply)) (i : ℕ) (c : Call)
      → Explains s h t
      → Explains s (h ++ (i, c, (perform shuffle c t).1) ∷ []) (perform shuffle c t).0
  Explains-append s t [] i c e =
      (ap (λ x. (perform shuffle c x).1) e, ap (λ x. (perform shuffle c x).0) e)
  Explains-append s t ((j, d, r) ∷ h) i c (e, x) =
      (e, Explains-append (perform shuffle d s).0 t h i c x)

  pub record Inv (initial : Store) (s : System) : Type 0 where
    pub explained : Explains initial s.history s.store
    pub distinct : IsStore s.store
    pub inside : (t : ℕ) → s.phase t ≢ outside → s.holder ≡ some t
    pub held : (t : ℕ) → s.holder ≡ some t → s.phase t ≢ outside
    pub snapshot :
        (t : ℕ) (ids : List Text) (seen : Dict Container)
        → s.phase t ≡ visiting ids seen
        → seen ++ collect ids (container s.store) ≡ shuffle s.store.containers

  perform-IsStore : (c : Call) (s : Store) → IsStore s → IsStore (perform shuffle c s).0
  unfolding perform
  perform-IsStore (get id) s d = d
  perform-IsStore (set id c) s d = set_container-IsStore s id c d
  perform-IsStore (delete id) s d = delete_container-IsStore s id d
  perform-IsStore each s d = d

  perform-each : (s : Store) → perform shuffle each s ≡ (s, visited (shuffle s.containers))
  unfolding perform for_each
  perform-each s = rw (visit_all-record (shuffle s.containers) [])

  module _ (o : IsIterationOrder shuffle) (initial : Store) where
    lock-Inv :
        (s : System) (t : ℕ) (c : Call)
        → s.phase t ≡ outside
        → s.holder ≡ none
        → Inv initial s
        → Inv initial (record s { holder = some t; phase = update s.phase t (entered c) })
    lock-Inv s t c out free v = record {
      explained = v.explained;
      distinct = v.distinct;
      inside = λ i h. ground (arith, v.inside i);
      held = λ i h. ground (arith, v.held i);
      snapshot = λ i ids seen h. ground (arith, v.snapshot i ids seen);
    }

    access-Inv :
        (s : System) (t : ℕ) (c : Call)
        → s.phase t ≡ entered c
        → Inv initial s
        → Inv initial (record s {
          store = (perform shuffle c s.store).0;
          phase = update s.phase t leaving;
          history = s.history ++ (t, c, (perform shuffle c s.store).1) ∷ [];
        })
    access-Inv s t c at v = record {
      explained = Explains-append initial s.store s.history t c v.explained;
      distinct = perform-IsStore c s.store v.distinct;
      inside = λ i h. ground (arith, v.inside i, v.inside t);
      held = λ i h. ground (arith, v.held i);
      snapshot = λ i ids seen h. absurd (ground (arith, v.inside i, v.inside t));
    }

    begin-Inv :
        (s : System) (t : ℕ)
        → s.phase t ≡ entered each
        → Inv initial s
        → Inv initial (record s {
          phase = update s.phase t (visiting (keys (shuffle s.store.containers)) []);
        })
    begin-Inv s t at v = record {
      explained = v.explained;
      distinct = v.distinct;
      inside = λ i h. ground (arith, v.inside i, v.inside t);
      held = λ i h. ground (arith, v.held i);
      snapshot = λ i ids seen h.
          ground (arith, v.snapshot i ids seen, collect-keys shuffle s.store o v.distinct);
    }

    visit-Inv :
        (s : System) (t : ℕ) (id : Text) (ids : List Text) (seen : Dict Container)
        → s.phase t ≡ visiting (id ∷ ids) seen
        → Inv initial s
        → Inv initial (record s {
          phase = update s.phase t (visiting ids (seen ++ live id (container s.store id)));
        })
    visit-Inv s t id ids seen at v = record {
      explained = v.explained;
      distinct = v.distinct;
      inside = λ i h. ground (arith, v.inside i, v.inside t);
      held = λ i h. ground (arith, v.held i);
      snapshot = λ i jds sn h. ground (
        arith,
        v.snapshot i jds sn,
        v.snapshot t (id ∷ ids) seen at,
        collect-cons id ids (container s.store),
        append_assoc seen (live id (container s.store id)) (collect ids (container s.store)),
      );
    }

    finish-Inv :
        (s : System) (t : ℕ) (seen : Dict Container)
        → s.phase t ≡ visiting [] seen
        → Inv initial s
        → Inv initial (record s {
          phase = update s.phase t leaving;
          history = s.history ++ (t, each, visited seen) ∷ [];
        })
    finish-Inv s t seen at v = record {
      explained =
          subst_reply (perform-each s.store ∙ ap (λ m. (s.store, visited m)) (sym whole))
            (Explains-append initial s.store s.history t each v.explained);
      distinct = v.distinct;
      inside = λ i h. ground (arith, v.inside i, v.inside t);
      held = λ i h. ground (arith, v.held i);
      snapshot = λ i ids sn h. ground (arith, v.snapshot i ids sn);
    }
      where
        whole : seen ≡ shuffle s.store.containers
        whole =
            ground
              (arith, v.snapshot t [] seen at, collect-nil (container s.store), append-nil seen)

        subst_reply :
            {p : Store × Reply}
            → perform shuffle each s.store ≡ p
            → Explains initial
                (s.history ++ (t, each, (perform shuffle each s.store).1) ∷ [])
                (perform shuffle each s.store).0
            → Explains initial (s.history ++ (t, each, p.1) ∷ []) p.0
        subst_reply e x = rw (← e) x

    unlock-Inv :
        (s : System) (t : ℕ)
        → s.phase t ≡ leaving
        → Inv initial s
        → Inv initial (record s { holder = none; phase = update s.phase t outside })
    unlock-Inv s t at v = record {
      explained = v.explained;
      distinct = v.distinct;
      inside = λ i h. ground (arith, v.inside i, v.inside t);
      held = λ i h. ground (arith, v.held i);
      snapshot = λ i ids sn h. ground (arith, v.snapshot i ids sn);
    }

    pub Step-Inv : (s u : System) → Step shuffle s u → Inv initial s → Inv initial u
    Step-Inv s u (lock t c out free e) v = rw e (lock-Inv s t c out free v)
    Step-Inv s u (access t c simple at e) v = rw e (access-Inv s t c at v)
    Step-Inv s u (begin t at e) v = rw e (begin-Inv s t at v)
    Step-Inv s u (visit t id ids seen at e) v = rw e (visit-Inv s t id ids seen at v)
    Step-Inv s u (finish t seen at e) v = rw e (finish-Inv s t seen at v)
    Step-Inv s u (unlock t at e) v = rw e (unlock-Inv s t at v)

    start-Inv : IsStore initial → Inv initial (start initial)
    start-Inv d = record {
      explained = refl;
      distinct = d;
      inside = λ t h. absurd (h refl);
      held = λ t h. cc;
      snapshot = λ t ids seen h. cc;
    }

    pub Reach-Inv : {s : System} → IsStore initial → Reach shuffle (start initial) s → Inv initial s
    Reach-Inv d here = start-Inv d
    Reach-Inv d (next {t} {u} r st) = Step-Inv t u st (Reach-Inv d r)

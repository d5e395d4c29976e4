-- ===== src/Report/Shown.antt =====
-- report.go, `getContainerNodes`: which containers have a node in the report, and which node.
use scope_network.Prelude.{
  ℕ, ◌+◌, Bool, true, false, [], ◌∷◌, ◌++◌, ◌≡◌, refl, sym, ap, subst, ◌∙◌, Option, none, some,
  arith, Bool-cases, inl, inr,
}
use scope_network.Text.{Text, same, same_iff, same_refl}
use scope_network.Text.Affix.{trim_suffix, trim_suffix-append}
use scope_network.Dict
use scope_network.Dict.{Dict, Distinct, IsIterationOrder}
use scope_network.Dict.Laws.{lookup-insert, lookup-insert_self}
use scope_network.Errors.{Result, ok, err, Outcome, returns, panics, exits}
use scope_network.Store.{
  State, created, running, stopped, destroyed, Container, Store, container, for_each, visit_all,
}
use scope_network.Store.Laws.{IsStore}
use scope_network.Traffic.Act.{World, pure, lift, if_err, ◌>>=◌}
use scope_network.Traffic.Act.Inversion.{bind_returns}
use scope_network.Traffic.Host.{Host}
use scope_network.Pods.{NetworkControlStatus, get_pod, get_status_by_pod}
use scope_network.Report.Nodes.{
  Node, node_suffix, container_id_to_node_id, make_node, add_node, pod_of, need_status, by_state,
  visit_container, get_container_nodes,
}

-- Two containers have the same node id only if they are the same.
pub same-container_id_to_node_id :
    (i j : Text) → same (container_id_to_node_id i) (container_id_to_node_id j) ≡ same i j
unfolding container_id_to_node_id
same-container_id_to_node_id i j = elim (Bool-cases (same i j)) [
  | inl e ↦ rw ((same_iff i j).0 e, same_refl (j ++ node_suffix), same_refl j)
  | inr ne ↦ ground (arith, same_iff i j, same_iff (i ++ node_suffix) (j ++ node_suffix), injective)
]
  where
    injective : i ++ node_suffix ≡ j ++ node_suffix → i ≡ j
    injective e =
        sym (trim_suffix-append i node_suffix)
        ∙ (ap (λ t. trim_suffix t node_suffix) e ∙ trim_suffix-append j node_suffix)

-- A status that `getStatusByPod` has returned.
abbrev pub IsDrawn : Host → NetworkControlStatus → Type 0
IsDrawn h s = (dpod : Text) × (w : World) × ((get_status_by_pod h dpod w).0 ≡ returns (ok (some s)))

module _ (h : Host) (timestamp : ℕ) where
  -- What a container in a state makes of the node that stood under its node id.
  abbrev pub Becomes : State → Option Node → Option Node → Type 0
  Becomes created old new = new ≡ old
  Becomes destroyed old new = new ≡ old
  Becomes running old new =
      (s : NetworkControlStatus) × IsDrawn h s × (new ≡ some (make_node h timestamp false s))
  Becomes stopped old new =
      (s : NetworkControlStatus) × IsDrawn h s × (new ≡ some (make_node h timestamp true s))

  abbrev pub Shows : Option Container → Option Node → Option Node → Type 0
  Shows none old new = new ≡ old
  Shows (some c) old new = Becomes c.state old new

  status_lem :
      (dead : Bool) (id : Text) (nodes nodes' : Dict Node) (w w' : World)
      (status : Result (Option NetworkControlStatus))
      → if_err status
          (λ e. lift exits)
          (λ s?. do
            s ← need_status h s?
            pure (Dict.insert (container_id_to_node_id id) (make_node h timestamp dead s) nodes))
          w
        ≡ (returns nodes', w')
      → (s : NetworkControlStatus) × (status ≡ ok (some s))
        × (nodes' ≡ Dict.insert (container_id_to_node_id id) (make_node h timestamp dead s) nodes)
  unfolding ◌>>=◌
  status_lem dead id nodes nodes' w w' (ok (some s)) e = (s, refl, cc)
  status_lem dead id nodes nodes' w w' (ok none) e = cc
  status_lem dead id nodes nodes' w w' (err x) e = cc

  add_node_lem :
      (dead : Bool) (id : Text) (nodes nodes' : Dict Node) (w w' : World)
      → add_node h timestamp dead id nodes w ≡ (returns nodes', w')
      → (s : NetworkControlStatus) × IsDrawn h s
        × (nodes' ≡ Dict.insert (container_id_to_node_id id) (make_node h timestamp dead s) nodes)
  unfolding add_node
  add_node_lem dead id nodes nodes' w w' e =
      let (spod, e₀, e₁) = bind_returns (get_pod h id) _ w e in
      let (status, e₂, e₃) = bind_returns (get_status_by_pod h (pod_of spod)) _ _ e₁ in
      let (s, known, x) = status_lem dead id nodes nodes' _ w' status e₃ in
      (s, (pod_of spod, (get_pod h id w).1, e₂ ∙ ap returns known), x)

  by_state_self :
      (st : State) (id : Text) (nodes nodes' : Dict Node) (w w' : World)
      → by_state h st timestamp id nodes w ≡ (returns nodes', w')
      → Becomes st
          (Dict.lookup (container_id_to_node_id id) nodes)
          (Dict.lookup (container_id_to_node_id id) nodes')
  by_state_self created id nodes nodes' w w' e = cc
  by_state_self destroyed id nodes nodes' w w' e = cc
  by_state_self running id nodes nodes' w w' e =
      let (s, drawn, x) = add_node_lem false id nodes nodes' w w' e in
      (s, drawn, ap (Dict.lookup (container_id_to_node_id id)) x ∙ lookup-insert_self _ _ nodes)
  by_state_self stopped id nodes nodes' w w' e =
      let (s, drawn, x) = add_node_lem true id nodes nodes' w w' e in
      (s, drawn, ap (Dict.lookup (container_id_to_node_id id)) x ∙ lookup-insert_self _ _ nodes)

  insert_ne :
      (id j : Text) (n : Node) (nodes : Dict Node)
      → same id j ≡ false
      → Dict.lookup (container_id_to_node_id j) (Dict.insert (container_id_to_node_id id) n nodes)
        ≡ Dict.lookup (container_id_to_node_id j) nodes
  insert_ne id j n nodes ne = rw (
    lookup-insert (container_id_to_node_id id) (container_id_to_node_id j) n nodes,
    same-container_id_to_node_id id j,
    ne,
  )

  by_state_ne :
      (st : State) (id j : Text) (nodes nodes' : Dict Node) (w w' : World)
      → by_state h st timestamp id nodes w ≡ (returns nodes', w')
      → same id j ≡ false
      → Dict.lookup (container_id_to_node_id j) nodes'
        ≡ Dict.lookup (container_id_to_node_id j) nodes
  by_state_ne created id j nodes nodes' w w' e ne = cc
  by_state_ne destroyed id j nodes nodes' w w' e ne = cc
  by_state_ne running id j nodes nodes' w w' e ne =
      let (s, drawn, x) = add_node_lem false id nodes nodes' w w' e in
      ap (Dict.lookup (container_id_to_node_id j)) x ∙ insert_ne id j _ nodes ne
  by_state_ne stopped id j nodes nodes' w w' e ne =
      let (s, drawn, x) = add_node_lem true id nodes nodes' w w' e in
      ap (Dict.lookup (container_id_to_node_id j)) x ∙ insert_ne id j _ nodes ne

  -- Once the loop has panicked it does not return.
  visit_all_returns :
      (es : Dict Container) (r : Outcome (Dict Node)) (w w' : World) (nodes' : Dict Node)
      → visit_all es (visit_container h timestamp) (r, w) ≡ (returns nodes', w')
      → (nodes : Dict Node) × (r ≡ returns nodes)
  unfolding visit_all
  visit_all_returns es (returns nodes) w w' nodes' e = (nodes, refl)
  visit_all_returns [] panics w w' nodes' e = cc
  visit_all_returns [] exits w w' nodes' e = cc
  visit_all_returns ((id, c) ∷ es) panics w w' nodes' e = visit_all_returns es panics w w' nodes' e
  visit_all_returns ((id, c) ∷ es) exits w w' nodes' e = visit_all_returns es exits w w' nodes' e

  -- The rounds after the first, from the nodes that the first left.
  rest_of :
      (c : Container) (id : Text) (es : Dict Container) (nodes nodes' : Dict Node) (w w' : World)
      → visit_all ((id, c) ∷ es) (visit_container h timestamp) (returns nodes, w)
        ≡ (returns nodes', w')
      → (mid : Dict Node) × (v : World) × (by_state h c.state timestamp id nodes w
          ≡ (returns mid, v))
        × (visit_all es (visit_container h timestamp) (returns mid, v) ≡ (returns nodes', w'))
  unfolding visit_all
  rest_of c id es nodes nodes' w w' e =
      let (r, v) = by_state h c.state timestamp id nodes w in
      let (mid, x) = visit_all_returns es r v w' nodes' e in
      (
        mid,
        v,
        ap (λ o. (o, v)) x,
        subst (λ o. visit_all es (visit_container h timestamp) (o, v) ≡ (returns nodes', w')) x e,
      )

  Shows-none :
      (o : Option Container) (old new : Option Node) → o ≡ none → Shows o old new → new ≡ old
  Shows-none none old new e x = x
  Shows-none (some c) old new e x = cc

  visit_all-Shows :
      (es : Dict Container) (nodes nodes' : Dict Node) (w w' : World) (j : Text)
      → Distinct es
      → visit_all es (visit_container h timestamp) (returns nodes, w) ≡ (returns nodes', w')
      → Shows
          (Dict.lookup j es)
          (Dict.lookup (container_id_to_node_id j) nodes)
          (Dict.lookup (container_id_to_node_id j) nodes')
  unfolding visit_all Dict.lookup
  visit_all-Shows [] nodes nodes' w w' j d e = cc
  visit_all-Shows ((id, c) ∷ es) nodes nodes' w w' j (fresh, d) e =
      let (mid, v, first, later) = rest_of c id es nodes nodes' w w' e in
      let ih = visit_all-Shows es mid nodes' v w' j d later in
      elim (Bool-cases (same id j)) [
        | inl y ↦
            let p = (same_iff id j).0 y in
            let unseen : Dict.lookup j es ≡ none = rw (← p) fresh in
            let old = Dict.lookup (container_id_to_node_id j) nodes in
            let here =
              subst
                (λ k.
                  Becomes c.state (Dict.lookup (container_id_to_node_id k) nodes)
                    (Dict.lookup (container_id_to_node_id k) mid))
                p (by_state_self c.state id nodes mid w v first) in
            rw y
              (subst (Becomes c.state old) (sym (Shows-none (Dict.lookup j es) _ _ unseen ih)) here)
        | inr ne ↦ rw ne (
            subst
              (λ old. Shows (Dict.lookup j es) old (Dict.lookup (container_id_to_node_id j) nodes'))
              (by_state_ne c.state id j nodes mid w v first ne) ih)
      ]

-- Of a report that is made: a container that the store does not hold, or that is only created,
-- has no node; one that runs has a node whose controls are alive, and one that has stopped a node
-- whose controls are dead, each with a status that `getStatusByPod` has returned. This holds for
-- every order in which the store is visited.
pub get_container_nodes_show :
    (h : Host) (shuffle : Dict Container → Dict Container) (s : Store) (w w' : World)
    (nodes : Dict Node) (j : Text)
    → IsIterationOrder shuffle
    → IsStore s
    → get_container_nodes h shuffle s w ≡ (returns nodes, w')
    → Shows h (h.now w.moment) (container s j) none (Dict.lookup (container_id_to_node_id j) nodes)
unfolding get_container_nodes for_each container Dict.lookup
get_container_nodes_show h shuffle s w w' nodes j o d e =
    subst (λ c. Shows h (h.now w.moment) c none (Dict.lookup (container_id_to_node_id j) nodes))
      (o.visits s.containers j d)
      (visit_all-Shows h (h.now w.moment) (shuffle s.containers) [] nodes
        (record w { moment = w.moment + 1 }) w' j (o.once s.containers d) e)

-- ===== src/GraphViz/Nodes.antt =====
-- What the nodes of a drawing show of all the connections (core/src/graphviz.cpp).
use superflow.Base.{
  ◌≡◌, refl, ◌∙◌, Bool, true, false, ◌||◌, List, [], ◌∷◌, arith, is_empty, returns, throws,
  >>=-returns, Bool-cases, inl, inr, ◌⊎◌, invalid_argument,
}
use superflow.Map.{lookup}
use superflow.Registry.{has}
use superflow.Text.{Text, text_key}
use superflow.Config.Links.{ConnectionSpec}
use superflow.GraphViz.{
  NodeList, contains_connection, meta_of, update, link, lhs_port_of, rhs_port_of, is_complete,
  insert, insert_all, same,
}
use superflow.GraphViz.Steps.{
  shows_node, shows_edge, shows_lhs_port, shows_rhs_port, node-insert, edge-insert, lhs_port-insert,
  rhs_port-insert,
}

abbrev pub any : (ConnectionSpec → Bool) → List ConnectionSpec → Bool
any p [] = false
any p (c ∷ cs) = p c || any p cs

-- A view of the nodes that each connection adds to
view-insert_all :
    (view : NodeList → Bool) (shows : ConnectionSpec → Bool)
    → ((c : ConnectionSpec) (nodes after : NodeList)
        → insert c nodes ≡ returns after
        → view after ≡ (shows c || view nodes))
    → (connections : List ConnectionSpec) (nodes out : NodeList)
    → insert_all connections nodes ≡ returns out
    → view out ≡ (any shows connections || view nodes)
unfolding insert_all
view-insert_all view shows step [] nodes out h = ground arith
view-insert_all view shows step (c ∷ connections) nodes out h =
    let (after, first, rest) = >>=-returns (insert c nodes) _ h in
    ground
      (arith, step c nodes after first, view-insert_all view shows step connections after out rest)

or_false : (b : Bool) → (b || false) ≡ b
or_false true = refl
or_false false = refl

-- The nodes show what the connections name and no more: a proxel has a node exactly if it is the
-- left side of a connection or the right side of a complete one, a node lists exactly the complete
-- connections from it, and its ports on either side are those of complete connections.
pub record Shows (connections : List ConnectionSpec) (out : NodeList) : Type 0 where
  pub nodes_shown : (x : Text) → has x out ≡ any (shows_node x) connections
  pub edges_shown :
      (x : Text) (d : ConnectionSpec)
      → contains_connection d (meta_of x out).adjacency_list ≡ any (shows_edge x d) connections
  pub lhs_ports_shown :
      (x p : Text) → has p (meta_of x out).lhs_ports ≡ any (shows_lhs_port x p) connections
  pub rhs_ports_shown :
      (x p : Text) → has p (meta_of x out).rhs_ports ≡ any (shows_rhs_port x p) connections

insert_all-Shows :
    (connections : List ConnectionSpec) (out : NodeList)
    → insert_all connections [] ≡ returns out
    → Shows connections out
unfolding meta_of lookup contains_connection has
insert_all-Shows connections out h = record {
  nodes_shown = λ x.
      view-insert_all (has x) (shows_node x) (λ c nodes after e. node-insert c nodes e x)
        connections [] out h
      ∙ or_false _;
  edges_shown = λ x d.
      view-insert_all (λ nodes. contains_connection d (meta_of x nodes).adjacency_list)
        (shows_edge x d) (λ c nodes after e. edge-insert c nodes e d x) connections [] out h
      ∙ or_false _;
  lhs_ports_shown = λ x p.
      view-insert_all (λ nodes. has p (meta_of x nodes).lhs_ports) (shows_lhs_port x p)
        (λ c nodes after e. lhs_port-insert c nodes e x p) connections [] out h
      ∙ or_false _;
  rhs_ports_shown = λ x p.
      view-insert_all (λ nodes. has p (meta_of x nodes).rhs_ports) (shows_rhs_port x p)
        (λ c nodes after e. rhs_port-insert c nodes e x p) connections [] out h
      ∙ or_false _;
}

insert-total :
    (c : ConnectionSpec) (nodes : NodeList)
    → is_empty c.lhs_name ≡ false
    → (after : NodeList) × (insert c nodes ≡ returns after)
unfolding insert
insert-total c nodes h = elim (Bool-cases (is_complete c)) [
  | inl e ↦ (
    update c.rhs_name (rhs_port_of c.rhs_port)
        (update c.lhs_name (lhs_port_of c.lhs_port) (update c.lhs_name (link c) nodes)),
    ground arith,
  )
  | inr e ↦ (update c.lhs_name same nodes, ground arith)
]

insert_nameless :
    (c : ConnectionSpec) (nodes : NodeList)
    → is_empty c.lhs_name ≡ true
    → insert c nodes ≡ throws invalid_argument
unfolding insert
insert_nameless c nodes h = rw h refl

-- A connection with no name on its left
abbrev pub nameless : ConnectionSpec → Bool
nameless c = is_empty c.lhs_name

insert_all_outcome :
    (connections : List ConnectionSpec) (nodes : NodeList)
    → ((any nameless connections ≡ false)
        × (out : NodeList) × (insert_all connections nodes ≡ returns out))
      ⊎ ((any nameless connections ≡ true)
          × (insert_all connections nodes ≡ throws invalid_argument))
unfolding insert_all
insert_all_outcome [] nodes = inl (refl, nodes, refl)
insert_all_outcome (c ∷ connections) nodes = elim (Bool-cases (is_empty c.lhs_name)) [
  | inl e ↦ inr (rw e refl, rw (insert_nameless c nodes e) refl)
  | inr e ↦
      let (after, first) = insert-total c nodes e in
      rw first (rw e (insert_all_outcome connections after))
]

-- The constructor of GraphViz throws if some connection has no name on its left. Otherwise it makes
-- nodes that show what the connections name and no more.
pub insert_all-total :
    (connections : List ConnectionSpec)
    → ((any nameless connections ≡ false)
        × (out : NodeList) × (insert_all connections [] ≡ returns out)
        × Shows connections out)
      ⊎ ((any nameless connections ≡ true) × (insert_all connections [] ≡ throws invalid_argument))
insert_all-total connections = elim (insert_all_outcome connections []) [
  | inl (named, out, made) ↦ inl (named, out, made, insert_all-Shows connections out made)
  | inr failed ↦ inr failed
]

-- ===== src/GraphViz/Steps.antt =====
-- What one call of GraphViz::insert adds to the nodes (core/src/graphviz.cpp).
use superflow.Base.{
  ◌≡◌, refl, ap, ◌∙◌, Bool, true, false, ◌&&◌, ◌||◌, List, arith, if◌then◌else◌, returns,
  Bool-cases, inl, inr, ◌⊎◌,
}
use superflow.Map.{Map, lookup}
use superflow.Map as StdMap
use superflow.Map.Laws.{lookup-insert_self}
use superflow.Registry.{has}
use superflow.Text.Keys.{lookup-insert}
use superflow.Text.{Text, text_key, same_text, same_text_eq}
use superflow.Config.Links.{ConnectionSpec}
use superflow.GraphViz.{
  ProxelMeta, NodeList, same_connection, contains_connection, add_connection, meta_of, update, link,
  lhs_port_of, rhs_port_of, is_complete, insert, same,
}

has-insert {ℓ} :
    {V : Type ℓ} (x k : Text) (v : V) (m : Map Text V)
    → has x (StdMap.insert k v m) ≡ (same_text x k || has x m)
unfolding has
has-insert x k v m = ground (arith, lookup-insert x k v m)

meta-update :
    (x k : Text) (f : ProxelMeta → ProxelMeta) (nodes : NodeList)
    → meta_of x (update k f nodes)
      ≡ (if same_text x k then f (meta_of x nodes) else meta_of x nodes)
unfolding meta_of update
meta-update x k f nodes = elim (Bool-cases (same_text x k)) [
  | inl e ↦
      rw ((same_text_eq x k).0 e) (
        ground (arith, (same_text_eq k k).1 refl, lookup-insert_self k (f (meta_of k nodes)) nodes))
  | inr n ↦ ground (arith, lookup-insert x k (f (meta_of k nodes)) nodes)
]

has-update :
    (x k : Text) (f : ProxelMeta → ProxelMeta) (nodes : NodeList)
    → has x (update k f nodes) ≡ (same_text x k || has x nodes)
unfolding update
has-update x k f nodes = has-insert x k (f (meta_of k nodes)) nodes

same_connection-eq : (d c : ConnectionSpec) → same_connection d c ≡ true → d ≡ c
unfolding same_connection
same_connection-eq d c h = ground (
  arith,
  same_text_eq d.lhs_name c.lhs_name,
  same_text_eq d.lhs_port c.lhs_port,
  same_text_eq d.rhs_name c.rhs_name,
  same_text_eq d.rhs_port c.rhs_port,
)

contains-add :
    (d c : ConnectionSpec) (ds : List ConnectionSpec)
    → contains_connection d (add_connection c ds)
      ≡ (same_connection d c || contains_connection d ds)
unfolding add_connection contains_connection
contains-add d c ds = elim (Bool-cases (contains_connection c ds)) [
  | inr n ↦ rw n refl
  | inl h ↦ rw h (elim (Bool-cases (same_connection d c)) [
    | inl e ↦ rw e (ap (λ t. contains_connection t ds) (same_connection-eq d c e) ∙ h)
    | inr n ↦ rw n refl
  ])
]

-- What a connection shows: the node `x`, the edge `d` from it, and its ports on either side
abbrev pub shows_node : Text → ConnectionSpec → Bool
shows_node x c = same_text x c.lhs_name || (is_complete c && same_text x c.rhs_name)

abbrev pub shows_edge : Text → ConnectionSpec → ConnectionSpec → Bool
shows_edge x d c = is_complete c && same_text x c.lhs_name && same_connection d c

abbrev pub shows_lhs_port : Text → Text → ConnectionSpec → Bool
shows_lhs_port x p c = is_complete c && same_text x c.lhs_name && same_text p c.lhs_port

abbrev pub shows_rhs_port : Text → Text → ConnectionSpec → Bool
shows_rhs_port x p c = is_complete c && same_text x c.rhs_name && same_text p c.rhs_port

abbrev at_lhs : Bool → ConnectionSpec → ProxelMeta → ProxelMeta
at_lhs true c m = lhs_port_of c.lhs_port (link c m)
at_lhs false c m = m

abbrev at_rhs : Bool → ConnectionSpec → ProxelMeta → ProxelMeta
at_rhs true c m = rhs_port_of c.rhs_port m
at_rhs false c m = m

module _ (c : ConnectionSpec) (nodes : NodeList) {after : NodeList}
    (done : insert c nodes ≡ returns after) where
  -- `insert` that returns
  insert_cases :
      ((is_complete c ≡ false) × (after ≡ update c.lhs_name same nodes))
      ⊎ ((is_complete c ≡ true)
          × (after
              ≡ update c.rhs_name
                  (rhs_port_of c.rhs_port)
                  (update c.lhs_name (lhs_port_of c.lhs_port) (update c.lhs_name (link c) nodes))))
  unfolding insert
  insert_cases = elim (Bool-cases (is_complete c)) [
    | inl e ↦ inr (e, ground arith)
    | inr e ↦ inl (e, ground arith)
  ]

  pub node-insert : (x : Text) → has x after ≡ (shows_node x c || has x nodes)
  node-insert x = elim insert_cases [
    | inl (e, s) ↦ ground (arith, ap (has x) s, has-update x c.lhs_name same nodes)
    | inr (e, s) ↦ ground (
      arith,
      ap (has x) s,
      has-update x c.lhs_name (link c) nodes,
      has-update x c.lhs_name (lhs_port_of c.lhs_port) (update c.lhs_name (link c) nodes),
      has-update x c.rhs_name (rhs_port_of c.rhs_port)
          (update c.lhs_name (lhs_port_of c.lhs_port) (update c.lhs_name (link c) nodes)),
    )
  ]

  -- The node `x` afterwards
  meta-insert :
      (x : Text)
      → meta_of x after
        ≡ at_rhs
            (is_complete c && same_text x c.rhs_name)
            c
            (at_lhs (is_complete c && same_text x c.lhs_name) c (meta_of x nodes))
  unfolding same
  meta-insert x = elim insert_cases [
    | inl (e, s) ↦ rw e (ap (meta_of x) s ∙ meta-update x c.lhs_name same nodes ∙ ground arith)
    | inr (e, s) ↦ rw e (
        ap (meta_of x) s
        ∙ ground (
          arith,
          meta-update x c.lhs_name (link c) nodes,
          meta-update x c.lhs_name (lhs_port_of c.lhs_port) (update c.lhs_name (link c) nodes),
          meta-update x c.rhs_name (rhs_port_of c.rhs_port)
              (update c.lhs_name (lhs_port_of c.lhs_port) (update c.lhs_name (link c) nodes)),
        ))
  ]

  pub edge-insert :
      (d : ConnectionSpec)
      → (x : Text)
      → contains_connection d (meta_of x after).adjacency_list
        ≡ (shows_edge x d c || contains_connection d (meta_of x nodes).adjacency_list)
  unfolding lhs_port_of rhs_port_of link
  edge-insert d x =
      ap (λ m. contains_connection d m.adjacency_list) (meta-insert x)
      ∙ ground (arith, contains-add d c (meta_of x nodes).adjacency_list)

  pub lhs_port-insert :
      (x p : Text)
      → has p (meta_of x after).lhs_ports
        ≡ (shows_lhs_port x p c || has p (meta_of x nodes).lhs_ports)
  unfolding lhs_port_of rhs_port_of link
  lhs_port-insert x p =
      ap (λ m. has p m.lhs_ports) (meta-insert x)
      ∙ ground (arith, has-insert p c.lhs_port tt (meta_of x nodes).lhs_ports)

  pub rhs_port-insert :
      (x p : Text)
      → has p (meta_of x after).rhs_ports
        ≡ (shows_rhs_port x p c || has p (meta_of x nodes).rhs_ports)
  unfolding lhs_port_of rhs_port_of link
  rhs_port-insert x p =
      ap (λ m. has p m.rhs_ports) (meta-insert x)
      ∙ ground (arith, has-insert p c.rhs_port tt (meta_of x nodes).rhs_ports)

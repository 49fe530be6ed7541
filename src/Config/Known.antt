-- ===== src/Config/Known.antt =====
-- The proxels that the connections of getConnections (yaml/src/yaml.cpp) name.
use superflow.Base.{
  ℕ, zero, suc, ◌≡◌, refl, ap, true, not, ◌&&◌, List, [], ◌∷◌, ◌++◌, map, length, Option, none,
  some, arith, ltb, ◌==◌, if◌then◌else◌, Bool-cases, inl, inr, returns, >>=-returns,
}
use superflow.Map.{Map}
use superflow.Text.{Text}
use superflow.Config.{Yaml, collect, replica_ids}
use superflow.Config.Links.{
  PortSpecification, ConnectionSpec, Endpoint, expand, resize, max, stretch, zip, pair_up,
  contains_name, replicas_for, connect_pair, connection, connections, as_port_specification,
  valid_connection_specification,
}
use superflow.Config.Names.{all_named, all_named-append}

-- The proxels that a name with this number of replicas stands for
abbrev pub reach : Text → ℕ → List Text
reach name n = if ltb 1 n then replica_ids name n 0 else name ∷ []

abbrev proxel : Endpoint → Text
proxel e = e.0

abbrev lhs_of : ConnectionSpec → Text
lhs_of c = c.lhs_name

abbrev rhs_of : ConnectionSpec → Text
rhs_of c = c.rhs_name

-- Both sides of each connection are among the ids.
pub record Within (ids : List Text) (specs : List ConnectionSpec) : Type 0 where
  pub lhs_known : all_named (map (λ c. c.lhs_name) specs) ids ≡ true
  pub rhs_known : all_named (map (λ c. c.rhs_name) specs) ids ≡ true

map-append {ℓ} :
    {A : Type ℓ} (f : A → Text) (xs ys : List A) → map f (xs ++ ys) ≡ map f xs ++ map f ys
map-append f [] ys = refl
map-append f (x ∷ xs) ys = ap (λ t. f x ∷ t) (map-append f xs ys)

module _ (ids : List Text) where
  nil-Within : Within ids []
  unfolding all_named
  nil-Within = record { lhs_known = refl; rhs_known = refl }

  append-Within :
      (cs ds : List ConnectionSpec) → Within ids cs → Within ids ds → Within ids (cs ++ ds)
  append-Within cs ds c d = record {
    lhs_known = rw (map-append lhs_of cs ds) (all_named-append _ _ ids c.lhs_known d.lhs_known);
    rhs_known = rw (map-append rhs_of cs ds) (all_named-append _ _ ids c.rhs_known d.rhs_known);
  }

  on_replicas-named :
      (port : Text) (names : List Text) → map proxel (map (λ r. (r, port)) names) ≡ names
  on_replicas-named port [] = refl
  on_replicas-named port (x ∷ names) = ap (λ t. x ∷ t) (on_replicas-named port names)

  on_ports-named :
      (name : Text) (ports : List Text)
      → all_named (name ∷ []) ids ≡ true
      → all_named (map proxel (map (λ port. (name, port)) ports)) ids ≡ true
  unfolding all_named
  on_ports-named name [] h = refl
  on_ports-named name (p ∷ ports) h = ground (arith, on_ports-named name ports)

  expand_named :
      (name : Text) (ports : List Text) (n : ℕ) (xs : List Endpoint)
      → expand (record { proxel_id = name; port_list = ports }) n ≡ returns xs
      → all_named (reach name n) ids ≡ true
      → all_named (map proxel xs) ids ≡ true
  unfolding expand
  expand_named name [] n xs h k = absurd (ground arith)
  expand_named name (p ∷ ports) n xs h k = elim (Bool-cases (ltb 1 n)) [
    | inl b ↦ ground (arith, on_replicas-named p (replica_ids name n 0))
    | inr b ↦ ground (arith, on_ports-named name (p ∷ ports))
  ]

  resize_named :
      (n : ℕ) (v : Endpoint) (xs : List Endpoint)
      → all_named (proxel v ∷ []) ids ≡ true
      → all_named (map proxel xs) ids ≡ true
      → all_named (map proxel (resize n v xs)) ids ≡ true
  unfolding resize all_named
  resize_named zero v xs h k = refl
  resize_named (suc n) v [] h k = ground (arith, resize_named n v [])
  resize_named (suc n) v (x ∷ xs) h k = ground (arith, resize_named n v xs)

  stretch_named :
      (size : ℕ) (xs ys : List Endpoint)
      → stretch size xs ≡ returns ys
      → all_named (map proxel xs) ids ≡ true
      → all_named (map proxel ys) ids ≡ true
  unfolding stretch all_named
  stretch_named size [] ys h k = ground arith
  stretch_named size (x ∷ xs) ys h k = ground (arith, resize_named size x (x ∷ xs))

  zip-Within :
      (xs ys : List Endpoint)
      → all_named (map proxel xs) ids ≡ true
      → all_named (map proxel ys) ids ≡ true
      → Within ids (zip xs ys)
  unfolding zip all_named
  zip-Within [] ys h k = nil-Within
  zip-Within (x ∷ xs) [] h k = nil-Within
  zip-Within (x ∷ xs) (y ∷ ys) h k =
      let rest = zip-Within xs ys (ground arith) (ground arith) in
      record {
        lhs_known = ground (arith, rest.lhs_known);
        rhs_known = ground (arith, rest.rhs_known);
      }

  pair_up-Within :
      (xs ys : List Endpoint) (specs : List ConnectionSpec)
      → pair_up xs ys ≡ returns specs
      → all_named (map proxel xs) ids ≡ true
      → all_named (map proxel ys) ids ≡ true
      → Within ids specs
  unfolding pair_up
  pair_up-Within xs ys specs e h k =
      elim (Bool-cases
        (not (length xs == length ys) && not (length xs == 1) && not (length ys == 1))) [
          | inl b ↦ absurd (ground arith)
          | inr b ↦
              let (ls, el, e1) =
                >>=-returns (stretch (max (length xs) (length ys)) xs) _ (rw b at e) in
              let (rs, er, e2) = >>=-returns (stretch (max (length xs) (length ys)) ys) _ e1 in
              let made : zip ls rs ≡ specs = cc in
              rw (← made)
                (zip-Within ls rs (stretch_named _ xs ls el h) (stretch_named _ ys rs er k))
        ]

  module _ (enabled : List Text) (replicas : Map Text ℕ)
      (known : (x : Text)
        → contains_name x enabled ≡ true
        → all_named (reach x (replicas_for x replicas)) ids ≡ true) where
    connect_pair-Within :
        (lhs rhs : PortSpecification) (specs : List ConnectionSpec)
        → connect_pair enabled replicas lhs rhs ≡ returns specs
        → Within ids specs
    unfolding connect_pair
    connect_pair-Within lhs rhs specs e = elim (Bool-cases (contains_name lhs.proxel_id enabled)) [
      | inr l ↦ let made : [] ≡ specs = cc (rw l at e) in rw (← made) nil-Within
      | inl l ↦ elim (Bool-cases (contains_name rhs.proxel_id enabled)) [
        | inr r ↦ let made : [] ≡ specs = cc (rw (l, r) at e) in rw (← made) nil-Within
        | inl r ↦
            let (xs, ex, e1) =
              >>=-returns (expand lhs (replicas_for lhs.proxel_id replicas)) _ (rw (l, r) at e) in
            let (ys, ey, e2) =
              >>=-returns (expand rhs (replicas_for rhs.proxel_id replicas)) _ e1 in
            pair_up-Within xs ys specs e2
              (expand_named lhs.proxel_id lhs.port_list _ xs ex (known lhs.proxel_id l))
              (expand_named rhs.proxel_id rhs.port_list _ ys ey (known rhs.proxel_id r))
      ]
    ]

    module _ {N : Type 0} (yaml : Yaml N) where
      connection-Within :
          (node : N) (specs : List ConnectionSpec)
          → connection yaml enabled replicas node ≡ returns specs
          → Within ids specs
      unfolding connection
      connection-Within node specs e =
          elim (Bool-cases (valid_connection_specification yaml node)) [
            | inr v ↦ absurd (ground arith)
            | inl v ↦
                let (lhs, el, e1) =
                  >>=-returns (as_port_specification yaml (yaml.item_at 0 node)) _ (rw v at e) in
                let (rhs, er, e2) =
                  >>=-returns (as_port_specification yaml (yaml.item_at 1 node)) _ e1 in
                connect_pair-Within lhs rhs specs e2
          ]

      collect-Within :
          (nodes : List N) (specs : List ConnectionSpec)
          → collect (connection yaml enabled replicas) nodes ≡ returns specs
          → Within ids specs
      unfolding collect
      collect-Within [] specs e = let made : [] ≡ specs = cc in rw (← made) nil-Within
      collect-Within (node ∷ nodes) specs e =
          let (c, ec, e1) = >>=-returns (connection yaml enabled replicas node) _ e in
          let (cs, ecs, e2) = >>=-returns (collect (connection yaml enabled replicas) nodes) _ e1 in
          let made : c ++ cs ≡ specs = cc in
          rw (← made)
            (append-Within c cs (connection-Within node c ec) (collect-Within nodes cs ecs))

      -- If the ids hold all that each enabled name stands for, they hold every proxel connected.
      pub connections-Within :
          (section : Option (List N)) (specs : List ConnectionSpec)
          → connections yaml section enabled replicas ≡ returns specs
          → Within ids specs
      unfolding connections
      connections-Within none specs e = absurd (ground arith)
      connections-Within (some nodes) specs e = collect-Within nodes specs e

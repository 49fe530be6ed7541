-- ===== src/Config/Links.antt =====
-- The connections of a configuration: getConnections and expandConnectionSpecifier of
-- yaml/src/yaml.cpp, and the conversion of a port specification in yaml_string_pair.h.
use superflow.Base.{
  ℕ, zero, suc, Bool, true, false, not, ◌&&◌, ◌||◌, List, [], ◌∷◌, map, length, Option, none, some,
  ltb, ◌==◌, if◌then◌else◌, Outcome, returns, throws, undefined, ◌>>=◌, invalid_argument,
  runtime_error,
}
use superflow.Map.{Map, lookup}
use superflow.Text.{Text, text_key, same_text}
use superflow.Config.{Yaml, collect, replica_ids}

-- PortSpecification
pub record PortSpecification : Type 0 where
  pub proxel_id : Text
  pub port_list : List Text

pub record ConnectionSpec : Type 0 where
  pub lhs_name : Text
  pub lhs_port : Text
  pub rhs_name : Text
  pub rhs_port : Text

-- A name of a proxel and one of its ports
abbrev pub Endpoint : Type 0
Endpoint = Text × Text

-- `port_list[0]` is undefined on an empty list.
unfoldable pub expand : PortSpecification → ℕ → Outcome (List Endpoint)
unfolding replica_ids
expand port_spec proxel_replicas =
    if ltb 1 proxel_replicas && ltb 1 (length port_spec.port_list)
    then throws invalid_argument
    else if ltb 1 proxel_replicas
    then elim port_spec.port_list [
      | [] ↦ undefined
      | port ∷ ports ↦ returns (
          map (λ replica_id. (replica_id, port))
            (replica_ids port_spec.proxel_id proxel_replicas 0))
    ]
    else if ltb 1 (length port_spec.port_list)
    then returns (map (λ port. (port_spec.proxel_id, port)) port_spec.port_list)
    else elim port_spec.port_list [
      | [] ↦ undefined
      | port ∷ ports ↦ returns ((port_spec.proxel_id, port) ∷ [])
    ]

-- `resize(size, value)` of a vector
unfoldable pub resize : ℕ → Endpoint → List Endpoint → List Endpoint
resize zero value xs = []
resize (suc size) value [] = value ∷ resize size value []
resize (suc size) value (x ∷ xs) = x ∷ resize size value xs

unfoldable pub max : ℕ → ℕ → ℕ
max m n = if ltb m n then n else m

-- `if (lhs_size != size) lhs_list.resize(size, lhs_list.front());`
unfoldable pub stretch : ℕ → List Endpoint → Outcome (List Endpoint)
unfolding resize
stretch size xs =
    if length xs == size
    then returns xs
    else elim xs [ [] ↦ undefined | x ∷ rest ↦ returns (resize size x (x ∷ rest)) ]

-- The loop over the indices of `lhs_list`; the two lists are equally long.
unfoldable pub zip : List Endpoint → List Endpoint → List ConnectionSpec
zip [] rhs = []
zip (l ∷ lhs) [] = []
zip (l ∷ lhs) (r ∷ rhs) =
    record { lhs_name = l.0; lhs_port = l.1; rhs_name = r.0; rhs_port = r.1 } ∷ zip lhs rhs

-- The connections of two expanded specifications
unfoldable pub pair_up : List Endpoint → List Endpoint → Outcome (List ConnectionSpec)
unfolding max stretch zip
pair_up lhs rhs =
    if not (length lhs == length rhs) && not (length lhs == 1) && not (length rhs == 1)
    then throws invalid_argument
    else (do
      lhs_list ← stretch (max (length lhs) (length rhs)) lhs
      rhs_list ← stretch (max (length lhs) (length rhs)) rhs
      returns (zip lhs_list rhs_list))

unfoldable pub contains_name : Text → List Text → Bool
unfolding same_text
contains_name name [] = false
contains_name name (n ∷ names) = same_text name n || contains_name name names

unfoldable pub replicas_for : Text → Map Text ℕ → ℕ
unfolding lookup
replicas_for name replica_map = elim (lookup name replica_map) [ none ↦ 1 | some n ↦ n ]

-- The round of getConnections for a pair of specifications
unfoldable pub connect_pair :
    List Text → Map Text ℕ → PortSpecification → PortSpecification → Outcome (List ConnectionSpec)
unfolding contains_name replicas_for expand pair_up
connect_pair enabled_proxels replica_map lhs rhs =
    if not (contains_name lhs.proxel_id enabled_proxels)
      || not (contains_name rhs.proxel_id enabled_proxels)
    then returns []
    else (do
      lhs_list ← expand lhs (replicas_for lhs.proxel_id replica_map)
      rhs_list ← expand rhs (replicas_for rhs.proxel_id replica_map)
      pair_up lhs_list rhs_list)

module _ {N : Type 0} (yaml : Yaml N) where
  -- validPortSpecification
  unfoldable pub valid_port_specification : N → Bool
  valid_port_specification node =
      yaml.is_map node && yaml.size node == 1 && elim (yaml.entries node) [
        | [] ↦ false
        | (k, v) ∷ entries ↦ yaml.is_scalar v || yaml.is_sequence v
      ]

  -- validConnectionSpecification
  unfoldable pub valid_connection_specification : N → Bool
  unfolding valid_port_specification
  valid_connection_specification node =
      yaml.is_sequence node
      && yaml.size node == 2
      && valid_port_specification (yaml.item_at 0 node)
      && valid_port_specification (yaml.item_at 1 node)

  -- `as<std::vector<std::string>>`
  unfoldable pub as_texts : List N → Outcome (List Text)
  as_texts [] = returns []
  as_texts (n ∷ ns) = do t ← yaml.as_text n; ts ← as_texts ns; returns (t ∷ ts)

  -- `as<PortSpecification>`
  unfoldable pub as_port_specification : N → Outcome PortSpecification
  unfolding as_texts
  as_port_specification node =
      if yaml.is_map node && yaml.size node == 1
      then elim (yaml.entries node) [
        | [] ↦ undefined
        | (k, v) ∷ entries ↦ do
          first ← yaml.as_text k
          second ← elim (yaml.is_sequence v) [
            | true ↦ as_texts (yaml.items v)
            | false ↦ do t ← yaml.as_text v; returns (t ∷ [])
          ]
          returns (record { proxel_id = first; port_list = second })
      ]
      else throws runtime_error

  -- A round of getConnections
  unfoldable pub connection : List Text → Map Text ℕ → N → Outcome (List ConnectionSpec)
  unfolding valid_connection_specification as_port_specification connect_pair
  connection enabled_proxels replica_map node =
      if not (valid_connection_specification node) then throws invalid_argument else (do
        lhs ← as_port_specification (yaml.item_at 0 node)
        rhs ← as_port_specification (yaml.item_at 1 node)
        connect_pair enabled_proxels replica_map lhs rhs)

  -- getConnections, with the section 'Connections' of the configuration if there is one
  unfoldable pub connections :
      Option (List N) → List Text → Map Text ℕ → Outcome (List ConnectionSpec)
  unfolding connection collect
  connections none enabled_proxels replica_map = throws invalid_argument
  connections (some nodes) enabled_proxels replica_map =
      collect (connection enabled_proxels replica_map) nodes

-- getUnconnectedProxels
unfoldable pub unconnected : List Text → List ConnectionSpec → List Text
unfolding contains_name
unconnected [] all_connections = []
unconnected (name ∷ names) all_connections =
    if contains_name name (map (λ c. c.lhs_name) all_connections)
      || contains_name name (map (λ c. c.rhs_name) all_connections)
    then unconnected names all_connections
    else name ∷ unconnected names all_connections

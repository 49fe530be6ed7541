-- ===== src/GraphViz.antt =====
-- The drawing of a graph (core/include/superflow/utils/graphviz.h, core/src/graphviz.cpp).
pub mod Steps
pub mod Nodes
use superflow.Base.{
  ℕ, ◌-◌, Bool, true, false, not, ◌&&◌, ◌||◌, List, [], ◌∷◌, ◌++◌, Option, none, some, leb,
  if◌then◌else◌, is_empty, map, Outcome, returns, throws, ◌>>=◌, invalid_argument,
}
use superflow.Map.{Map, lookup}
use superflow.Map as StdMap
use superflow.Text.{Text, text, text_key, same_text}
use superflow.Config.Links.{ConnectionSpec}

-- std::set<std::string>
abbrev pub TextSet : Type 0
TextSet = Map Text (Unit {0})

pub record ProxelMeta : Type 0 where
  pub adjacency_list : List ConnectionSpec  -- an unordered set
  pub lhs_ports : TextSet
  pub rhs_ports : TextSet

abbrev pub no_meta : ProxelMeta
no_meta = record { adjacency_list = []; lhs_ports = []; rhs_ports = [] }

abbrev pub NodeList : Type 0
NodeList = Map Text ProxelMeta

-- std::equal_to<ConnectionSpec>
unfoldable pub same_connection : ConnectionSpec → ConnectionSpec → Bool
unfolding same_text
same_connection lhs rhs =
    same_text lhs.lhs_name rhs.lhs_name
    && same_text lhs.lhs_port rhs.lhs_port
    && same_text lhs.rhs_name rhs.rhs_name
    && same_text lhs.rhs_port rhs.rhs_port

unfoldable pub contains_connection : ConnectionSpec → List ConnectionSpec → Bool
unfolding same_connection
contains_connection c [] = false
contains_connection c (d ∷ ds) = same_connection c d || contains_connection c ds

-- `insert` of the unordered set
unfoldable pub add_connection : ConnectionSpec → List ConnectionSpec → List ConnectionSpec
unfolding contains_connection
add_connection c ds = if contains_connection c ds then ds else c ∷ ds

-- `node_list[name]`, which is there after the access
unfoldable pub meta_of : Text → NodeList → ProxelMeta
unfolding lookup
meta_of name node_list = elim (lookup name node_list) [ none ↦ no_meta | some meta ↦ meta ]

unfoldable pub update : Text → (ProxelMeta → ProxelMeta) → NodeList → NodeList
unfolding meta_of StdMap.insert
update name change node_list = StdMap.insert name (change (meta_of name node_list)) node_list

unfoldable pub link : ConnectionSpec → ProxelMeta → ProxelMeta
unfolding add_connection
link c meta = record meta { adjacency_list = add_connection c meta.adjacency_list }

unfoldable pub lhs_port_of : Text → ProxelMeta → ProxelMeta
unfolding StdMap.insert
lhs_port_of port meta = record meta { lhs_ports = StdMap.insert port tt meta.lhs_ports }

unfoldable pub rhs_port_of : Text → ProxelMeta → ProxelMeta
unfolding StdMap.insert
rhs_port_of port meta = record meta { rhs_ports = StdMap.insert port tt meta.rhs_ports }

-- A connection that joins two ports, where the others stand for a lone proxel
unfoldable pub is_complete : ConnectionSpec → Bool
is_complete c = not (is_empty c.lhs_port || is_empty c.rhs_name || is_empty c.rhs_port)

unfoldable pub same : ProxelMeta → ProxelMeta
same meta = meta

-- GraphViz::insert
unfoldable pub insert : ConnectionSpec → NodeList → Outcome NodeList
unfolding is_complete update link lhs_port_of rhs_port_of same
insert connection node_list =
    if is_empty connection.lhs_name
    then throws invalid_argument
    else if not (is_complete connection)
    then returns (update connection.lhs_name same node_list)
    else returns (
        update connection.rhs_name (rhs_port_of connection.rhs_port) (
          update connection.lhs_name (lhs_port_of connection.lhs_port)
            (update connection.lhs_name (link connection) node_list)))

-- The loop of the constructor, with the nodes so far
unfoldable pub insert_all : List ConnectionSpec → NodeList → Outcome NodeList
unfolding insert
insert_all [] node_list = returns node_list
insert_all (c ∷ connections) node_list = do nodes ← insert c node_list; insert_all connections nodes

unfoldable pub port_formatting : Text → Text
port_formatting port_name = text "<" ++ (port_name ++ (text "> " ++ port_name))

-- std::toupper, in the C locale
unfoldable pub to_upper : ℕ → ℕ
to_upper c = if leb 97 c && leb c 122 then c - 32 else c

unfoldable pub str_to_upper : Text → Text
unfolding to_upper
str_to_upper str = map to_upper str

-- The fold of `join`, behind the ports so far
unfoldable pub join_rest : Text → TextSet → Text
unfolding port_formatting
join_rest a [] = a
join_rest a ((b, _) ∷ ports) = join_rest (a ++ (text "| " ++ port_formatting b)) ports

unfoldable pub join : TextSet → Text
unfolding join_rest port_formatting
join [] = []
join ((first, _) ∷ ports) = join_rest (port_formatting first) ports

abbrev newline : Text
newline = 10 ∷ []

abbrev quote : Text
quote = 34 ∷ []

unfoldable pub node_definition : Text → ProxelMeta → Text
unfolding join str_to_upper
node_definition node_name node =
    text "  "
    ++ (node_name
        ++ (text " [label="
            ++ (quote
                ++ (text "{{ "
                    ++ (join node.rhs_ports
                        ++ (text "} | "
                            ++ (str_to_upper node_name
                                ++ (text " | { "
                                    ++ (join node.lhs_ports
                                        ++ (text "} }" ++ (quote ++ (text "]" ++ newline))))))))))))

-- getNodeDefinitions
unfoldable pub node_definitions : NodeList → Text
unfolding node_definition
node_definitions [] = []
node_definitions ((node_name, node) ∷ nodes) =
    node_definition node_name node ++ node_definitions nodes

unfoldable pub edge : ConnectionSpec → Text
edge conn =
    text "  "
    ++ (conn.lhs_name
        ++ (text ":"
            ++ (conn.lhs_port
                ++ (text " -> " ++ (conn.rhs_name ++ (text ":" ++ (conn.rhs_port ++ newline)))))))

unfoldable pub edges : List ConnectionSpec → Text
unfolding edge is_complete
edges [] = []
edges (conn ∷ conns) = (if not (is_complete conn) then [] else edge conn) ++ edges conns

-- getNodeConnections. The order in which an unordered set is visited is a parameter.
unfoldable pub node_connections : (List ConnectionSpec → List ConnectionSpec) → NodeList → Text
unfolding edges
node_connections order [] = []
node_connections order ((node_name, node) ∷ nodes) =
    edges (order node.adjacency_list) ++ node_connections order nodes

-- GraphViz::employ
unfoldable pub employ : (List ConnectionSpec → List ConnectionSpec) → NodeList → Text
unfolding node_definitions node_connections
employ order node_list =
    text "digraph superflow {"
    ++ (newline
        ++ (text "  rankdir="
            ++ (quote
                ++ (text "LR"
                    ++ (quote
                        ++ (text ";"
                            ++ (newline
                                ++ (text "  node [shape=Mrecord];"
                                    ++ (newline
                                        ++ (node_definitions node_list
                                            ++ (newline
                                                ++ (node_connections order node_list
                                                    ++ (text "}" ++ newline)))))))))))))

-- ===== src/Tests/Configs.antt =====
-- Configurations and drawings at concrete inputs.
use superflow.Base.{
  ℕ, ◌≡◌, ◌⊎◌, refl, true, false, ◌||◌, List, [], ◌∷◌, some, arith, returns, throws,
  invalid_argument,
}
use superflow.Map.{Map}
use superflow.Text.{Text, text, text_key, same_text}
use superflow.Config.Links.{
  PortSpecification, ConnectionSpec, replicas_for, connect_pair, contains_name,
}
use superflow.Config.Expand.{ambiguous}
use superflow.Config.Rounds.{Round, connect_pair-Round}
use superflow.Config.Include.{
  read_graph, includes, optional_items, open_by_path, open_included, open_included_files,
  get_all_connections,
}
use superflow.Config.Merge.{read_graph-get_all_connections}
use superflow.GraphViz.{insert_all, NodeList}
use superflow.GraphViz.Nodes.{Shows, any, nameless, insert_all-total}
use superflow.Tests.Documents.{leaf, Doc, docs, section_configs, a_to_b, root, one_file, spec}

-- The proxel `a` has two ports, and `b` is replicated twice.
abbrev two_ports : PortSpecification
two_ports = record { proxel_id = text "a"; port_list = text "p" ∷ text "q" ∷ [] }

abbrev replicated : PortSpecification
replicated = record { proxel_id = text "b"; port_list = text "r" ∷ [] }

abbrev enabled : List Text
enabled = text "a" ∷ text "b_0" ∷ text "b_1" ∷ text "b" ∷ []

abbrev replicas : Map Text ℕ
replicas = (text "b", 2) ∷ []

a_enabled : contains_name two_ports.proxel_id enabled ≡ true
unfolding contains_name
a_enabled = refl

b_enabled : contains_name replicated.proxel_id enabled ≡ true
unfolding contains_name
b_enabled = refl

connect_pair-Round_example :
    (((ambiguous two_ports (replicas_for two_ports.proxel_id replicas)
          || ambiguous replicated (replicas_for replicated.proxel_id replicas))
        ≡ true)
      × (connect_pair enabled replicas two_ports replicated ≡ throws invalid_argument))
    ⊎ (((ambiguous two_ports (replicas_for two_ports.proxel_id replicas)
            || ambiguous replicated (replicas_for replicated.proxel_id replicas))
          ≡ false)
        × Round two_ports replicated
            (replicas_for two_ports.proxel_id replicas)
            (replicas_for replicated.proxel_id replicas)
            (connect_pair enabled replicas two_ports replicated))
connect_pair-Round_example =
    connect_pair-Round enabled replicas two_ports replicated a_enabled b_enabled (omega arith)
      (omega arith)

agree : (f : Text) → open_by_path docs one_file [] f ≡ open_included docs one_file [] f
unfolding open_by_path open_included
agree f = ground arith

abbrev all_specs : List ConnectionSpec
all_specs =
    spec (text "a") (text "p") (text "b_0") (text "r")
    ∷ spec (text "a") (text "q") (text "b_1") (text "r")
    ∷ spec (text "b_0") (text "s") (text "a") (text "t")
    ∷ spec (text "b_1") (text "s") (text "a") (text "t")
    ∷ []

graph_read :
    read_graph docs one_file [] ((text "Proxels" ∷ []) ∷ []) root
    ≡ returns (section_configs, all_specs)
unfolding read_graph same_text
graph_read = refl

includes_read : includes docs one_file root ≡ returns (leaf (text "more") ∷ [])
unfolding includes same_text
includes_read = refl

connections_read :
    optional_items docs one_file (text "Connections") root ≡ returns (some (a_to_b ∷ []))
unfolding optional_items same_text
connections_read = refl

read_graph-get_all_connections_example :
    (roots : List Doc) × (open_included_files docs one_file [] (leaf (text "more") ∷ [])
      ≡ returns roots)
    × (get_all_connections docs one_file (root ∷ roots) ((text "Proxels" ∷ []) ∷ [])
        ≡ returns all_specs)
read_graph-get_all_connections_example =
    read_graph-get_all_connections docs one_file [] ((text "Proxels" ∷ []) ∷ []) agree root a_to_b
      (leaf (text "more") ∷ []) [] includes_read connections_read graph_read

insert_all-total_example :
    ((any nameless all_specs ≡ false)
      × (out : NodeList) × (insert_all all_specs [] ≡ returns out)
      × Shows all_specs out)
    ⊎ ((any nameless all_specs ≡ true) × (insert_all all_specs [] ≡ throws invalid_argument))
insert_all-total_example = insert_all-total all_specs

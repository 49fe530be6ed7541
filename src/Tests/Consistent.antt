-- ===== src/Tests/Consistent.antt =====
-- The connections and the proxels of a configuration at a concrete input.
use superflow.Base.{
  concat, Outcome, ◌≡◌, arith, refl, true, false, List, [], ◌∷◌, map, some, returns, ◌++◌,
}
use superflow.Text.{Text, text, text_key, same_text, compare_text}
use superflow.Text.Digits.{to_string}
use superflow.Config.{replica_id, is_enabled, number_of_replicas, all_proxel_configs}
use superflow.Config.Links.{ConnectionSpec, contains_name}
use superflow.Config.Include.{specs_of}
use superflow.Config.Entries.{Entry, Describes, nothing, both, nowhere, section}
use superflow.Config.Counts.{base}
use superflow.Config.Consistent.{NoReplicaNames}
use superflow.Map.{Map, IsMap}
use superflow.Registry.{create_proxels}
use superflow.Registry.Create.{AllMade}
use superflow.Graph.{Graph, Proxel, running}
use superflow.GraphFactory.{Creation, created, create_graph}
use superflow.GraphFactory.Resolved.{
  AllPresent, AllResolved, configured-AllPresent, create_graph-AllResolved,
}
use superflow.Tests.Documents.{Doc, docs, a_to_b, one_file, section_configs, spec}
use superflow.Tests.Documents
use superflow.Tests.Nets.{one_taken}
use superflow.Port.{Net}
use superflow.Registry.{ProxelConfig}
use superflow.Port.Connect.{accepts_data, shares, is_consumer}
use superflow.Port.{contains}
use superflow.Base.{ℕ}
use superflow.Map.{IsMap}

abbrev described : List Entry
described =
    record { name = text "a"; enabled = true; count = 1 }
    ∷ record { name = text "b"; enabled = true; count = 2 }
    ∷ []

described-Describes : Describes docs (Documents.section ∷ []) (described ∷ [])
unfolding same_text is_enabled number_of_replicas
described-Describes =
    section
      (both record { name_read = refl; enable_read = refl; count_read = refl }
        (both record { name_read = refl; enable_read = refl; count_read = refl } nothing))
      nowhere

long_name :
    (name tail : Text) → contains_name (name ++ (text "_" ++ tail)) (map base described) ≡ false
unfolding contains_name same_text compare_text
long_name [] tail = refl
long_name (c ∷ []) tail = ground arith
long_name (c ∷ d ∷ name) tail = ground arith

described-replica_free : NoReplicaNames (concat (described ∷ []))
unfolding replica_id
described-replica_free name i = long_name name (to_string i)

section_read : all_proxel_configs docs (Documents.section ∷ []) ≡ returns section_configs
unfolding all_proxel_configs same_text
section_read = refl

abbrev specs : List ConnectionSpec
specs =
    spec (text "a") (text "p") (text "b_0") (text "r")
    ∷ spec (text "a") (text "q") (text "b_1") (text "r")
    ∷ []

specs_read : specs_of docs one_file (some (a_to_b ∷ [])) (Documents.section ∷ []) ≡ returns specs
unfolding specs_of same_text
specs_read = refl

-- Every proxel is of type `T`, and has no ports.
abbrev plain : Proxel Text Text
plain = record { ports = []; state = running; status_info = [] }

abbrev factory_map : Map Text (Doc → Outcome (Proxel Text Text))
factory_map = (text "T", λ properties. returns plain) ∷ []

abbrev plain_proxels : Map Text (Proxel Text Text)
plain_proxels = (text "a", plain) ∷ (text "b_0", plain) ∷ (text "b_1", plain) ∷ []

proxels_made : create_proxels factory_map section_configs [] ≡ returns plain_proxels
unfolding create_proxels compare_text
proxels_made = refl

configured-AllPresent_example : AllPresent factory_map specs plain_proxels
unfolding contains_name
configured-AllPresent_example =
    configured-AllPresent factory_map docs one_file (Documents.section ∷ []) (described ∷ [])
      (some (a_to_b ∷ [])) section_configs specs plain_proxels described-Describes refl
      described-replica_free section_read specs_read proxels_made

-- The properties of a proxel are the address of its port.
abbrev with_port : ℕ → Proxel Text Text
with_port p = record { ports = (text "p", some p) ∷ []; state = running; status_info = [] }

abbrev port_factories : Map Text (ℕ → Outcome (Proxel Text Text))
port_factories = (text "T", λ p. returns (with_port p)) ∷ []

abbrev port_configs : List (ProxelConfig Text ℕ)
port_configs =
    record { id = text "b"; type_name = text "T"; properties = 4 }
    ∷ record { id = text "a"; type_name = text "T"; properties = 1 }
    ∷ []

abbrev one_spec : List ConnectionSpec
one_spec = spec (text "a") (text "p") (text "b") (text "p") ∷ []

abbrev two_ports : Graph Text Text
two_ports = record {
  proxels = (text "a", with_port 1) ∷ (text "b", with_port 4) ∷ [];
  crashes = [];
  proxel_threads = [];
}

abbrev net_of : Creation Text → Net
net_of (created g t) = t
net_of _ = one_taken

abbrev created_graph : Creation Text
created_graph = create_graph 3 port_factories port_configs one_spec one_taken

graph_created : created_graph ≡ created two_ports (net_of created_graph)
unfolding create_graph compare_text contains accepts_data shares is_consumer
    superflow.Port.set_links
graph_created = refl

create_graph-AllResolved_example :
    IsMap two_ports.proxels
    × AllMade port_factories port_configs two_ports.proxels
    × AllResolved two_ports one_spec
create_graph-AllResolved_example =
    create_graph-AllResolved port_factories 3 port_configs one_spec one_taken (net_of created_graph)
      two_ports graph_created

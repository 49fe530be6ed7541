-- ===== src/Config/Include.antt =====
-- The reading of a configuration with its included files (yaml/src/yaml.cpp): createGraph on a node,
-- and openAllConfigFiles and getAllConnections of generateDOTFile.
use superflow.Base.{
  Bool, true, false, List, [], ◌∷◌, ◌++◌, map, Option, none, some, Outcome, returns, throws, ◌>>=◌,
  invalid_argument, runtime_error, is_empty,
}
use superflow.Registry.{ProxelConfig}
use superflow.Text.{Text, text}
use superflow.Config.{Yaml, proxel_sections, all_proxel_configs, all_proxel_names, all_replicas}
use superflow.Config.Links.{ConnectionSpec, connections, unconnected}

-- What the source calls of the file system and of YAML::LoadFile. `load` gives `none` where LoadFile
-- throws YAML::BadFile, since the file cannot be opened.
pub record Files (N : Type 0) : Type 0 where
  pub load : Text → Outcome (Option N)
  pub is_regular_file : Text → Bool
  pub join_path : Text → Text → Text
  pub parent_path : Text → Text

-- The section 'Connections' after `push_back` of the connections of an included file. It comes into
-- being with its first connection.
unfoldable pub add_connections {ℓ} : {N : Type ℓ} → Option (List N) → List N → Option (List N)
add_connections none [] = none
add_connections none (c ∷ more) = some (c ∷ more)
add_connections (some all) more = some (all ++ more)

-- `{proxel_name,{},{},{}}`
unfoldable pub dummy : Text → ConnectionSpec
dummy proxel_name = record { lhs_name = proxel_name; lhs_port = []; rhs_name = []; rhs_port = [] }

module _ {N : Type 0} (yaml : Yaml N) (files : Files N) where
  unfoldable pub load_file : Text → Outcome N
  load_file path = do
    found ← files.load path
    elim found [ none ↦ throws runtime_error | some node ↦ returns node ]

  -- The opening of an included file in createGraph: `catch (const YAML::BadFile&)`
  unfoldable pub open_included : Text → Text → Outcome N
  unfolding load_file
  open_included config_search_directory filename = do
    found ← files.load filename
    elim found [
      | some incl ↦ returns incl
      | none ↦ load_file (files.join_path config_search_directory filename)
    ]

  -- The section 'Connections' of a file that must have one
  unfoldable pub required_connections : N → Outcome (List N)
  required_connections node = do
    found ← yaml.find (text "Connections") node
    elim found [ none ↦ throws invalid_argument | some section ↦ returns (yaml.items section) ]

  unfoldable pub optional_items : Text → N → Outcome (Option (List N))
  optional_items key node = do
    found ← yaml.find key node
    elim found [ none ↦ returns none | some section ↦ returns (some (yaml.items section)) ]

  -- The loop of createGraph over the included files, with the connections and sections so far
  unfoldable pub read_included :
      Text
      → List (List Text)
      → List N
      → Option (List N)
      → List N
      → Outcome (Option (List N) × List N)
  unfolding open_included required_connections add_connections proxel_sections
  read_included dir paths [] all_connections all_sections = returns (all_connections, all_sections)
  read_included dir paths (entry ∷ entries) all_connections all_sections = do
    filename ← yaml.as_text entry
    incl ← open_included dir filename
    more ← required_connections incl
    sections ← proxel_sections yaml incl paths
    read_included dir paths entries (add_connections all_connections more)
        (all_sections ++ sections)

  -- `node["Includes"]`, if it is there
  unfoldable pub includes : N → Outcome (List N)
  unfolding optional_items
  includes node = do
    entries ← optional_items (text "Includes") node
    elim entries [ none ↦ returns [] | some items ↦ returns items ]

  -- getConnections for all the sections
  unfoldable pub specs_of : Option (List N) → List N → Outcome (List ConnectionSpec)
  unfolding all_proxel_names all_replicas connections
  specs_of all_connections sections = do
    enabled_proxels ← all_proxel_names yaml true sections
    replicated_proxels ← all_replicas yaml sections []
    connections yaml all_connections enabled_proxels replicated_proxels

  -- What createGraph hands to flow::createGraph
  unfoldable pub read_graph :
      Text → List (List Text) → N → Outcome (List (ProxelConfig Text N) × List ConnectionSpec)
  unfolding read_included includes optional_items specs_of all_proxel_configs proxel_sections
  read_graph dir paths root = do
    root_sections ← proxel_sections yaml root paths
    root_connections ← optional_items (text "Connections") root
    entries ← includes root
    (all_connections, all_sections) ← read_included dir paths entries root_connections root_sections
    configs ← all_proxel_configs yaml all_sections
    specs ← specs_of all_connections all_sections
    returns (configs, specs)

  -- The overload of createGraph for a path
  unfoldable pub read_graph_file :
      Text → List (List Text) → Text → Outcome (List (ProxelConfig Text N) × List ConnectionSpec)
  unfolding read_graph load_file
  read_graph_file config_file_path paths config_search_directory = do
    root ← load_file config_file_path
    elim (is_empty config_search_directory) [
      | true ↦ read_graph (files.parent_path config_file_path) paths root
      | false ↦ read_graph config_search_directory paths root
    ]

  -- The opening of an included file in openAllConfigFiles
  unfoldable pub open_by_path : Text → Text → Outcome N
  unfolding load_file
  open_by_path include_directory filename = elim (files.is_regular_file filename) [
    | true ↦ load_file filename
    | false ↦ load_file (files.join_path include_directory filename)
  ]

  -- The loop of openAllConfigFiles over the included files
  unfoldable pub open_included_files : Text → List N → Outcome (List N)
  unfolding open_by_path required_connections
  open_included_files dir [] = returns []
  open_included_files dir (entry ∷ entries) = do
    filename ← yaml.as_text entry
    node ← open_by_path dir filename
    checked ← required_connections node
    nodes ← open_included_files dir entries
    returns (node ∷ nodes)

  -- openAllConfigFiles
  unfoldable pub open_all_config_files : Text → Text → Outcome (List N)
  unfolding open_included_files includes load_file required_connections
  open_all_config_files config_file_path config_search_directory = do
    root ← load_file config_file_path
    checked ← required_connections root
    entries ← includes root
    nodes ←
        open_included_files
          (elim (is_empty config_search_directory) [
            | true ↦ files.parent_path config_file_path
            | false ↦ config_search_directory
          ])
          entries
    returns (root ∷ nodes)

  -- getAllProxelSections
  unfoldable pub all_proxel_sections : List N → List (List Text) → Outcome (List N)
  unfolding proxel_sections
  all_proxel_sections [] paths = returns []
  all_proxel_sections (node ∷ nodes) paths = do
    sections ← proxel_sections yaml node paths
    rest ← all_proxel_sections nodes paths
    returns (sections ++ rest)

  -- The loop of getAllConnections over the files, with the connections so far. A file without the
  -- section has nothing to loop over.
  unfoldable pub gather_connections : List N → Option (List N) → Outcome (Option (List N))
  unfolding optional_items add_connections
  gather_connections [] all_connections = returns all_connections
  gather_connections (node ∷ nodes) all_connections = do
    found ← optional_items (text "Connections") node
    gather_connections nodes
        (elim found [ none ↦ all_connections | some more ↦ add_connections all_connections more ])

  -- getAllConnections
  unfoldable pub get_all_connections : List N → List (List Text) → Outcome (List ConnectionSpec)
  unfolding gather_connections all_proxel_sections specs_of
  get_all_connections config_roots paths = do
    all_connections ← gather_connections config_roots none
    all_sections ← all_proxel_sections config_roots paths
    specs_of all_connections all_sections

  -- What generateDOTFile hands to GraphViz
  unfoldable pub dot_connections : Text → List (List Text) → Text → Outcome (List ConnectionSpec)
  unfolding open_all_config_files get_all_connections all_proxel_sections all_proxel_names
      unconnected dummy
  dot_connections config_file_path paths config_search_directory = do
    config_roots ← open_all_config_files config_file_path config_search_directory
    all_connections ← get_all_connections config_roots paths
    all_sections ← all_proxel_sections config_roots paths
    enabled_proxels ← all_proxel_names yaml true all_sections
    returns (all_connections ++ map dummy (unconnected enabled_proxels all_connections))

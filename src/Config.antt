-- ===== src/Config.antt =====
-- The reading of a configuration (yaml/src/yaml.cpp): proxels, replicas and sections. The nodes of
-- yaml-cpp are a parameter.
pub mod Links
pub mod Include
pub mod Merge
pub mod Flags
pub mod Pairs
pub mod Expand
pub mod Rounds
pub mod Entries
pub mod Counts
pub mod Known
pub mod Consistent
pub mod Replicas
pub mod Names
use superflow.Base.{
  ℕ, zero, suc, Bool, true, false, not, List, [], ◌∷◌, ◌++◌, Option, none, some, ltb, ◌==◌,
  if◌then◌else◌, Outcome, returns, throws, waits, undefined, ◌>>=◌, invalid_argument, runtime_error,
}
use superflow.Map.{Map, insert}
use superflow.Registry.{ProxelConfig, plus}
use superflow.Text.{Text, text, text_key}
use superflow.Text.Digits.{to_string}

abbrev pub same_bool : Bool → Bool → Bool
same_bool true b = b
same_bool false b = not b

-- What the source calls of YAML::Node. `find`: `node[key]`, `none` if the result is undefined; it
-- throws on a scalar.
-- `entries` and `items`: the loops over a map and a sequence. `item_at`: `node[idx]`. `put` and `remove` act on a clone.
-- `as_text`, `as_bool` and `as_number` throw an exception if they cannot convert.
pub record Yaml (N : Type 0) : Type 0 where
  pub find : Text → N → Outcome (Option N)
  pub entries : N → List (N × N)
  pub items : N → List N
  pub item_at : ℕ → N → N
  pub size : N → ℕ
  pub is_map : N → Bool
  pub is_sequence : N → Bool
  pub is_scalar : N → Bool
  pub as_text : N → Outcome Text
  pub as_bool : N → Outcome Bool
  pub as_number : N → Outcome ℕ
  pub put : Text → N → N → N
  pub remove : Text → N → N

-- A loop that appends to a vector what each round gives
unfoldable pub collect {ℓ κ} :
    {A : Type ℓ} {B : Type κ} → (A → Outcome (List B)) → List A → Outcome (List B)
collect f [] = returns []
collect f (x ∷ xs) = do first ← f x; rest ← collect f xs; returns (first ++ rest)

-- getProxelReplicaId
unfoldable pub replica_id : Text → ℕ → Text
unfolding to_string
replica_id name idx = name ++ (text "_" ++ to_string idx)

-- A loop over the indices from `idx` on, `n` times
unfoldable pub each_index {ℓ} : {B : Type ℓ} → (ℕ → Outcome B) → ℕ → ℕ → Outcome (List B)
each_index f zero idx = returns []
each_index f (suc n) idx = do b ← f idx; bs ← each_index f n (suc idx); returns (b ∷ bs)

unfoldable pub replica_ids : Text → ℕ → ℕ → List Text
unfolding replica_id
replica_ids name zero idx = []
replica_ids name (suc n) idx = replica_id name idx ∷ replica_ids name n (suc idx)

module _ {N : Type 0} (yaml : Yaml N) where
  -- getNumberOfProxelReplicas
  unfoldable pub number_of_replicas : N → Outcome ℕ
  number_of_replicas proxel_config = do
    replicate ← yaml.find (text "replicate") proxel_config
    elim replicate [ none ↦ returns 1 | some n ↦ yaml.as_number n ]

  unfoldable pub is_enabled : N → Outcome Bool
  is_enabled proxel_config = do
    enable ← yaml.find (text "enable") proxel_config
    elim enable [ none ↦ returns true | some e ↦ yaml.as_bool e ]

  -- createProxelConfig, with the constructor of YAMLPropertyList
  unfoldable pub create_proxel_config : Text → N → Outcome (ProxelConfig Text N)
  create_proxel_config unique_id properties = do
    type ← yaml.find (text "type") properties
    type_name ← elim type [ none ↦ throws runtime_error | some t ↦ yaml.as_text t ]
    elim (yaml.is_map properties) [
      | true ↦ returns (record { id = unique_id; type_name = type_name; properties = properties })
      | false ↦ throws invalid_argument
    ]

  -- The loop over the properties in getReplicatedConfigs, with the properties of this replica so far.
  -- 36 is '$'; `front()` of an empty string is undefined.
  unfoldable pub replica_properties : ℕ → ℕ → List (N × N) → N → Outcome N
  replica_properties num_replicas idx [] props = returns props
  replica_properties num_replicas idx ((k, value) ∷ entries) props = do
    key ← yaml.as_text k
    next ← elim key [
      | [] ↦ undefined
      | c ∷ name ↦
          if c == 36
          then (if not (yaml.size value == num_replicas)
              then throws invalid_argument
              else returns (yaml.put name (yaml.item_at idx value) (yaml.remove (c ∷ name) props)))
          else returns props
    ]
    replica_properties num_replicas idx entries next

  -- One round of getReplicatedConfigs
  unfoldable pub replica_config : Text → ℕ → N → ℕ → Outcome (ProxelConfig Text N)
  unfolding replica_properties create_proxel_config replica_id
  replica_config unique_id num_replicas properties idx = do
    props ←
        replica_properties num_replicas idx (yaml.entries properties)
          (yaml.remove (text "replicate") properties)
    create_proxel_config (replica_id unique_id idx) props

  unfoldable pub replicated_configs : Text → ℕ → N → Outcome (List (ProxelConfig Text N))
  unfolding replica_config each_index
  replicated_configs unique_id num_replicas properties =
      each_index (replica_config unique_id num_replicas properties) num_replicas 0

  -- A round of getProxelConfigs
  unfoldable pub entry_configs : N × N → Outcome (List (ProxelConfig Text N))
  unfolding is_enabled number_of_replicas replicated_configs create_proxel_config
  entry_configs (name, properties) = do
    enable ← is_enabled properties
    elim enable [
      | false ↦ returns []
      | true ↦ do
        unique_id ← yaml.as_text name
        num_replicas ← number_of_replicas properties
        elim (ltb 1 num_replicas) [
          | true ↦ replicated_configs unique_id num_replicas properties
          | false ↦ do config ← create_proxel_config unique_id properties; returns (config ∷ [])
        ]
    ]

  unfoldable pub proxel_configs : N → Outcome (List (ProxelConfig Text N))
  unfolding entry_configs collect
  proxel_configs section = collect entry_configs (yaml.entries section)

  -- getAllProxelConfigs
  unfoldable pub all_proxel_configs : List N → Outcome (List (ProxelConfig Text N))
  unfolding proxel_configs collect
  all_proxel_configs config_sections = collect proxel_configs config_sections

  -- A round of getProxelNamesFilteredByEnableValue, with `enable_value`
  unfoldable pub entry_names : Bool → N × N → Outcome (List Text)
  unfolding is_enabled number_of_replicas replica_ids
  entry_names enable_value (name, properties) = do
    enable ← is_enabled properties
    elim (same_bool enable enable_value) [
      | false ↦ returns []
      | true ↦ do
        num_replicas ← number_of_replicas properties
        unique_id ← yaml.as_text name
        returns (
            (if ltb 1 num_replicas then replica_ids unique_id num_replicas 0 else [])
            ++ unique_id ∷ [])
    ]

  unfoldable pub proxel_names : Bool → N → Outcome (List Text)
  unfolding entry_names collect
  proxel_names enable_value section = collect (entry_names enable_value) (yaml.entries section)

  -- getAllProxelNamesFilteredByEnableValue
  unfoldable pub all_proxel_names : Bool → List N → Outcome (List Text)
  unfolding proxel_names collect
  all_proxel_names enable_value config_sections =
      collect (proxel_names enable_value) config_sections

  -- The loop of getReplicatedProxels, with the replicas so far
  unfoldable pub replicas_of : List (N × N) → Map Text ℕ → Outcome (Map Text ℕ)
  unfolding number_of_replicas insert
  replicas_of [] names = returns names
  replicas_of ((name, properties) ∷ entries) names = do
    num_replicas ← number_of_replicas properties
    elim (ltb 1 num_replicas) [
      | false ↦ replicas_of entries names
      | true ↦ do
        unique_id ← yaml.as_text name
        replicas_of entries (insert unique_id num_replicas names)
    ]

  -- The loop of getAllReplicatedProxels, with the replicas so far
  unfoldable pub all_replicas : List N → Map Text ℕ → Outcome (Map Text ℕ)
  unfolding replicas_of plus
  all_replicas [] replicas = returns replicas
  all_replicas (section ∷ sections) replicas = do
    names ← replicas_of (yaml.entries section) []
    all_replicas sections (plus replicas names)

  -- The steps of a SectionPath
  unfoldable pub walk : List Text → N → Outcome N
  walk [] node = returns node
  walk (step_name ∷ path) node = do
    found ← yaml.find step_name node
    elim found [ none ↦ throws invalid_argument | some n ↦ walk path n ]

  -- getProxelSections
  unfoldable pub proxel_sections : N → List (List Text) → Outcome (List N)
  unfolding walk
  proxel_sections root [] = returns []
  proxel_sections root (path ∷ paths) = do
    node ← walk path root
    nodes ← proxel_sections root paths
    returns (node ∷ nodes)

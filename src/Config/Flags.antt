-- ===== src/Config/Flags.antt =====
-- getFlaggedProxels and extractLibPaths (yaml/src/yaml.cpp), with hasKey and convertValue<bool>
-- (yaml/include/superflow/yaml/yaml_property_list.h).
use superflow.Base.{
  Bool, true, false, List, [], ◌∷◌, none, some, Outcome, returns, throws, ◌>>=◌, invalid_argument,
  runtime_error,
}
use superflow.Registry.{ProxelConfig, as_runtime_error}
use superflow.Text.{Text}
use superflow.Config.{Yaml, proxel_sections, all_proxel_configs}
use superflow.Config.Links.{as_texts}
use superflow.Config.Include.{Files, load_file}

module _ {N : Type 0} (yaml : Yaml N) where
  -- YAMLPropertyList::hasKey
  unfoldable pub has_key : Text → N → Outcome Bool
  has_key key parent = do
    node ← yaml.find key parent
    elim node [ none ↦ returns false | some n ↦ returns true ]

  -- YAMLPropertyList::convertValue<bool>
  unfoldable pub convert_bool : Text → N → Outcome Bool
  unfolding as_runtime_error
  convert_bool key parent = do
    node ← yaml.find key parent
    elim node [ none ↦ throws runtime_error | some n ↦ as_runtime_error (yaml.as_bool n) ]

  -- The loop of getFlaggedProxels
  unfoldable pub flagged_ids : Text → List (ProxelConfig Text N) → Outcome (List Text)
  unfolding has_key convert_bool
  flagged_ids flag [] = returns []
  flagged_ids flag (config ∷ configs) = do
    there ← has_key flag config.properties
    flagged ← elim there [ false ↦ returns false | true ↦ convert_bool flag config.properties ]
    ids ← flagged_ids flag configs
    elim flagged [ true ↦ returns (config.id ∷ ids) | false ↦ returns ids ]

  unfoldable pub get_flagged_proxels : N → Text → List (List Text) → Outcome (List Text)
  unfolding flagged_ids proxel_sections all_proxel_configs
  get_flagged_proxels root flag paths = do
    sections ← proxel_sections yaml root paths
    configs ← all_proxel_configs yaml sections
    flagged_ids flag configs

module _ {N : Type 0} (yaml : Yaml N) (files : Files N) where
  unfoldable pub extract_lib_paths : Text → Text → Outcome (List Text)
  unfolding load_file as_texts
  extract_lib_paths config_path section_name = do
    config ← load_file yaml files config_path
    section ← yaml.find section_name config
    elim section [ none ↦ throws invalid_argument | some s ↦ as_texts yaml (yaml.items s) ]

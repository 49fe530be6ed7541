-- ===== src/Registry.antt =====
-- The maps by name (core/include/superflow/mapped_asset_manager.h, factory_map.h) and the reading
-- of a configuration into proxels (graph_factory.h).
pub mod Laws
pub mod Create
use superflow.Base.{
  Bool, true, false, List, [], ◌∷◌, map, is_empty, Option, none, some, Outcome, returns, throws,
  waits, undefined, ◌>>=◌, Exception, terminated, invalid_argument, range_error, runtime_error,
  unknown,
}
use superflow.Map.{Key, Map, lookup, insert}
use superflow.Map as StdMap

module _ {ℓ κ} {K : Type ℓ} {V : Type κ} ⦃key : Key K⦄ where
  -- MappedAssetManager: `values_` is the whole state, and each method is one critical section.
  unfoldable pub put : K → V → Map K V → Map K V
  unfolding lookup insert
  put k v values = elim (lookup k values) [ some w ↦ values | none ↦ insert k v values ]

  unfoldable pub get : K → Map K V → Outcome V
  unfolding lookup
  get k values = elim (lookup k values) [ none ↦ throws invalid_argument | some v ↦ returns v ]

  unfoldable pub has : K → Map K V → Bool
  unfolding lookup
  has k values = elim (lookup k values) [ none ↦ false | some v ↦ true ]

  unfoldable pub erase : K → Map K V → Map K V
  unfolding lookup StdMap.erase
  erase k values = elim (lookup k values) [ none ↦ values | some v ↦ StdMap.erase k values ]

  unfoldable pub clear : Map K V → Map K V
  clear values = []

  unfoldable pub get_all : Map K V → List V
  get_all [] = []
  get_all ((k, v) ∷ values) = v ∷ get_all values

  -- `insert(first, last)` of std::map, for FactoryMap's `+` and `+=`: keys that are there stay.
  unfoldable pub plus : Map K V → Map K V → Map K V
  unfolding put
  plus factories [] = factories
  plus factories ((k, v) ∷ other) = plus (put k v factories) other

-- A ProxelConfig
pub record ProxelConfig {ℓ κ} (K : Type ℓ) (Properties : Type κ) : Type (ℓ ⊔ κ) where
  pub id : K
  pub type_name : K
  pub properties : Properties

-- `catch(const std::exception& e) { throw std::runtime_error(...) }`
unfoldable pub as_runtime_error {ℓ} : {A : Type ℓ} → Outcome A → Outcome A
as_runtime_error (returns a) = returns a
as_runtime_error (throws unknown) = throws unknown
as_runtime_error (throws terminated) = throws runtime_error
as_runtime_error (throws invalid_argument) = throws runtime_error
as_runtime_error (throws range_error) = throws runtime_error
as_runtime_error (throws runtime_error) = throws runtime_error
as_runtime_error waits = waits
as_runtime_error undefined = undefined

-- A factory is code of the user, from the properties to a proxel.
module _ {ℓ κ μ} {K : Type ℓ} {Properties : Type κ} {Proxel : Type μ} ⦃key : Key K⦄ where
  -- The loop of createProxelsFromConfig, with the proxels so far
  unfoldable pub create_proxels :
      Map K (Properties → Outcome Proxel)
      → List (ProxelConfig K Properties)
      → Map K Proxel
      → Outcome (Map K Proxel)
  unfolding has get insert as_runtime_error
  create_proxels factories [] proxels = returns proxels
  create_proxels factories (config ∷ configs) proxels = elim (has config.id proxels) [
    | true ↦ throws invalid_argument
    | false ↦ do
      factory ← get config.type_name factories
      proxel ← as_runtime_error (factory config.properties)
      create_proxels factories configs (insert config.id proxel proxels)
  ]

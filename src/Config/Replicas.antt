-- ===== src/Config/Replicas.antt =====
-- The configurations of the replicas of a proxel: getReplicatedConfigs of yaml/src/yaml.cpp.
use superflow.Base.{
  get_elem?, ℕ, zero, suc, ◌+◌, ◌<◌, ◌≡◌, refl, sym, ap, ◌∙◌, List, [], ◌∷◌, ◌++◌, map, length,
  some, arith, returns, >>=-returns, tail,
}
use superflow.Registry.{ProxelConfig}
use superflow.Text.{Text, text}
use superflow.Text.Digits.{to_string_injective}
use superflow.Config.{
  Yaml, replica_id, replica_ids, each_index, replica_config, replicated_configs,
  create_proxel_config, replica_properties,
}

-- The id of a configuration
abbrev pub id_of {ℓ} : {N : Type ℓ} → ProxelConfig Text N → Text
id_of config = config.id

append-cancel : (xs : Text) {ys zs : Text} → xs ++ ys ≡ xs ++ zs → ys ≡ zs
append-cancel [] e = e
append-cancel (x ∷ xs) e = append-cancel xs (ap tail e)

pub replica_id_injective : (name : Text) (i j : ℕ) → replica_id name i ≡ replica_id name j → i ≡ j
unfolding replica_id
replica_id_injective name i j e =
    to_string_injective i j (append-cancel (text "_") (append-cancel name e))

get-replica_ids :
    (name : Text) (n idx i : ℕ)
    → i < n
    → get_elem? (replica_ids name n idx) i ≡ some (replica_id name (idx + i))
unfolding replica_ids
get-replica_ids name zero idx i h = absurd (omega arith)
get-replica_ids name (suc n) idx zero h = let e : idx + 0 ≡ idx = omega arith in rw e
get-replica_ids name (suc n) idx (suc i) h =
    let e : idx + suc i ≡ suc idx + i = omega arith in
    rw e (get-replica_ids name n (suc idx) i (omega arith))

pub length-replica_ids : (name : Text) (n idx : ℕ) → length (replica_ids name n idx) ≡ n
unfolding replica_ids
length-replica_ids name zero idx = refl
length-replica_ids name (suc n) idx = omega (arith, length-replica_ids name n (suc idx))

zero_add : (i : ℕ) → 0 + i ≡ i
zero_add i = omega arith

some-injective : {a b : Text} → some a ≡ some b → a ≡ b
some-injective e = cc

module _ {N : Type 0} (yaml : Yaml N) where
  pub create_proxel_config-id :
      (unique_id : Text) (properties : N) {config : ProxelConfig Text N}
      → create_proxel_config yaml unique_id properties ≡ returns config
      → config.id ≡ unique_id
  unfolding create_proxel_config
  create_proxel_config-id unique_id properties {config} h = ground arith

  replica_config-id :
      (unique_id : Text) (n : ℕ) (properties : N) (idx : ℕ) {config : ProxelConfig Text N}
      → replica_config yaml unique_id n properties idx ≡ returns config
      → config.id ≡ replica_id unique_id idx
  unfolding replica_config
  replica_config-id unique_id n properties idx h =
      let (props, e, h1) =
        >>=-returns
          (replica_properties yaml n idx (yaml.entries properties)
            (yaml.remove (text "replicate") properties))
          _ h in
      create_proxel_config-id (replica_id unique_id idx) props h1

  configs-ids :
      (unique_id : Text) (n : ℕ) (properties : N) (k idx : ℕ) {configs : List (ProxelConfig Text N)}
      → each_index (replica_config yaml unique_id n properties) k idx ≡ returns configs
      → map id_of configs ≡ replica_ids unique_id k idx
  unfolding each_index replica_ids
  configs-ids unique_id n properties zero idx h = ground arith
  configs-ids unique_id n properties (suc k) idx h =
      let (config, e, h1) = >>=-returns (replica_config yaml unique_id n properties idx) _ h in
      let (rest, e2, h2) =
        >>=-returns (each_index (replica_config yaml unique_id n properties) k (suc idx)) _ h1 in
      ground (
        arith,
        replica_config-id unique_id n properties idx e,
        configs-ids unique_id n properties k (suc idx) e2,
      )

  pub replicated_configs-ids :
      (unique_id : Text) (n : ℕ) (properties : N) {configs : List (ProxelConfig Text N)}
      → replicated_configs yaml unique_id n properties ≡ returns configs
      → map id_of configs ≡ replica_ids unique_id n 0
  unfolding replicated_configs
  replicated_configs-ids unique_id n properties h = configs-ids unique_id n properties n 0 h

  -- When getReplicatedConfigs returns, it gives a configuration for each replica: the i-th has the id
  -- `<name>_<i>`, and no two have the same id.
  pub replicated_configs-Distinct :
      (unique_id : Text) (n : ℕ) (properties : N) {configs : List (ProxelConfig Text N)}
      → replicated_configs yaml unique_id n properties ≡ returns configs
      → (length (map id_of configs) ≡ n)
        × ((i : ℕ) → i < n → get_elem? (map id_of configs) i ≡ some (replica_id unique_id i))
        × ((i j : ℕ)
            → i < n
            → j < n
            → get_elem? (map id_of configs) i ≡ get_elem? (map id_of configs) j
            → i ≡ j)
  replicated_configs-Distinct unique_id n properties h =
      let e = replicated_configs-ids unique_id n properties h in
      let at = λ (i : ℕ) (l : i < n).
        ap (λ t. get_elem? t i) e
        ∙ get-replica_ids unique_id n 0 i l
        ∙ ap (λ k. some (replica_id unique_id k)) (zero_add i) in
      (
        ap length e ∙ length-replica_ids unique_id n 0,
        at,
        λ i j hi hj same.
            replica_id_injective unique_id i j (some-injective (sym (at i hi) ∙ same ∙ at j hj)),
      )

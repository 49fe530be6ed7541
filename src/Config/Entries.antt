-- ===== src/Config/Entries.antt =====
-- What the sections of a configuration say of each proxel, and the names, ids and replicas that
-- yaml/src/yaml.cpp makes of it.
use superflow.Base.{
  concat, ℕ, ◌≡◌, refl, sym, ap, ◌∙◌, Bool, true, false, List, [], ◌∷◌, ◌++◌, append_assoc, map,
  arith, Outcome, returns, ◌>>=◌, >>=-returns, ltb, if◌then◌else◌, Bool-cases, inl, inr,
}
use superflow.Map.{Map, insert}
use superflow.Registry.{ProxelConfig, plus}
use superflow.Text.{Text, text_key}
use superflow.Config.{
  Yaml, collect, replica_ids, replicated_configs, create_proxel_config, is_enabled,
  number_of_replicas, entry_configs, proxel_configs, all_proxel_configs, entry_names, proxel_names,
  all_proxel_names, replicas_of, all_replicas,
}
use superflow.Config.Replicas.{id_of, create_proxel_config-id, replicated_configs-ids}
use superflow.Config.Names.{map-append_ids}

-- An entry of a section: the name, `enable` and `replicate` of a proxel
pub record Entry : Type 0 where
  pub name : Text
  pub enabled : Bool
  pub count : ℕ

-- The ids of its proxels, and its part of the names
unfoldable pub ids_of : List Entry → List Text
ids_of [] = []
ids_of (e ∷ es) =
    (if e.enabled
      then (if ltb 1 e.count then replica_ids e.name e.count 0 else e.name ∷ [])
      else [])
    ++ ids_of es

unfoldable pub names_of : List Entry → List Text
names_of [] = []
names_of (e ∷ es) =
    (if e.enabled
      then (if ltb 1 e.count then replica_ids e.name e.count 0 else []) ++ e.name ∷ []
      else [])
    ++ names_of es

unfoldable pub counts_of : List Entry → Map Text ℕ → Map Text ℕ
unfolding insert
counts_of [] m = m
counts_of (e ∷ es) m = counts_of es (if ltb 1 e.count then insert e.name e.count m else m)

unfoldable pub all_counts : List (List Entry) → Map Text ℕ → Map Text ℕ
unfolding counts_of plus
all_counts [] m = m
all_counts (es ∷ sections) m = all_counts sections (plus m (counts_of es []))

module _ {N : Type 0} (yaml : Yaml N) where
  -- The entry is what the document says.
  pub record Says (pair : N × N) (e : Entry) : Type 0 where
    pub name_read : yaml.as_text pair.0 ≡ returns e.name
    pub enable_read : is_enabled yaml pair.1 ≡ returns e.enabled
    pub count_read : number_of_replicas yaml pair.1 ≡ returns e.count

  pub data SaysAll : List (N × N) → List Entry → Type 0 where
    nothing : SaysAll [] []
    both :
        {pair : N × N} {e : Entry} {pairs : List (N × N)} {es : List Entry}
        → Says pair e
        → SaysAll pairs es
        → SaysAll (pair ∷ pairs) (e ∷ es)

  pub data Describes : List N → List (List Entry) → Type 0 where
    nowhere : Describes [] []
    section :
        {node : N} {es : List Entry} {nodes : List N} {sections : List (List Entry)}
        → SaysAll (yaml.entries node) es
        → Describes nodes sections
        → Describes (node ∷ nodes) (es ∷ sections)

  -- A proxel that is enabled
  enabled-ids :
      (unique_id : Text) (num : ℕ) (properties : N) (cs : List (ProxelConfig Text N))
      → elim (ltb 1 num) as (λ _. Outcome (List (ProxelConfig Text N))) [
        | true ↦ replicated_configs yaml unique_id num properties
        | false ↦ do config ← create_proxel_config yaml unique_id properties; returns (config ∷ [])
      ]
        ≡ returns cs
      → map id_of cs ≡ (if ltb 1 num then replica_ids unique_id num 0 else unique_id ∷ [])
  enabled-ids unique_id num properties cs h = elim (Bool-cases (ltb 1 num)) [
    | inl b ↦ rw b (replicated_configs-ids yaml unique_id num properties (rw b at h))
    | inr b ↦
        let (config, ec, h1) =
          >>=-returns (create_proxel_config yaml unique_id properties) _ (rw b at h) in
        let ecs : config ∷ [] ≡ cs = cc in
        rw b (rw (← ecs) (ap (λ t. t ∷ []) (create_proxel_config-id yaml unique_id properties ec)))
  ]

  entry-ids :
      (name properties : N) (n : Text) (enabled : Bool) (count : ℕ)
      (cs : List (ProxelConfig Text N))
      → yaml.as_text name ≡ returns n
      → is_enabled yaml properties ≡ returns enabled
      → number_of_replicas yaml properties ≡ returns count
      → entry_configs yaml (name, properties) ≡ returns cs
      → map id_of cs
        ≡ (if enabled then (if ltb 1 count then replica_ids n count 0 else n ∷ []) else [])
  unfolding entry_configs
  entry-ids name properties n false count cs t e c h =
      let none_made : [] ≡ cs = cc (rw e at h) in rw (← none_made) refl
  entry-ids name properties n true count cs t e c h =
      enabled-ids n count properties cs (rw (e, t, c) at h)

  entry-names :
      (pair : N × N) (e : Entry)
      → Says pair e
      → entry_names yaml true pair
        ≡ returns (
            if e.enabled
            then (if ltb 1 e.count then replica_ids e.name e.count 0 else []) ++ e.name ∷ []
            else [])
  unfolding entry_names
  entry-names (name, properties) e says =
      ground (arith, says.name_read, says.enable_read, says.count_read)

  entries-ids :
      {pairs : List (N × N)} {es : List Entry} (cs : List (ProxelConfig Text N))
      → SaysAll pairs es
      → collect (entry_configs yaml) pairs ≡ returns cs
      → map id_of cs ≡ ids_of es
  unfolding collect ids_of
  entries-ids cs nothing h = let made : [] ≡ cs = cc in rw (← made) refl
  entries-ids cs (both {pair = pair} {e = e} {pairs = pairs} {es = es} says rest) h =
      let (c, ec, h1) = >>=-returns (entry_configs yaml pair) _ h in
      let (cr, ecr, h2) = >>=-returns (collect (entry_configs yaml) pairs) _ h1 in
      let made : c ++ cr ≡ cs = cc in
      rw (← made) (
        rw (map-append_ids c cr) (
          rw
            (
              entry-ids pair.0 pair.1 e.name e.enabled e.count c says.name_read says.enable_read
                  says.count_read ec,
              entries-ids cr rest ecr,
            )
            refl))

  entries-names :
      {pairs : List (N × N)} {es : List Entry}
      → SaysAll pairs es
      → collect (entry_names yaml true) pairs ≡ returns (names_of es)
  unfolding collect names_of
  entries-names nothing = refl
  entries-names (both {pair = pair} {e = e} says rest) =
      rw (entry-names pair e says, entries-names rest) refl

  entries-counts :
      {pairs : List (N × N)} {es : List Entry} (m : Map Text ℕ)
      → SaysAll pairs es
      → replicas_of yaml pairs m ≡ returns (counts_of es m)
  unfolding replicas_of counts_of
  entries-counts m nothing = refl
  entries-counts m (both {pair = pair} {e = e} says rest) = elim (Bool-cases (ltb 1 e.count)) [
    | inl b ↦
        ground
          (arith, says.name_read, says.count_read, entries-counts (insert e.name e.count m) rest)
    | inr b ↦ ground (arith, says.count_read, entries-counts m rest)
  ]

  ids_of-append : (es fs : List Entry) → ids_of (es ++ fs) ≡ ids_of es ++ ids_of fs
  unfolding ids_of
  ids_of-append [] fs = refl
  ids_of-append (e ∷ es) fs =
      rw (ids_of-append es fs) (sym (append_assoc _ (ids_of es) (ids_of fs)))

  names_of-append : (es fs : List Entry) → names_of (es ++ fs) ≡ names_of es ++ names_of fs
  unfolding names_of
  names_of-append [] fs = refl
  names_of-append (e ∷ es) fs =
      rw (names_of-append es fs) (sym (append_assoc _ (names_of es) (names_of fs)))

  -- What the loops over the sections make of them
  pub configs-ids :
      {nodes : List N} {sections : List (List Entry)} (cs : List (ProxelConfig Text N))
      → Describes nodes sections
      → all_proxel_configs yaml nodes ≡ returns cs
      → map id_of cs ≡ ids_of (concat sections)
  unfolding all_proxel_configs proxel_configs collect ids_of
  configs-ids cs nowhere h = let made : [] ≡ cs = cc in rw (← made) refl
  configs-ids cs (section {node = node} {es = es} {nodes = nodes} {sections = sections} says rest)
        h =
      let (c, ec, h1) = >>=-returns (proxel_configs yaml node) _ h in
      let (cr, ecr, h2) = >>=-returns (collect (proxel_configs yaml) nodes) _ h1 in
      let made : c ++ cr ≡ cs = cc in
      rw (← made) (
        map-append_ids c cr
        ∙ ap (λ t. t ++ map id_of cr) (entries-ids c says ec)
        ∙ ap (λ t. ids_of es ++ t) (configs-ids cr rest ecr)
        ∙ sym (ids_of-append es (concat sections)))

  pub all-names :
      {nodes : List N} {sections : List (List Entry)}
      → Describes nodes sections
      → all_proxel_names yaml true nodes ≡ returns (names_of (concat sections))
  unfolding all_proxel_names proxel_names collect names_of
  all-names nowhere = refl
  all-names (section {es = es} {sections = sections} says rest) =
      rw (entries-names says, all-names rest)
        (ap returns (sym (names_of-append es (concat sections))))

  pub all-counts :
      {nodes : List N} {sections : List (List Entry)} (m : Map Text ℕ)
      → Describes nodes sections
      → all_replicas yaml nodes m ≡ returns (all_counts sections m)
  unfolding all_replicas all_counts
  all-counts m nowhere = refl
  all-counts m (section {es = es} says rest) =
      rw (entries-counts [] says) (all-counts (plus m (counts_of es [])) rest)

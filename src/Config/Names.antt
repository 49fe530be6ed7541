-- ===== src/Config/Names.antt =====
-- The names of the enabled proxels (getProxelNamesFilteredByEnableValue of yaml/src/yaml.cpp) against
-- the configurations that getProxelConfigs makes of them, and the unconnected ones.
use superflow.Base.{
  ℕ, ◌≡◌, inl, inr, refl, ap, Bool, true, false, not, ◌&&◌, ◌||◌, List, [], ◌∷◌, ◌++◌, map, arith,
  Outcome, returns, ◌>>=◌, >>=-returns, ltb, if◌then◌else◌, Bool-cases,
}
use superflow.Registry.{ProxelConfig}
use superflow.Text.{Text, same_text, same_text_eq}
use superflow.Config.{
  Yaml, collect, replica_ids, replicated_configs, create_proxel_config, is_enabled,
  number_of_replicas, entry_configs, proxel_configs, all_proxel_configs, entry_names, proxel_names,
  all_proxel_names,
}
use superflow.Config.Links.{contains_name, unconnected, ConnectionSpec}
use superflow.Config.Replicas.{id_of, create_proxel_config-id, replicated_configs-ids}

pub same_text_refl : (a : Text) → same_text a a ≡ true
same_text_refl a = (same_text_eq a a).1 refl

pub contains_name-append :
    (x : Text) (xs ys : List Text)
    → contains_name x (xs ++ ys) ≡ (contains_name x xs || contains_name x ys)
unfolding contains_name
contains_name-append x [] ys = refl
contains_name-append x (y ∷ xs) ys = ground (arith, contains_name-append x xs ys)

-- Every text of the first list is in the second.
unfoldable pub all_named : List Text → List Text → Bool
unfolding contains_name
all_named [] names = true
all_named (id ∷ ids) names = contains_name id names && all_named ids names

pub all_named-append_left :
    (ids xs ys : List Text) → all_named ids xs ≡ true → all_named ids (xs ++ ys) ≡ true
unfolding all_named
all_named-append_left [] xs ys h = refl
all_named-append_left (id ∷ ids) xs ys h =
    ground (arith, contains_name-append id xs ys, all_named-append_left ids xs ys)

pub all_named-append_right :
    (ids xs ys : List Text) → all_named ids ys ≡ true → all_named ids (xs ++ ys) ≡ true
unfolding all_named
all_named-append_right [] xs ys h = refl
all_named-append_right (id ∷ ids) xs ys h =
    ground (arith, contains_name-append id xs ys, all_named-append_right ids xs ys)

pub all_named-append :
    (ids more names : List Text)
    → all_named ids names ≡ true
    → all_named more names ≡ true
    → all_named (ids ++ more) names ≡ true
unfolding all_named
all_named-append [] more names h k = k
all_named-append (id ∷ ids) more names h k = ground (arith, all_named-append ids more names)

pub all_named_self : (ids : List Text) → all_named ids ids ≡ true
unfolding all_named contains_name
all_named_self [] = refl
all_named_self (id ∷ ids) =
    ground (arith, same_text_refl id, all_named-append_right ids (id ∷ []) ids (all_named_self ids))

pub map-append_ids :
    {N : Type 0} (xs ys : List (ProxelConfig Text N))
    → map id_of (xs ++ ys) ≡ map id_of xs ++ map id_of ys
map-append_ids [] ys = refl
map-append_ids (x ∷ xs) ys = ap (λ t. x.id ∷ t) (map-append_ids xs ys)

all_named-none : (names : List Text) → all_named [] names ≡ true
unfolding all_named
all_named-none names = refl

-- Two loops of which each round keeps to the names
collect_named :
    {A N : Type 0} (f : A → Outcome (List (ProxelConfig Text N))) (g : A → Outcome (List Text))
    → ((x : A) (cs : List (ProxelConfig Text N)) (ns : List Text)
        → f x ≡ returns cs
        → g x ≡ returns ns
        → all_named (map id_of cs) ns ≡ true)
    → (xs : List A) (cs : List (ProxelConfig Text N)) (ns : List Text) → collect f xs ≡ returns cs
    → collect g xs ≡ returns ns
    → all_named (map id_of cs) ns ≡ true
unfolding collect
collect_named f g step [] cs ns h k = let e : cs ≡ [] = cc in rw e (all_named-none ns)
collect_named f g step (x ∷ xs) cs ns h k =
    let (c, ec, h1) = >>=-returns (f x) _ h in
    let (cr, ecr, h2) = >>=-returns (collect f xs) _ h1 in
    let (n, en, k1) = >>=-returns (g x) _ k in
    let (nr, enr, k2) = >>=-returns (collect g xs) _ k1 in
    let first = step x c n ec en in
    let rest = collect_named f g step xs cr nr ecr enr in
    let ecs : c ++ cr ≡ cs = cc in
    let ens : n ++ nr ≡ ns = cc in
    rw (← ecs) (
      rw (← ens) (
        rw (map-append_ids c cr) (
          all_named-append (map id_of c) (map id_of cr) (n ++ nr)
            (all_named-append_left (map id_of c) n nr first)
            (all_named-append_right (map id_of cr) n nr rest))))

module _ {N : Type 0} (yaml : Yaml N) where
  -- A proxel of which the id and the number of replicas have been read
  number_named :
      (unique_id : Text) (num : ℕ) (properties : N) (cs : List (ProxelConfig Text N))
      → elim (ltb 1 num) as (λ _. Outcome (List (ProxelConfig Text N))) [
        | true ↦ replicated_configs yaml unique_id num properties
        | false ↦ do config ← create_proxel_config yaml unique_id properties; returns (config ∷ [])
      ]
        ≡ returns cs
      → all_named
          (map id_of cs)
          ((if ltb 1 num then replica_ids unique_id num 0 else []) ++ unique_id ∷ [])
        ≡ true
  number_named unique_id num properties cs h = elim (Bool-cases (ltb 1 num)) [
    | inl b ↦
        let r = replicated_configs-ids yaml unique_id num properties (rw b at h) in
        rw b (rw r (all_named-append_left _ _ (unique_id ∷ []) (all_named_self _)))
    | inr b ↦
        let (config, ec, h1) =
          >>=-returns (create_proxel_config yaml unique_id properties) _ (rw b at h) in
        let e = create_proxel_config-id yaml unique_id properties ec in
        let ecs : config ∷ [] ≡ cs = cc in
        rw b (rw (← ecs) (rw e (all_named_self (unique_id ∷ []))))
  ]

  -- A proxel of which `enable` has been read
  enable_named :
      (name properties : N) (enable : Bool) (cs : List (ProxelConfig Text N)) (ns : List Text)
      → is_enabled yaml properties ≡ returns enable
      → entry_configs yaml (name, properties) ≡ returns cs
      → entry_names yaml true (name, properties) ≡ returns ns
      → all_named (map id_of cs) ns ≡ true
  unfolding entry_configs entry_names
  enable_named name properties false cs ns e h k =
      let none_made : [] ≡ cs = cc (rw e at h) in rw (← none_made) (all_named-none ns)
  enable_named name properties true cs ns e h k =
      let (unique_id, eu, h1) = >>=-returns (yaml.as_text name) _ (rw e at h) in
      let (num, en, h2) = >>=-returns (number_of_replicas yaml properties) _ h1 in
      let names : (if ltb 1 num then replica_ids unique_id num 0 else []) ++ unique_id ∷ [] ≡ ns =
        cc (rw (e, en, eu) at k) in
      rw (← names) (number_named unique_id num properties cs h2)

  entry_named :
      (entry : N × N) (cs : List (ProxelConfig Text N)) (ns : List Text)
      → entry_configs yaml entry ≡ returns cs
      → entry_names yaml true entry ≡ returns ns
      → all_named (map id_of cs) ns ≡ true
  unfolding entry_configs
  entry_named (name, properties) cs ns h k =
      let (enable, e, h1) = >>=-returns (is_enabled yaml properties) _ h in
      enable_named name properties enable cs ns e h k

  section_named :
      (section : N) (cs : List (ProxelConfig Text N)) (ns : List Text)
      → proxel_configs yaml section ≡ returns cs
      → proxel_names yaml true section ≡ returns ns
      → all_named (map id_of cs) ns ≡ true
  unfolding proxel_configs proxel_names
  section_named section =
      collect_named (entry_configs yaml) (entry_names yaml true) entry_named (yaml.entries section)

  -- Every proxel of which getAllProxelConfigs makes a configuration, replicas included, is among the
  -- names of enabled proxels that getAllProxelNamesFilteredByEnableValue gives for the same sections.
  pub all_proxel_configs-named :
      (sections : List N) (cs : List (ProxelConfig Text N)) (ns : List Text)
      → all_proxel_configs yaml sections ≡ returns cs
      → all_proxel_names yaml true sections ≡ returns ns
      → all_named (map id_of cs) ns ≡ true
  unfolding all_proxel_configs all_proxel_names
  all_proxel_configs-named =
      collect_named (proxel_configs yaml) (proxel_names yaml true) section_named

-- getUnconnectedProxels keeps the names, in order, that are on neither side of a connection.
pub contains-unconnected :
    (x : Text) (names : List Text) (specs : List ConnectionSpec)
    → contains_name x (unconnected names specs) ≡ (
        contains_name x names
        && not (contains_name x (map (λ c. c.lhs_name) specs))
        && not (contains_name x (map (λ c. c.rhs_name) specs)))
unfolding contains_name unconnected
contains-unconnected x [] specs = refl
contains-unconnected x (n ∷ names) specs = elim (Bool-cases (same_text x n)) [
  | inl e ↦
      rw ((same_text_eq x n).0 e)
        (ground (arith, same_text_refl n, contains-unconnected n names specs))
  | inr d ↦ ground (arith, contains-unconnected x names specs)
]

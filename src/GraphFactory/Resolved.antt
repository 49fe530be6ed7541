-- ===== src/GraphFactory/Resolved.antt =====
-- What a graph that createGraph returns holds, and what can go wrong with a connection
-- (core/include/superflow/graph_factory.h and yaml/src/yaml.cpp).
use superflow.Base.{
  ℕ, ◌≡◌, ◌≢◌, refl, true, List, [], ◌∷◌, map, concat, Option, none, some, arith, inl, inr,
  Bool-cases, Exception, Outcome, returns, throws, waits, undefined,
}
use superflow.Map.{Map, IsMap, lookup}
use superflow.Map.Laws.{same_or_not}
use superflow.Text.{Text, text_key, same_text, same_text_eq}
use superflow.Registry.{ProxelConfig, create_proxels}
use superflow.Registry.Create.{AllMade, create_proxels-AllMade}
use superflow.Config.Links.{ConnectionSpec, contains_name}
use superflow.Config.Names.{all_named}
use superflow.Config.Replicas.{id_of}
use superflow.Config.{Yaml, all_proxel_configs}
use superflow.Config.Include.{Files, specs_of}
use superflow.Config.Entries.{Entry, Describes}
use superflow.Config.Counts.{base, all_different}
use superflow.Config.Consistent.{NoReplicaNames, specs_of-Within}
use superflow.Port.{Net}
use superflow.Port.Connect.{Verdict, done, raised, starved}
use superflow.Graph.{Graph, Proxel, make, connect, connect_ports, find_port}
use superflow.GraphFactory.{
  created, connect_all, connect_proxels, create_graph, finish_graph, unwind,
}

module _ {W : Type 0} where
  -- The connection is between two different proxels of the graph, and its names lead to two ports.
  pub record Resolved (g : Graph Text W) (spec : ConnectionSpec) : Type 0 where
    pub apart : spec.lhs_name ≢ spec.rhs_name
    pub lhs : ℕ
    pub rhs : ℕ
    pub lhs_found : find_port g spec.lhs_name spec.lhs_port ≡ some (some lhs)
    pub rhs_found : find_port g spec.rhs_name spec.rhs_port ≡ some (some rhs)

  abbrev pub AllResolved : Graph Text W → List ConnectionSpec → Type 0
  AllResolved g [] = Unit
  AllResolved g (spec ∷ specs) = Resolved g spec × AllResolved g specs

ports_found :
    (fuel : ℕ) (o p : Option (Option ℕ)) (s t : Net)
    → connect_ports fuel o p s ≡ done t
    → (a b : ℕ) × (o ≡ some (some a)) × (p ≡ some (some b))
unfolding connect_ports
ports_found fuel none p s t h = cc
ports_found fuel (some o) none s t h = cc
ports_found fuel (some none) (some p) s t h = cc
ports_found fuel (some (some a)) (some none) s t h = cc
ports_found fuel (some (some a)) (some (some b)) s t h = (a, b, refl, refl)

module _ {W : Type 0} (fuel : ℕ) (g : Graph Text W) where
  different :
      (spec : ConnectionSpec) (s t : Net)
      → connect fuel g spec.lhs_name spec.lhs_port spec.rhs_name spec.rhs_port s ≡ done t
      → (spec.lhs_name ≢ spec.rhs_name)
        × (connect_ports fuel
              (find_port g spec.lhs_name spec.lhs_port)
              (find_port g spec.rhs_name spec.rhs_port)
              s
            ≡ done t)
  unfolding connect
  different spec s t h = elim (same_or_not spec.lhs_name spec.rhs_name) [
    | inl e ↦ absurd (ground (arith, text_key.cmp_eq spec.lhs_name spec.rhs_name))
    | inr n ↦ (n, ground (arith, text_key.cmp_eq spec.lhs_name spec.rhs_name))
  ]

  connect-Resolved :
      (spec : ConnectionSpec) (s t : Net)
      → connect fuel g spec.lhs_name spec.lhs_port spec.rhs_name spec.rhs_port s ≡ done t
      → Resolved g spec
  connect-Resolved spec s t h =
      let (apart, h') = different spec s t h in
      let (a, b, l, r) = ports_found fuel _ _ s t h' in
      record { apart = apart; lhs = a; rhs = b; lhs_found = l; rhs_found = r }

  abbrev NextDone : ConnectionSpec → List ConnectionSpec → Net → Net → Type 0
  NextDone spec specs s t =
      (u : Net) × (connect fuel g spec.lhs_name spec.lhs_port spec.rhs_name spec.rhs_port s
        ≡ done u)
      × (connect_all fuel g specs u ≡ done t)

  next_done :
      (spec : ConnectionSpec) (specs : List ConnectionSpec) (s t : Net) (v : Verdict)
      → connect fuel g spec.lhs_name spec.lhs_port spec.rhs_name spec.rhs_port s ≡ v
      → connect_all fuel g (spec ∷ specs) s ≡ done t
      → NextDone spec specs s t
  unfolding connect_all
  next_done spec specs s t (done u) e h = (u, e, rw (e, connect_all) at h)
  next_done spec specs s t (raised x u) e h = cc (rw (e, connect_all) at h)
  next_done spec specs s t starved e h = cc (rw (e, connect_all) at h)

  connect_all-AllResolved :
      (specs : List ConnectionSpec) (s t : Net)
      → connect_all fuel g specs s ≡ done t
      → AllResolved g specs
  connect_all-AllResolved [] s t h = tt
  connect_all-AllResolved (spec ∷ specs) s t h =
      let (u, e, h') = next_done spec specs s t _ refl h in
      (connect-Resolved spec s u e, connect_all-AllResolved specs u t h')

unwound :
    {W : Type 0} (x : Exception) (o : Option Net) {h : Graph Text W} {t : Net}
    → unwind x o ≡ created h t
    → ⊥
unfolding unwind
unwound x none e = cc
unwound x (some u) e = cc

finish_graph-created :
    {W : Type 0} (fuel : ℕ) (g h : Graph Text W) (v : Verdict) (t : Net)
    → finish_graph fuel g v ≡ created h t
    → (g ≡ h) × (v ≡ done t)
unfolding finish_graph
finish_graph-created fuel g h (done u) t e = (cc, cc)
finish_graph-created fuel g h (raised x u) t e = absurd (unwound x _ e)
finish_graph-created fuel g h starved t e = cc

module _ {W : Type 0} {Properties : Type 0}
    (factory_map : Map Text (Properties → Outcome (Proxel Text W))) where
  made_and_joined :
      (fuel : ℕ) (configs : List (ProxelConfig Text Properties)) (specs : List ConnectionSpec)
      (s t : Net) (g : Graph Text W) (made : Outcome (Map Text (Proxel Text W)))
      → create_proxels factory_map configs [] ≡ made
      → connect_proxels fuel specs s made ≡ created g t
      → (IsMap g.proxels) × AllMade factory_map configs g.proxels × AllResolved g specs
  unfolding connect_proxels make
  made_and_joined fuel configs specs s t g (returns proxels) e h =
      let (same, v) = finish_graph-created fuel _ g _ t h in
      let (sorted, made) = create_proxels-AllMade factory_map configs proxels e in
      rw (← same) (sorted, made, connect_all-AllResolved fuel _ specs s t v)
  made_and_joined fuel configs specs s t g (throws x) e h = cc
  made_and_joined fuel configs specs s t g waits e h = cc
  made_and_joined fuel configs specs s t g undefined e h = cc

  -- If createGraph returns a graph, each configuration has its proxel there, under its own id and
  -- made by the factory of its type, and each connection is between two different proxels of the
  -- graph whose ports, by these names, exist and are not null.
  pub create_graph-AllResolved :
      (fuel : ℕ) (configs : List (ProxelConfig Text Properties)) (specs : List ConnectionSpec)
      (s t : Net) (g : Graph Text W)
      → create_graph fuel factory_map configs specs s ≡ created g t
      → (IsMap g.proxels) × AllMade factory_map configs g.proxels × AllResolved g specs
  unfolding create_graph
  create_graph-AllResolved fuel configs specs s t g h =
      made_and_joined fuel configs specs s t g _ refl h

  made_named :
      (configs : List (ProxelConfig Text Properties)) (proxels : Map Text (Proxel Text W))
      (x : Text)
      → AllMade factory_map configs proxels
      → contains_name x (map id_of configs) ≡ true
      → (p : Proxel Text W) × (lookup x proxels ≡ some p)
  unfolding contains_name
  made_named [] proxels x made h = absurd (ground arith)
  made_named (config ∷ configs) proxels x ((p, m, at), made) h =
      elim (Bool-cases (same_text x config.id)) [
        | inl e ↦ (p, rw ((same_text_eq x config.id).0 e) at)
        | inr n ↦ made_named configs proxels x made (ground arith)
      ]

  -- Both sides of the connection are proxels of the map.
  abbrev pub AllPresent : List ConnectionSpec → Map Text (Proxel Text W) → Type 0
  AllPresent [] proxels = Unit
  AllPresent (spec ∷ specs) proxels =
      ((p : Proxel Text W) × (lookup spec.lhs_name proxels ≡ some p))
      × ((p : Proxel Text W) × (lookup spec.rhs_name proxels ≡ some p))
      × AllPresent specs proxels

  Within-AllPresent :
      (configs : List (ProxelConfig Text Properties)) (proxels : Map Text (Proxel Text W))
      (specs : List ConnectionSpec)
      → AllMade factory_map configs proxels
      → all_named (map (λ c. c.lhs_name) specs) (map id_of configs) ≡ true
      → all_named (map (λ c. c.rhs_name) specs) (map id_of configs) ≡ true
      → AllPresent specs proxels
  unfolding all_named
  Within-AllPresent configs proxels [] made l r = tt
  Within-AllPresent configs proxels (spec ∷ specs) made l r = (
    made_named configs proxels spec.lhs_name made (ground arith),
    made_named configs proxels spec.rhs_name made (ground arith),
    Within-AllPresent configs proxels specs made (ground arith) (ground arith),
  )

  -- The sections of a configuration are described by entries of different names, none of which has
  -- the form of the id of a replica. If the configurations, the connections and the proxels can be
  -- made, then every name of a proxel in the connections is that of a proxel that was made: no
  -- connection fails because there is no such proxel.
  pub configured-AllPresent :
      (yaml : Yaml Properties) (files : Files Properties) (nodes : List Properties)
      (sections : List (List Entry)) (all_connections : Option (List Properties))
      (configs : List (ProxelConfig Text Properties)) (specs : List ConnectionSpec)
      (proxels : Map Text (Proxel Text W))
      → Describes yaml nodes sections
      → all_different (map base (concat sections)) ≡ true
      → NoReplicaNames (concat sections)
      → all_proxel_configs yaml nodes ≡ returns configs
      → specs_of yaml files all_connections nodes ≡ returns specs
      → create_proxels factory_map configs [] ≡ returns proxels
      → AllPresent specs proxels
  configured-AllPresent yaml files nodes sections all_connections configs specs proxels says
        different_names replica_free configured read made =
      let within =
        specs_of-Within yaml files nodes sections all_connections configs specs says different_names
          replica_free configured read in
      Within-AllPresent configs proxels specs
        (create_proxels-AllMade factory_map configs proxels made).1 within.lhs_known
        within.rhs_known

-- ===== src/Registry/Create.antt =====
-- What createProxelsFromConfig (core/include/superflow/graph_factory.h) returns.
use superflow.Base.{
  ◌≡◌, ◌≢◌, refl, ap, ◌∙◌, inl, inr, List, [], ◌∷◌, arith, none, some, Option-cases, Outcome,
  returns, throws, waits, undefined, invalid_argument, runtime_error, unknown, terminated,
  range_error,
}
use superflow.Map.{Key, Map, IsMap, lookup, insert}
use superflow.Map.Laws.{lookup-insert_self, lookup-insert_ne, insert-IsMap}
use superflow.Registry.{ProxelConfig, create_proxels, as_runtime_error, has, get}

module _ {ℓ κ μ} {K : Type ℓ} {Properties : Type κ} {Proxel : Type μ} ⦃key : Key K⦄
    (factories : Map K (Properties → Outcome Proxel)) where
  -- The factory of the configuration's type made this proxel from its properties.
  abbrev pub Makes : ProxelConfig K Properties → Proxel → Type (κ ⊔ μ)
  Makes config proxel =
      (factory : Properties → Outcome Proxel) × (lookup config.type_name factories ≡ some factory)
      × (factory config.properties ≡ returns proxel)

  -- Every configuration has its proxel under its own id.
  abbrev pub AllMade : List (ProxelConfig K Properties) → Map K Proxel → Type (κ ⊔ μ)
  AllMade [] out = Unit
  AllMade (config ∷ configs) out =
      ((proxel : Proxel) × Makes config proxel × (lookup config.id out ≡ some proxel))
      × AllMade configs out

  abbrev Step :
      ProxelConfig K Properties
      → List (ProxelConfig K Properties)
      → Map K Proxel
      → Map K Proxel
      → Type (ℓ ⊔ κ ⊔ μ)
  Step config configs m out =
      (proxel : Proxel) × (lookup config.id m ≡ none)
      × Makes config proxel
      × (create_proxels factories configs (insert config.id proxel m) ≡ returns out)

  made-Step :
      (config : ProxelConfig K Properties) (configs : List (ProxelConfig K Properties))
      (m out : Map K Proxel) (factory : Properties → Outcome Proxel) (made : Outcome Proxel)
      → lookup config.id m ≡ none
      → lookup config.type_name factories ≡ some factory
      → factory config.properties ≡ made
      → create_proxels factories (config ∷ configs) m ≡ returns out
      → Step config configs m out
  unfolding create_proxels has get as_runtime_error
  made-Step config configs m out factory (returns proxel) n l e h =
      (proxel, n, (factory, l, e), ground arith)
  made-Step config configs m out factory (throws terminated) n l e h = ground arith
  made-Step config configs m out factory (throws invalid_argument) n l e h = ground arith
  made-Step config configs m out factory (throws range_error) n l e h = ground arith
  made-Step config configs m out factory (throws runtime_error) n l e h = ground arith
  made-Step config configs m out factory (throws unknown) n l e h = ground arith
  made-Step config configs m out factory waits n l e h = ground arith
  made-Step config configs m out factory undefined n l e h = ground arith

  create_proxels-Step :
      (config : ProxelConfig K Properties) (configs : List (ProxelConfig K Properties))
      (m out : Map K Proxel)
      → create_proxels factories (config ∷ configs) m ≡ returns out
      → Step config configs m out
  unfolding create_proxels has get
  create_proxels-Step config configs m out h = elim (Option-cases (lookup config.id m)) [
    | inr (p, used) ↦ ground arith
    | inl fresh ↦ elim (Option-cases (lookup config.type_name factories)) [
      | inl missing ↦ ground arith
      | inr (factory, l) ↦
          made-Step config configs m out factory (factory config.properties) fresh l refl h
    ]
  ]

  stays :
      (configs : List (ProxelConfig K Properties)) (m out : Map K Proxel) (k : K) (p : Proxel)
      → create_proxels factories configs m ≡ returns out
      → lookup k m ≡ some p
      → lookup k out ≡ some p
  unfolding create_proxels
  stays [] m out k p h l = ground arith
  stays (config ∷ configs) m out k p h l =
      let (proxel, fresh, made, rest) = create_proxels-Step config configs m out h in
      let other : k ≢ config.id = λ e. ground (arith, ap (λ i. lookup i m) e) in
      stays configs (insert config.id proxel m) out k p rest
        (lookup-insert_ne k config.id proxel m other ∙ l)

  all_made :
      (configs : List (ProxelConfig K Properties)) (m out : Map K Proxel)
      → IsMap m
      → create_proxels factories configs m ≡ returns out
      → IsMap out × AllMade configs out
  unfolding create_proxels
  all_made [] m out s h = (ground arith, tt)
  all_made (config ∷ configs) m out s h =
      let (proxel, fresh, made, rest) = create_proxels-Step config configs m out h in
      let r =
        all_made configs (insert config.id proxel m) out (insert-IsMap config.id proxel m s) rest in
      (
        r.0,
        (
          (
            proxel,
            made,
            stays configs _ out config.id proxel rest (lookup-insert_self config.id proxel m),
          ),
          r.1,
        ),
      )

  -- If createProxelsFromConfig returns, each configuration has, under its own id, the proxel that
  -- the factory of its type made from its properties, and the ids of the map are sorted.
  pub create_proxels-AllMade :
      (configs : List (ProxelConfig K Properties)) (out : Map K Proxel)
      → create_proxels factories configs [] ≡ returns out
      → IsMap out × AllMade configs out
  create_proxels-AllMade configs out h = all_made configs [] out tt h

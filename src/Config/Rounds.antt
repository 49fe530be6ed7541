-- ===== src/Config/Rounds.antt =====
-- A round of getConnections (yaml/src/yaml.cpp) as a whole, for two specifications.
use superflow.Base.{
  ℕ, ◌<◌, ◌≡◌, ◌⊎◌, inl, inr, true, false, ◌||◌, List, [], length, arith, Bool-cases, refl, ◌∙◌,
  ◌>>=◌, Outcome, returns, throws, undefined, invalid_argument,
}
use superflow.Map.{Map}
use superflow.Text.{Text}
use superflow.Config.{Yaml}
use superflow.Config.Links.{
  PortSpecification, ConnectionSpec, Endpoint, expand, pair_up, contains_name, replicas_for,
  connect_pair, connection, valid_connection_specification, as_port_specification,
}
use superflow.Config.Pairs.{compatible, Paired, pair_up-Paired, pair_up-incompatible}
use superflow.Config.Expand.{ambiguous, Expanded, expand-Expanded, expand-ambiguous}

-- The sides of a round are expanded; either they are paired, or they do not fit and it throws.
pub record Round (lhs rhs : PortSpecification) (m n : ℕ) (result : Outcome (List ConnectionSpec))
    : Type 0 where
  pub lhs_list : List Endpoint
  pub rhs_list : List Endpoint
  pub lhs_expanded : Expanded lhs m lhs_list
  pub rhs_expanded : Expanded rhs n rhs_list
  pub paired :
      ((compatible lhs_list rhs_list ≡ false) × (result ≡ throws invalid_argument))
      ⊎ ((compatible lhs_list rhs_list ≡ true)
          × (specs : List ConnectionSpec) × (result ≡ returns specs)
          × Paired lhs_list rhs_list specs)

expand-empty : (spec : PortSpecification) (n : ℕ) → spec.port_list ≡ [] → expand spec n ≡ undefined
unfolding expand
expand-empty spec n e = ground arith

module _ (lhs rhs : PortSpecification) (m n : ℕ) where
  -- The two sides are expanded and paired.
  paired_sides :
      (xs ys : List Endpoint) (result : Outcome (List ConnectionSpec))
      → 0 < length xs
      → 0 < length ys
      → Expanded lhs m xs
      → Expanded rhs n ys
      → result ≡ pair_up xs ys
      → Round lhs rhs m n result
  paired_sides xs ys result hx hy ex ey e = record {
    lhs_list = xs;
    rhs_list = ys;
    lhs_expanded = ex;
    rhs_expanded = ey;
    paired = elim (Bool-cases (compatible xs ys)) [
      | inl c ↦
          let (specs, run, paired) = pair_up-Paired xs ys hx hy c in inr (c, specs, e ∙ run, paired)
      | inr c ↦ inl (c, e ∙ pair_up-incompatible xs ys c)
    ];
  }

module _ (enabled : List Text) (replicas : Map Text ℕ) (lhs rhs : PortSpecification)
    (el : contains_name lhs.proxel_id enabled ≡ true)
    (er : contains_name rhs.proxel_id enabled ≡ true) where
  abbrev m : ℕ
  m = replicas_for lhs.proxel_id replicas

  abbrev n : ℕ
  n = replicas_for rhs.proxel_id replicas

  connect_pair-enabled :
      connect_pair enabled replicas lhs rhs
      ≡ (expand lhs m >>= λ xs. expand rhs n >>= λ ys. pair_up xs ys)
  unfolding connect_pair
  connect_pair-enabled = ground arith

  -- Of two specifications of enabled proxels with at least one port each, a round throws if one of
  -- them gives several ports for a replicated proxel, or if their numbers of endpoints differ and
  -- neither is 1. Otherwise it gives as many connections as the longer side has endpoints: the i-th
  -- joins the i-th endpoint of each side, where a side with a single endpoint serves them all.
  pub connect_pair-Round :
      0 < length lhs.port_list
      → 0 < length rhs.port_list
      → (((ambiguous lhs m || ambiguous rhs n) ≡ true)
          × (connect_pair enabled replicas lhs rhs ≡ throws invalid_argument))
        ⊎ (((ambiguous lhs m || ambiguous rhs n) ≡ false)
            × Round lhs rhs m n (connect_pair enabled replicas lhs rhs))
  connect_pair-Round hl hr = elim (Bool-cases (ambiguous lhs m)) [
    | inl a ↦ inl (rw a refl, connect_pair-enabled ∙ rw (expand-ambiguous lhs m a) refl)
    | inr a ↦
        let (xs, run_l, hx, ex) = expand-Expanded lhs m hl a in
        elim (Bool-cases (ambiguous rhs n)) [
          | inl b ↦
              inl (rw (a, b) refl, connect_pair-enabled ∙ rw (run_l, expand-ambiguous rhs n b) refl)
          | inr b ↦
              let (ys, run_r, hy, ey) = expand-Expanded rhs n hr b in
              inr (
                rw (a, b) refl,
                paired_sides lhs rhs m n xs ys _ hx hy ex ey
                    (connect_pair-enabled ∙ rw (run_l, run_r) refl),
              )
        ]
  ]

  -- `port_list[0]` of an empty list
  connect_pair-empty : lhs.port_list ≡ [] → connect_pair enabled replicas lhs rhs ≡ undefined
  connect_pair-empty e = connect_pair-enabled ∙ rw (expand-empty lhs m e) refl

module _ {N : Type 0} (yaml : Yaml N) (enabled : List Text) (replicas : Map Text ℕ) (node : N)
    (lhs rhs : PortSpecification) where
  -- A connection that validConnectionSpecification accepts, whose proxels are enabled and whose first
  -- port is an empty list, reads `port_list[0]` of an empty vector, which is undefined behaviour.
  pub connection-empty :
      valid_connection_specification yaml node ≡ true
      → as_port_specification yaml (yaml.item_at 0 node) ≡ returns lhs
      → as_port_specification yaml (yaml.item_at 1 node) ≡ returns rhs
      → contains_name lhs.proxel_id enabled ≡ true
      → contains_name rhs.proxel_id enabled ≡ true
      → lhs.port_list ≡ []
      → connection yaml enabled replicas node ≡ undefined
  unfolding connection
  connection-empty v l r el er e =
      rw (v, l, r) (connect_pair-empty enabled replicas lhs rhs el er e)

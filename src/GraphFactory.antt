-- ===== src/GraphFactory.antt =====
-- flow::createGraph (core/include/superflow/graph_factory.h): proxels from configurations, and then
-- the connections between them.
pub mod Resolved
use superflow.Base.{
  ℕ, List, [], ◌∷◌, Option, none, some, Outcome, returns, throws, waits, undefined, Exception,
}
use superflow.Map.{Map}
use superflow.Text.{Text, text_key}
use superflow.Registry.{ProxelConfig, create_proxels}
use superflow.Config.Links.{ConnectionSpec}
use superflow.Port.{Net}
use superflow.Port.Connect.{Verdict, done, raised, starved}
use superflow.Graph.{Graph, Proxel, make, connect, destroy}

-- `failed`: the exception, and the ports after the graph is gone. `stuck`: a factory blocks or is
-- undefined, or the fuel ran out.
pub data Creation (W : Type 0) : Type 0 where
  created : Graph Text W → Net → Creation W
  failed : Exception → Net → Creation W
  stuck : Creation W

module _ {W : Type 0} where
  -- The loop of createGraph over the connections
  unfoldable pub connect_all : ℕ → Graph Text W → List ConnectionSpec → Net → Verdict
  unfolding connect
  connect_all fuel g [] s = done s
  connect_all fuel g (spec ∷ specs) s =
      elim (connect fuel g spec.lhs_name spec.lhs_port spec.rhs_name spec.rhs_port s) [
        | done t ↦ connect_all fuel g specs t
        | raised e t ↦ raised e t
        | starved ↦ starved
      ]

  -- The proxels of a graph that is destroyed
  unfoldable pub destroy_proxels : ℕ → Map Text (Proxel Text W) → Net → Option Net
  unfolding destroy
  destroy_proxels fuel [] s = some s
  destroy_proxels fuel ((name, proxel) ∷ proxels) s = elim (destroy fuel proxel.ports s) [
    | none ↦ none
    | some t ↦ destroy_proxels fuel proxels t
  ]

  -- The exception leaves createGraph, and takes the graph with it.
  unfoldable pub unwind : Exception → Option Net → Creation W
  unwind e none = stuck
  unwind e (some t) = failed e t

  unfoldable pub finish_graph : ℕ → Graph Text W → Verdict → Creation W
  unfolding destroy_proxels unwind
  finish_graph fuel g (done t) = created g t
  finish_graph fuel g (raised e t) = unwind e (destroy_proxels fuel g.proxels t)
  finish_graph fuel g starved = stuck

  unfoldable pub connect_proxels :
      ℕ → List ConnectionSpec → Net → Outcome (Map Text (Proxel Text W)) → Creation W
  unfolding make connect_all finish_graph
  connect_proxels fuel specs s (returns proxels) =
      finish_graph fuel (make proxels) (connect_all fuel (make proxels) specs s)
  connect_proxels fuel specs s (throws e) = failed e s
  connect_proxels fuel specs s waits = stuck
  connect_proxels fuel specs s undefined = stuck

  unfoldable pub create_graph :
      {Properties : Type 0}
      → ℕ
      → Map Text (Properties → Outcome (Proxel Text W))
      → List (ProxelConfig Text Properties)
      → List ConnectionSpec
      → Net
      → Creation W
  unfolding create_proxels connect_proxels
  create_graph fuel factory_map proxel_configurations specs s =
      connect_proxels fuel specs s (create_proxels factory_map proxel_configurations [])

-- ===== src/Tests/Graphs.antt =====
-- Graphs whose names and texts are numbers, at concrete inputs.
use superflow.Base.{ℕ, ◌≡◌, [], ◌∷◌, arith, none, some}
use superflow.Map.{nat_key}
use superflow.Port.{Net}
use superflow.Port.Wired.{IsWired}
use superflow.Graph.{destroy}
use superflow.Graph.Ownership.{AreAlone, destroy-AreAlone}
use superflow.Tests.Nets.{two_producers, two_producers-IsWired}

destroy-AreAlone_example :
    (t : Net) × (destroy {K = ℕ} 5 ((7, some 0) ∷ (8, none) ∷ []) two_producers ≡ some t)
    × IsWired t
    × AreAlone {K = ℕ} ((7, some 0) ∷ (8, none) ∷ []) t
destroy-AreAlone_example =
    destroy-AreAlone 5 ((7, some 0) ∷ (8, none) ∷ []) two_producers (omega arith)
      two_producers-IsWired

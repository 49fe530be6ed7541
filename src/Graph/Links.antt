-- ===== src/Graph/Links.antt =====
-- Graph::connect, from the names of proxels and ports to the links between the ports.
use superflow.Base.{
  ℕ, ◌≤◌, ◌≡◌, ◌≢◌, refl, ◌∙◌, inl, inr, ◌⊎◌, false, arith, Option, none, some, invalid_argument,
}
use superflow.Map.{Key}
use superflow.Port.{Net, contains}
use superflow.Port.Connect as Ports
use superflow.Port.Connect.{done, raised}
use superflow.Port.Wired.{IsWired}
use superflow.Port.Admission.{refusal, is_client}
use superflow.Port.Joined.{joined}
use superflow.Port.Connected.{connect-joined}
use superflow.Graph.{Graph, connect, connect_ports, find_port}

-- One of the two lookups fails, or finds a null pointer.
abbrev pub Unknown : Option (Option ℕ) → Option (Option ℕ) → Type 0
Unknown o p = (o ≡ none) ⊎ (o ≡ some none) ⊎ (p ≡ none) ⊎ (p ≡ some none)

fails :
    (fuel : ℕ) (s : Net) (o p : Option (Option ℕ))
    → Unknown o p
    → connect_ports fuel o p s ≡ raised invalid_argument s
unfolding connect_ports
fails fuel s none p h = refl
fails fuel s (some o) none h = refl
fails fuel s (some none) (some p) h = refl
fails fuel s (some (some a)) (some none) h = refl
fails fuel s (some (some a)) (some (some b)) h = ground arith

module _ {ℓ κ} {K : Type ℓ} {W : Type κ} ⦃key : Key K⦄ (fuel : ℕ) (g : Graph K W)
    (proxel1 port1 proxel2 port2 : K) (s : Net) where
  found_ports :
      (a b : ℕ)
      → proxel1 ≢ proxel2
      → find_port g proxel1 port1 ≡ some (some a)
      → find_port g proxel2 port2 ≡ some (some b)
      → connect fuel g proxel1 port1 proxel2 port2 s ≡ Ports.connect fuel a b s
  unfolding connect connect_ports
  found_ports a b ne h i = ground (arith, key.cmp_eq proxel1 proxel2)

  -- If the names of two different proxels and of their ports lead to two different ports in a
  -- well-formed net, which take each other, are not connected and are no InterfacePort::Client,
  -- then `connect` of the graph returns, and adds the two links between these ports and no other.
  pub connect-find_port :
      (a b : ℕ)
      → proxel1 ≢ proxel2
      → find_port g proxel1 port1 ≡ some (some a)
      → find_port g proxel2 port2 ≡ some (some b)
      → IsWired s
      → 3 ≤ fuel
      → a ≢ b
      → is_client (s a).kind ≡ false
      → is_client (s b).kind ≡ false
      → contains b (s a).links ≡ false
      → refusal (s a).kind (s a) (s b) ≡ none
      → refusal (s b).kind (s b) (s a) ≡ none
      → (t : Net) × (connect fuel g proxel1 port1 proxel2 port2 s ≡ done t)
        × IsWired t
        × ((x y : ℕ) → contains y (t x).links ≡ joined s a b x y)
  connect-find_port a b ne h i w f d ca cb n ra rb =
      let (t, e, v, l) = connect-joined fuel a b s w f d ca cb n ra rb in
      (t, found_ports a b ne h i ∙ e, v, l)

  -- `connect` of the graph throws std::invalid_argument and changes no link if the two proxels are
  -- the same, if a proxel or a port of that name does not exist, or if the port is null.
  pub connect-Unknown :
      (proxel1 ≡ proxel2) ⊎ Unknown (find_port g proxel1 port1) (find_port g proxel2 port2)
      → connect fuel g proxel1 port1 proxel2 port2 s ≡ raised invalid_argument s
  unfolding connect
  connect-Unknown (inl same) = ground (arith, key.cmp_eq proxel1 proxel2)
  connect-Unknown (inr h) =
      ground (arith, fails fuel s (find_port g proxel1 port1) (find_port g proxel2 port2) h)

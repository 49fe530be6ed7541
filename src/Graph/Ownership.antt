-- ===== src/Graph/Ownership.antt =====
-- What is left in the net when a PortManager is destroyed with its proxel.
use superflow.Base.{ℕ, ◌≤◌, ◌≡◌, refl, subst, false, [], ◌∷◌, arith, none, some}
use superflow.Map.{Key}
use superflow.Port.{Net, contains}
use superflow.Port.Wired.{IsWired, Severed, disconnect-Severed, Severed-IsWired}
use superflow.Graph.{PortMap, destroy}

-- No link goes to the port or from it.
abbrev pub IsAlone : ℕ → Net → Type 0
IsAlone a s = (x : ℕ) → (contains x (s a).links ≡ false) × (contains a (s x).links ≡ false)

abbrev pub AreAlone {ℓ} : {K : Type ℓ} → PortMap K → Net → Type 0
AreAlone [] s = Unit
AreAlone ((name, none) ∷ ports) s = AreAlone ports s
AreAlone ((name, some port) ∷ ports) s = IsAlone port s × AreAlone ports s

IsAlone-Severed : (a b : ℕ) (s t : Net) → IsAlone a s → Severed s b t → IsAlone a t
IsAlone-Severed a b s t h v x =
    (ground (arith, v.remaining a x, h x), ground (arith, v.remaining x a, h x))

module _ {ℓ} {K : Type ℓ} ⦃key : Key K⦄ where
  stays-IsAlone :
      (fuel : ℕ) (ports : PortMap K) (a : ℕ) (s t : Net)
      → 5 ≤ fuel
      → IsWired s
      → IsAlone a s
      → destroy fuel ports s ≡ some t
      → IsAlone a t
  unfolding destroy
  stays-IsAlone fuel [] a s t h w i e = let same : s ≡ t = cc in subst (IsAlone a) same i
  stays-IsAlone fuel ((name, none) ∷ ports) a s t h w i e = stays-IsAlone fuel ports a s t h w i e
  stays-IsAlone fuel ((name, some port) ∷ ports) a s t h w i e =
      let (u, r, v) = disconnect-Severed fuel port s w h in
      stays-IsAlone fuel ports a u t h (Severed-IsWired s port w v).0
        (IsAlone-Severed a port s u i v) (ground (arith, r))

  -- In a well-formed net the destructor of a PortManager ends, the net stays well formed, and no
  -- port that is not null in its map has a link to or from any other.
  pub destroy-AreAlone :
      (fuel : ℕ) (ports : PortMap K) (s : Net)
      → 5 ≤ fuel
      → IsWired s
      → (t : Net) × (destroy fuel ports s ≡ some t) × IsWired t × AreAlone ports t
  unfolding destroy
  destroy-AreAlone fuel [] s h w = (s, refl, w, tt)
  destroy-AreAlone fuel ((name, none) ∷ ports) s h w = destroy-AreAlone fuel ports s h w
  destroy-AreAlone fuel ((name, some port) ∷ ports) s h w =
      let (u, r, v) = disconnect-Severed fuel port s w h in
      let z = Severed-IsWired s port w v in
      let (t, e, k, i) = destroy-AreAlone fuel ports u h z.0 in
      (t, ground (arith, r), k, (stays-IsAlone fuel ports port u t h z.0 z.1 e, i))

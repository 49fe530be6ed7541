-- ===== src/Map.antt =====
-- std::map, as the list of its entries in the order of the keys. The order is a parameter.
pub mod Laws
pub mod Numbers
use superflow.Base.{
  ℕ, ◌<◌, ◌≡◌, ◌↔◌, Bool, true, false, List, [], ◌∷◌, arith, compare, Ordering, Option, none, some,
  if◌then◌else◌, map,
}

-- `std::less` on the keys: a strict total order.
pub record Key {ℓ} (K : Type ℓ) : Type ℓ where
  pub cmp : K → K → Ordering
  pub cmp_eq : (a b : K) → (cmp a b ≡ Ordering.eq) ↔ (a ≡ b)
  pub cmp_gt : (a b : K) → cmp a b ≡ Ordering.gt → cmp b a ≡ Ordering.lt
  pub cmp_trans :
      (a b c : K) → cmp a b ≡ Ordering.lt → cmp b c ≡ Ordering.lt → cmp a c ≡ Ordering.lt

pub ℕ_cmp_eq : (a b : ℕ) → (compare a b ≡ Ordering.eq) ↔ (a ≡ b)
ℕ_cmp_eq a b = ground arith

pub ℕ_cmp_gt : (a b : ℕ) → compare a b ≡ Ordering.gt → compare b a ≡ Ordering.lt
ℕ_cmp_gt a b h = ground arith

pub ℕ_cmp_trans :
    (a b c : ℕ) → compare a b ≡ Ordering.lt → compare b c ≡ Ordering.lt → compare a c ≡ Ordering.lt
ℕ_cmp_trans a b c h k = ground arith

-- Addresses.
instance abbrev pub nat_key : Key ℕ
nat_key = record { cmp = compare; cmp_eq = ℕ_cmp_eq; cmp_gt = ℕ_cmp_gt; cmp_trans = ℕ_cmp_trans }

abbrev pub Map {ℓ κ} : Type ℓ → Type κ → Type (ℓ ⊔ κ)
Map K V = List (K × V)

module _ {ℓ κ} {K : Type ℓ} {V : Type κ} ⦃key : Key K⦄ where
  unfoldable pub lookup : K → Map K V → Option V
  lookup k [] = none
  lookup k ((j, v) ∷ m) = elim (key.cmp k j) [ Ordering.eq ↦ some v | _ ↦ lookup k m ]

  -- `m[k] = v`
  unfoldable pub insert : K → V → Map K V → Map K V
  insert k v [] = (k, v) ∷ []
  insert k v ((j, w) ∷ m) = elim (key.cmp k j) [
    | Ordering.lt ↦ (k, v) ∷ (j, w) ∷ m
    | Ordering.eq ↦ (k, v) ∷ m
    | Ordering.gt ↦ (j, w) ∷ insert k v m
  ]

  unfoldable pub erase : K → Map K V → Map K V
  erase k [] = []
  erase k ((j, w) ∷ m) = elim (key.cmp k j) [ Ordering.eq ↦ m | _ ↦ (j, w) ∷ erase k m ]

  abbrev pub IsAbove : K → Map K V → Type ℓ
  IsAbove k [] = Unit
  IsAbove k ((j, w) ∷ m) = (key.cmp k j ≡ Ordering.lt) × IsAbove k m

  -- The keys rise along the list.
  abbrev pub IsMap : Map K V → Type ℓ
  IsMap [] = Unit
  IsMap ((k, v) ∷ m) = IsAbove k m × IsMap m

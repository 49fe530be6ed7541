-- ===== src/Map/Laws.antt =====
-- Lookups after writes, and the order of the entries.
use superflow.Base.{◌≡◌, refl, ◌≢◌, ◌⊎◌, inl, inr, [], ◌∷◌, ◌++◌, arith, Ordering, none, some}
use superflow.Map.{Key, Map, lookup, insert, erase, IsAbove, IsMap}

pub cmp_refl {ℓ} : {K : Type ℓ} ⦃key : Key K⦄ (a : K) → key.cmp a a ≡ Ordering.eq
cmp_refl ⦃key⦄ a = (key.cmp_eq a a).1 refl

pub lt_gt {ℓ} :
    {K : Type ℓ} ⦃key : Key K⦄ (a b : K) → key.cmp a b ≡ Ordering.lt → key.cmp b a ≡ Ordering.gt
lt_gt ⦃key⦄ a b h =
    ground (arith, key.cmp_eq b a, key.cmp_eq a b, key.cmp_trans a b a h, cmp_refl a)

pub same_or_not {ℓ} : {K : Type ℓ} ⦃key : Key K⦄ (a b : K) → (a ≡ b) ⊎ (a ≢ b)
same_or_not ⦃key⦄ a b = go (key.cmp a b) refl
  where
    go : (o : Ordering) → key.cmp a b ≡ o → (a ≡ b) ⊎ (a ≢ b)
    go Ordering.lt e = inr (λ h. ground (arith, (key.cmp_eq a b).1 h))
    go Ordering.eq e = inl ((key.cmp_eq a b).0 e)
    go Ordering.gt e = inr (λ h. ground (arith, (key.cmp_eq a b).1 h))

module _ {ℓ κ} {K : Type ℓ} {V : Type κ} ⦃key : Key K⦄ where
  pub lookup-insert_self : (k : K) (v : V) (m : Map K V) → lookup k (insert k v m) ≡ some v
  unfolding lookup insert
  lookup-insert_self k v [] = ground (arith, cmp_refl k)
  lookup-insert_self k v ((j, w) ∷ m) = ground (arith, cmp_refl k, lookup-insert_self k v m)

  pub lookup-insert_ne :
      (k j : K) (v : V) (m : Map K V) → k ≢ j → lookup k (insert j v m) ≡ lookup k m
  unfolding lookup insert
  lookup-insert_ne k j v [] h = ground (arith, key.cmp_eq k j)
  lookup-insert_ne k j v ((i, w) ∷ m) h =
      ground (arith, key.cmp_eq k j, key.cmp_eq j i, key.cmp_eq k i, lookup-insert_ne k j v m)

  pub IsAbove-lookup : (k : K) (m : Map K V) → IsAbove k m → lookup k m ≡ none
  unfolding lookup
  IsAbove-lookup k [] h = refl
  IsAbove-lookup k ((j, w) ∷ m) h = ground (arith, IsAbove-lookup k m)

  pub IsAbove-trans :
      (k j : K) (m : Map K V) → key.cmp k j ≡ Ordering.lt → IsAbove j m → IsAbove k m
  IsAbove-trans k j [] e h = tt
  IsAbove-trans k j ((i, w) ∷ m) e h = (key.cmp_trans k j i e h.0, IsAbove-trans k j m e h.1)

  IsAbove-insert :
      (k j : K) (v : V) (m : Map K V)
      → key.cmp k j ≡ Ordering.lt
      → IsAbove k m
      → IsAbove k (insert j v m)
  unfolding insert
  IsAbove-insert k j v [] e h = (e, tt)
  IsAbove-insert k j v ((i, w) ∷ m) e h = ground (arith, IsAbove-insert k j v m)

  pub insert-IsMap : (k : K) (v : V) (m : Map K V) → IsMap m → IsMap (insert k v m)
  unfolding insert
  insert-IsMap k v [] h = (tt, tt)
  insert-IsMap k v ((j, w) ∷ m) h = ground (
    arith,
    IsAbove-trans k j m,
    IsAbove-insert j k v m,
    insert-IsMap k v m,
    key.cmp_gt k j,
    key.cmp_eq k j,
  )

  IsAbove-erase : (k j : K) (m : Map K V) → IsAbove k m → IsAbove k (erase j m)
  unfolding erase
  IsAbove-erase k j [] h = tt
  IsAbove-erase k j ((i, w) ∷ m) h = ground (arith, IsAbove-erase k j m)

  pub erase-IsMap : (k : K) (m : Map K V) → IsMap m → IsMap (erase k m)
  unfolding erase
  erase-IsMap k [] h = tt
  erase-IsMap k ((j, w) ∷ m) h = ground (arith, IsAbove-erase j k m, erase-IsMap k m)

  pub lookup-erase_self : (k : K) (m : Map K V) → IsMap m → lookup k (erase k m) ≡ none
  unfolding lookup erase
  lookup-erase_self k [] h = refl
  lookup-erase_self k ((j, w) ∷ m) h =
      ground (arith, key.cmp_eq k j, lookup-erase_self k m, IsAbove-lookup k m)

  pub lookup-erase_ne : (k j : K) (m : Map K V) → k ≢ j → lookup k (erase j m) ≡ lookup k m
  unfolding lookup erase
  lookup-erase_ne k j [] h = refl
  lookup-erase_ne k j ((i, w) ∷ m) h =
      ground (arith, key.cmp_eq k i, key.cmp_eq j i, lookup-erase_ne k j m)

  -- Every key of the map comes before `k`.
  abbrev pub IsBelow : K → Map K V → Type ℓ
  IsBelow k [] = Unit
  IsBelow k ((j, w) ∷ m) = (key.cmp j k ≡ Ordering.lt) × IsBelow k m

  pub insert_last : (k : K) (v : V) (m : Map K V) → IsBelow k m → insert k v m ≡ m ++ (k, v) ∷ []
  unfolding insert
  insert_last k v [] h = refl
  insert_last k v ((j, w) ∷ m) h = ground (arith, lt_gt j k h.0, insert_last k v m h.1)

  pub IsBelow-trans :
      (j k : K) (m : Map K V) → key.cmp j k ≡ Ordering.lt → IsBelow j m → IsBelow k m
  IsBelow-trans j k [] e h = tt
  IsBelow-trans j k ((i, w) ∷ m) e h = (key.cmp_trans i j k h.0 e, IsBelow-trans j k m e h.1)

  pub IsBelow-append : (k : K) (m n : Map K V) → IsBelow k m → IsBelow k n → IsBelow k (m ++ n)
  IsBelow-append k [] n h i = i
  IsBelow-append k ((j, w) ∷ m) n h i = (h.0, IsBelow-append k m n h.1 i)

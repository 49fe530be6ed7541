-- ===== src/Registry/Laws.antt =====
-- What a MappedAssetManager and a sum of FactoryMaps hold.
use superflow.Base.{
  ◌≡◌, ◌≢◌, true, false, [], ◌∷◌, arith, Option, none, some, returns, throws, invalid_argument,
}
use superflow.Map.{Key, Map, IsMap, lookup}
use superflow.Map.Laws.{
  lookup-insert_self, lookup-insert_ne, lookup-erase_self, lookup-erase_ne, insert-IsMap,
  erase-IsMap, IsAbove-lookup,
}
use superflow.Registry.{put, get, has, erase, plus}
use superflow.Consumer.MultiReads.{first_of}

-- The value of the option, or the other
abbrev pub first_of_or {κ} : {V : Type κ} → Option V → V → V
first_of_or (some v) w = v
first_of_or none w = w

module _ {ℓ κ} {K : Type ℓ} {V : Type κ} ⦃key : Key K⦄ where
  put-IsMap : (k : K) (v : V) (m : Map K V) → IsMap m → IsMap (put k v m)
  unfolding put
  put-IsMap k v m h = ground (arith, insert-IsMap k v m h)

  pub lookup-put_self :
      (k : K) (v : V) (m : Map K V) → lookup k (put k v m) ≡ first_of (lookup k m) (some v)
  unfolding put
  lookup-put_self k v m = ground (arith, lookup-insert_self k v m)

  pub lookup-put_ne : (k j : K) (v : V) (m : Map K V) → k ≢ j → lookup k (put j v m) ≡ lookup k m
  unfolding put
  lookup-put_ne k j v m h = ground (arith, lookup-insert_ne k j v m h)

  -- On sorted values `put` stores the value unless the key is in use, `erase` takes a key away,
  -- both leave every other key alone and keep the values sorted; `get` finds what is stored and
  -- throws if there is nothing, and `has` tells which of the two.
  pub assets :
      (k j : K) (v : V) (m : Map K V)
      → IsMap m
      → j ≢ k
      → (get k (put k v m) ≡ returns (first_of_or (lookup k m) v))
        × (get j (put k v m) ≡ get j m)
        × (get k (erase k m) ≡ throws invalid_argument)
        × (get j (erase k m) ≡ get j m)
        × (has k (put k v m) ≡ true)
        × (has k (erase k m) ≡ false)
        × IsMap (put k v m)
        × IsMap (erase k m)
  unfolding get has erase
  assets k j v m s ne = (
    ground (arith, lookup-put_self k v m),
    ground (arith, lookup-put_ne j k v m ne),
    ground (arith, lookup-erase_self k m s),
    ground (arith, lookup-erase_ne j k m ne),
    ground (arith, lookup-put_self k v m),
    ground (arith, lookup-erase_self k m s),
    put-IsMap k v m s,
    ground (arith, erase-IsMap k m s),
  )

  -- In the sum of two FactoryMaps, of which the second is sorted, the first has priority.
  pub lookup-plus :
      (k : K) (m n : Map K V) → IsMap n → lookup k (plus m n) ≡ first_of (lookup k m) (lookup k n)
  unfolding plus lookup
  lookup-plus k m [] s = ground arith
  lookup-plus k m ((j, v) ∷ n) s = ground (
    arith,
    lookup-plus k (put j v m) n s.1,
    lookup-put_self k v m,
    lookup-put_ne k j v m,
    key.cmp_eq k j,
    IsAbove-lookup j n s.0,
  )

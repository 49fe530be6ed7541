-- ===== src/Map/Numbers.antt =====
-- The maps whose keys are numbers, with the tests of keys as Booleans.
use superflow.Base.{
  ℕ, ◌≡◌, refl, false, [], ◌∷◌, ◌==◌, ==_iff, if◌then◌else◌, some, none, is_empty, arith, inl, inr,
  Bool-cases,
}
use superflow.Map.{Map, IsMap, lookup, insert, erase, nat_key}
use superflow.Map.Laws.{lookup-insert_self, lookup-insert_ne, lookup-erase_self, lookup-erase_ne}

pub lookup-insert {ℓ} :
    {V : Type ℓ} (x k : ℕ) (v : V) (m : Map ℕ V)
    → lookup x (insert k v m) ≡ (if x == k then some v else lookup x m)
lookup-insert x k v m = elim (Bool-cases (x == k)) [
  | inl e ↦ rw e (rw ((==_iff x k).0 e) (lookup-insert_self k v m))
  | inr n ↦ rw n (lookup-insert_ne x k v m (λ e. ground (arith, (==_iff x k).1 e)))
]

pub lookup-erase {ℓ} :
    {V : Type ℓ} (x k : ℕ) (m : Map ℕ V)
    → IsMap m
    → lookup x (erase k m) ≡ (if x == k then none else lookup x m)
lookup-erase x k m s = elim (Bool-cases (x == k)) [
  | inl e ↦ rw e (rw ((==_iff x k).0 e) (lookup-erase_self k m s))
  | inr n ↦ rw n (lookup-erase_ne x k m (λ e. ground (arith, (==_iff x k).1 e)))
]

pub insert-nonempty {ℓ} :
    {V : Type ℓ} (k : ℕ) (v : V) (m : Map ℕ V) → is_empty (insert k v m) ≡ false
unfolding insert
insert-nonempty k v [] = refl
insert-nonempty k v ((j, w) ∷ m) = ground arith

-- ===== src/Text/Keys.antt =====
-- Look-ups in maps whose keys are texts.
use superflow.Base.{◌≡◌, some, arith, if◌then◌else◌, Bool-cases, inl, inr}
use superflow.Map.{Map, lookup, insert}
use superflow.Map.Laws.{lookup-insert_self, lookup-insert_ne}
use superflow.Text.{Text, text_key, same_text, same_text_eq}

pub lookup-insert {ℓ} :
    {V : Type ℓ} (x k : Text) (v : V) (m : Map Text V)
    → lookup x (insert k v m) ≡ (if same_text x k then some v else lookup x m)
lookup-insert x k v m = elim (Bool-cases (same_text x k)) [
  | inl e ↦ rw e (rw ((same_text_eq x k).0 e) (lookup-insert_self k v m))
  | inr n ↦ rw n (lookup-insert_ne x k v m (λ e. ground (arith, (same_text_eq x k).1 e)))
]

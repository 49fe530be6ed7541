-- ===== src/Config/Counts.antt =====
-- The numbers of replicas that getAllReplicatedProxels (yaml/src/yaml.cpp) finds, by name.
use superflow.Base.{
  concat, ℕ, ◌≡◌, refl, sym, ap, ◌∙◌, Bool, true, false, not, ◌&&◌, ◌||◌, List, [], ◌∷◌, ◌++◌, map,
  arith, Option, none, some, ltb, if◌then◌else◌, Bool-cases, inl, inr,
}
use superflow.Map.{Map, IsMap, lookup, insert}
use superflow.Map.Laws.{insert-IsMap}
use superflow.Registry.{plus}
use superflow.Registry.Laws.{lookup-plus}
use superflow.Consumer.MultiReads.{first_of}
use superflow.Text.{Text, text_key, same_text, same_text_eq}
use superflow.Text.Keys.{lookup-insert}
use superflow.Config.Links.{contains_name}
use superflow.Config.Names.{contains_name-append}
use superflow.Config.Entries.{Entry, counts_of, all_counts}

abbrev pub base : Entry → Text
base e = e.name

abbrev pub all_different : List Text → Bool
all_different [] = true
all_different (x ∷ xs) = not (contains_name x xs) && all_different xs

-- The replicas of the first proxel with this name, if it has more than one
unfoldable pub count_for : Text → List Entry → Option ℕ
count_for x [] = none
count_for x (e ∷ es) =
    if same_text x e.name then (if ltb 1 e.count then some e.count else none) else count_for x es

pub count_for_absent :
    (x : Text) (es : List Entry) → contains_name x (map base es) ≡ false → count_for x es ≡ none
unfolding count_for contains_name
count_for_absent x [] h = refl
count_for_absent x (e ∷ es) h = ground (arith, count_for_absent x es)

contains_same :
    (x y : Text) (names : List Text)
    → same_text x y ≡ true
    → contains_name x names ≡ contains_name y names
contains_same x y names e = ap (λ t. contains_name t names) ((same_text_eq x y).0 e)

lookup-counts_of :
    (x : Text) (es : List Entry) (m : Map Text ℕ)
    → all_different (map base es) ≡ true
    → lookup x (counts_of es m) ≡ first_of (count_for x es) (lookup x m)
unfolding counts_of count_for
lookup-counts_of x [] m h = refl
lookup-counts_of x (e ∷ es) m h = elim (Bool-cases (ltb 1 e.count)) [
  | inl b ↦ ground (
    arith,
    lookup-counts_of x es (insert e.name e.count m),
    lookup-insert x e.name e.count m,
    count_for_absent x es,
    contains_same x e.name (map base es),
  )
  | inr b ↦
      ground (
        arith,
        lookup-counts_of x es m,
        count_for_absent x es,
        contains_same x e.name (map base es),
      )
]

counts_of-IsMap : (es : List Entry) (m : Map Text ℕ) → IsMap m → IsMap (counts_of es m)
unfolding counts_of
counts_of-IsMap [] m s = s
counts_of-IsMap (e ∷ es) m s = elim (Bool-cases (ltb 1 e.count)) [
  | inl b ↦ rw b (counts_of-IsMap es (insert e.name e.count m) (insert-IsMap e.name e.count m s))
  | inr b ↦ rw b (counts_of-IsMap es m s)
]

first_of-none {ℓ} : {A : Type ℓ} (m : Option A) → first_of m none ≡ m
first_of-none none = refl
first_of-none (some x) = refl

first_of_assoc {ℓ} :
    {A : Type ℓ} (a b c : Option A) → first_of (first_of a b) c ≡ first_of a (first_of b c)
first_of_assoc none b c = refl
first_of_assoc (some x) b c = refl

map-append_base : (es fs : List Entry) → map base (es ++ fs) ≡ map base es ++ map base fs
map-append_base [] fs = refl
map-append_base (e ∷ es) fs = ap (λ xs. e.name ∷ xs) (map-append_base es fs)

contains-append :
    (x : Text) (es fs : List Entry)
    → contains_name x (map base (es ++ fs))
      ≡ (contains_name x (map base es) || contains_name x (map base fs))
contains-append x es fs =
    ap (contains_name x) (map-append_base es fs)
    ∙ contains_name-append x (map base es) (map base fs)

all_different-append :
    (es fs : List Entry)
    → all_different (map base (es ++ fs)) ≡ true
    → (all_different (map base es) ≡ true) × (all_different (map base fs) ≡ true)
all_different-append [] fs h = (refl, h)
all_different-append (e ∷ es) fs h =
    ground (arith, all_different-append es fs, contains-append e.name es fs)

count_for-append :
    (x : Text) (es fs : List Entry)
    → all_different (map base (es ++ fs)) ≡ true
    → count_for x (es ++ fs) ≡ first_of (count_for x es) (count_for x fs)
unfolding count_for
count_for-append x [] fs h = refl
count_for-append x (e ∷ es) fs h = elim (Bool-cases (ltb 1 e.count)) [
  | inl b ↦ ground (arith, count_for-append x es fs)
  | inr b ↦ ground (
    arith,
    count_for-append x es fs,
    count_for_absent x fs,
    contains_same x e.name (map base fs),
    contains-append e.name es fs,
  )
]

pub lookup-all_counts :
    (x : Text) (sections : List (List Entry)) (m : Map Text ℕ)
    → all_different (map base (concat sections)) ≡ true
    → lookup x (all_counts sections m) ≡ first_of (lookup x m) (count_for x (concat sections))
unfolding all_counts count_for
lookup-all_counts x [] m h = sym (first_of-none (lookup x m))
lookup-all_counts x (es ∷ sections) m h =
    lookup-all_counts x sections (plus m (counts_of es []))
      (all_different-append es (concat sections) h).1
    ∙ ap (λ o. first_of o (count_for x (concat sections)))
        (lookup-plus x m (counts_of es []) (counts_of-IsMap es [] tt)
          ∙ ap (first_of (lookup x m)) (
              lookup-counts_of x es [] (all_different-append es (concat sections) h).0
              ∙ first_of-none (count_for x es)))
    ∙ first_of_assoc (lookup x m) (count_for x es) (count_for x (concat sections))
    ∙ ap (first_of (lookup x m)) (sym (count_for-append x es (concat sections) h))

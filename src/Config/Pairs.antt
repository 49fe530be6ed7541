-- ===== src/Config/Pairs.antt =====
-- How the two specifications of a connection are paired in getConnections (yaml/src/yaml.cpp).
use superflow.Base.{
  get_elem?, ℕ, zero, suc, ◌<◌, ◌≡◌, ◌⊎◌, inl, inr, refl, sym, ap, subst, ◌∙◌, Bool, true, false,
  ◌||◌, List, [], ◌∷◌, map, length, Option, some, arith, ltb, ◌==◌, if◌then◌else◌, Bool-cases,
  returns, throws, invalid_argument,
}
use superflow.Config.Links.{ConnectionSpec, Endpoint, resize, max, stretch, zip, pair_up}

abbrev pub left : ConnectionSpec → Endpoint
left c = (c.lhs_name, c.lhs_port)

abbrev pub right : ConnectionSpec → Endpoint
right c = (c.rhs_name, c.rhs_port)

-- The endpoint for the `i`-th connection: a side with one endpoint serves all.
abbrev pub pick : List Endpoint → ℕ → Option Endpoint
pick xs i = get_elem? xs (if length xs == 1 then 0 else i)

get-resize-nil : (n : ℕ) (v : Endpoint) (i : ℕ) → i < n → get_elem? (resize n v []) i ≡ some v
unfolding resize
get-resize-nil zero v i h = absurd (omega arith)
get-resize-nil (suc n) v zero h = refl
get-resize-nil (suc n) v (suc i) h = get-resize-nil n v i (omega arith)

length-resize : (n : ℕ) (v : Endpoint) (xs : List Endpoint) → length (resize n v xs) ≡ n
unfolding resize
length-resize zero v xs = refl
length-resize (suc n) v [] = omega (arith, length-resize n v [])
length-resize (suc n) v (x ∷ xs) = omega (arith, length-resize n v xs)

-- A side that has been brought to `size` endpoints
record Serves (size : ℕ) (xs ys : List Endpoint) : Type 0 where
  sized : length ys ≡ size
  at : (i : ℕ) → i < size → get_elem? ys i ≡ pick xs i

single-Serves : (n : ℕ) (x : Endpoint) → Serves (suc n) (x ∷ []) (resize (suc n) x (x ∷ []))
unfolding resize
single-Serves n x = record { sized = omega (arith, length-resize n x []); at = at }
  where
    at : (i : ℕ) → i < suc n → get_elem? (x ∷ resize n x []) i ≡ some x
    at zero h = refl
    at (suc i) h = get-resize-nil n x i (omega arith)

whole-Serves : (xs : List Endpoint) → Serves (length xs) xs xs
whole-Serves [] = record { sized = refl; at = λ i h. absurd (omega arith) }
whole-Serves (x ∷ []) = record { sized = refl; at = at }
  where
    at : (i : ℕ) → i < 1 → get_elem? (x ∷ []) i ≡ some x
    at zero h = refl
    at (suc i) h = absurd (omega arith)
whole-Serves (x ∷ y ∷ xs) = record { sized = refl; at = λ i h. ground arith }

-- Either the side has `size` endpoints already, or it has one.
abbrev Fits : ℕ → List Endpoint → Type 0
Fits size xs = (length xs ≡ size) ⊎ ((length xs ≡ 1) × (0 < size))

stretch-Serves :
    (size : ℕ) (xs : List Endpoint)
    → Fits size xs
    → (ys : List Endpoint) × (stretch size xs ≡ returns ys) × Serves size xs ys
unfolding stretch
stretch-Serves size xs (inl e) = (xs, ground arith, subst (λ n. Serves n xs xs) e (whole-Serves xs))
stretch-Serves size [] (inr (e, h)) = absurd (omega arith)
stretch-Serves zero (x ∷ []) (inr (e, h)) = absurd (omega arith)
stretch-Serves (suc zero) (x ∷ []) (inr (e, h)) = (x ∷ [], refl, whole-Serves (x ∷ []))
stretch-Serves (suc (suc n)) (x ∷ []) (inr (e, h)) =
    (resize (suc (suc n)) x (x ∷ []), ground arith, single-Serves (suc n) x)
stretch-Serves size (x ∷ y ∷ xs) (inr (e, h)) = absurd (omega arith)

-- The connections of two sides: each side serves all of them.
pub record Paired (lhs rhs : List Endpoint) (specs : List ConnectionSpec) : Type 0 where
  pub sized : length specs ≡ max (length lhs) (length rhs)
  pub at :
      (i : ℕ)
      → i < length specs
      → (get_elem? (map left specs) i ≡ pick lhs i) × (get_elem? (map right specs) i ≡ pick rhs i)

zip_sides :
    (xs ys : List Endpoint)
    → length xs ≡ length ys
    → (map left (zip xs ys) ≡ xs) × (map right (zip xs ys) ≡ ys) × (length (zip xs ys) ≡ length xs)
unfolding zip
zip_sides [] [] e = (refl, refl, refl)
zip_sides [] (y ∷ ys) e = absurd (omega arith)
zip_sides (x ∷ xs) [] e = absurd (omega arith)
zip_sides (x ∷ xs) (y ∷ ys) e = ground (arith, zip_sides xs ys)

-- Equally long, or one of them a single endpoint
abbrev pub compatible : List Endpoint → List Endpoint → Bool
compatible lhs rhs = length lhs == length rhs || length lhs == 1 || length rhs == 1

both_fit :
    (lhs rhs : List Endpoint)
    → 0 < length lhs
    → 0 < length rhs
    → compatible lhs rhs ≡ true
    → Fits (max (length lhs) (length rhs)) lhs × Fits (max (length lhs) (length rhs)) rhs
unfolding max
both_fit lhs rhs hl hr c = elim (Bool-cases (ltb (length lhs) (length rhs))) [
  | inl l ↦ rw l (inr (ground arith, hr), inl refl)
  | inr g ↦ rw g (
    inl refl,
    elim (Bool-cases (length rhs == length lhs)) [
      | inl e ↦ inl (ground arith)
      | inr n ↦ inr (ground arith, hl)
    ],
  )
]

pub pair_up-Paired :
    (lhs rhs : List Endpoint)
    → 0 < length lhs
    → 0 < length rhs
    → compatible lhs rhs ≡ true
    → (specs : List ConnectionSpec) × (pair_up lhs rhs ≡ returns specs) × Paired lhs rhs specs
unfolding pair_up
pair_up-Paired lhs rhs hl hr c =
    let (fl, fr) = both_fit lhs rhs hl hr c in
    let (xs, ex, sx) = stretch-Serves _ lhs fl in
    let (ys, ey, sy) = stretch-Serves _ rhs fr in
    let (l, r, n) = zip_sides xs ys (sx.sized ∙ sym sy.sized) in
    (
      zip xs ys,
      ground arith,
      record {
        sized = n ∙ sx.sized;
        at = λ i h. (
          ap (λ t. get_elem? t i) l ∙ sx.at i (omega (arith, n, sx.sized)),
          ap (λ t. get_elem? t i) r ∙ sy.at i (omega (arith, n, sx.sized)),
        );
      },
    )

pub pair_up-incompatible :
    (lhs rhs : List Endpoint)
    → compatible lhs rhs ≡ false
    → pair_up lhs rhs ≡ throws invalid_argument
unfolding pair_up
pair_up-incompatible lhs rhs h = ground arith

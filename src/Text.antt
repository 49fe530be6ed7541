-- ===== src/Text.antt =====
-- std::string, as the list of its bytes; its order as a key of maps; std::to_string.
pub mod Digits
pub mod Keys
use Prim.Native.Char.{code}
use Prim.Native.String.{String}
use superflow.Base.{
  ℕ, zero, suc, ◌+◌, ◌/◌, ◌%◌, ◌≡◌, ◌↔◌, refl, ap, subst, List, [], ◌∷◌, ◌++◌, arith, compare,
  Ordering, Bool, true, false, ltb, if◌then◌else◌,
}
use superflow.Map.{Key}

abbrev pub Text : Type 0
Text = List ℕ

-- The bytes of an ASCII literal
abbrev pub text : String → Text
text String.[] = []
text (String.◌∷◌ c s) = code c ∷ text s

unfoldable pub compare_text : Text → Text → Ordering
compare_text [] [] = Ordering.eq
compare_text [] (y ∷ ys) = Ordering.lt
compare_text (x ∷ xs) [] = Ordering.gt
compare_text (x ∷ xs) (y ∷ ys) = elim (compare x y) [
  | Ordering.lt ↦ Ordering.lt
  | Ordering.gt ↦ Ordering.gt
  | Ordering.eq ↦ compare_text xs ys
]

pub compare_text_refl : (a : Text) → compare_text a a ≡ Ordering.eq
unfolding compare_text
compare_text_refl [] = refl
compare_text_refl (x ∷ xs) = ground (arith, compare_text_refl xs)

pub compare_text_eq : (a b : Text) → compare_text a b ≡ Ordering.eq → a ≡ b
unfolding compare_text
compare_text_eq [] [] h = refl
compare_text_eq [] (y ∷ ys) h = cc
compare_text_eq (x ∷ xs) [] h = cc
compare_text_eq (x ∷ xs) (y ∷ ys) h = ground (arith, compare_text_eq xs ys)

pub compare_text_gt : (a b : Text) → compare_text a b ≡ Ordering.gt → compare_text b a ≡ Ordering.lt
unfolding compare_text
compare_text_gt [] [] h = cc
compare_text_gt [] (y ∷ ys) h = cc
compare_text_gt (x ∷ xs) [] h = refl
compare_text_gt (x ∷ xs) (y ∷ ys) h = ground (arith, compare_text_gt xs ys)

pub compare_text_trans :
    (a b c : Text)
    → compare_text a b ≡ Ordering.lt
    → compare_text b c ≡ Ordering.lt
    → compare_text a c ≡ Ordering.lt
unfolding compare_text
compare_text_trans [] [] c h k = cc
compare_text_trans [] (y ∷ ys) [] h k = cc
compare_text_trans [] (y ∷ ys) (z ∷ zs) h k = refl
compare_text_trans (x ∷ xs) [] c h k = cc
compare_text_trans (x ∷ xs) (y ∷ ys) [] h k = cc
compare_text_trans (x ∷ xs) (y ∷ ys) (z ∷ zs) h k = ground (arith, compare_text_trans xs ys zs)

instance abbrev pub text_key : Key Text
text_key = record {
  cmp = compare_text;
  cmp_eq = λ a b. (
    compare_text_eq a b,
    λ e. subst (λ t. compare_text a t ≡ Ordering.eq) e (compare_text_refl a),
  );
  cmp_gt = compare_text_gt;
  cmp_trans = compare_text_trans;
}

unfoldable pub same_text : Text → Text → Bool
unfolding compare_text
same_text a b = elim (compare_text a b) [ Ordering.eq ↦ true | _ ↦ false ]

pub same_text_eq : (a b : Text) → (same_text a b ≡ true) ↔ (a ≡ b)
unfolding same_text
same_text_eq a b = ground (arith, compare_text_eq a b, text_key.cmp_eq a b)

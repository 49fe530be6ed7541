-- ===== src/Text/Digits.antt =====
-- std::to_string of an unsigned number, and that it tells numbers apart.
use superflow.Base.{
  ℕ, zero, suc, ◌+◌, ◌-◌, ◌*◌, ◌/◌, ◌%◌, ◌<◌, ◌≡◌, sym, ap, ◌∙◌, [], ◌∷◌, arith, ltb, if◌then◌else◌,
  dec_lt,
}
use superflow.Text.{Text}

-- The digits of `n`, in front of `out`. Each round leaves one digit less.
unfoldable pub digits : ℕ → ℕ → Text → Text
digits zero n out = out
digits (suc fuel) n out =
    let rest = digits fuel (n / 10) ((48 + n % 10) ∷ out) in
    if ltb n 10 then (48 + n) ∷ out else rest

unfoldable pub to_string : ℕ → Text
unfolding digits
to_string n = digits (suc n) n []

-- The number that digits spell behind `n`
abbrev value : ℕ → Text → ℕ
value n [] = n
value n (c ∷ s) = value (n * 10 + (c - 48)) s

value-digits : (fuel n : ℕ) (out : Text) → n < fuel → value 0 (digits fuel n out) ≡ value n out
unfolding digits
value-digits zero n out h = absurd (omega arith)
value-digits (suc fuel) n out h = elim (dec_lt n 10) [
  | yes l ↦ ground (arith, ap (λ m. value m out) (small n))
  | no g ↦ ground (
    arith,
    value-digits fuel (n / 10) ((48 + n % 10) ∷ out) (omega arith),
    ap (λ m. value m out) (whole n),
  )
]
  where
    small : (n : ℕ) → 0 * 10 + (48 + n - 48) ≡ n
    small n = omega arith

    whole : (n : ℕ) → n / 10 * 10 + (48 + n % 10 - 48) ≡ n
    whole n = omega arith

pub to_string_injective : (m n : ℕ) → to_string m ≡ to_string n → m ≡ n
unfolding to_string
to_string_injective m n e =
    sym (value-digits (suc m) m [] (omega arith))
    ∙ ap (value 0) e
    ∙ value-digits (suc n) n [] (omega arith)

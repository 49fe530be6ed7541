-- ===== src/Curses/Columns.antt =====
-- The number of columns that getNumCols chooses (curses/src/graph_gui.cpp).
use superflow.Base.{
  ℕ, zero, suc, ◌+◌, ◌-◌, ◌*◌, ◌/◌, ◌≤◌, ◌<◌, ◌≡◌, false, ◌⊎◌, inl, inr, refl, ltb, arith, length,
  Bool-cases, ==_iff, ◌==◌, ap,
}
use native.Mathlib.Nat.{le-div_iff_mul-le}
use superflow.Base.Int.{to_int, pos_part, pos, leb_ℤ}
use superflow.Text.{text_key}
use superflow.Map.{Map}
use superflow.Text.{Text}
use superflow.Curses.Grid.{
  create_windows, create_windows_for, get_num_rows, get_num_cols, get_window_width,
}

-- The columns have room.
pub record Fitting (width minimum cols w : ℕ) : Type 0 where
  pub some_cols : 0 < cols
  pub width_of : get_window_width cols width ≡ pos w
  pub within : cols * w + (cols + 1) * 2 ≤ width
  pub wide : (cols ≡ 1) ⊎ (minimum ≤ w)

quotient_within : (a b : ℕ) → 0 < b → b * (a / b) ≤ a
quotient_within a b h = grind arith

width-pos :
    (cols width : ℕ)
    → 0 < cols
    → (cols + 1) * 2 ≤ width
    → get_window_width cols width ≡ pos ((width - (cols + 1) * 2) / cols)
unfolding get_window_width
width-pos cols width h k = ground arith

width-Fitting :
    (cols width minimum : ℕ)
    → 0 < cols
    → (cols + 1) * 2 ≤ width
    → (cols ≡ 1) ⊎ (minimum ≤ (width - (cols + 1) * 2) / cols)
    → Fitting width minimum cols ((width - (cols + 1) * 2) / cols)
width-Fitting cols width minimum h k o = record {
  some_cols = h;
  width_of = width-pos cols width h k;
  within = omega (arith, quotient_within (width - (cols + 1) * 2) cols h);
  wide = o;
}

narrow :
    (cols width minimum : ℕ)
    → 0 < cols
    → 0 < minimum
    → width < (cols + 1) * 2
    → leb_ℤ (pos minimum) (get_window_width cols width) ≡ false
unfolding get_window_width
narrow cols width minimum h m k = ground arith

pub get_num_cols-Fitting :
    (n width minimum : ℕ)
    → 4 ≤ width
    → 0 < minimum
    → (w : ℕ) × Fitting width minimum (get_num_cols n width minimum) w
unfolding get_num_cols
get_num_cols-Fitting zero width minimum h m =
    (_, width-Fitting 1 width minimum (omega arith) (omega arith) (inl refl))
get_num_cols-Fitting (suc zero) width minimum h m =
    (_, width-Fitting 1 width minimum (omega arith) (omega arith) (inl refl))
get_num_cols-Fitting (suc (suc n)) width minimum h m =
    elim (Bool-cases (leb_ℤ (pos minimum) (get_window_width (suc (suc n)) width))) [
      | inr no_room ↦ rw no_room (get_num_cols-Fitting (suc n) width minimum h m)
      | inl room ↦ elim (Bool-cases (ltb width ((suc (suc n) + 1) * 2))) [
        | inl short ↦
            absurd
              (ground (arith, narrow (suc (suc n)) width minimum (omega arith) m (ground arith)))
        | inr long ↦
            let fits : (suc (suc n) + 1) * 2 ≤ width = ground arith in
            rw room (
              _,
              width-Fitting (suc (suc n)) width minimum (omega arith) fits
                  (inr (ground (arith, width-pos (suc (suc n)) width (omega arith) fits))),
            )
      ]
    ]

pub enough_rows : (n cols r c : ℕ) → 0 < cols → r * cols + c < n → r < get_num_rows n cols
unfolding get_num_rows
enough_rows n cols r c h l =
    let e : suc r * cols ≡ r * cols + cols = grind arith in (le-div_iff_mul-le h).1 (omega arith)

pub some_cols_chosen : (n width minimum : ℕ) → 0 < get_num_cols n width minimum
unfolding get_num_cols
some_cols_chosen zero width minimum = omega arith
some_cols_chosen (suc zero) width minimum = omega arith
some_cols_chosen (suc (suc n)) width minimum =
    ground (arith, some_cols_chosen (suc n) width minimum)

-- No greater number of columns than the one chosen, up to that of the proxels, leaves the windows the
-- minimum width.
pub get_num_cols-greatest :
    (num_proxels width minimum k : ℕ)
    → get_num_cols num_proxels width minimum < k
    → k ≤ num_proxels
    → leb_ℤ (pos minimum) (get_window_width k width) ≡ false
unfolding get_num_cols
get_num_cols-greatest zero width minimum k h l = absurd (omega arith)
get_num_cols-greatest (suc zero) width minimum k h l = absurd (omega arith)
get_num_cols-greatest (suc (suc n)) width minimum k h l =
    elim (Bool-cases (leb_ℤ (pos minimum) (get_window_width (suc (suc n)) width))) [
      | inl room ↦ absurd (omega (arith, rw room at h))
      | inr no_room ↦ elim (Bool-cases (k == suc (suc n))) [
        | inl same ↦ rw ((==_iff _ _).0 same) no_room
        | inr less ↦ get_num_cols-greatest (suc n) width minimum k (rw no_room at h) (ground arith)
      ]
    ]

-- The number of proxels fits an int.
pub create_windows_lem :
    {P : Type 0} (proxels : Map Text P) (width minimum max_ports_shown : ℕ)
    → length proxels < 2147483648
    → create_windows proxels width minimum max_ports_shown
      ≡ create_windows_for (length proxels) proxels width minimum max_ports_shown
unfolding create_windows
create_windows_lem proxels width minimum max_ports_shown h =
    let e : pos_part (to_int (length proxels)) ≡ length proxels = ground arith in
    ap (λ n. create_windows_for n proxels width minimum max_ports_shown) e

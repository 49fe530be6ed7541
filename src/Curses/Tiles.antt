-- ===== src/Curses/Tiles.antt =====
-- Every proxel has a window of its own, and no two windows overlap (curses/src/graph_gui.cpp).
use superflow.Base.{
  ℕ, suc, ◌+◌, ◌*◌, ◌≤◌, ◌<◌, ◌≡◌, ◌⊎◌, ap, ◌∙◌, [], length, get_elem?, get-lt-length, some, arith,
}
use native.Mathlib.Nat.{mul-le-mul_right}
use superflow.Base.Int.{pos}
use superflow.Map.{Map, IsMap, lookup}
use superflow.Text.{Text, text_key}
use superflow.Curses.Grid.{create_windows_for, place, get_num_rows, get_num_cols, create_windows}
use superflow.Curses.Placing.{rows_place}
use superflow.Curses.Columns.{get_num_cols-Fitting, enough_rows, create_windows_lem}

-- The window in row `r` and column `c`, of this width
abbrev pub x_at : ℕ → ℕ → ℕ
x_at w c = (c + 1) * 2 + c * w

abbrev pub y_at : ℕ → ℕ
y_at r = (r + 1) * 4 + r * 8

pub place_lem :
    (w max_ports_shown r c : ℕ)
    → place (pos w) max_ports_shown r c ≡ record {
      x = pos (x_at w c);
      y = pos (y_at r);
      width = pos w;
      max_ports_shown = max_ports_shown;
    }
unfolding place
place_lem w max_ports_shown r c = ground arith

column_within :
    (w cols width c : ℕ) → c < cols → cols * w + (cols + 1) * 2 ≤ width → x_at w c + w + 2 ≤ width
column_within w cols width c h k =
    let e : suc c * w ≡ c * w + w = grind arith in
    let f : suc c * w ≤ cols * w = mul-le-mul_right w h in omega arith

columns_apart : (w c d : ℕ) → c < d → x_at w c + w + 2 ≤ x_at w d
columns_apart w c d h =
    let e : suc c * w ≡ c * w + w = grind arith in
    let f : suc c * w ≤ d * w = mul-le-mul_right w h in omega arith

-- The screen is 4 columns wide at least, the minimum width is not 0, and the proxels are a map, of
-- no more than an int counts. Then the proxel in place `r * num_cols + c` has the window in row
-- `r` and column `c`; all windows have one width, which is at least the minimum if there is more
-- than one column; each ends at least two columns before the end of the screen, and begins at
-- least two columns behind the end of any to the left and twelve rows below the beginning of any
-- above.
pub create_windows-tiles :
    {P : Type 0} (proxels : Map Text P) (width minimum max_ports_shown cols : ℕ)
    → 4 ≤ width
    → 0 < minimum
    → IsMap proxels
    → length proxels < 2147483648
    → get_num_cols (length proxels) width minimum ≡ cols
    → (w : ℕ) × ((cols ≡ 1) ⊎ (minimum ≤ w))
      × ((r c : ℕ) (name : Text) (p : P)
          → c < cols
          → get_elem? proxels (r * cols + c) ≡ some (name, p)
          → (lookup name (create_windows proxels width minimum max_ports_shown)
              ≡ some (record {
                x = pos (x_at w c);
                y = pos (y_at r);
                width = pos w;
                max_ports_shown = max_ports_shown;
              }))
            × (x_at w c + w + 2 ≤ width))
      × ((c d : ℕ) → c < d → x_at w c + w + 2 ≤ x_at w d)
      × ((q r : ℕ) → q < r → y_at q + 12 ≤ y_at r)
unfolding create_windows_for
create_windows-tiles proxels width minimum max_ports_shown cols h m s few same =
    let (w, fitting) = get_num_cols-Fitting (length proxels) width minimum h m in
    (
      w,
      rw (← same) fitting.wide,
      λ r c name p hc e.
          let hc' = rw (← same) at hc in
          let e' = rw (← same) at e in
          let z : 0 + r ≡ r = omega arith in
          (
            ap (lookup name) (create_windows_lem proxels width minimum max_ports_shown few)
                ∙ rw fitting.width_of (
                    rows_place (pos w) max_ports_shown _ (get_num_rows (length proxels) _) 0 proxels
                      [] r c name p s hc'
                      (enough_rows (length proxels) _ r c fitting.some_cols
                        (get-lt-length proxels _ e'))
                      e'
                    ∙ ap some (
                        ap (λ k. place (pos w) max_ports_shown k c) z
                        ∙ place_lem w max_ports_shown r c)),
            column_within w _ width c hc' fitting.within,
          ),
      λ c d l. columns_apart w c d l,
      λ q r l. omega arith,
    )

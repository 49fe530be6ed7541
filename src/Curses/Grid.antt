-- ===== src/Curses/Grid.antt =====
-- The places of the windows of the proxels (curses/src/graph_gui.cpp): rows and columns of one size.
use superflow.Base.{ℕ, zero, suc, ◌+◌, ◌-◌, ◌*◌, ◌/◌, [], ◌∷◌, length, if◌then◌else◌}
use superflow.Base.Int.{ℤ, pos, ◌+ℤ◌, ◌-ℤ◌, ◌*ℤ◌, ◌/ℤ◌, leb_ℤ, to_int, pos_part}
use superflow.Map.{Map, insert}
use superflow.Text.{Text, text_key}
use superflow.Curses.Render.{ProxelWindow, get_height, port_window_width}

abbrev pub window_h_padding : ℕ
window_h_padding = 2

abbrev pub window_v_padding : ℕ
window_v_padding = 4

-- The greater of the two is at least 20.
unfoldable pub get_minimum_window_width : ℤ → ℕ
get_minimum_window_width max_num_ports =
    let wanted = pos 2 +ℤ max_num_ports *ℤ pos port_window_width in
    if leb_ℤ (pos 20) wanted then pos_part wanted else 20

unfoldable pub get_window_width : ℕ → ℕ → ℤ
get_window_width num_cols width = (pos width -ℤ pos ((num_cols + 1) * window_h_padding)) /ℤ num_cols

-- The loop of getNumCols, from `num_cols` downwards
unfoldable pub get_num_cols : ℕ → ℕ → ℕ → ℕ
unfolding get_window_width
get_num_cols zero width minimum_window_width = 1
get_num_cols (suc zero) width minimum_window_width = 1
get_num_cols (suc (suc n)) width minimum_window_width =
    if leb_ℤ (pos minimum_window_width) (get_window_width (suc (suc n)) width)
    then suc (suc n)
    else get_num_cols (suc n) width minimum_window_width

-- The windows so far, by name
abbrev pub WindowSet : Type 0
WindowSet = Map Text ProxelWindow

module _ (window_width : ℤ) (max_ports_shown : ℕ) where
  -- The window in row `i` and column `j`
  unfoldable pub place : ℕ → ℕ → ProxelWindow
  unfolding get_height
  place i j = record {
    x = pos ((j + 1) * window_h_padding) +ℤ pos j *ℤ window_width;
    y = pos ((i + 1) * window_v_padding + i * get_height);
    width = window_width;
    max_ports_shown = max_ports_shown;
  }

  -- The loop over the columns from `j` on, `n` times, with the proxels that are left
  unfoldable pub place_row :
      {P : Type 0} → ℕ → ℕ → ℕ → Map Text P → WindowSet → WindowSet × Map Text P
  unfolding place insert
  place_row zero j i proxels windows = (windows, proxels)
  place_row (suc n) j i [] windows = (windows, [])
  place_row (suc n) j i ((name, proxel) ∷ proxels) windows =
      place_row n (suc j) i proxels (insert name (place i j) windows)

  -- The loop over the rows from `i` on, `n` times
  unfoldable pub place_rows : {P : Type 0} → ℕ → ℕ → ℕ → Map Text P → WindowSet → WindowSet
  unfolding place_row
  place_rows num_cols zero i proxels windows = windows
  place_rows num_cols (suc n) i proxels windows =
      let (windows', rest) = place_row num_cols 0 i proxels windows in
      place_rows num_cols n (suc i) rest windows'

unfoldable pub get_num_rows : ℕ → ℕ → ℕ
get_num_rows num_proxels num_cols = (num_proxels + num_cols - 1) / num_cols

-- createWindows for so many proxels
unfoldable pub create_windows_for : {P : Type 0} → ℕ → Map Text P → ℕ → ℕ → ℕ → WindowSet
unfolding get_num_cols get_window_width place_rows get_num_rows
create_windows_for num_proxels proxels width minimum_window_width max_ports_shown =
    let num_cols = get_num_cols num_proxels width minimum_window_width in
    place_rows (get_window_width num_cols width) max_ports_shown num_cols
      (get_num_rows num_proxels num_cols) 0 proxels []

-- The number of proxels is cast to int; below 0, the loops do as little as at 0.
unfoldable pub create_windows : {P : Type 0} → Map Text P → ℕ → ℕ → ℕ → WindowSet
unfolding create_windows_for
create_windows proxels = create_windows_for (pos_part (to_int (length proxels))) proxels

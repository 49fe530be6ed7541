-- ===== src/Tests/Screens.antt =====
-- The windows of the statuses, at concrete inputs.
use superflow.Base.{
  ◌++◌, take, ℕ, ◌+◌, ◌*◌, ◌≤◌, ◌<◌, ◌≡◌, ◌↔◌, ◌⊎◌, refl, false, List, [], ◌∷◌, length, concat,
  get_elem?, none, some, arith, returns,
}
use superflow.Base.Int.{to_int, pos, ◌-ℤ◌, to_size}
use superflow.Map.{IsMap, lookup}
use superflow.Text.{Text, text, text_key, compare_text}
use superflow.Graph.{ProxelStatus, running}
use superflow.Curses.Lines.{get_lines}
use superflow.Curses.Cuts.{without, AllFit, get_lines-total, get_lines-stuck}
use superflow.Curses.Render.{state_name, Drawing, render_status}
use superflow.Curses.Frames.{Framed}
use superflow.Curses.Shown.{Shows, state_of}
use superflow.Curses.Status.{InRow, number_shown, render_status-total}
use superflow.Curses.Grid.{create_windows, get_num_cols, get_minimum_window_width}
use superflow.Curses.Tiles.{x_at, y_at, create_windows-tiles}
use superflow.Curses.Gui.{
  ProxelSet, StatusSet, GraphGui, make_gui, filter_statuses, get_proxel_set, get_max_num_ports,
  proxel_set_has_changed, spin_once,
}
use superflow.Curses.Refresh.{Current, make_gui-Synced, proxel_set_has_changed-eq}
use superflow.Curses.Returns.{AllBrief, spin_once-total}

get_lines-total_example :
    (lines : List Text) × (get_lines 5 (97 ∷ 98 ∷ 10 ∷ 99 ∷ []) 1 ≡ some lines)
    × (concat lines ≡ without 10 (97 ∷ 98 ∷ 10 ∷ 99 ∷ []))
    × AllFit 1 lines
get_lines-total_example =
    get_lines-total (97 ∷ 98 ∷ 10 ∷ 99 ∷ []) 1 5 (omega arith) (omega arith) (omega arith)
      (omega arith)

get_lines-stuck_example : get_lines 100 (97 ∷ []) (to_size (pos 2 -ℤ pos 2)) ≡ none
get_lines-stuck_example = get_lines-stuck 100 97 [] (λ h. omega arith)

abbrev a_status : ProxelStatus Text Text
a_status = record {
  state = running;
  info = 104 ∷ 105 ∷ [];
  ports = (text "in", record { num_connections = 1; num_transactions = 12 }) ∷ [];
}

render_status-total_example :
    (main : Drawing) × (ports : List Drawing) × (render_status 3
        (record { x = pos 2; y = pos 4; width = pos 37; max_ports_shown = 1 })
        (text "a")
        a_status
      ≡ some (main ∷ ports))
    × (main.window ≡ record { x = pos 2; y = pos 4; width = pos 37; height = 6 })
    × Framed 37 main
    × ((lines : List Text) × (concat lines ≡ without 10 a_status.info)
        × AllFit 35 lines
        × Shows 37 (text "a") ((text "state: " ++ state_name running) ∷ take 5 lines) main)
    × (state_of (state_name running) ≡ running)
    × (length ports ≡ number_shown 1 (length a_status.ports))
    × InRow 2 4 0 a_status.ports ports
render_status-total_example =
    render_status-total 2 4 37 1 3 (text "a") a_status (omega arith) (omega arith) (omega arith)
      (omega arith) (omega arith)

abbrev two_proxels : ProxelSet
two_proxels = (97 ∷ [], 1) ∷ (98 ∷ [], 2) ∷ []

two_proxels-IsMap : IsMap two_proxels
unfolding compare_text
two_proxels-IsMap = ((refl, tt), (tt, tt))

two_columns : get_num_cols (length two_proxels) 80 20 ≡ 2
unfolding get_num_cols
two_columns = refl

create_windows-tiles_example :
    (w : ℕ) × ((length two_proxels ≡ 1) ⊎ (20 ≤ w))
    × ((r c : ℕ) (name : Text) (p : ℕ)
        → c < 2
        → get_elem? two_proxels (r * 2 + c) ≡ some (name, p)
        → (lookup name (create_windows two_proxels 80 20 0)
            ≡ some (record {
              x = pos (x_at w c);
              y = pos (y_at r);
              width = pos w;
              max_ports_shown = 0;
            }))
          × (x_at w c + w + 2 ≤ 80))
    × ((c d : ℕ) → c < d → x_at w c + w + 2 ≤ x_at w d)
    × ((q r : ℕ) → q < r → y_at q + 12 ≤ y_at r)
create_windows-tiles_example =
    create_windows-tiles two_proxels 80 20 0 2 (omega arith) (omega arith) two_proxels-IsMap
      (omega arith) two_columns

proxel_set_has_changed-eq_example :
    (proxel_set_has_changed two_proxels [] ≡ false) ↔ (two_proxels ≡ [])
proxel_set_has_changed-eq_example = proxel_set_has_changed-eq two_proxels []

-- The graph has a proxel, which is shown.
abbrev one_proxel : ProxelSet
one_proxel = (97 ∷ [], 1) ∷ []

abbrev one_status : StatusSet
one_status = (97 ∷ [], a_status) ∷ []

first_read : get_proxel_set one_proxel (filter_statuses [] one_status) [] ≡ returns one_proxel
unfolding get_proxel_set compare_text filter_statuses
first_read = refl

first_brief : AllBrief 3 (filter_statuses [] one_status)
unfolding filter_statuses
first_brief = (omega arith, omega arith, tt)

spin_once-total_example :
    (g' : GraphGui) × (drawings : List Drawing) × (spin_once 3 80 24 one_proxel one_status []
        (make_gui 4)
      ≡ returns (some (g', drawings)))
    × Current 80
        (get_minimum_window_width
          (to_int (get_max_num_ports (make_gui 4).max_ports_shown (filter_statuses [] one_status))))
        one_proxel
        g'
unfolding make_gui
spin_once-total_example =
    spin_once-total 3 80 24 one_proxel one_proxel one_status [] (make_gui 4) (omega arith)
      (omega arith) (omega arith) (omega arith) (make_gui-Synced 4) first_brief first_read

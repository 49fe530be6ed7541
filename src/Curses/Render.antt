-- ===== src/Curses/Render.antt =====
-- What is printed in the windows of a proxel and its ports (curses/src/proxel_window.cpp and
-- window.cpp, and the names of states in core/include/superflow/proxel_status.h).
use superflow.Base.{
  ℕ, zero, suc, ◌+◌, ◌-◌, ◌*◌, true, false, ◌&&◌, List, [], ◌∷◌, ◌++◌, length, take, Option, none,
  some, ltb, ◌==◌, if◌then◌else◌,
}
use superflow.Base.Int.{ℤ, pos, ◌+ℤ◌, ◌-ℤ◌, to_size, to_int, leb_ℤ}
use superflow.Map.{Map}
use superflow.Text.{Text, text}
use superflow.Text.Digits.{to_string}
use superflow.Graph.{
  State, awaiting_input, awaiting_request, awaiting_response, crashed, not_connected, paused,
  running, unavailable, undefined_state, warning, PortStatus, ProxelStatus,
}
use superflow.Curses.Lines.{get_lines, shorten_string, spaces}

-- `operator<<` of a state
unfoldable pub state_name : State → Text
state_name awaiting_input = text "NO INPUT"
state_name awaiting_request = text "NO REQUEST"
state_name awaiting_response = text "NO RESPONSE"
state_name crashed = text "CRASHED"
state_name not_connected = text "NOT CONNECTED"
state_name paused = text "PAUSED"
state_name running = text "RUNNING"
state_name unavailable = text "UNAVAILABLE"
state_name undefined_state = text "UNDEFINED"
state_name warning = text "WARNING"

pub data Shade : Type 0 where
  red green blue yellow black white : Shade

pub record Color : Type 0 where
  pub foreground : Shade
  pub background : Shade

unfoldable pub get_state_color : State → Color
get_state_color running = record { foreground = green; background = black }
get_state_color crashed = record { foreground = white; background = red }
get_state_color awaiting_input = record { foreground = yellow; background = black }
get_state_color paused = record { foreground = blue; background = black }
get_state_color _ = record { foreground = white; background = black }

-- A Window: `height` rows between its borders
pub record Window : Type 0 where
  pub x : ℤ
  pub y : ℤ
  pub width : ℤ
  pub height : ℕ

-- A text that mvprintw prints, at a row and a column of the window
pub record Printed : Type 0 where
  pub row : ℕ
  pub col : ℕ
  pub shown : Text

-- A window that is rendered: its colour, and what is printed in it after its box, in this order
pub record Drawing : Type 0 where
  pub window : Window
  pub color : Color
  pub printed : List Printed

abbrev pub content_col_offset : ℕ
content_col_offset = 1

abbrev pub header_col_offset : ℕ
header_col_offset = 2

unfoldable pub render_name : ℤ → Text → Printed
unfolding shorten_string
render_name width name = record {
  row = 0;
  col = header_col_offset;
  shown = shorten_string width name header_col_offset false;
}

unfoldable pub render_line : ℤ → Text → ℕ → Printed
unfolding shorten_string
render_line width line row_offset = record {
  row = row_offset;
  col = content_col_offset;
  shown = shorten_string width line content_col_offset true;
}

-- The loops of `render` over the lines, and over the rows that are left, from the index `i` on
unfoldable pub render_lines : ℤ → List Text → ℕ → List Printed
unfolding render_line
render_lines width [] i = []
render_lines width (line ∷ lines) i =
    render_line width line (1 + i) ∷ render_lines width lines (suc i)

unfoldable pub render_blanks : ℤ → ℕ → ℕ → List Printed
unfolding render_line
render_blanks width zero i = []
render_blanks width (suc n) i = render_line width [] (1 + i) ∷ render_blanks width n (suc i)

-- Window::render
unfoldable pub render : Window → Text → List Text → Color → Drawing
unfolding render_name render_lines render_blanks
render window name lines color = record {
  window = window;
  color = color;
  printed =
      render_name window.width name
      ∷ (render_lines window.width lines 0
          ++ render_blanks window.width (window.height - length lines) (length lines));
}

abbrev pub inner_height : ℕ
inner_height = 6

abbrev pub port_window_width : ℕ
port_window_width = 10

abbrev pub port_window_height : ℕ
port_window_height = 2

-- ProxelWindow
pub record ProxelWindow : Type 0 where
  pub x : ℤ
  pub y : ℤ
  pub width : ℤ
  pub max_ports_shown : ℕ

abbrev pub main_window : ProxelWindow → Window
main_window w = record { x = w.x; y = w.y; width = w.width; height = inner_height }

unfoldable pub get_height : ℕ
get_height = inner_height + 2

-- The window of the `i`-th port
unfoldable pub port_window : ProxelWindow → ℕ → Window
port_window w i = record {
  x = w.x +ℤ pos (i * port_window_width) +ℤ pos 1;
  y = w.y +ℤ pos inner_height +ℤ pos 1;
  width = pos port_window_width;
  height = port_window_height;
}

-- PortStatus::undefined
abbrev pub undefined_number : ℕ
undefined_number = 18446744073709551615

-- A label, and a number to the right of `width - 4` columns, if it is defined
unfoldable pub number_line : Text → ℕ → List Text
unfolding to_string
number_line label n =
    if n == undefined_number
    then []
    else (label ++ (spaces (port_window_width - 4 - length (to_string n)) ++ to_string n)) ∷ []

unfoldable pub port_lines : PortStatus → List Text
unfolding number_line
port_lines status =
    number_line (text "C:") status.num_connections
    ++ number_line (text "T:") status.num_transactions

-- The loop of renderStatus over the ports, from the `i`-th on
unfoldable pub render_ports : ProxelWindow → Color → ℕ → Map Text PortStatus → List Drawing
unfolding port_window port_lines render
render_ports w color i [] = []
render_ports w color i ((name, status) ∷ ports) =
    if ltb 0 w.max_ports_shown && leb_ℤ (to_int w.max_ports_shown) (pos i)
    then []
    else render (port_window w i) name (port_lines status) color
      ∷ render_ports w color (suc i) ports

abbrev pub max_info : ℕ
max_info = 5

-- ProxelWindow::renderStatus, with the lines of the status text; `none`: getLines is not at its end.
unfoldable pub render_info :
    ProxelWindow → Text → ProxelStatus Text Text → Option (List Text) → Option (List Drawing)
unfolding state_name get_state_color render render_ports
render_info w name status none = none
render_info w name status (some info_lines) =
    let color = get_state_color status.state in
    some (
      render (main_window w) name
        ((text "state: " ++ state_name status.state) ∷ take max_info info_lines) color
      ∷ render_ports w color 0 status.ports)

unfoldable pub render_status :
    ℕ → ProxelWindow → Text → ProxelStatus Text Text → Option (List Drawing)
unfolding get_lines render_info
render_status fuel w name status =
    render_info w name status (get_lines fuel status.info (to_size (w.width -ℤ pos 2)))

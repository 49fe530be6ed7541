-- ===== src/Curses/Gui.antt =====
-- GraphGUI::spinOnce (curses/src/graph_gui.cpp). A Proxel::Ptr is an address.
use superflow.Base.{
  ℕ, Bool, true, false, not, ◌&&◌, ◌||◌, List, [], ◌∷◌, ◌++◌, length, Option, none, some, ltb, ◌==◌,
  if◌then◌else◌, Outcome, returns, throws, ◌>>=◌, invalid_argument,
}
use superflow.Base.Int.{to_int, ℤ, pos, negsuc}
use superflow.Map.{Map, lookup, insert}
use superflow.Text.{Text, text_key, same_text}
use superflow.Graph.{State, crashed, ProxelStatus}
use superflow.Config.Links.{contains_name}
use superflow.Curses.Render.{Drawing, ProxelWindow, render_status}
use superflow.Curses.Grid.{WindowSet, create_windows, get_minimum_window_width}

abbrev pub ProxelSet : Type 0
ProxelSet = Map Text ℕ

abbrev pub StatusSet : Type 0
StatusSet = Map Text (ProxelStatus Text Text)

-- `width` and `height` are -1 before the first call.
pub record GraphGui : Type 0 where
  pub last_proxels : ProxelSet
  pub windows : WindowSet
  pub max_ports_shown : ℕ
  pub width : ℤ
  pub height : ℤ
  pub minimum_window_width : ℕ

unfoldable pub make_gui : ℕ → GraphGui
make_gui max_ports_shown = record {
  last_proxels = [];
  windows = [];
  max_ports_shown = max_ports_shown;
  width = negsuc 0;
  height = negsuc 0;
  minimum_window_width = 0;
}

abbrev pub is_crashed : State → Bool
is_crashed crashed = true
is_crashed _ = false

-- getProxelStatuses, with the statuses of the graph
unfoldable pub filter_statuses : List Text → StatusSet → StatusSet
unfolding contains_name
filter_statuses blacklisted_proxels [] = []
filter_statuses blacklisted_proxels ((name, status) ∷ statuses) =
    let rest = filter_statuses blacklisted_proxels statuses in
    if not (is_crashed status.state) && contains_name name blacklisted_proxels
    then rest
    else (name, status) ∷ rest

-- The loop of getProxelSet, with the proxels so far; `graph` are the proxels of the graph.
unfoldable pub get_proxel_set : ProxelSet → StatusSet → ProxelSet → Outcome ProxelSet
unfolding lookup insert
get_proxel_set graph [] proxels = returns proxels
get_proxel_set graph ((name, status) ∷ statuses) proxels = elim (lookup name graph) [
  | none ↦ throws invalid_argument
  | some proxel ↦ get_proxel_set graph statuses (insert name proxel proxels)
]

-- The loop of getMaxNumPorts
unfoldable pub most_ports : StatusSet → ℕ → ℕ
most_ports [] max_num_ports = max_num_ports
most_ports ((name, status) ∷ statuses) max_num_ports =
    most_ports statuses
      (if ltb max_num_ports (length status.ports) then length status.ports else max_num_ports)

unfoldable pub get_max_num_ports : ℕ → StatusSet → ℕ
unfolding most_ports
get_max_num_ports max_ports_shown statuses =
    let max_num_ports = most_ports statuses 0 in
    if ltb 0 max_ports_shown && ltb max_ports_shown max_num_ports
    then max_ports_shown
    else max_num_ports

-- The loop of proxelSetHasChanged, up to the end of one of the two
unfoldable pub entries_differ : ProxelSet → ProxelSet → Bool
unfolding same_text
entries_differ [] new_proxels = false
entries_differ ((name, proxel) ∷ old_proxels) [] = false
entries_differ ((name, proxel) ∷ old_proxels) ((name', proxel') ∷ new_proxels) =
    not (same_text name name') || not (proxel == proxel') || entries_differ old_proxels new_proxels

unfoldable pub proxel_set_has_changed : ProxelSet → ProxelSet → Bool
unfolding entries_differ
proxel_set_has_changed last_proxels proxels =
    not (length last_proxels == length proxels) || entries_differ last_proxels proxels

abbrev pub same_ℤ : ℤ → ℤ → Bool
same_ℤ (pos a) (pos b) = a == b
same_ℤ (pos a) (negsuc b) = false
same_ℤ (negsuc a) (pos b) = false
same_ℤ (negsuc a) (negsuc b) = a == b

-- guiSizeHasChanged, on a terminal of this size
unfoldable pub gui_size_has_changed : ℕ → ℕ → GraphGui → Bool
gui_size_has_changed width height g =
    not (same_ℤ (pos width) g.width) || not (same_ℤ (pos height) g.height)

-- The windows are made anew.
unfoldable pub lay_out : ℕ → ℕ → ℕ → ProxelSet → GraphGui → GraphGui
unfolding create_windows
lay_out width height minimum_window_width proxels g = record {
  last_proxels = proxels;
  windows = create_windows proxels width minimum_window_width g.max_ports_shown;
  max_ports_shown = g.max_ports_shown;
  width = pos width;
  height = pos height;
  minimum_window_width = minimum_window_width;
}

unfoldable pub update : ℕ → ℕ → ℕ → ProxelSet → GraphGui → GraphGui
unfolding proxel_set_has_changed gui_size_has_changed lay_out
update width height minimum_window_width proxels g =
    if proxel_set_has_changed g.last_proxels proxels
      || gui_size_has_changed width height g
      || not (minimum_window_width == g.minimum_window_width)
    then lay_out width height minimum_window_width proxels g
    else g

abbrev pub no_window : ProxelWindow
no_window = record { x = pos 0; y = pos 0; width = pos 0; max_ports_shown = 0 }

-- `windows_[name]`, which makes a window if there is none
unfoldable pub window_of : Text → WindowSet → ProxelWindow × WindowSet
unfolding lookup insert
window_of name windows = elim (lookup name windows) [
  | some w ↦ (w, windows)
  | none ↦ (no_window, insert name no_window windows)
]

-- The drawings of a round, before those of the rounds that follow
unfoldable pub draw_first :
    Option (List Drawing) → Option (WindowSet × List Drawing) → Option (WindowSet × List Drawing)
draw_first none rest = none
draw_first (some drawings) none = none
draw_first (some drawings) (some (windows, rest)) = some (windows, drawings ++ rest)

-- The loop of spinOnce over the statuses; `none`: a text is not at its end yet.
unfoldable pub render_all : ℕ → StatusSet → WindowSet → Option (WindowSet × List Drawing)
unfolding window_of render_status draw_first
render_all fuel [] windows = some (windows, [])
render_all fuel ((name, status) ∷ statuses) windows =
    draw_first (render_status fuel (window_of name windows).0 name status)
      (render_all fuel statuses (window_of name windows).1)

unfoldable pub with_windows :
    GraphGui → Option (WindowSet × List Drawing) → Option (GraphGui × List Drawing)
with_windows g none = none
with_windows g (some (windows, drawings)) = some (record g { windows = windows }, drawings)

-- spinOnce, on a terminal of this size, with the proxels and the statuses of the graph
unfoldable pub spin_once :
    ℕ
    → ℕ
    → ℕ
    → ProxelSet
    → StatusSet
    → List Text
    → GraphGui
    → Outcome (Option (GraphGui × List Drawing))
unfolding filter_statuses get_proxel_set get_max_num_ports get_minimum_window_width update
    render_all with_windows
spin_once fuel width height graph graph_statuses blacklisted_proxels g = do
  let statuses = filter_statuses blacklisted_proxels graph_statuses
  proxels ← get_proxel_set graph statuses []
  let minimum = get_minimum_window_width (to_int (get_max_num_ports g.max_ports_shown statuses))
  let g' = update width height minimum proxels g
  returns (with_windows g' (render_all fuel statuses g'.windows))

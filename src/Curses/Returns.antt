-- ===== src/Curses/Returns.antt =====
-- GraphGUI::spinOnce returns (curses/src/graph_gui.cpp).
use native.Mathlib.Nat.{mod-lt, div-add-mod', mul-le-mul_right}
use superflow.Base.{
  ℕ, ◌+◌, ◌*◌, ◌/◌, ◌%◌, ◌≤◌, ◌<◌, ◌≡◌, inl, inr, refl, sym, ap, ◌∙◌, List, [], ◌∷◌, ◌++◌, length,
  get-lt-length, some, arith, Bool-cases, returns, ◌||◌, not, ◌==◌,
}
use superflow.Base.Int.{ℤ, to_int, pos}
use superflow.Map.{IsMap, lookup}
use superflow.Text.{Text, text_key}
use superflow.Graph.{ProxelStatus}
use superflow.Curses.Render.{Drawing, ProxelWindow, render_status}
use superflow.Curses.Grid.{
  create_windows_for, WindowSet, create_windows, get_num_cols, get_num_rows, get_window_width,
  get_minimum_window_width, place,
}
use superflow.Curses.Placing.{rows_place}
use superflow.Curses.Columns.{Fitting, get_num_cols-Fitting, enough_rows, create_windows_lem}
use superflow.Curses.Tiles.{x_at, y_at, place_lem}
use superflow.Curses.Status.{render_status-total}
use superflow.Curses.Gui.{
  ProxelSet, StatusSet, GraphGui, filter_statuses, get_proxel_set, get_max_num_ports, lay_out,
  update, window_of, render_all, draw_first, with_windows, spin_once, proxel_set_has_changed,
  gui_size_has_changed,
}
use superflow.Curses.Refresh.{Current, Synced, update-Current}
use superflow.Curses.Spin.{place_of, AllKnown, get_proxel_set-AllKnown, found_window}

-- A window with room for a text
record Ready (w : ProxelWindow) : Type 0 where
  left : ℕ
  top : ℕ
  cols : ℕ
  wide : 4 ≤ cols
  small : cols < 2147483648
  limited : w.max_ports_shown < 2147483648
  shape :
      w
      ≡ record { x = pos left; y = pos top; width = pos cols; max_ports_shown = w.max_ports_shown }

-- No text is longer than the rounds allow.
abbrev pub AllBrief : ℕ → StatusSet → Type 0
AllBrief fuel [] = Unit
AllBrief fuel ((name, status) ∷ statuses) =
    (length status.info < 9223372036854775808)
    × (length status.info < fuel)
    × AllBrief fuel statuses

abbrev AllReady : WindowSet → StatusSet → Type 0
AllReady windows [] = Unit
AllReady windows ((name, status) ∷ statuses) =
    ((w : ProxelWindow) × (lookup name windows ≡ some w) × Ready w) × AllReady windows statuses

minimum-ge : (n : ℤ) → 20 ≤ get_minimum_window_width n
unfolding get_minimum_window_width
minimum-ge n = ground arith

one_column : (width w : ℕ) → 4 ≤ width → get_window_width 1 width ≡ pos w → w + 4 ≡ width
unfolding get_window_width
one_column width w h e = ground arith

Fitting-wide :
    (width minimum cols w : ℕ) → 8 ≤ width → 20 ≤ minimum → Fitting width minimum cols w → 4 ≤ w
Fitting-wide width minimum cols w h m f = elim f.wide [
  | inr room ↦ omega arith
  | inl one ↦
      let e : get_window_width 1 width ≡ pos w =
        ap (λ c. get_window_width c width) (sym one) ∙ f.width_of in
      omega (arith, one_column width w (omega arith) e)
]

Fitting-small : (width minimum cols w : ℕ) → Fitting width minimum cols w → w ≤ width
Fitting-small width minimum cols w f =
    let e : 1 * w ≤ cols * w = mul-le-mul_right w f.some_cols in omega (arith, f.within)

module _ (proxels : ProxelSet) (width minimum max_ports_shown : ℕ) (sorted : IsMap proxels)
    (h : 8 ≤ width) (small : width < 2147483648) (limited : max_ports_shown < 2147483648)
    (few : length proxels < 2147483648) (m : 20 ≤ minimum) where
  window-Ready :
      (name : Text) (p : ℕ)
      → lookup name proxels ≡ some p
      → (w : ProxelWindow) × (lookup name (create_windows proxels width minimum max_ports_shown)
          ≡ some w)
        × Ready w
  unfolding create_windows_for
  window-Ready name p found =
      let (k, at) = place_of proxels name p found in
      let cols = get_num_cols (length proxels) width minimum in
      let (w, f) =
        get_num_cols-Fitting (length proxels) width minimum (omega arith) (omega arith) in
      let e = div-add-mod' k cols in
      let placed =
        rows_place (get_window_width cols width) max_ports_shown cols
          (get_num_rows (length proxels) cols) 0 proxels [] (k / cols) (k % cols) name p sorted
          (mod-lt k f.some_cols)
          (enough_rows (length proxels) cols (k / cols) (k % cols) f.some_cols
            (omega (arith, get-lt-length proxels k at)))
          (rw e at) in
      (
        record {
          x = pos (x_at w (k % cols));
          y = pos (y_at (0 + k / cols));
          width = pos w;
          max_ports_shown = max_ports_shown;
        },
        ap (lookup name) (create_windows_lem proxels width minimum max_ports_shown few)
            ∙ placed
            ∙ ap (λ v. some (place v max_ports_shown (0 + k / cols) (k % cols))) f.width_of
            ∙ ap some (place_lem w max_ports_shown (0 + k / cols) (k % cols)),
        record {
          left = x_at w (k % cols);
          top = y_at (0 + k / cols);
          cols = w;
          wide = Fitting-wide width minimum cols w h m f;
          small = omega (arith, Fitting-small width minimum cols w f);
          limited = limited;
          shape = refl;
        },
      )

  windows-AllReady :
      (statuses : StatusSet)
      → AllKnown proxels statuses
      → AllReady (create_windows proxels width minimum max_ports_shown) statuses
  windows-AllReady [] k = tt
  windows-AllReady ((name, status) ∷ statuses) k =
      (window-Ready name k.0.0 k.0.1, windows-AllReady statuses k.1)

drawn-Ready :
    (fuel : ℕ) (w : ProxelWindow) (name : Text) (status : ProxelStatus Text Text)
    → Ready w
    → length status.info < 9223372036854775808
    → length status.info < fuel
    → (drawings : List Drawing) × (render_status fuel w name status ≡ some drawings)
drawn-Ready fuel w name status r short enough =
    let (main, ports, run, position, framed, shown_lines, state_read, number, row) =
      render_status-total r.left r.top r.cols w.max_ports_shown fuel name status r.wide r.small
        r.limited short enough in
    (main ∷ ports, ap (λ v. render_status fuel v name status) r.shape ∙ run)

window_found :
    (name : Text) (windows : WindowSet) (w : ProxelWindow)
    → lookup name windows ≡ some w
    → (window_of name windows).0 ≡ w
unfolding window_of
window_found name windows w h = rw (h, window_of) refl

first_and_rest :
    (fuel : ℕ) (name : Text) (status : ProxelStatus Text Text) (statuses : StatusSet)
    (windows windows' : WindowSet) (w : ProxelWindow) (drawings ds : List Drawing)
    → lookup name windows ≡ some w
    → render_status fuel w name status ≡ some drawings
    → render_all fuel statuses windows ≡ some (windows', ds)
    → render_all fuel ((name, status) ∷ statuses) windows ≡ some (windows', drawings ++ ds)
unfolding render_all draw_first
first_and_rest fuel name status statuses windows windows' w drawings ds found first rest =
    rw (window_found name windows w found, found_window name windows w found, first, rest) refl

render_all-total :
    (fuel : ℕ) (statuses : StatusSet) (windows : WindowSet)
    → AllReady windows statuses
    → AllBrief fuel statuses
    → (drawings : List Drawing) × (render_all fuel statuses windows ≡ some (windows, drawings))
unfolding render_all
render_all-total fuel [] windows r b = ([], refl)
render_all-total fuel ((name, status) ∷ statuses) windows ((w, found, ready), r)
      (short, enough, b) =
    let (drawings, first) = drawn-Ready fuel w name status ready short enough in
    let (ds, rest) = render_all-total fuel statuses windows r b in
    (
      drawings ++ ds,
      first_and_rest fuel name status statuses windows windows w drawings ds found first rest,
    )

max_kept :
    (width height minimum : ℕ) (proxels : ProxelSet) (g : GraphGui)
    → (update width height minimum proxels g).max_ports_shown ≡ g.max_ports_shown
unfolding update lay_out
max_kept width height minimum proxels g =
    elim (Bool-cases (
      proxel_set_has_changed g.last_proxels proxels
      || gui_size_has_changed width height g
      || not (minimum == g.minimum_window_width))) [
        | inl changed ↦ rw changed refl
        | inr same ↦ rw same refl
      ]

module _ (fuel width height : ℕ) (graph proxels : ProxelSet) (graph_statuses : StatusSet)
    (blacklisted_proxels : List Text) (g : GraphGui) where
  abbrev shown : StatusSet
  shown = filter_statuses blacklisted_proxels graph_statuses

  abbrev minimum : ℕ
  minimum = get_minimum_window_width (to_int (get_max_num_ports g.max_ports_shown shown))

  abbrev updated : GraphGui
  updated = update width height minimum proxels g

  spins :
      (drawings : List Drawing)
      → get_proxel_set graph shown [] ≡ returns proxels
      → render_all fuel shown updated.windows ≡ some (updated.windows, drawings)
      → spin_once fuel width height graph graph_statuses blacklisted_proxels g
        ≡ returns (some (record updated { windows = updated.windows }, drawings))
  unfolding spin_once with_windows
  spins drawings read drawn = rw read (ap (λ o. returns (with_windows updated o)) drawn)

  -- The terminal is 8 columns wide at least, its width, the limit of ports and the number of
  -- proxels that are not hidden fit an int, the texts have less than 2^63 bytes, every status that
  -- is not hidden is that of a proxel of the graph, and the GUI is as it was made or has the
  -- windows of an earlier call. Then spinOnce returns, in rounds one more than the longest text
  -- has bytes; and it has exactly the windows that createWindows makes for the proxels that are
  -- not hidden, this width, and the minimum width that the most ports need, whether they were made
  -- anew or kept: none is out of date, none missing.
  pub spin_once-total :
      8 ≤ width
      → width < 2147483648
      → g.max_ports_shown < 2147483648
      → length proxels < 2147483648
      → Synced g
      → AllBrief fuel shown
      → get_proxel_set graph shown [] ≡ returns proxels
      → (g' : GraphGui) × (drawings : List Drawing) × (spin_once fuel width height graph
            graph_statuses blacklisted_proxels g
          ≡ returns (some (g', drawings)))
        × Current width minimum proxels g'
  spin_once-total h small limited few synced brief read =
      let c = update-Current width height minimum proxels g synced in
      let (sorted, known) = get_proxel_set-AllKnown graph shown [] proxels tt read in
      let limited' : updated.max_ports_shown < 2147483648 =
        omega (arith, max_kept width height minimum proxels g) in
      let ready =
        windows-AllReady proxels width minimum updated.max_ports_shown sorted h small limited' few
          (minimum-ge (to_int (get_max_num_ports g.max_ports_shown shown))) shown known in
      let (drawings, drawn) =
        render_all-total fuel shown updated.windows (rw c.windows_kept ready) brief in
      (updated, drawings, spins drawings read drawn, c)

-- ===== src/Curses/Status.antt =====
-- All that ProxelWindow::renderStatus draws (curses/src/proxel_window.cpp).
use superflow.Base.{
  get_elem?, ◌≢◌, ◌==◌, ==_iff, ℕ, zero, suc, ◌+◌, ◌-◌, ◌*◌, ◌≤◌, ◌<◌, ◌≡◌, ◌⊎◌, refl, ap, ◌∙◌,
  true, false, ◌&&◌, List, [], ◌∷◌, ◌++◌, length, take, concat, Empty, length-append, some, ltb,
  if◌then◌else◌, arith, Bool-cases, inl, inr,
}
use superflow.Base.Int.{pos, ◌-ℤ◌, to_size, to_int, leb_ℤ}
use superflow.Map.{Map}
use superflow.Text.{Text, text}
use superflow.Graph.{PortStatus, ProxelStatus}
use superflow.Curses.Lines.{get_lines, spaces}
use superflow.Text.Digits.{to_string}
use superflow.Curses.Cuts.{get_lines-total, without, AllFit}
use superflow.Curses.Shown.{Shows, render-Shows, state_of, state_of-state_name}
use superflow.Curses.Render.{
  undefined_number, Drawing, Color, ProxelWindow, render, render_status, render_info, render_ports,
  port_window, port_lines, number_line, get_state_color, state_name, max_info,
}
use superflow.Curses.Frames.{Framed, render-Framed}

-- How many of `n` ports are drawn; 0 stands for no limit.
abbrev pub number_shown : ℕ → ℕ → ℕ
number_shown max_ports_shown n =
    if ltb 0 max_ports_shown && ltb max_ports_shown n then max_ports_shown else n

-- The first line ends with the number of connections, and one with that of transactions, each if it
-- is defined.
abbrev pub Counts : PortStatus → List Text → Type 0
Counts status lines =
    (status.num_connections ≢ undefined_number
      → (k : ℕ) × (get_elem? lines 0
          ≡ some (text "C:" ++ (spaces k ++ to_string status.num_connections))))
    × (status.num_transactions ≢ undefined_number
        → (i k : ℕ) × (get_elem? lines i
            ≡ some (text "T:" ++ (spaces k ++ to_string status.num_transactions))))

-- The windows of the first of these ports, from the `i`-th on: in a row, side by side, below the
-- status, each with the name and the counts of its port
abbrev pub InRow : ℕ → ℕ → ℕ → Map Text PortStatus → List Drawing → Type 0
InRow x y i ports [] = Unit
InRow x y i [] (d ∷ ds) = Empty
InRow x y i ((name, status) ∷ ports) (d ∷ ds) =
    (d.window.x ≡ pos (x + i * 10 + 1))
    × (d.window.y ≡ pos (y + 7))
    × Framed 10 d
    × Shows 10 name (port_lines status) d
    × Counts status (port_lines status)
    × InRow x y (suc i) ports ds

length-number_line : (label : Text) (n : ℕ) → length (number_line label n) ≤ 1
unfolding number_line
length-number_line label n = ground arith

number_line_lem :
    (label : Text) (n : ℕ)
    → n ≢ undefined_number
    → (k : ℕ) × (number_line label n ≡ (label ++ (spaces k ++ to_string n)) ∷ [])
unfolding number_line
number_line_lem label n h = elim (Bool-cases (n == undefined_number)) [
  | inl e ↦ absurd (h ((==_iff n undefined_number).0 e))
  | inr e ↦ (6 - length (to_string n), rw e refl)
]

behind :
    (label : Text) (n : ℕ) (line : Text)
    → (i : ℕ) × (get_elem? (number_line label n ++ (line ∷ [])) i ≡ some line)
unfolding number_line
behind label n line = elim (Bool-cases (n == undefined_number)) [
  | inl e ↦ (0, rw e refl)
  | inr e ↦ (1, rw e refl)
]

port_lines-Counts : (status : PortStatus) → Counts status (port_lines status)
unfolding port_lines
port_lines-Counts status = (
  λ h. let (k, e) = number_line_lem (text "C:") status.num_connections h in (k, rw e refl),
  λ h.
      let (k, e) = number_line_lem (text "T:") status.num_transactions h in
      let (i, at) =
        behind (text "C:") status.num_connections
          (text "T:" ++ (spaces k ++ to_string status.num_transactions)) in
      (i, k, rw e at),
)

length-port_lines : (status : PortStatus) → length (port_lines status) ≤ 2
unfolding port_lines
length-port_lines status = omega (
  arith,
  length-append (number_line (text "C:") status.num_connections)
      (number_line (text "T:") status.num_transactions),
  length-number_line (text "C:") status.num_connections,
  length-number_line (text "T:") status.num_transactions,
)

module _ (x y w max_ports_shown : ℕ) (limited : max_ports_shown < 2147483648) where
  abbrev drawn : ProxelWindow
  drawn = record { x = pos x; y = pos y; width = pos w; max_ports_shown = max_ports_shown }

  ports-InRow :
      (color : Color) (i : ℕ) (ports : Map Text PortStatus)
      → InRow x y i ports (render_ports drawn color i ports)
  unfolding render_ports port_window
  ports-InRow color i [] = tt
  ports-InRow color i ((name, status) ∷ ports) =
      elim (Bool-cases (ltb 0 max_ports_shown && leb_ℤ (to_int max_ports_shown) (pos i))) [
        | inl over ↦ rw over tt
        | inr more ↦ rw more (
          ground arith,
          ground arith,
          render-Framed 10 (omega arith) (omega arith) _ _ 2 name (port_lines status) color
              (length-port_lines status),
          render-Shows 10 (omega arith) (omega arith) _ _ 2 name (port_lines status) color,
          port_lines-Counts status,
          ports-InRow color (suc i) ports,
        )
      ]

  at_limit :
      (i : ℕ)
      → (ltb 0 max_ports_shown && leb_ℤ (to_int max_ports_shown) (pos i)) ≡ true
      → (0 < max_ports_shown) × (max_ports_shown ≤ i)
  at_limit i h = ground arith

  below_limit :
      (i : ℕ)
      → (ltb 0 max_ports_shown && leb_ℤ (to_int max_ports_shown) (pos i)) ≡ false
      → (max_ports_shown ≡ 0) ⊎ (i < max_ports_shown)
  below_limit i h = elim (Bool-cases (ltb i max_ports_shown)) [
    | inl l ↦ inr (ground arith)
    | inr g ↦ inl (ground arith)
  ]

  no_more :
      (i n : ℕ)
      → (0 < max_ports_shown) × (max_ports_shown ≤ i)
      → 0 ≡ (
          if ltb 0 max_ports_shown && ltb (max_ports_shown - i) (suc n)
          then max_ports_shown - i
          else suc n)
  no_more i n h = ground arith

  one_more :
      (i n : ℕ)
      → (max_ports_shown ≡ 0) ⊎ (i < max_ports_shown)
      → suc (
          if ltb 0 max_ports_shown && ltb (max_ports_shown - suc i) n
          then max_ports_shown - suc i
          else n)
        ≡ (if ltb 0 max_ports_shown && ltb (max_ports_shown - i) (suc n)
            then max_ports_shown - i
            else suc n)
  one_more i n (inl h) = ground arith
  one_more i n (inr h) = ground arith

  length-ports :
      (color : Color) (i : ℕ) (ports : Map Text PortStatus)
      → length (render_ports drawn color i ports) ≡ (
          if ltb 0 max_ports_shown && ltb (max_ports_shown - i) (length ports)
          then max_ports_shown - i
          else length ports)
  unfolding render_ports
  length-ports color i [] = ground arith
  length-ports color i ((name, status) ∷ ports) =
      elim (Bool-cases (ltb 0 max_ports_shown && leb_ℤ (to_int max_ports_shown) (pos i))) [
        | inl over ↦ rw over (no_more i (length ports) (at_limit i over))
        | inr more ↦ rw more (
            ap suc (length-ports color (suc i) ports)
            ∙ one_more i (length ports) (below_limit i more))
      ]

length-take_le : (n : ℕ) (xs : List Text) → length (take n xs) ≤ n
length-take_le zero xs = omega arith
length-take_le (suc n) [] = omega arith
length-take_le (suc n) (x ∷ xs) = omega (arith, length-take_le n xs)

lines_read :
    (fuel : ℕ) (w : ProxelWindow) (name : Text) (status : ProxelStatus Text Text) (n : ℕ)
    (lines : List Text)
    → to_size (w.width -ℤ pos 2) ≡ n
    → get_lines fuel status.info n ≡ some lines
    → render_status fuel w name status ≡ render_info w name status (some lines)
unfolding render_status
lines_read fuel w name status n lines e f =
    ap (λ k. render_info w name status (get_lines fuel status.info k)) e
    ∙ ap (render_info w name status) f

-- In a window of width 4 at least, with a width and a limit of ports that fit an int and a text of
-- less than 2^63 bytes, renderStatus ends, in rounds at most one more than the status text has
-- bytes. It draws the proxel's own window, and one for each port, up to the limit if there is one,
-- side by side below it. In each window every row is printed once and no text reaches the borders;
-- what has room is printed in full: the name; in the proxel's window a line with the name of its
-- state, from which the state can be read back, and the first five lines that the status text is
-- cut into, none of which is too long; in a port's window the lines that port_lines makes of its
-- counts, which end with the numbers that are defined.
pub render_status-total :
    (x y w max_ports_shown fuel : ℕ) (name : Text) (status : ProxelStatus Text Text)
    → 4 ≤ w
    → w < 2147483648
    → max_ports_shown < 2147483648
    → length status.info < 9223372036854775808
    → length status.info < fuel
    → (main : Drawing) × (ports : List Drawing) × (render_status fuel
          (record { x = pos x; y = pos y; width = pos w; max_ports_shown = max_ports_shown })
          name
          status
        ≡ some (main ∷ ports))
      × (main.window ≡ record { x = pos x; y = pos y; width = pos w; height = 6 })
      × Framed w main
      × ((lines : List Text) × (concat lines ≡ without 10 status.info)
          × AllFit (w - 2) lines
          × Shows w name ((text "state: " ++ state_name status.state) ∷ take 5 lines) main)
      × (state_of (state_name status.state) ≡ status.state)
      × (length ports ≡ number_shown max_ports_shown (length status.ports))
      × InRow x y 0 status.ports ports
unfolding render render_info
render_status-total x y w max_ports_shown fuel name status wide small limited short enough =
    let room : to_size (pos w -ℤ pos 2) ≡ w - 2 = ground arith in
    let (lines, run, whole, fit) =
      get_lines-total status.info (w - 2) fuel (omega arith) (omega arith) short enough in
    let color = get_state_color status.state in
    let shown = (text "state: " ++ state_name status.state) ∷ take max_info lines in
    (
      render (record { x = pos x; y = pos y; width = pos w; height = 6 }) name shown color,
      render_ports (drawn x y w max_ports_shown limited) color 0 status.ports,
      lines_read fuel (drawn x y w max_ports_shown limited) name status (w - 2) lines room run,
      refl,
      render-Framed w wide small (pos x) (pos y) 6 name shown color
          (omega (arith, length-take_le 5 lines)),
      (lines, whole, fit, render-Shows w wide small (pos x) (pos y) 6 name shown color),
      state_of-state_name status.state,
      length-ports x y w max_ports_shown limited color 0 status.ports ∙ ground arith,
      ports-InRow x y w max_ports_shown limited color 0 status.ports,
    )

-- ===== src/Curses/Shown.antt =====
-- What the windows show (curses/src/window.cpp and proxel_window.cpp, and the names of states in
-- core/include/superflow/proxel_status.h).
use superflow.Base.{
  ℕ, zero, suc, ◌+◌, ◌-◌, ◌≤◌, ◌<◌, ◌≡◌, refl, ap, ◌∙◌, List, [], ◌∷◌, ◌++◌, length, get_elem?,
  some, true, false, if◌then◌else◌, arith,
}
use superflow.Base.Int.{ℤ, pos}
use superflow.Text.{Text, text, text_key, same_text, compare_text}
use superflow.Graph.{
  State, awaiting_input, awaiting_request, awaiting_response, crashed, not_connected, paused,
  running, unavailable, undefined_state, warning,
}
use superflow.Curses.Lines.{shorten_string, spaces}
use superflow.Curses.Shorten.{shorten_string-fits}
use superflow.Curses.Render.{
  Drawing, Color, render, render_name, render_line, render_lines, render_blanks, state_name,
}

-- The state that a text stands for
abbrev pub state_of : Text → State
state_of t =
    if same_text t (text "NO INPUT")
    then awaiting_input
    else if same_text t (text "NO REQUEST")
    then awaiting_request
    else if same_text t (text "NO RESPONSE")
    then awaiting_response
    else if same_text t (text "CRASHED")
    then crashed
    else if same_text t (text "NOT CONNECTED")
    then not_connected
    else if same_text t (text "PAUSED")
    then paused
    else if same_text t (text "RUNNING")
    then running
    else if same_text t (text "UNAVAILABLE")
    then unavailable
    else if same_text t (text "WARNING")
    then warning
    else undefined_state

pub state_of-state_name : (s : State) → state_of (state_name s) ≡ s
unfolding state_name same_text compare_text
state_of-state_name awaiting_input = refl
state_of-state_name awaiting_request = refl
state_of-state_name awaiting_response = refl
state_of-state_name crashed = refl
state_of-state_name not_connected = refl
state_of-state_name paused = refl
state_of-state_name running = refl
state_of-state_name unavailable = refl
state_of-state_name undefined_state = refl
state_of-state_name warning = refl

-- In a window of this width: the name in the frame if it has room there, each line that has room in a
-- row of its own below it, with spaces after it, and spaces in the rows that no line takes.
pub record Shows (w : ℕ) (name : Text) (lines : List Text) (d : Drawing) : Type 0 where
  pub title :
      (s : Text) × (get_elem? d.printed 0 ≡ some (record { row = 0; col = 2; shown = s }))
      × (length name ≤ w - 4 → s ≡ name)
  pub body :
      (i : ℕ) (line : Text)
      → get_elem? lines i ≡ some line
      → (s : Text) × (get_elem? d.printed (suc i)
          ≡ some (record { row = suc i; col = 1; shown = s }))
        × (length line ≤ w - 2 → s ≡ line ++ spaces (w - 2 - length line))
  pub blank :
      (i : ℕ)
      → length lines ≤ i
      → i < d.window.height
      → get_elem? d.printed (suc i) ≡ some (record { row = suc i; col = 1; shown = spaces (w - 2) })

get-append_left {ℓ} :
    {A : Type ℓ} (xs ys : List A) (i : ℕ) (x : A)
    → get_elem? xs i ≡ some x
    → get_elem? (xs ++ ys) i ≡ some x
get-append_left [] ys i x h = cc
get-append_left (y ∷ xs) ys zero x h = h
get-append_left (y ∷ xs) ys (suc i) x h = get-append_left xs ys i x h

get-append_right {ℓ} :
    {A : Type ℓ} (xs ys : List A) (i : ℕ)
    → length xs ≤ i
    → get_elem? (xs ++ ys) i ≡ get_elem? ys (i - length xs)
get-append_right [] ys i h = ap (get_elem? ys) (omega arith)
get-append_right (x ∷ xs) ys zero h = absurd (omega arith)
get-append_right (x ∷ xs) ys (suc i) h =
    get-append_right xs ys i (omega arith) ∙ ap (get_elem? ys) (omega arith)

module _ (w : ℤ) where
  get-render_lines :
      (lines : List Text) (k i : ℕ) (line : Text)
      → get_elem? lines i ≡ some line
      → get_elem? (render_lines w lines k) i ≡ some (render_line w line (1 + (k + i)))
  unfolding render_lines
  get-render_lines [] k i line h = cc
  get-render_lines (l ∷ lines) k zero line h =
      let e : l ≡ line = cc in let f : k + 0 ≡ k = omega arith in rw (e, f) refl
  get-render_lines (l ∷ lines) k (suc i) line h =
      get-render_lines lines (suc k) i line h
      ∙ ap (λ j. some (render_line w line (1 + j))) (omega arith)

  length-render_lines : (lines : List Text) (k : ℕ) → length (render_lines w lines k) ≡ length lines
  unfolding render_lines
  length-render_lines [] k = refl
  length-render_lines (l ∷ lines) k = ap suc (length-render_lines lines (suc k))

  get-render_blanks :
      (n k i : ℕ)
      → i < n
      → get_elem? (render_blanks w n k) i ≡ some (render_line w [] (1 + (k + i)))
  unfolding render_blanks
  get-render_blanks zero k i h = absurd (omega arith)
  get-render_blanks (suc n) k zero h = let f : k + 0 ≡ k = omega arith in rw f refl
  get-render_blanks (suc n) k (suc i) h =
      get-render_blanks n (suc k) i (omega arith)
      ∙ ap (λ j. some (render_line w [] (1 + j))) (omega arith)

module _ (w : ℕ) (wide : 4 ≤ w) (small : w < 2147483648) where
  blank_line :
      (i : ℕ) → render_line (pos w) [] i ≡ record { row = i; col = 1; shown = spaces (w - 2) }
  unfolding render_line
  blank_line i =
      ap (λ s. record { row = i; col = 1; shown = s })
        (((shorten_string-fits w [] 1 (omega arith) small).2 (omega arith)).1
          ∙ ap spaces (omega arith))

  none_before : (i : ℕ) → 1 + (0 + i) ≡ suc i
  none_before i = omega arith

  after_lines : (n i : ℕ) → n ≤ i → 1 + (n + (i - n)) ≡ suc i
  after_lines n i h = omega arith

  -- `render` shows this name and these lines.
  pub render-Shows :
      (x y : ℤ) (height : ℕ) (name : Text) (lines : List Text) (color : Color)
      → Shows w name lines
          (render (record { x = x; y = y; width = pos w; height = height }) name lines color)
  unfolding render render_name render_line
  render-Shows x y height name lines color =
      let blanks = render_blanks (pos w) (height - length lines) (length lines) in
      record {
        title = (
          shorten_string (pos w) name 2 false,
          refl,
          λ h. ((shorten_string-fits w name 2 (omega arith) small).2 h).0,
        );
        body = λ i line h. (
          shorten_string (pos w) line 1 true,
          get-append_left (render_lines (pos w) lines 0) blanks i _
                (get-render_lines (pos w) lines 0 i line h)
              ∙ ap (λ j. some (render_line (pos w) line j)) (none_before i),
          λ k. ((shorten_string-fits w line 1 (omega arith) small).2 k).1,
        );
        blank = λ i h k.
            let n = length-render_lines (pos w) lines 0 in
            get-append_right (render_lines (pos w) lines 0) blanks i (omega arith)
            ∙ ap (get_elem? blanks) (ap (λ m. i - m) n)
            ∙ get-render_blanks (pos w) (height - length lines) (length lines) (i - length lines)
                (omega arith)
            ∙ ap (λ j. some (render_line (pos w) [] j)) (after_lines (length lines) i h)
            ∙ ap some (blank_line (suc i));
      }

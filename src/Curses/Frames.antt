-- ===== src/Curses/Frames.antt =====
-- What is printed in a window stays between its borders (curses/src/window.cpp and
-- proxel_window.cpp).
use superflow.Base.{
  ℕ, zero, suc, ◌+◌, ◌-◌, ◌≤◌, ◌<◌, ◌≡◌, refl, ap, ◌∙◌, List, [], ◌∷◌, ◌++◌, map, length, arith,
}
use superflow.Base.Int.{ℤ, pos}
use superflow.Text.{Text}
use superflow.Curses.Shorten.{shorten_string-fits}
use superflow.Curses.Render.{
  Printed, Drawing, Color, render, render_name, render_line, render_lines, render_blanks,
}

abbrev row_of : Printed → ℕ
row_of p = p.row

-- `n` numbers from `i` on
abbrev pub count_up : ℕ → ℕ → List ℕ
count_up i zero = []
count_up i (suc n) = i ∷ count_up (suc i) n

-- With the margin on the left, and one like it on the right, the text is not wider than the window.
abbrev pub AllInside : ℕ → List Printed → Type 0
AllInside w [] = Unit
AllInside w (p ∷ ps) = (p.col + length p.shown + p.col ≤ w) × AllInside w ps

-- Every row, that of the name included, is printed once, from the top to the bottom.
pub record Framed (w : ℕ) (d : Drawing) : Type 0 where
  pub wide : d.window.width ≡ pos w
  pub rows : map (λ p. p.row) d.printed ≡ count_up 0 (suc d.window.height)
  pub inside : AllInside w d.printed

AllInside-append :
    (w : ℕ) (ps qs : List Printed) → AllInside w ps → AllInside w qs → AllInside w (ps ++ qs)
AllInside-append w [] qs h k = k
AllInside-append w (p ∷ ps) qs h k = (h.0, AllInside-append w ps qs h.1 k)

rows-append : (ps qs : List Printed) → map row_of (ps ++ qs) ≡ map row_of ps ++ map row_of qs
rows-append [] qs = refl
rows-append (p ∷ ps) qs = ap (λ t. p.row ∷ t) (rows-append ps qs)

count_up-append : (i m n : ℕ) → count_up i m ++ count_up (i + m) n ≡ count_up i (m + n)
count_up-append i zero n =
    let e : i + 0 ≡ i = omega arith in let f : 0 + n ≡ n = omega arith in rw (e, f)
count_up-append i (suc m) n =
    let e : i + suc m ≡ suc i + m = omega arith in
    let f : suc m + n ≡ suc (m + n) = omega arith in
    rw (e, f) (ap (λ t. i ∷ t) (count_up-append (suc i) m n))

module _ (w : ℕ) (wide : 4 ≤ w) (small : w < 2147483648) where
  line_inside : (line : Text) (row : ℕ) → 1 + length (render_line (pos w) line row).shown + 1 ≤ w
  unfolding render_line
  line_inside line row = omega (arith, (shorten_string-fits w line 1 (omega arith) small).0)

  name_inside : (name : Text) → 2 + length (render_name (pos w) name).shown + 2 ≤ w
  unfolding render_name
  name_inside name = omega (arith, (shorten_string-fits w name 2 (omega arith) small).1)

  lines_inside : (lines : List Text) (i : ℕ) → AllInside w (render_lines (pos w) lines i)
  unfolding render_lines render_line
  lines_inside [] i = tt
  lines_inside (line ∷ lines) i = (line_inside line (1 + i), lines_inside lines (suc i))

  blanks_inside : (n i : ℕ) → AllInside w (render_blanks (pos w) n i)
  unfolding render_blanks render_line
  blanks_inside zero i = tt
  blanks_inside (suc n) i = (line_inside [] (1 + i), blanks_inside n (suc i))

  lines_rows :
      (lines : List Text) (i : ℕ)
      → map row_of (render_lines (pos w) lines i) ≡ count_up (1 + i) (length lines)
  unfolding render_lines render_line
  lines_rows [] i = refl
  lines_rows (line ∷ lines) i =
      let e : 1 + suc i ≡ suc (1 + i) = omega arith in
      ap (λ t. (1 + i) ∷ t) (lines_rows lines (suc i) ∙ ap (λ j. count_up j (length lines)) e)

  blanks_rows : (n i : ℕ) → map row_of (render_blanks (pos w) n i) ≡ count_up (1 + i) n
  unfolding render_blanks render_line
  blanks_rows zero i = refl
  blanks_rows (suc n) i =
      let e : 1 + suc i ≡ suc (1 + i) = omega arith in
      ap (λ t. (1 + i) ∷ t) (blanks_rows n (suc i) ∙ ap (λ j. count_up j n) e)

  -- In a window of width 4 at least, `render` of no more lines than there are rows prints the name
  -- and every row once, each between the margins.
  pub render-Framed :
      (x y : ℤ) (height : ℕ) (name : Text) (lines : List Text) (color : Color)
      → length lines ≤ height
      → Framed w (render (record { x = x; y = y; width = pos w; height = height }) name lines color)
  unfolding render render_name
  render-Framed x y height name lines color h = record {
    wide = refl;
    rows =
        ap (λ t. 0 ∷ t)
          (rows-append (render_lines (pos w) lines 0)
              (render_blanks (pos w) (height - length lines) (length lines))
            ∙ rw (lines_rows lines 0, blanks_rows (height - length lines) (length lines))
                (count_up-append 1 (length lines) (height - length lines)
                  ∙ ap (count_up 1) (omega arith)));
    inside = (
      name_inside name,
      AllInside-append w (render_lines (pos w) lines 0)
          (render_blanks (pos w) (height - length lines) (length lines)) (lines_inside lines 0)
          (blanks_inside (height - length lines) (length lines)),
    );
  }

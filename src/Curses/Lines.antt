-- ===== src/Curses/Lines.antt =====
-- The cutting of texts into lines, and of lines to the width of a window
-- (curses/src/proxel_window.cpp and window.cpp).
use superflow.Base.{
  ℕ, zero, suc, ◌+◌, ◌-◌, ◌*◌, ◌/◌, ◌%◌, Bool, true, false, not, ◌||◌, List, [], ◌∷◌, ◌++◌, length,
  take, drop, Option, none, some, ltb, leb, ◌==◌, if◌then◌else◌,
}
use superflow.Base.Int.{ℤ, pos, ◌-ℤ◌, to_size, to_int, pos_part}
use superflow.Text.{Text}

-- `substr`, at a position that is not behind the end
abbrev pub substr : Text → ℕ → ℕ → Text
substr s position n = take n (drop position s)

abbrev pub begin_with : ℕ → List Text → List Text
begin_with c [] = (c ∷ []) ∷ []
begin_with c (line ∷ lines) = (c ∷ line) ∷ lines

-- `split` at a separator: what the calls of std::getline give
unfoldable pub split_at : ℕ → Text → List Text
split_at sep [] = []
split_at sep (c ∷ s) =
    let rest = split_at sep s in if c == sep then [] ∷ rest else begin_with c rest

-- The loop of `split` into chunks from the index `i` on; `none`: it is not at its end yet.
unfoldable pub chunks_from : ℕ → Text → ℕ → ℕ → Option (List Text)
chunks_from zero s chunk_size i = none
chunks_from (suc fuel) s chunk_size i = elim (ltb i (length s)) [
  | false ↦ some []
  | true ↦ elim (chunks_from fuel s chunk_size ((i + chunk_size) % 18446744073709551616)) [
    | none ↦ none
    | some chunks ↦ some (substr s i chunk_size ∷ chunks)
  ]
]

-- `split` into chunks
unfoldable pub split_chunks : ℕ → Text → ℕ → Option (List Text)
unfolding chunks_from
split_chunks fuel s chunk_size = chunks_from fuel s chunk_size 0

-- The loop of `getLines`
unfoldable pub lines_of : ℕ → List Text → ℕ → Option (List Text)
unfolding split_chunks
lines_of fuel [] max_line_length = some []
lines_of fuel (raw_line ∷ raw_lines) max_line_length =
    elim (split_chunks fuel raw_line max_line_length) [
      | none ↦ none
      | some chunks ↦ elim (lines_of fuel raw_lines max_line_length) [
        | none ↦ none
        | some lines ↦ some (chunks ++ lines)
      ]
    ]

unfoldable pub get_lines : ℕ → Text → ℕ → Option (List Text)
unfolding lines_of split_at
get_lines fuel s max_line_length = lines_of fuel (split_at 10 s) max_line_length

abbrev pub spaces : ℕ → Text
spaces zero = []
spaces (suc n) = 32 ∷ spaces n

-- Window::impl::shortenString, with its `width`
unfoldable pub shorten_to : ℕ → Text → Bool → Text
shorten_to width s pad =
    if leb (length s) width
    then if not pad || length s == width
      then s
      else s ++ spaces (pos_part (to_int (width - length s)))
    else substr s 0 (width / 2) ++ substr s (length s - (width - width / 2)) (width - width / 2)

-- The same in a window of this width
unfoldable pub shorten_string : ℤ → Text → ℕ → Bool → Text
unfolding shorten_to
shorten_string window_width s col_offset pad =
    shorten_to (to_size (window_width -ℤ pos (2 * col_offset))) s pad

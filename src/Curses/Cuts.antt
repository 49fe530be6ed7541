-- ===== src/Curses/Cuts.antt =====
-- What the cutting of texts into lines keeps, and when it ends (curses/src/proxel_window.cpp).
use superflow.Base.{
  ℕ, zero, suc, ◌+◌, ◌-◌, ◌%◌, ◌≤◌, ◌<◌, ◌≡◌, ◌≢◌, ◌⊎◌, inl, inr, refl, sym, ap, ◌∙◌, List, [], ◌∷◌,
  ◌++◌, length, drop, concat, concat-append, take-drop, length-take, take_all, drop_all,
  length-drop, none, some, ltb, leb, ◌==◌, if◌then◌else◌, arith, Bool-cases, lt→ltb,
}
use superflow.Base.Int.{pos, ◌-ℤ◌, to_size}
use superflow.Text.{Text}
use superflow.Curses.Lines.{
  substr, begin_with, split_at, chunks_from, split_chunks, lines_of, get_lines,
}

-- Each line has at least one byte and at most so many.
abbrev pub AllFit : ℕ → List Text → Type 0
AllFit width [] = Unit
AllFit width (line ∷ lines) = (0 < length line) × (length line ≤ width) × AllFit width lines

AllFit-append :
    (width : ℕ) (xs ys : List Text) → AllFit width xs → AllFit width ys → AllFit width (xs ++ ys)
AllFit-append width [] ys h k = k
AllFit-append width (x ∷ xs) ys h k = (h.0, h.1, AllFit-append width xs ys h.2 k)

length-substr :
    (s : Text) (i n : ℕ)
    → i < length s
    → 0 < n
    → (0 < length (substr s i n)) × (length (substr s i n) ≤ n)
length-substr s i n h k = elim (Bool-cases (leb n (length s - i))) [
  | inl e ↦
      let l = length-take n (drop i s) (ground (arith, length-drop i s)) in
      (omega arith, omega arith)
  | inr e ↦
      let l = ap length (take_all n (drop i s) (ground (arith, length-drop i s))) in
      (omega (arith, length-drop i s), ground (arith, length-drop i s))
]

round :
    (fuel : ℕ) (s : Text) (n i : ℕ) (chunks : List Text)
    → i < length s
    → (i + n) % 18446744073709551616 ≡ i + n
    → chunks_from fuel s n (i + n) ≡ some chunks
    → chunks_from (suc fuel) s n i ≡ some (substr s i n ∷ chunks)
unfolding chunks_from
round fuel s n i chunks l wrapped run =
    rw (lt→ltb i (length s) l, wrapped, chunks_from) (rw run refl)

module _ (s : Text) (n : ℕ) (positive : 0 < n) (small : n < 18446744073709551616)
    (short : length s < 9223372036854775808) where
  -- The chunks from the index `i` on, with enough fuel
  chunks_from-rest :
      (fuel i : ℕ)
      → (i ≡ 0) ⊎ (n ≤ i)
      → length s - i < fuel
      → (chunks : List Text) × (chunks_from fuel s n i ≡ some chunks)
        × (concat chunks ≡ drop i s)
        × AllFit n chunks
  unfolding chunks_from
  chunks_from-rest zero i multiple enough = absurd (omega arith)
  chunks_from-rest (suc fuel) i multiple enough = elim (Bool-cases (ltb i (length s))) [
    | inr over ↦ ([], rw (over, chunks_from) refl, sym (drop_all i s (ground arith)), tt)
    | inl more ↦
        let l : i < length s = ground arith in
        let wrapped : (i + n) % 18446744073709551616 ≡ i + n = ground arith in
        let (chunks, run, whole, fit) =
          chunks_from-rest fuel (i + n) (inr (omega arith)) (omega arith) in
        let (some_byte, at_most) = length-substr s i n l positive in
        (
          substr s i n ∷ chunks,
          round fuel s n i chunks l wrapped run,
          rw whole (take-drop n i s),
          (some_byte, at_most, fit),
        )
  ]

-- With chunks of no bytes, the loop stays where it is.
chunks_from-stuck : (fuel : ℕ) (s : Text) → 0 < length s → chunks_from fuel s 0 0 ≡ none
unfolding chunks_from
chunks_from-stuck zero s h = refl
chunks_from-stuck (suc fuel) s h =
    rw (lt→ltb 0 (length s) h, chunks_from) (rw (chunks_from-stuck fuel s h) refl)

begin_with-stuck : (fuel c : ℕ) (lines : List Text) → lines_of fuel (begin_with c lines) 0 ≡ none
unfolding lines_of split_chunks
begin_with-stuck fuel c [] = rw (chunks_from-stuck fuel (c ∷ []) (omega arith), lines_of) refl
begin_with-stuck fuel c (line ∷ lines) =
    rw (chunks_from-stuck fuel (c ∷ line) (omega arith), lines_of) refl

-- In a window of width 2, where no byte has room, getLines never ends on a text that begins with
-- anything but a newline, however many rounds it is given.
pub get_lines-stuck :
    (fuel c : ℕ) (s : Text) → c ≢ 10 → get_lines fuel (c ∷ s) (to_size (pos 2 -ℤ pos 2)) ≡ none
unfolding get_lines split_at
get_lines-stuck fuel c s h = elim (Bool-cases (c == 10)) [
  | inl e ↦ absurd (h (ground arith))
  | inr e ↦ rw e (begin_with-stuck fuel c (split_at 10 s))
]

-- The bytes of a text that are not this one
unfoldable pub without : ℕ → Text → Text
without c [] = []
without c (x ∷ s) = if x == c then without c s else x ∷ without c s

concat-begin_with : (c : ℕ) (lines : List Text) → concat (begin_with c lines) ≡ c ∷ concat lines
concat-begin_with c [] = refl
concat-begin_with c (line ∷ lines) = refl

concat-split_at : (sep : ℕ) (s : Text) → concat (split_at sep s) ≡ without sep s
unfolding split_at without
concat-split_at sep [] = refl
concat-split_at sep (c ∷ s) = elim (Bool-cases (c == sep)) [
  | inl e ↦ rw e (concat-split_at sep s)
  | inr e ↦ rw e (concat-begin_with c (split_at sep s) ∙ ap (λ t. c ∷ t) (concat-split_at sep s))
]

abbrev AtMost : ℕ → List Text → Type 0
AtMost n [] = Unit
AtMost n (line ∷ lines) = (length line ≤ n) × AtMost n lines

AtMost-more : (n : ℕ) (lines : List Text) → AtMost n lines → AtMost (suc n) lines
AtMost-more n [] h = tt
AtMost-more n (line ∷ lines) h = (omega arith, AtMost-more n lines h.1)

begin_with-AtMost :
    (c n : ℕ) (lines : List Text) → AtMost n lines → AtMost (suc n) (begin_with c lines)
begin_with-AtMost c n [] h = (omega arith, tt)
begin_with-AtMost c n (line ∷ lines) h = (omega arith, AtMost-more n lines h.1)

split_at-AtMost : (sep : ℕ) (s : Text) → AtMost (length s) (split_at sep s)
unfolding split_at
split_at-AtMost sep [] = tt
split_at-AtMost sep (c ∷ s) = elim (Bool-cases (c == sep)) [
  | inl e ↦ rw e (omega arith, AtMost-more (length s) (split_at sep s) (split_at-AtMost sep s))
  | inr e ↦ rw e (begin_with-AtMost c (length s) (split_at sep s) (split_at-AtMost sep s))
]

another_line :
    (fuel width : ℕ) (line : Text) (raw chunks lines : List Text)
    → chunks_from fuel line width 0 ≡ some chunks
    → lines_of fuel raw width ≡ some lines
    → lines_of fuel (line ∷ raw) width ≡ some (chunks ++ lines)
unfolding lines_of split_chunks
another_line fuel width line raw chunks lines e f = rw (e, lines_of) (rw f refl)

module _ (width size fuel : ℕ) (positive : 0 < width) (small : width < 18446744073709551616)
    (short : size < 9223372036854775808) (enough : size < fuel) where
  lines_of-total :
      (raw : List Text)
      → AtMost size raw
      → (lines : List Text) × (lines_of fuel raw width ≡ some lines)
        × (concat lines ≡ concat raw)
        × AllFit width lines
  unfolding lines_of
  lines_of-total [] h = ([], refl, refl, tt)
  lines_of-total (line ∷ raw) h =
      let (chunks, run, whole, fit) =
        chunks_from-rest line width positive small (omega arith) fuel 0 (inl refl) (omega arith) in
      let (lines, run', whole', fit') = lines_of-total raw h.1 in
      (
        chunks ++ lines,
        another_line fuel width line raw chunks lines run run',
        concat-append chunks lines ∙ rw (whole, whole') refl,
        AllFit-append width chunks lines fit fit',
      )

-- In a window that leaves room for a byte, with a text of less than 2^63 bytes, getLines ends, in
-- rounds at most one more than the text has bytes, and gives the text without its newlines, cut
-- into lines that fit; none is empty.
pub get_lines-total :
    (s : Text) (width fuel : ℕ)
    → 0 < width
    → width < 18446744073709551616
    → length s < 9223372036854775808
    → length s < fuel
    → (lines : List Text) × (get_lines fuel s width ≡ some lines)
      × (concat lines ≡ without 10 s)
      × AllFit width lines
unfolding get_lines
get_lines-total s width fuel positive small short enough =
    let (lines, run, whole, fit) =
      lines_of-total width (length s) fuel positive small short enough (split_at 10 s)
        (split_at-AtMost 10 s) in
    (lines, run, whole ∙ concat-split_at 10 s, fit)

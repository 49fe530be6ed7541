-- ===== src/Curses/Shorten.antt =====
-- What shortenString makes of a text (curses/src/window.cpp).
use superflow.Base.{
  ℕ, zero, suc, ◌-◌, ◌*◌, ◌/◌, ◌≤◌, ◌<◌, ◌≡◌, inl, inr, refl, sym, ap, ◌∙◌, true, false, ◌++◌,
  append-nil, length, drop, length-take, length-drop, length-append, leb, ◌==◌, arith, Bool-cases,
}
use superflow.Base.Int.{pos, ◌-ℤ◌, to_size, to_int, pos_part}
use superflow.Text.{Text}
use superflow.Curses.Lines.{substr, spaces, shorten_to, shorten_string}

length-spaces : (n : ℕ) → length (spaces n) ≡ n
length-spaces zero = refl
length-spaces (suc n) = omega (arith, length-spaces n)

length-ends :
    (s : Text) (width : ℕ)
    → width < length s
    → length
        (substr s 0 (width / 2) ++ substr s (length s - (width - width / 2)) (width - width / 2))
      ≡ width
length-ends s width h =
    length-append (substr s 0 (width / 2)) _
    ∙ omega (
      arith,
      length-take (width / 2) s (omega arith),
      length-take (width - width / 2) (drop (length s - (width - width / 2)) s)
          (omega (arith, length-drop (length s - (width - width / 2)) s)),
    )

module _ (width : ℕ) (s : Text) (small : width < 2147483648) where
  shorten_to-pads : length (shorten_to width s true) ≡ width
  unfolding shorten_to
  shorten_to-pads = elim (Bool-cases (leb (length s) width)) [
    | inr e ↦ rw e (length-ends s width (ground arith))
    | inl e ↦ elim (Bool-cases (length s == width)) [
      | inl same ↦ rw (e, same) (ground arith)
      | inr less ↦
          rw (e, less)
            (length-append s _
              ∙ ground (arith, length-spaces (pos_part (to_int (width - length s)))))
    ]
  ]

  shorten_to-le : length (shorten_to width s false) ≤ width
  unfolding shorten_to
  shorten_to-le = elim (Bool-cases (leb (length s) width)) [
    | inr e ↦ rw e (omega (arith, length-ends s width (ground arith)))
    | inl e ↦ rw e (ground arith)
  ]

  shorten_to-keeps :
      length s ≤ width
      → (shorten_to width s false ≡ s) × (shorten_to width s true ≡ s ++ spaces (width - length s))
  unfolding shorten_to
  shorten_to-keeps h =
      let fits : leb (length s) width ≡ true = ground arith in
      (
        rw fits refl,
        elim (Bool-cases (length s == width)) [
          | inl same ↦
              let none_left : width - length s ≡ 0 = ground arith in
              rw (fits, same, none_left) (sym (append-nil s))
          | inr less ↦
              let room : pos_part (to_int (width - length s)) ≡ width - length s = ground arith in
              rw (fits, less) (ap (λ n. s ++ spaces n) room)
        ],
      )

-- What shortenString prints in a window that is wide enough for the margins fits between these, and
-- fills the room if it pads. A text that has room is kept, and only spaces follow it.
pub shorten_string-fits :
    (window_width : ℕ) (s : Text) (col_offset : ℕ)
    → 2 * col_offset ≤ window_width
    → window_width < 2147483648
    → (length (shorten_string (pos window_width) s col_offset true) ≡ window_width - 2 * col_offset)
      × (length (shorten_string (pos window_width) s col_offset false)
          ≤ window_width - 2 * col_offset)
      × (length s ≤ window_width - 2 * col_offset
          → (shorten_string (pos window_width) s col_offset false ≡ s)
            × (shorten_string (pos window_width) s col_offset true
                ≡ s ++ spaces (window_width - 2 * col_offset - length s)))
unfolding shorten_string
shorten_string-fits window_width s col_offset h k =
    let room : to_size (pos window_width -ℤ pos (2 * col_offset)) ≡ window_width - 2 * col_offset =
      ground arith in
    let small : window_width - 2 * col_offset < 2147483648 = omega arith in
    rw room (
      shorten_to-pads (window_width - 2 * col_offset) s small,
      shorten_to-le (window_width - 2 * col_offset) s small,
      shorten_to-keeps (window_width - 2 * col_offset) s small,
    )

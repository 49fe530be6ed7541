-- ===== src/Curses/Placing.antt =====
-- The rows and columns that createWindows fills (curses/src/graph_gui.cpp).
use superflow.Base.{
  ℕ, zero, suc, ◌+◌, ◌*◌, ◌<◌, ◌≡◌, ◌≢◌, refl, sym, ap, ◌∙◌, [], ◌∷◌, drop, get_elem?, get-drop,
  some, arith,
}
use superflow.Base.Int.{ℤ}
use superflow.Map.{Map, IsMap, IsAbove, lookup}
use superflow.Map.Laws.{lookup-insert_self, lookup-insert_ne}
use superflow.Text.{Text, text_key}
use superflow.Curses.Grid.{WindowSet, place, place_row, place_rows}

IsAbove-ne :
    {V : Type 0} (x : Text) (k : Text) (v : V) (m : Map Text V) → IsAbove x ((k, v) ∷ m) → x ≢ k
IsAbove-ne x k v m h e = ground (arith, text_key.cmp_eq x k)

IsAbove-drop : {V : Type 0} (x : Text) (n : ℕ) (m : Map Text V) → IsAbove x m → IsAbove x (drop n m)
IsAbove-drop x zero m h = h
IsAbove-drop x (suc n) [] h = tt
IsAbove-drop x (suc n) ((k, v) ∷ m) h = IsAbove-drop x n m h.1

IsMap-drop : {V : Type 0} (n : ℕ) (m : Map Text V) → IsMap m → IsMap (drop n m)
IsMap-drop zero m h = h
IsMap-drop (suc n) [] h = tt
IsMap-drop (suc n) ((k, v) ∷ m) h = IsMap-drop n m h.1

IsAbove-later :
    {V : Type 0} (m : Map Text V) (t n : ℕ) (k : Text) (v : V)
    → IsMap m
    → get_elem? m t ≡ some (k, v)
    → t < n
    → IsAbove k (drop n m)
IsAbove-later [] t n k v s e l = cc
IsAbove-later ((j, w) ∷ m) t zero k v s e l = absurd (omega arith)
IsAbove-later ((j, w) ∷ m) zero (suc n) k v s e l =
    let same : j ≡ k = cc in rw (← same) (IsAbove-drop j n m s.0)
IsAbove-later ((j, w) ∷ m) (suc t) (suc n) k v s e l = IsAbove-later m t n k v s.1 e (omega arith)

module _ {P : Type 0} (w : ℤ) (max_ports_shown : ℕ) where
  row_rest :
      (n j i : ℕ) (proxels : Map Text P) (ws : WindowSet)
      → (place_row w max_ports_shown n j i proxels ws).1 ≡ drop n proxels
  unfolding place_row
  row_rest zero j i proxels ws = refl
  row_rest (suc n) j i [] ws = refl
  row_rest (suc n) j i ((name, p) ∷ proxels) ws = row_rest n (suc j) i proxels _

  row_keeps :
      (n j i : ℕ) (proxels : Map Text P) (ws : WindowSet) (x : Text)
      → IsAbove x proxels
      → lookup x (place_row w max_ports_shown n j i proxels ws).0 ≡ lookup x ws
  unfolding place_row
  row_keeps zero j i proxels ws x h = refl
  row_keeps (suc n) j i [] ws x h = refl
  row_keeps (suc n) j i ((name, p) ∷ proxels) ws x h =
      row_keeps n (suc j) i proxels _ x h.1
      ∙ lookup-insert_ne x name (place w max_ports_shown i j) ws (IsAbove-ne x name p proxels h)

  row_places :
      (n j i : ℕ) (proxels : Map Text P) (ws : WindowSet) (c : ℕ) (name : Text) (p : P)
      → IsMap proxels
      → c < n
      → get_elem? proxels c ≡ some (name, p)
      → lookup name (place_row w max_ports_shown n j i proxels ws).0
        ≡ some (place w max_ports_shown i (j + c))
  unfolding place_row
  row_places zero j i proxels ws c name p s l e = absurd (omega arith)
  row_places (suc n) j i [] ws c name p s l e = cc
  row_places (suc n) j i ((k, q) ∷ proxels) ws zero name p s l e =
      let same : k ≡ name = cc in
      let here : j + zero ≡ j = omega arith in
      rw (← same, here)
        (row_keeps n (suc j) i proxels _ k s.0
          ∙ lookup-insert_self k (place w max_ports_shown i j) ws)
  row_places (suc n) j i ((k, q) ∷ proxels) ws (suc c) name p s l e =
      let there : j + suc c ≡ suc j + c = omega arith in
      rw there (row_places n (suc j) i proxels _ c name p s.1 (omega arith) e)

  module _ (cols : ℕ) where
    rows_keep :
        (n i : ℕ) (proxels : Map Text P) (ws : WindowSet) (x : Text)
        → IsAbove x proxels
        → lookup x (place_rows w max_ports_shown cols n i proxels ws) ≡ lookup x ws
    unfolding place_rows
    rows_keep zero i proxels ws x h = refl
    rows_keep (suc n) i proxels ws x h =
        let rest = row_rest cols 0 i proxels ws in
        rows_keep n (suc i) _ _ x (rw rest (IsAbove-drop x cols proxels h))
        ∙ row_keeps cols 0 i proxels ws x h

    pub rows_place :
        (n i : ℕ) (proxels : Map Text P) (ws : WindowSet) (r c : ℕ) (name : Text) (p : P)
        → IsMap proxels
        → c < cols
        → r < n
        → get_elem? proxels (r * cols + c) ≡ some (name, p)
        → lookup name (place_rows w max_ports_shown cols n i proxels ws)
          ≡ some (place w max_ports_shown (i + r) c)
    unfolding place_rows
    rows_place zero i proxels ws r c name p s hc hr e = absurd (omega arith)
    rows_place (suc n) i proxels ws zero c name p s hc hr e =
        let first : zero * cols + c ≡ c = omega arith in
        let here : i + zero ≡ i = omega arith in
        let none_before : 0 + c ≡ c = omega arith in
        let rest = row_rest cols 0 i proxels ws in
        let e' = rw first at e in
        rows_keep n (suc i) _ _ name (rw rest (IsAbove-later proxels c cols name p s e' hc))
        ∙ row_places cols 0 i proxels ws c name p s hc e'
        ∙ ap (λ k. some (place w max_ports_shown i k)) none_before
        ∙ sym (ap (λ k. some (place w max_ports_shown k c)) here)
    rows_place (suc n) i proxels ws (suc r) c name p s hc hr e =
        let later : suc r * cols + c ≡ cols + (r * cols + c) = grind arith in
        let there : i + suc r ≡ suc i + r = omega arith in
        let rest = row_rest cols 0 i proxels ws in
        rw there (
          rows_place n (suc i) _ _ r c name p (rw rest (IsMap-drop cols proxels s)) hc (omega arith)
            (rw rest (get-drop cols (r * cols + c) proxels ∙ rw (← later) e)))

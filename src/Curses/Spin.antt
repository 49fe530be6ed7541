-- ===== src/Curses/Spin.antt =====
-- The proxels that GraphGUI::spinOnce shows, and the look-up of their windows
-- (curses/src/graph_gui.cpp).
use superflow.Base.{
  ℕ, suc, ◌≡◌, inl, inr, refl, ◌∙◌, [], ◌∷◌, get_elem?, some, arith, Option-cases, returns,
}
use superflow.Map.{Map, IsMap, lookup, insert}
use superflow.Map.Laws.{lookup-insert_self, lookup-insert_ne, insert-IsMap, same_or_not}
use superflow.Text.{Text, text_key}
use superflow.Curses.Render.{ProxelWindow}
use superflow.Curses.Grid.{WindowSet}
use superflow.Curses.Gui.{ProxelSet, StatusSet, get_proxel_set, window_of}

pub place_of :
    {V : Type 0} (m : Map Text V) (name : Text) (v : V)
    → lookup name m ≡ some v
    → (i : ℕ) × (get_elem? m i ≡ some (name, v))
unfolding lookup
place_of [] name v h = cc
place_of ((k, w) ∷ m) name v h = elim (same_or_not name k) [
  | inl e ↦ (0, ground (arith, text_key.cmp_eq name k))
  | inr n ↦ let (i, at) = place_of m name v (ground (arith, text_key.cmp_eq name k)) in (suc i, at)
]

-- Each status is that of a proxel of the set.
abbrev pub AllKnown : ProxelSet → StatusSet → Type 0
AllKnown proxels [] = Unit
AllKnown proxels ((name, status) ∷ statuses) =
    ((p : ℕ) × (lookup name proxels ≡ some p)) × AllKnown proxels statuses

module _ (graph : ProxelSet) where
  stays :
      (statuses : StatusSet) (m out : ProxelSet) (name : Text) (p : ℕ)
      → lookup name m ≡ some p
      → get_proxel_set graph statuses m ≡ returns out
      → (q : ℕ) × (lookup name out ≡ some q)
  unfolding get_proxel_set
  stays [] m out name p l h = let e : m ≡ out = cc in (p, rw (← e) l)
  stays ((k, status) ∷ statuses) m out name p l h = elim (Option-cases (lookup k graph)) [
    | inl missing ↦ absurd (ground arith)
    | inr (q, found) ↦ elim (same_or_not name k) [
      | inl e ↦
          stays statuses (insert k q m) out name q (rw e (lookup-insert_self k q m))
            (rw (found, get_proxel_set) at h)
      | inr n ↦
          stays statuses (insert k q m) out name p (lookup-insert_ne name k q m n ∙ l)
            (rw (found, get_proxel_set) at h)
    ]
  ]

  pub get_proxel_set-AllKnown :
      (statuses : StatusSet) (m out : ProxelSet)
      → IsMap m
      → get_proxel_set graph statuses m ≡ returns out
      → IsMap out × AllKnown out statuses
  unfolding get_proxel_set
  get_proxel_set-AllKnown [] m out s h = let e : m ≡ out = cc in (rw (← e) s, tt)
  get_proxel_set-AllKnown ((k, status) ∷ statuses) m out s h =
      elim (Option-cases (lookup k graph)) [
        | inl missing ↦ absurd (ground arith)
        | inr (q, found) ↦
            let h' = rw (found, get_proxel_set) at h in
            let r = get_proxel_set-AllKnown statuses (insert k q m) out (insert-IsMap k q m s) h' in
            (r.0, (stays statuses (insert k q m) out k q (lookup-insert_self k q m) h', r.1))
      ]

pub found_window :
    (name : Text) (windows : WindowSet) (w : ProxelWindow)
    → lookup name windows ≡ some w
    → (window_of name windows).1 ≡ windows
unfolding window_of
found_window name windows w h = rw (h, window_of) refl

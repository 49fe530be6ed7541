-- ===== src/Curses/Refresh.antt =====
-- When GraphGUI::spinOnce makes its windows anew (curses/src/graph_gui.cpp).
use superflow.Base.{
  ℕ, ◌≡◌, ◌↔◌, ◌⊎◌, inl, inr, refl, sym, ap, ◌∙◌, true, false, not, ◌||◌, [], ◌∷◌, length, ◌==◌,
  arith, Bool-cases,
}
use superflow.Base.Int.{ℤ, pos, negsuc}
use superflow.Text.{text_key, same_text_eq}
use superflow.Curses.Grid.{create_windows}
use superflow.Curses.Gui.{
  ProxelSet, GraphGui, make_gui, entries_differ, proxel_set_has_changed, same_ℤ,
  gui_size_has_changed, lay_out, update,
}

entries_same :
    (old new : ProxelSet) → length old ≡ length new → entries_differ old new ≡ false → old ≡ new
unfolding entries_differ
entries_same [] [] l h = refl
entries_same [] (e ∷ new) l h = absurd (omega arith)
entries_same (e ∷ old) [] l h = absurd (omega arith)
entries_same ((name, p) ∷ old) ((name', p') ∷ new) l h =
    ground (arith, same_text_eq name name', entries_same old new)

entries_differ_self : (m : ProxelSet) → entries_differ m m ≡ false
unfolding entries_differ
entries_differ_self [] = refl
entries_differ_self ((name, p) ∷ m) = ground (arith, same_text_eq name name, entries_differ_self m)

-- proxelSetHasChanged is true exactly if the two sets are not equal.
pub proxel_set_has_changed-eq :
    (old new : ProxelSet) → (proxel_set_has_changed old new ≡ false) ↔ (old ≡ new)
unfolding proxel_set_has_changed
proxel_set_has_changed-eq old new = (
  λ h. entries_same old new (ground arith) (ground arith),
  λ e. rw e (ground (arith, entries_differ_self new)),
)

-- The windows are those of the last layout, or there was none.
pub record Current (width minimum : ℕ) (proxels : ProxelSet) (g : GraphGui) : Type 0 where
  pub proxels_kept : g.last_proxels ≡ proxels
  pub width_kept : g.width ≡ pos width
  pub minimum_kept : g.minimum_window_width ≡ minimum
  pub windows_kept : g.windows ≡ create_windows proxels width minimum g.max_ports_shown

abbrev pub Synced : GraphGui → Type 0
Synced g =
    (g.width ≡ negsuc 0) ⊎ ((width : ℕ) × Current width g.minimum_window_width g.last_proxels g)

same_ℤ-eq : (a b : ℤ) → same_ℤ a b ≡ true → a ≡ b
same_ℤ-eq a b h = ground arith

module _ (width height minimum : ℕ) (proxels : ProxelSet) (g : GraphGui) where
  unchanged :
      Synced g
      → (proxel_set_has_changed g.last_proxels proxels
          || gui_size_has_changed width height g
          || not (minimum == g.minimum_window_width))
        ≡ false
      → Current width minimum proxels g
  unfolding gui_size_has_changed
  unchanged synced h =
      let same_set = (proxel_set_has_changed-eq g.last_proxels proxels).0 (ground arith) in
      let same_width = same_ℤ-eq (pos width) g.width (ground arith) in
      let same_minimum : minimum ≡ g.minimum_window_width = ground arith in
      elim synced [
        | inl never ↦ absurd (cc)
        | inr (w, c) ↦
            let e : w ≡ width = ground (arith, c.width_kept) in
            record {
              proxels_kept = same_set;
              width_kept = sym same_width;
              minimum_kept = sym same_minimum;
              windows_kept =
                  c.windows_kept
                  ∙ ap (λ m. create_windows m w g.minimum_window_width g.max_ports_shown) same_set
                  ∙ ap (λ k. create_windows proxels k g.minimum_window_width g.max_ports_shown) e
                  ∙ ap (λ k. create_windows proxels width k g.max_ports_shown) (sym same_minimum);
            }
      ]

  pub update-Current :
      Synced g → Current width minimum proxels (update width height minimum proxels g)
  unfolding update lay_out
  update-Current synced =
      elim (Bool-cases (
        proxel_set_has_changed g.last_proxels proxels
        || gui_size_has_changed width height g
        || not (minimum == g.minimum_window_width))) [
          | inl changed ↦ rw changed (record {
            proxels_kept = refl;
            width_kept = refl;
            minimum_kept = refl;
            windows_kept = refl;
          })
          | inr same ↦ rw same (unchanged synced same)
        ]

-- It is so at first, and from then on.
pub make_gui-Synced : (max_ports_shown : ℕ) → Synced (make_gui max_ports_shown)
unfolding make_gui
make_gui-Synced max_ports_shown = inl refl

pub Current-Synced :
    (width minimum : ℕ) (proxels : ProxelSet) (g : GraphGui)
    → Current width minimum proxels g
    → Synced g
Current-Synced width minimum proxels g c = inr (
  width,
  record {
    proxels_kept = refl;
    width_kept = c.width_kept;
    minimum_kept = refl;
    windows_kept =
        c.windows_kept
        ∙ ap (λ m. create_windows m width minimum g.max_ports_shown) (sym c.proxels_kept)
        ∙ ap (λ k. create_windows g.last_proxels width k g.max_ports_shown) (sym c.minimum_kept);
  },
)

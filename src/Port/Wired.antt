-- ===== src/Port/Wired.antt =====
-- Well-formed nets, and what `disconnect()` does to them.
use superflow.Base.{
  ℕ, suc, ◌-◌, ◌≤◌, ◌≡◌, refl, sym, ap, ◌∙◌, Bool, true, false, not, ◌&&◌, ◌||◌, List, [], ◌∷◌,
  ◌==◌, arith, length, Option, some, inl, inr, ◌⊎◌, Bool-cases,
}
use superflow.Port.{
  Kind, producer, consumer, multi_consumer, requester, responder, multi_requester, host, client,
  Net, contains, set_links,
}
use superflow.Port.Disconnect.{everything, for_each, on_disconnect, disconnect, pointer_disconnect}
use superflow.Port.Sets.{length-remove-le, links-set_links, kind-set_links}
use superflow.Port.Isolate.{
  is_bounded, IsShort, Leads, links_of, Leads-cong, Leads-set_links, contains-nil,
}
use superflow.Port.Leave.{is_manager, IsKnown, leave, Leads-then, cleared-IsShort}
use superflow.Port.Cascade.{
  isolate_all, contains-isolate, contains-isolate_all, length-isolate_all-le, AreManagers, AllKnown,
  cascade,
}

-- Links go both ways, bounded classes hold at most one peer, and the peers of a producer, a
-- requester or a client are of the classes that their casts let through.
pub record IsWired (s : Net) : Type 0 where
  pub symmetric : (x y : ℕ) → contains y (s x).links ≡ contains x (s y).links
  pub short : IsShort s
  pub typed :
      (x y : ℕ)
      → is_manager (s x).kind ≡ false
      → contains y (s x).links ≡ true
      → is_manager (s y).kind ≡ true

-- The ports that lose all their links when `a` disconnects.
abbrev pub gone : Net → ℕ → ℕ → Bool
gone s a x = x == a || (not (is_manager (s a).kind) && contains x (s a).links)

-- The links of `t` are those of `s` with no end among those that leave.
pub record Severed (s : Net) (a : ℕ) (t : Net) : Type 0 where
  pub kinds : (x : ℕ) → (t x).kind ≡ (s x).kind
  pub remaining :
      (x y : ℕ)
      → contains y (t x).links ≡ (contains y (s x).links && not (gone s a x) && not (gone s a y))
  pub shorter : (x : ℕ) → length (t x).links ≤ length (s x).links

IsWired-IsKnown : (s : Net) (a : ℕ) → IsWired s → IsKnown a s
IsWired-IsKnown s a w x h = w.symmetric a x ∙ h

AllKnown-clear : (s : Net) (a : ℕ) → IsWired s → AllKnown a (set_links a [] s)
AllKnown-clear s a w y ne x h = ground (
  arith,
  h,
  links-set_links a [] s x,
  links-set_links a [] s y,
  w.symmetric x y,
  contains-nil y (set_links a [] s x).links,
)

cleared-le : (s : Net) (a x : ℕ) → length (set_links a [] s x).links ≤ length (s x).links
cleared-le s a x = ground (arith, links-set_links a [] s x)

managers_of :
    (s : Net) (a : ℕ) (cs : List ℕ)
    → is_manager (s a).kind ≡ false
    → ((y : ℕ) → contains y cs ≡ true → is_manager (s y).kind ≡ true)
    → AreManagers a (set_links a [] s) cs
unfolding contains
managers_of s a [] m h = tt
managers_of s a (c ∷ cs) m h = (
  ap is_manager (kind-set_links a [] s c) ∙ h c (ground arith),
  (λ e. ground (arith, h c)),
  managers_of s a cs m (λ y i. h y (ground arith)),
)

remaining_cascade :
    (s : Net) (a x y : ℕ)
    → IsWired s
    → is_manager (s a).kind ≡ false
    → contains y (isolate_all (s a).links (links_of (set_links a [] s)) x)
      ≡ (contains y (s x).links && not (gone s a x) && not (gone s a y))
remaining_cascade s a x y w m = ground (
  arith,
  contains-isolate_all (s a).links (links_of (set_links a [] s)) x y,
  links-set_links a [] s x,
  contains-nil y (set_links a [] s x).links,
  w.symmetric x a,
)

abbrev pub Effect : Option Net → Net → ℕ → Type 0
Effect r s a = (t : Net) × (r ≡ some t) × Severed s a t

Severed-cascade :
    (s : Net) (a : ℕ) {t : Net}
    → IsWired s
    → is_manager (s a).kind ≡ false
    → Leads s (isolate_all (s a).links (links_of (set_links a [] s))) t
    → Severed s a t
Severed-cascade s a w m l = record {
  kinds = l.kinds;
  remaining = λ x y. ap (contains y) (l.linked x) ∙ remaining_cascade s a x y w m;
  shorter = λ x. omega (
    arith,
    ap length (l.linked x),
    length-isolate_all-le (s a).links (links_of (set_links a [] s)) x,
    cleared-le s a x,
  );
}

short_cases : (ls : List ℕ) → length ls ≤ 1 → (ls ≡ []) ⊎ ((c : ℕ) × (ls ≡ c ∷ []))
short_cases [] h = inl refl
short_cases (c ∷ []) h = inr (c, refl)
short_cases (c ∷ d ∷ ls) h = absurd (omega arith)

Severed-none : (s : Net) (a : ℕ) → IsWired s → (s a).links ≡ [] → Severed s a s
Severed-none s a w e = record {
  kinds = λ x. refl;
  remaining = λ x y.
      ground (arith, w.symmetric x a, contains-nil y (s a).links e, contains-nil x (s a).links e);
  shorter = λ x. omega arith;
}

module _ (f a : ℕ) (s : Net) (w : IsWired s) where
  manager-Effect :
      is_manager (s a).kind ≡ true
      → Effect (disconnect (suc (suc (suc (suc f)))) everything a s) s a
  manager-Effect m =
      let (t, r, l) = leave f a s (IsWired-IsKnown s a w) w.short m in
      (
        t,
        r,
        record {
          kinds = l.kinds;
          remaining = λ x y.
              ap (contains y) (l.linked x) ∙ ground (arith, contains-isolate a (links_of s) x y, m);
          shorter = λ x. ground (arith, l.linked x, length-remove-le a (s x).links);
        },
      )

  producer-Effect :
      is_manager (s a).kind ≡ false
      → Effect
          (for_each
            (disconnect (suc (suc (suc (suc f)))) everything)
            (s a).links
            (set_links a [] s))
          s
          a
  producer-Effect m =
      let (t, r, l) =
        cascade f a (s a).links (set_links a [] s) (ground (arith, links-set_links a [] s a))
          (cleared-IsShort f a s (IsWired-IsKnown s a w) w.short) (AllKnown-clear s a w)
          (managers_of s a (s a).links m (λ y. w.typed a y m)) in
      (t, r, Severed-cascade s a w m (Leads-then _ (λ x. refl) (Leads-set_links s a []) l))

  pointer-Effect :
      is_manager (s a).kind ≡ false
      → is_bounded (s a).kind ≡ true
      → Effect (pointer_disconnect (disconnect (suc (suc (suc (suc f))))) a s) s a
  unfolding pointer_disconnect
  pointer-Effect m b = elim (short_cases (s a).links (w.short a b)) [
    | inl e ↦ (s, rw (e, pointer_disconnect) refl, Severed-none s a w e)
    | inr (c, e) ↦
        let ms : AreManagers a (set_links a [] s) (c ∷ []) =
          managers_of s a (c ∷ []) m (λ y i. w.typed a y m (ap (contains y) e ∙ i)) in
        let (t, r, l) =
          leave f c (set_links a [] s) (AllKnown-clear s a w c ms.1)
            (cleared-IsShort f a s (IsWired-IsKnown s a w) w.short) ms.0 in
        (
          t,
          rw (e, pointer_disconnect) r,
          Severed-cascade s a w m (
              Leads-cong (λ x. ap (λ ls. isolate_all ls (links_of (set_links a [] s)) x) (sym e))
                (Leads-then _ (λ x. refl) (Leads-set_links s a []) l)),
        )
  ]

-- The classes with no ConnectionManager
cascading :
    (f a : ℕ) (s : Net) (k : Kind)
    → (s a).kind ≡ k
    → is_manager k ≡ false
    → IsWired s
    → Effect (on_disconnect k (disconnect (suc (suc (suc (suc f))))) a s) s a
unfolding on_disconnect
cascading f a s producer e m w = producer-Effect f a s w (rw e refl)
cascading f a s requester e m w = pointer-Effect f a s w (rw e refl) (rw e refl)
cascading f a s client e m w = pointer-Effect f a s w (rw e refl) (rw e refl)
cascading f a s (consumer policy) e m w = cc
cascading f a s multi_consumer e m w = cc
cascading f a s responder e m w = cc
cascading f a s multi_requester e m w = cc
cascading f a s host e m w = cc

deep_enough :
    (f a : ℕ) (s : Net)
    → IsWired s
    → Effect (disconnect (suc (suc (suc (suc (suc f))))) everything a s) s a
unfolding disconnect
deep_enough f a s w = elim (Bool-cases (is_manager (s a).kind)) [
  | inl m ↦ manager-Effect (suc f) a s w m
  | inr m ↦ cascading f a s (s a).kind refl m w
]

-- In a well-formed net `disconnect()` of any port ends, five calls deep at most, and what is left
-- are the links with no end in `gone`: the port's own links, and for a producer, a requester or a
-- client also all the links that its peers have to others.
pub disconnect-Severed :
    (fuel a : ℕ) (s : Net)
    → IsWired s
    → 5 ≤ fuel
    → (t : Net) × (disconnect fuel everything a s ≡ some t) × Severed s a t
disconnect-Severed fuel a s w h =
    let e : fuel ≡ suc (suc (suc (suc (suc (fuel - 5))))) = omega arith in
    rw e (deep_enough (fuel - 5) a s w)

pub Severed-IsWired :
    (s : Net) (a : ℕ) {t : Net}
    → IsWired s
    → Severed s a t
    → IsWired t × ((x : ℕ) → (contains x (t a).links ≡ false) × (contains a (t x).links ≡ false))
Severed-IsWired s a {t} w v = (
  record {
    symmetric = λ x y. ground (arith, v.remaining x y, v.remaining y x, w.symmetric x y);
    short = λ x b. omega (arith, v.shorter x, w.short x (ap is_bounded (sym (v.kinds x)) ∙ b));
    typed = λ x y m h.
        ap is_manager (v.kinds y)
        ∙ w.typed x y (ap is_manager (sym (v.kinds x)) ∙ m) (ground (arith, v.remaining x y, h));
  },
  λ x. (ground (arith, v.remaining a x), ground (arith, v.remaining x a)),
)

-- In a well-formed net `disconnect()` of any port ends, keeps the net well formed, and leaves the
-- port with no link in either direction.
pub disconnect-IsWired :
    (fuel a : ℕ) (s : Net)
    → IsWired s
    → 5 ≤ fuel
    → (t : Net) × (disconnect fuel everything a s ≡ some t)
      × IsWired t
      × ((x : ℕ) → (contains x (t a).links ≡ false) × (contains a (t x).links ≡ false))
disconnect-IsWired fuel a s w h =
    let (t, r, v) = disconnect-Severed fuel a s w h in
    let u = Severed-IsWired s a w v in (t, r, u.0, u.1)

-- In a well-formed net, when a producer, a requester or a client `a` disconnects, every other port
-- `b` that shares a peer `c` with it loses its link to that peer too, in both directions.
pub disconnect_severs_others :
    (fuel a b c : ℕ) (s : Net)
    → IsWired s
    → 5 ≤ fuel
    → is_manager (s a).kind ≡ false
    → contains c (s a).links ≡ true
    → contains c (s b).links ≡ true
    → (t : Net) × (disconnect fuel everything a s ≡ some t)
      × (contains c (t b).links ≡ false)
      × (contains b (t c).links ≡ false)
disconnect_severs_others fuel a b c s w h m i j =
    let (t, r, v) = disconnect-Severed fuel a s w h in
    (t, r, ground (arith, v.remaining b c), ground (arith, v.remaining c b))

-- ===== src/Port/Leave.antt =====
-- `disconnect()` as a whole: which links it takes away.
use superflow.Base.{
  ℕ, suc, ◌≤◌, ◌≡◌, refl, sym, ap, ◌∙◌, Bool, true, false, List, [], ◌∷◌, ◌==◌, arith, length,
  if◌then◌else◌, some,
}
use superflow.Port.{
  Kind, producer, consumer, multi_consumer, requester, responder, multi_requester, host, client,
  Net, contains, remove, set_links, set_slots,
}
use superflow.Port.Disconnect.{everything, only, ◌>>=◌, for_each, on_disconnect, disconnect}
use superflow.Port.Sets.{remove_absent, remove_twice, length-remove-le, links-set_links}
use superflow.Port.Isolate.{
  is_bounded, IsShort, Leads, Yields, links_of, relink, Leads-refl, Leads-set_links,
  Leads-set_slots, severs,
}

pub Leads-then :
    {s m t : Net} {links other : ℕ → List ℕ} (goal : ℕ → List ℕ)
    → ((x : ℕ) → other x ≡ goal x)
    → Leads s links m
    → Leads m other t
    → Leads s goal t
Leads-then goal e l k = record {
  kinds = λ x. k.kinds x ∙ l.kinds x;
  linked = λ x. k.linked x ∙ e x;
}

pub IsShort-of :
    {s t : Net} {links : ℕ → List ℕ}
    → Leads s links t
    → ((x : ℕ) → length (links x) ≤ length (s x).links)
    → IsShort s
    → IsShort t
IsShort-of {s} {t} {links} l h short x b =
    omega (arith, ap length (l.linked x), h x, short x (ap is_bounded (sym (l.kinds x)) ∙ b))

-- The peers in `cs` lose `a`.
abbrev lose : Net → ℕ → List ℕ → ℕ → List ℕ
lose s a cs x = if contains x cs then remove a (s x).links else (s x).links

relink-le :
    (s : Net) (a c x : ℕ) → length (relink s c (remove a (s c).links) x) ≤ length (s x).links
relink-le s a c x = ground (arith, length-remove-le a (s c).links)

lose-step :
    (s m : Net) (a c : ℕ) (cs : List ℕ)
    → Leads s (relink s c (remove a (s c).links)) m
    → (x : ℕ) → lose m a cs x ≡ lose s a (c ∷ cs) x
unfolding contains
lose-step s m a c cs l x = ground (arith, l.linked x, remove_twice a (s c).links)

pub remove-nil : (b : ℕ) (ls : List ℕ) → ls ≡ [] → remove b ls ≡ []
unfolding remove
remove-nil b ls e = rw e refl

alone-step :
    (s m : Net) (a c : ℕ)
    → (s a).links ≡ []
    → Leads s (relink s c (remove a (s c).links)) m
    → (m a).links ≡ []
alone-step s m a c alone l = ground (arith, l.linked a, remove-nil a (s c).links)

loop :
    (f a : ℕ) (cs : List ℕ) (s : Net)
    → (s a).links ≡ []
    → IsShort s
    → Yields (for_each (disconnect (suc (suc (suc f))) (only a)) cs s) s (lose s a cs)
unfolding for_each contains
loop f a [] s alone short = (s, refl, Leads-refl s)
loop f a (c ∷ cs) s alone short =
    let (m, r, l) = severs f a c s alone short in
    let (t, q, k) =
      loop f a cs m (alone-step s m a c alone l) (IsShort-of l (relink-le s a c) short) in
    (t, rw (r, q) refl, Leads-then (lose s a (c ∷ cs)) (lose-step s m a c cs l) l k)

-- Every other class than a producer, a requester or a client: a ConnectionManager's loop.
abbrev pub is_manager : Kind → Bool
is_manager producer = false
is_manager requester = false
is_manager client = false
is_manager _ = true

-- Whoever holds `a` is held by `a`.
abbrev pub IsKnown : ℕ → Net → Type 0
IsKnown a s = (x : ℕ) → contains a (s x).links ≡ true → contains x (s a).links ≡ true

-- The links of a net where nobody holds `a`, and `a` holds nobody.
abbrev pub isolate : ℕ → (ℕ → List ℕ) → ℕ → List ℕ
isolate a links x = if x == a then [] else remove a (links x)

lose-isolate :
    (s : Net) (a x : ℕ)
    → IsKnown a s
    → lose (set_links a [] s) a (s a).links x ≡ isolate a (links_of s) x
lose-isolate s a x known = ground (
  arith,
  links-set_links a [] s x,
  known x,
  remove_absent a (s x).links,
  remove-nil a (set_links a [] s x).links,
)

module _ (f a : ℕ) (s : Net) (known : IsKnown a s) (short : IsShort s) where
  pub cleared-IsShort : IsShort (set_links a [] s)
  cleared-IsShort = IsShort-of (Leads-set_links s a []) (λ x. ground arith) short

  managed :
      Yields
        (for_each (disconnect (suc (suc (suc f))) (only a)) (s a).links (set_links a [] s))
        s
        (isolate a (links_of s))
  managed =
      let (t, r, k) =
        loop f a (s a).links (set_links a [] s) (ground (arith, links-set_links a [] s a))
          cleared-IsShort in
      (
        t,
        r,
        Leads-then (isolate a (links_of s)) (λ x. lose-isolate s a x known) (Leads-set_links s a [])
            k,
      )

  slotted :
      Yields
        (for_each (disconnect (suc (suc (suc f))) (only a)) (s a).links (set_links a [] s) >>= λ t.
          some (set_slots a [] t))
        s
        (isolate a (links_of s))
  slotted =
      let (t, r, k) = managed in
      (set_slots a [] t, rw r refl, Leads-set_slots s t (isolate a (links_of s)) a [] k)

  leave_kind :
      (k : Kind)
      → is_manager k ≡ true
      → Yields (on_disconnect k (disconnect (suc (suc (suc f)))) a s) s (isolate a (links_of s))
  unfolding on_disconnect
  leave_kind producer e = cc
  leave_kind (consumer policy) e = managed
  leave_kind multi_consumer e = slotted
  leave_kind requester e = cc
  leave_kind responder e = managed
  leave_kind multi_requester e = slotted
  leave_kind host e = managed
  leave_kind client e = cc

  -- A port with a ConnectionManager leaves the net, and no other link is touched.
  pub leave :
      is_manager (s a).kind ≡ true
      → Yields (disconnect (suc (suc (suc (suc f)))) everything a s) s (isolate a (links_of s))
  unfolding disconnect
  leave e = leave_kind (s a).kind e

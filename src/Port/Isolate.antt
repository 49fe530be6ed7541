-- ===== src/Port/Isolate.antt =====
-- What a call of `disconnect` does to the links of a net, one virtual call at a time.
use superflow.Base.{
  ℕ, suc, ◌≤◌, ◌≡◌, refl, ◌∙◌, Bool, true, false, List, [], ◌∷◌, ◌==◌, arith, length, if◌then◌else◌,
  Option, some, inl, inr, Bool-cases,
}
use superflow.Policy.{single, multi}
use superflow.Port.{
  Kind, producer, consumer, multi_consumer, requester, responder, multi_requester, host, client,
  Net, contains, remove, is_front, set_links, set_slots,
}
use superflow.Port.Disconnect.{
  everything, only, Virtual, for_each, on_disconnect, on_disconnect_from, disconnect,
  pointer_disconnect, pointer_disconnect_from,
}
use superflow.Port.Sets.{
  remove_absent, is_front_short, remove_short, links-set_links, kind-set_links, links-set_slots,
  kind-set_slots,
}

-- Classes that hold at most one peer.
abbrev pub is_bounded : Kind → Bool
is_bounded (consumer single) = true
is_bounded requester = true
is_bounded client = true
is_bounded _ = false

-- Classes whose `disconnect()` calls `disconnect()` of the peer, and not `disconnect(ptr)`.
abbrev pub is_pointer : Kind → Bool
is_pointer requester = true
is_pointer client = true
is_pointer _ = false

abbrev pub IsShort : Net → Type 0
IsShort s = (x : ℕ) → is_bounded (s x).kind ≡ true → length (s x).links ≤ 1

-- The call ends, in a net with the same ports and these links.
pub record Leads (s : Net) (links : ℕ → List ℕ) (t : Net) : Type 0 where
  pub kinds : (x : ℕ) → (t x).kind ≡ (s x).kind
  pub linked : (x : ℕ) → (t x).links ≡ links x

abbrev pub Yields : Option Net → Net → (ℕ → List ℕ) → Type 0
Yields r s links = (t : Net) × (r ≡ some t) × Leads s links t

abbrev pub links_of : Net → ℕ → List ℕ
links_of s x = (s x).links

pub Leads-refl : (s : Net) → Leads s (links_of s) s
Leads-refl s = record { kinds = λ x. refl; linked = λ x. refl }

pub Leads-set_slots :
    (s t : Net) (links : ℕ → List ℕ) (a : ℕ) (ls : List ℕ)
    → Leads s links t
    → Leads s links (set_slots a ls t)
Leads-set_slots s t links a ls l = record {
  kinds = λ x. kind-set_slots a ls t x ∙ l.kinds x;
  linked = λ x. links-set_slots a ls t x ∙ l.linked x;
}

for_each-nil :
    (f : ℕ → Net → Option Net) (xs : List ℕ) (s : Net) → xs ≡ [] → for_each f xs s ≡ some s
unfolding for_each
for_each-nil f xs s e = rw e

pub Leads-clear_empty :
    (a : ℕ) (s : Net) → (s a).links ≡ [] → Leads s (links_of s) (set_links a [] s)
Leads-clear_empty a s e = record {
  kinds = kind-set_links a [] s;
  linked = λ x. ground (arith, links-set_links a [] s x);
}

-- A port with no peers does nothing.
silent_all :
    (k : Kind) (call : Virtual) (a : ℕ) (s : Net)
    → (s a).links ≡ []
    → Yields (on_disconnect k call a s) s (links_of s)
unfolding on_disconnect
silent_all producer call a s e = (set_links a [] s, for_each-nil _ _ _ e, Leads-clear_empty a s e)
silent_all (consumer p) call a s e =
    (set_links a [] s, for_each-nil _ _ _ e, Leads-clear_empty a s e)
silent_all responder call a s e = (set_links a [] s, for_each-nil _ _ _ e, Leads-clear_empty a s e)
silent_all host call a s e = (set_links a [] s, for_each-nil _ _ _ e, Leads-clear_empty a s e)
silent_all multi_consumer call a s e = (
  set_slots a [] (set_links a [] s),
  rw (for_each-nil (call (only a)) (s a).links (set_links a [] s) e) refl,
  Leads-set_slots s _ _ a [] (Leads-clear_empty a s e),
)
silent_all multi_requester call a s e = (
  set_slots a [] (set_links a [] s),
  rw (for_each-nil (call (only a)) (s a).links (set_links a [] s) e) refl,
  Leads-set_slots s _ _ a [] (Leads-clear_empty a s e),
)
silent_all requester call a s e = (s, rw (e, pointer_disconnect) refl, Leads-refl s)
silent_all client call a s e = (s, rw (e, pointer_disconnect) refl, Leads-refl s)

-- A port that does not hold `b` ignores `disconnect(b)`, up to its slots.
ignores :
    (k : Kind) (call : Virtual) (a b : ℕ) (s : Net)
    → contains b (s a).links ≡ false
    → is_front b (s a).links ≡ false
    → Yields (on_disconnect_from k call a b s) s (links_of s)
unfolding on_disconnect_from
ignores producer call a b s c i = (s, rw c refl, Leads-refl s)
ignores (consumer multi) call a b s c i = (s, rw c refl, Leads-refl s)
ignores (consumer single) call a b s c i = (s, rw i refl, Leads-refl s)
ignores multi_consumer call a b s c i =
    (set_slots a (remove b (s a).slots) s, rw c refl, Leads-set_slots s s _ a _ (Leads-refl s))
ignores responder call a b s c i = (s, rw c refl, Leads-refl s)
ignores multi_requester call a b s c i =
    (set_slots a (remove b (s a).slots) s, rw c refl, Leads-set_slots s s _ a _ (Leads-refl s))
ignores host call a b s c i = (s, rw c refl, Leads-refl s)
ignores requester call a b s c i = (s, rw i refl, Leads-refl s)
ignores client call a b s c i = (s, rw i refl, Leads-refl s)

pub Leads-trans :
    {s m t : Net} {links : ℕ → List ℕ} → Leads s links m → Leads m (links_of m) t → Leads s links t
Leads-trans l k = record {
  kinds = λ x. k.kinds x ∙ l.kinds x;
  linked = λ x. k.linked x ∙ l.linked x;
}

pub Leads-cong :
    {s t : Net} {links other : ℕ → List ℕ}
    → ((x : ℕ) → links x ≡ other x)
    → Leads s links t
    → Leads s other t
Leads-cong e l = record { kinds = l.kinds; linked = λ x. l.linked x ∙ e x }

-- `ls` in the place of the links of `a`
abbrev pub relink : Net → ℕ → List ℕ → ℕ → List ℕ
relink s a ls x = if x == a then ls else (s x).links

pub Leads-set_links : (s : Net) (a : ℕ) (ls : List ℕ) → Leads s (relink s a ls) (set_links a ls s)
Leads-set_links s a ls = record { kinds = kind-set_links a ls s; linked = links-set_links a ls s }

pub front_absent : (b : ℕ) (ls : List ℕ) → contains b ls ≡ false → is_front b ls ≡ false
unfolding contains is_front
front_absent b [] h = refl
front_absent b (x ∷ xs) h = ground arith

pub front_present : (b : ℕ) (ls : List ℕ) → length ls ≤ 1 → contains b ls ≡ true → ls ≡ b ∷ []
unfolding contains
front_present b [] h c = cc
front_present b (x ∷ []) h c = ground arith
front_present b (x ∷ y ∷ ys) h c = absurd (omega arith)

pub contains-nil : (b : ℕ) (ls : List ℕ) → ls ≡ [] → contains b ls ≡ false
unfolding contains
contains-nil b ls e = rw e refl

-- The rest of a step that has changed the links of `c` and goes on with a call that does nothing.
finish :
    (s : Net) (c : ℕ) (ls : List ℕ) (r : Option Net)
    → Yields r (set_links c ls s) (links_of (set_links c ls s))
    → Yields r s (relink s c ls)
finish s c ls r (t, e, l) = (t, e, Leads-trans (Leads-set_links s c ls) l)

pointer_leaves :
    (call : Virtual) (c a : ℕ) (s : Net)
    → (s c).links ≡ a ∷ []
    → pointer_disconnect_from call c a s ≡ call everything a (set_links c [] s)
unfolding pointer_disconnect_from is_front
pointer_leaves call c a s e = rw (e, pointer_disconnect) (ground arith)

severs_free :
    (f a c : ℕ) (s : Net)
    → contains a (s c).links ≡ false
    → Yields (disconnect (suc f) (only a) c s) s (relink s c (remove a (s c).links))
unfolding disconnect
severs_free f a c s free =
    let (t, r, l) =
      ignores (s c).kind (disconnect f) c a s free (front_absent a (s c).links free) in
    (t, r, Leads-cong (λ x. ground (arith, remove_absent a (s c).links)) l)

-- A port with no peers is told that `c` has left; `c` was its peer as far as `c` knew.
module _ (f a c : ℕ) (s : Net) (alone : (s a).links ≡ [])
    (held : contains a (s c).links ≡ true) where
  still_alone : (ls : List ℕ) → (set_links c ls s a).links ≡ []
  still_alone ls = ground (
    arith,
    links-set_links c ls s a,
    contains-nil a (s c).links,
    contains-nil c (s c).links,
    alone,
  )

  told :
      (ls : List ℕ)
      → Yields (disconnect (suc (suc f)) (only c) a (set_links c ls s)) s (relink s c ls)
  unfolding disconnect
  told ls = finish s c ls _ (
      ignores (set_links c ls s a).kind (disconnect (suc f)) a c (set_links c ls s)
        (contains-nil c _ (still_alone ls))
        (front_absent c (set_links c ls s a).links (contains-nil c _ (still_alone ls))))

  told_all :
      (ls : List ℕ)
      → Yields (disconnect (suc (suc f)) everything a (set_links c ls s)) s (relink s c ls)
  unfolding disconnect
  told_all ls = finish s c ls _ (
      silent_all (set_links c ls s a).kind (disconnect (suc f)) a (set_links c ls s)
        (still_alone ls))

  severs_pointer :
      length (s c).links ≤ 1
      → Yields
          (pointer_disconnect_from (disconnect (suc (suc f))) c a s)
          s
          (relink s c (remove a (s c).links))
  severs_pointer short =
      rw
        (
          pointer_leaves (disconnect (suc (suc f))) c a s (front_present a (s c).links short held),
          remove_short a (s c).links short held,
        )
        (told_all [])

  severs_kind :
      (k : Kind)
      → (s c).kind ≡ k
      → IsShort s
      → Yields
          (on_disconnect_from k (disconnect (suc (suc f))) c a s)
          s
          (relink s c (remove a (s c).links))
  unfolding on_disconnect_from
  severs_kind producer e h = rw held (told (remove a (s c).links))
  severs_kind (consumer multi) e h = rw held (told (remove a (s c).links))
  severs_kind responder e h = rw held (told (remove a (s c).links))
  severs_kind host e h = rw held (told (remove a (s c).links))
  severs_kind multi_consumer e h =
      let (t, r, l) = told (remove a (s c).links) in
      (set_slots c (remove a (t c).slots) t, rw (held, r) refl, Leads-set_slots s t _ c _ l)
  severs_kind multi_requester e h =
      let (t, r, l) = told (remove a (s c).links) in
      (set_slots c (remove a (t c).slots) t, rw (held, r) refl, Leads-set_slots s t _ c _ l)
  severs_kind (consumer single) e h =
      let short = h c (rw e refl) in
      rw (is_front_short a (s c).links short ∙ held, remove_short a (s c).links short held)
        (told [])
  severs_kind requester e h = severs_pointer (h c (rw e refl))
  severs_kind client e h = severs_pointer (h c (rw e refl))

  -- `a` has no peers: `disconnect(a)` takes it out of the links of `c`.
  severs_held :
      IsShort s
      → Yields (disconnect (suc (suc (suc f))) (only a) c s) s (relink s c (remove a (s c).links))
  unfolding disconnect
  severs_held h = severs_kind (s c).kind refl h

pub severs :
    (f a c : ℕ) (s : Net)
    → (s a).links ≡ []
    → IsShort s
    → Yields (disconnect (suc (suc (suc f))) (only a) c s) s (relink s c (remove a (s c).links))
severs f a c s alone h = elim (Bool-cases (contains a (s c).links)) [
  | inl held ↦ severs_held f a c s alone held h
  | inr free ↦ severs_free (suc (suc f)) a c s free
]

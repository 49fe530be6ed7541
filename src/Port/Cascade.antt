-- ===== src/Port/Cascade.antt =====
-- `disconnect()` of a producer, a requester or a client, which makes its peers disconnect.
use mathlib.Core.Path.{fun_ext}
use superflow.Base.{
  ℕ, suc, ◌≤◌, ◌≡◌, ◌≢◌, refl, ap, ◌∙◌, true, not, ◌&&◌, List, [], ◌∷◌, ◌==◌, arith, length,
}
use superflow.Port.{Net, contains}
use superflow.Port.Disconnect.{everything, for_each, disconnect}
use superflow.Port.Sets.{contains-remove, length-remove-le}
use superflow.Port.Isolate.{IsShort, Leads, Yields, links_of, Leads-refl}
use superflow.Port.Leave.{is_manager, IsKnown, isolate, leave, Leads-then, IsShort-of, remove-nil}

abbrev pub isolate_all : List ℕ → (ℕ → List ℕ) → ℕ → List ℕ
isolate_all [] links = links
isolate_all (c ∷ cs) links = isolate_all cs (isolate c links)

pub contains-isolate :
    (c : ℕ) (links : ℕ → List ℕ) (x y : ℕ)
    → contains y (isolate c links x) ≡ (contains y (links x) && not (x == c) && not (y == c))
unfolding contains
contains-isolate c links x y = ground (arith, contains-remove y c (links x))

-- A link stays exactly if neither end is among those that leave.
pub contains-isolate_all :
    (cs : List ℕ) (links : ℕ → List ℕ) (x y : ℕ)
    → contains y (isolate_all cs links x)
      ≡ (contains y (links x) && not (contains x cs) && not (contains y cs))
unfolding contains
contains-isolate_all [] links x y = ground arith
contains-isolate_all (c ∷ cs) links x y =
    ground (arith, contains-isolate_all cs (isolate c links) x y, contains-isolate c links x y)

pub length-isolate_all-le :
    (cs : List ℕ) (links : ℕ → List ℕ) (x : ℕ) → length (isolate_all cs links x) ≤ length (links x)
length-isolate_all-le [] links x = omega arith
length-isolate_all-le (c ∷ cs) links x =
    ground (arith, length-isolate_all-le cs (isolate c links) x, length-remove-le c (links x))

-- Ports with a ConnectionManager, other than `a`
abbrev pub AreManagers : ℕ → Net → List ℕ → Type 0
AreManagers a s [] = Unit
AreManagers a s (c ∷ cs) = (is_manager (s c).kind ≡ true) × (c ≢ a) × AreManagers a s cs

AreManagers-of :
    (a : ℕ) {s m : Net} {links : ℕ → List ℕ} (cs : List ℕ)
    → Leads s links m
    → AreManagers a s cs
    → AreManagers a m cs
AreManagers-of a [] l h = tt
AreManagers-of a (c ∷ cs) l h = (ap is_manager (l.kinds c) ∙ h.0, h.1, AreManagers-of a cs l h.2)

abbrev pub AllKnown : ℕ → Net → Type 0
AllKnown a s = (y : ℕ) → y ≢ a → IsKnown y s

AllKnown-isolate :
    (a c : ℕ) {s m : Net} → Leads s (isolate c (links_of s)) m → AllKnown a s → AllKnown a m
AllKnown-isolate a c {s} {m} l known y ne x h = ground (
  arith,
  h,
  l.linked x,
  l.linked y,
  contains-isolate c (links_of s) x y,
  contains-isolate c (links_of s) y x,
  known y ne x,
)

pub cascade :
    (f a : ℕ) (cs : List ℕ) (s : Net)
    → (s a).links ≡ []
    → IsShort s
    → AllKnown a s
    → AreManagers a s cs
    → Yields
        (for_each (disconnect (suc (suc (suc (suc f)))) everything) cs s)
        s
        (isolate_all cs (links_of s))
unfolding for_each
cascade f a [] s alone short known managers = (s, refl, Leads-refl s)
cascade f a (c ∷ cs) s alone short known managers =
    let (m, r, l) = leave f c s (known c managers.1) short managers.0 in
    let (t, q, k) =
      cascade f a cs m (l.linked a ∙ ground (arith, remove-nil c (s a).links))
        (IsShort-of l (λ x. ground (arith, length-remove-le c (s x).links)) short)
        (AllKnown-isolate a c l known) (AreManagers-of a cs l managers.2) in
    (
      t,
      rw (r, q) refl,
      Leads-then (isolate_all (c ∷ cs) (links_of s))
          (λ x. ap (λ (g : ℕ → List ℕ). isolate_all cs g x) (fun_ext l.linked)) l k,
    )

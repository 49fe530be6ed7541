-- ===== src/Port/Sets.antt =====
-- Laws of the sets of links.
use superflow.Base.{
  ℕ, ◌≤◌, ◌≡◌, refl, true, false, List, [], ◌∷◌, ◌==◌, arith, length, if◌then◌else◌,
}
use superflow.Port.{Net, contains, remove, is_front, set_links, set_slots}

pub contains-remove :
    (x b : ℕ) (ls : List ℕ) → contains x (remove b ls) ≡ (if x == b then false else contains x ls)
unfolding contains remove
contains-remove x b [] = ground arith
contains-remove x b (y ∷ ys) = ground (arith, contains-remove x b ys)

pub remove_absent : (b : ℕ) (ls : List ℕ) → contains b ls ≡ false → remove b ls ≡ ls
unfolding contains remove
remove_absent b [] h = refl
remove_absent b (y ∷ ys) h = ground (arith, remove_absent b ys)

pub remove_twice : (b : ℕ) (ls : List ℕ) → remove b (remove b ls) ≡ remove b ls
remove_twice b ls = remove_absent b (remove b ls) (ground (arith, contains-remove b b ls))

pub length-remove-le : (b : ℕ) (ls : List ℕ) → length (remove b ls) ≤ length ls
unfolding remove
length-remove-le b [] = omega arith
length-remove-le b (y ∷ ys) = ground (arith, length-remove-le b ys)

-- In a list of at most one port, the front is all there is.
pub is_front_short : (b : ℕ) (ls : List ℕ) → length ls ≤ 1 → is_front b ls ≡ contains b ls
unfolding is_front contains
is_front_short b [] h = refl
is_front_short b (x ∷ []) h = ground arith
is_front_short b (x ∷ y ∷ ys) h = absurd (omega arith)

pub remove_short : (b : ℕ) (ls : List ℕ) → length ls ≤ 1 → contains b ls ≡ true → remove b ls ≡ []
unfolding contains remove
remove_short b [] h c = refl
remove_short b (x ∷ []) h c = ground arith
remove_short b (x ∷ y ∷ ys) h c = absurd (omega arith)

pub links-set_links :
    (a : ℕ) (ls : List ℕ) (s : Net) (x : ℕ)
    → (set_links a ls s x).links ≡ (if x == a then ls else (s x).links)
unfolding set_links
links-set_links a ls s x = ground arith

pub kind-set_links :
    (a : ℕ) (ls : List ℕ) (s : Net) (x : ℕ) → (set_links a ls s x).kind ≡ (s x).kind
unfolding set_links
kind-set_links a ls s x = ground arith

pub links-set_slots :
    (a : ℕ) (ls : List ℕ) (s : Net) (x : ℕ) → (set_slots a ls s x).links ≡ (s x).links
unfolding set_slots
links-set_slots a ls s x = ground arith

pub kind-set_slots :
    (a : ℕ) (ls : List ℕ) (s : Net) (x : ℕ) → (set_slots a ls s x).kind ≡ (s x).kind
unfolding set_slots
kind-set_slots a ls s x = ground arith

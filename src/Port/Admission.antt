-- ===== src/Port/Admission.antt =====
-- One call of `connect`, given what the peer's answering call does.
use superflow.Base.{
  ℕ, ◌≡◌, refl, Bool, true, false, List, [], ◌∷◌, arith, if◌then◌else◌, Option, none, some,
  is_empty, Exception, invalid_argument, runtime_error,
}
use superflow.Policy.{single, multi}
use superflow.Port.{
  Kind, producer, consumer, multi_consumer, requester, responder, multi_requester, host, client,
  Net, Port, contains, add, set_links, set_slots,
}
use superflow.Port.Isolate.{Leads, links_of, Leads-refl, Leads-set_slots, front_absent}
use superflow.Port.Connect.{
  Verdict, done, raised, Peer, on_connect, accepts_data, accepts_requests, is_slave, hosts,
}

-- Why a port refuses a new peer, if it does.
unfoldable pub refusal : Kind → Port → Port → Option Exception
refusal producer p q = if accepts_data p q then none else some invalid_argument
refusal (consumer single) p q = if is_empty p.links then none else some invalid_argument
refusal (consumer multi) p q = none
refusal multi_consumer p q = none
refusal requester p q =
    if accepts_requests p q
    then if is_empty p.links then none else some runtime_error
    else some invalid_argument
refusal responder p q = none
refusal multi_requester p q = if is_slave p q then none else some invalid_argument
refusal host p q = none
refusal client p q = if hosts p q then none else some invalid_argument

abbrev pub is_client : Kind → Bool
is_client client = true
is_client _ = false

-- The classes whose `connect` catches the exception of the peer's and takes the link back.
abbrev pub handles : Kind → Bool
handles producer = false
handles requester = false
handles client = false
handles _ = true

-- A refusing port throws at once.
pub refused :
    (k : Kind) (fuel : ℕ) (peer : Peer) (a b : ℕ) (s : Net) (e : Exception)
    → is_client k ≡ false
    → contains b (s a).links ≡ false
    → refusal k (s a) (s b) ≡ some e
    → on_connect k fuel peer a b s ≡ raised e s
unfolding on_connect refusal
refused producer fuel peer a b s e c n h = ground arith
refused (consumer single) fuel peer a b s e c n h = ground (arith, front_absent b (s a).links n)
refused (consumer multi) fuel peer a b s e c n h = cc
refused multi_consumer fuel peer a b s e c n h = cc
refused requester fuel peer a b s e c n h = ground (arith, front_absent b (s a).links n)
refused responder fuel peer a b s e c n h = cc
refused multi_requester fuel peer a b s e c n h = ground arith
refused host fuel peer a b s e c n h = cc
refused client fuel peer a b s e c n h = cc

-- The link is entered before the peer is called.
abbrev pub entered : ℕ → ℕ → Net → Net
entered a b s = set_links a (b ∷ (s a).links) s

pub is_empty→nil : (ls : List ℕ) → is_empty ls ≡ true → ls ≡ []
is_empty→nil [] h = refl
is_empty→nil (x ∷ xs) h = cc

abbrev pub Finishes : Verdict → Net → Type 0
Finishes v t = (u : Net) × (v ≡ done u) × Leads t (links_of t) u

-- The peer accepts, and so does the call.
pub accepted :
    (k : Kind) (fuel : ℕ) (peer : Peer) (a b : ℕ) (s t : Net)
    → is_client k ≡ false
    → contains b (s a).links ≡ false
    → refusal k (s a) (s b) ≡ none
    → peer (entered a b s) ≡ done t
    → Finishes (on_connect k fuel peer a b s) t
unfolding on_connect refusal
accepted producer fuel peer a b s t c n h p = (t, ground arith, Leads-refl t)
accepted (consumer single) fuel peer a b s t c n h p =
    (t, ground (arith, front_absent b (s a).links n), Leads-refl t)
accepted (consumer multi) fuel peer a b s t c n h p = (t, ground arith, Leads-refl t)
accepted multi_consumer fuel peer a b s t c n h p =
    (set_slots a (add b (t a).slots) t, ground arith, Leads-set_slots t t _ a _ (Leads-refl t))
accepted requester fuel peer a b s t c n h p =
    (t, ground (arith, front_absent b (s a).links n, is_empty→nil (s a).links), Leads-refl t)
accepted responder fuel peer a b s t c n h p = (t, ground arith, Leads-refl t)
accepted multi_requester fuel peer a b s t c n h p =
    (set_slots a (add b (t a).slots) t, ground arith, Leads-set_slots t t _ a _ (Leads-refl t))
accepted host fuel peer a b s t c n h p = (t, ground arith, Leads-refl t)
accepted client fuel peer a b s t c n h p = cc

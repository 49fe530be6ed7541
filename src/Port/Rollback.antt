-- ===== src/Port/Rollback.antt =====
-- What a call of `connect` leaves when the peer refuses.
use superflow.Base.{ℕ, ◌≡◌, sym, ap, ◌∙◌, true, false, List, [], ◌∷◌, arith, none, Exception}
use superflow.Policy.{single, multi}
use superflow.Port.{
  Kind, producer, consumer, multi_consumer, requester, responder, multi_requester, host, client,
  Net, contains, remove, set_links,
}
use superflow.Port.Sets.{links-set_links, kind-set_links, remove_absent}
use superflow.Port.Isolate.{Leads, links_of, front_absent}
use superflow.Port.Connect.{Verdict, raised, Peer, on_connect}
use superflow.Port.Admission.{refusal, is_client, handles, entered, is_empty→nil}

-- Taking the link back restores the links.
undone :
    (a b : ℕ) (s : Net) (ls : List ℕ)
    → ls ≡ (s a).links
    → Leads s (links_of s) (set_links a ls (entered a b s))
undone a b s ls e = record {
  kinds = λ x. kind-set_links a ls (entered a b s) x ∙ kind-set_links a _ s x;
  linked = λ x.
      ground
        (arith, links-set_links a ls (entered a b s) x, links-set_links a (b ∷ (s a).links) s x);
}

remove-entered :
    (a b : ℕ) (s : Net)
    → contains b (s a).links ≡ false
    → remove b (entered a b s a).links ≡ (s a).links
unfolding remove
remove-entered a b s n =
    ap (remove b) (links-set_links a (b ∷ (s a).links) s a)
    ∙ ground (arith, remove_absent b (s a).links)

abbrev pub RollsBack : Verdict → Exception → Net → Type 0
RollsBack v e s = (t : Net) × (v ≡ raised e t) × Leads s (links_of s) t

pub rolled_back :
    (k : Kind) (fuel : ℕ) (peer : Peer) (a b : ℕ) (s : Net) (e : Exception)
    → handles k ≡ true
    → contains b (s a).links ≡ false
    → refusal k (s a) (s b) ≡ none
    → peer (entered a b s) ≡ raised e (entered a b s)
    → RollsBack (on_connect k fuel peer a b s) e s
unfolding on_connect refusal
rolled_back producer fuel peer a b s e c n h p = cc
rolled_back (consumer single) fuel peer a b s e c n h p = (
  _,
  ground (arith, front_absent b (s a).links n),
  undone a b s [] (sym (is_empty→nil (s a).links (ground arith))),
)
rolled_back (consumer multi) fuel peer a b s e c n h p =
    (_, ground arith, undone a b s _ (remove-entered a b s n))
rolled_back multi_consumer fuel peer a b s e c n h p =
    (_, ground arith, undone a b s _ (remove-entered a b s n))
rolled_back requester fuel peer a b s e c n h p = cc
rolled_back responder fuel peer a b s e c n h p =
    (_, ground arith, undone a b s _ (remove-entered a b s n))
rolled_back multi_requester fuel peer a b s e c n h p =
    (_, ground arith, undone a b s _ (remove-entered a b s n))
rolled_back host fuel peer a b s e c n h p =
    (_, ground arith, undone a b s _ (remove-entered a b s n))
rolled_back client fuel peer a b s e c n h p = cc

pub not_rolled_back :
    (k : Kind) (fuel : ℕ) (peer : Peer) (a b : ℕ) (s : Net) (e : Exception)
    → handles k ≡ false
    → is_client k ≡ false
    → contains b (s a).links ≡ false
    → refusal k (s a) (s b) ≡ none
    → peer (entered a b s) ≡ raised e (entered a b s)
    → on_connect k fuel peer a b s ≡ raised e (entered a b s)
unfolding on_connect refusal
not_rolled_back producer fuel peer a b s e c d n h p = ground arith
not_rolled_back (consumer single) fuel peer a b s e c d n h p = cc
not_rolled_back (consumer multi) fuel peer a b s e c d n h p = cc
not_rolled_back multi_consumer fuel peer a b s e c d n h p = cc
not_rolled_back requester fuel peer a b s e c d n h p =
    ground (arith, front_absent b (s a).links n, is_empty→nil (s a).links)
not_rolled_back responder fuel peer a b s e c d n h p = cc
not_rolled_back multi_requester fuel peer a b s e c d n h p = cc
not_rolled_back host fuel peer a b s e c d n h p = cc
not_rolled_back client fuel peer a b s e c d n h p = cc

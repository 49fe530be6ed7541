-- ===== src/Port/Handshake.antt =====
-- The three nested calls by which two ports enter each other: `a->connect(b)` calls
-- `b->connect(a)`, which calls `a->connect(b)` again.
use superflow.Base.{
  ℕ, suc, ◌≡◌, ◌≢◌, refl, sym, ap, ◌∙◌, Bool, true, false, List, ◌∷◌, arith, none, some, Exception,
}
use superflow.Policy.{single, multi}
use superflow.Port.{
  Kind, producer, consumer, multi_consumer, requester, responder, multi_requester, host, client,
  Net, Port, contains, add, is_front, set_links, set_slots, update,
}
use superflow.Port.Sets.{kind-set_links}
use superflow.Port.Isolate.{Leads, links_of, Leads-refl, Leads-trans, Leads-set_slots}
use superflow.Port.Connect.{
  done, raised, Peer, on_connect, connect, accepts_data, accepts_requests, is_slave, hosts,
}
use superflow.Port.Admission.{refusal, is_client, refused, entered, Finishes, accepted}

-- The test on the class of the peer that comes first in a call on a port that has the peer already
abbrev pub admits : Kind → Port → Port → Bool
admits producer p q = accepts_data p q
admits multi_requester p q = is_slave p q
admits _ p q = true

refusal-admits : (k : Kind) (p q : Port) → refusal k p q ≡ none → admits k p q ≡ true
unfolding refusal accepts_data accepts_requests is_slave hosts
refusal-admits producer p q h = ground arith
refusal-admits (consumer policy) p q h = refl
refusal-admits multi_consumer p q h = refl
refusal-admits requester p q h = refl
refusal-admits responder p q h = refl
refusal-admits multi_requester p q h = ground arith
refusal-admits host p q h = refl
refusal-admits client p q h = refl

-- A second call for the same peer changes nothing.
again :
    (k : Kind) (fuel : ℕ) (peer : Peer) (a b : ℕ) (ls : List ℕ) (s : Net)
    → is_client k ≡ false
    → (s a).links ≡ b ∷ ls
    → admits k (s a) (s b) ≡ true
    → Finishes (on_connect k fuel peer a b s) s
unfolding on_connect contains is_front
again producer fuel peer a b ls s c e h = (s, ground arith, Leads-refl s)
again (consumer single) fuel peer a b ls s c e h = (s, ground arith, Leads-refl s)
again (consumer multi) fuel peer a b ls s c e h = (s, ground arith, Leads-refl s)
again multi_consumer fuel peer a b ls s c e h =
    (set_slots a (add b (s a).slots) s, ground arith, Leads-set_slots s s _ a _ (Leads-refl s))
again requester fuel peer a b ls s c e h = (s, ground arith, Leads-refl s)
again responder fuel peer a b ls s c e h = (s, ground arith, Leads-refl s)
again multi_requester fuel peer a b ls s c e h =
    (set_slots a (add b (s a).slots) s, ground arith, Leads-set_slots s s _ a _ (Leads-refl s))
again host fuel peer a b ls s c e h = (s, ground arith, Leads-refl s)
again client fuel peer a b ls s c e h = cc

-- The links of `s` and this one
abbrev pub both_entered : ℕ → ℕ → Net → Net
both_entered a b s = entered b a (entered a b s)

abbrev with_links : Port → List ℕ → Port
with_links p ls = record p { links = ls }

entered_self : (a b : ℕ) (s : Net) → entered a b s a ≡ with_links (s a) (b ∷ (s a).links)
unfolding set_links update
entered_self a b s = ground arith

entered_other : (a b x : ℕ) (s : Net) → x ≢ a → entered a b s x ≡ s x
unfolding set_links update
entered_other a b x s h = ground arith

-- No answer depends on the links of the other port.
refusal-with_links :
    (k : Kind) (p q : Port) (ls : List ℕ) → refusal k p (with_links q ls) ≡ refusal k p q
unfolding refusal accepts_data accepts_requests is_slave hosts
refusal-with_links producer p q ls = refl
refusal-with_links (consumer single) p q ls = refl
refusal-with_links (consumer multi) p q ls = refl
refusal-with_links multi_consumer p q ls = refl
refusal-with_links requester p q ls = refl
refusal-with_links responder p q ls = refl
refusal-with_links multi_requester p q ls = refl
refusal-with_links host p q ls = refl
refusal-with_links client p q ls = refl

admits-with_links :
    (k : Kind) (p q : Port) (ls ms : List ℕ)
    → admits k (with_links p ls) (with_links q ms) ≡ admits k p q
unfolding accepts_data is_slave
admits-with_links producer p q ls ms = refl
admits-with_links (consumer policy) p q ls ms = refl
admits-with_links multi_consumer p q ls ms = refl
admits-with_links requester p q ls ms = refl
admits-with_links responder p q ls ms = refl
admits-with_links multi_requester p q ls ms = refl
admits-with_links host p q ls ms = refl
admits-with_links client p q ls ms = refl

Leads-both : (a b : ℕ) (s : Net) → Leads s (links_of (both_entered a b s)) (both_entered a b s)
Leads-both a b s = record {
  kinds = λ x. kind-set_links b _ (entered a b s) x ∙ kind-set_links a _ s x;
  linked = λ x. refl;
}

module _ (f a b : ℕ) (s : Net) (ne : a ≢ b) (ca : is_client (s a).kind ≡ false)
    (cb : is_client (s b).kind ≡ false) (na : contains b (s a).links ≡ false)
    (nb : contains a (s b).links ≡ false) (ra : refusal (s a).kind (s a) (s b) ≡ none) where
  abbrev first : Net
  first = entered a b s

  abbrev second : Net
  second = both_entered a b s

  first_b : first b ≡ s b
  first_b = entered_other a b b s (λ e. ne (sym e))

  second_a : second a ≡ with_links (s a) (b ∷ (s a).links)
  second_a = entered_other b a a first ne ∙ entered_self a b s

  second_b : second b ≡ with_links (s b) (a ∷ (s b).links)
  second_b = entered_self b a first ∙ ap (λ p. with_links p (a ∷ p.links)) first_b

  peer_refusal : refusal (first b).kind (first b) (first a) ≡ refusal (s b).kind (s b) (s a)
  peer_refusal =
      ap (λ p. refusal p.kind p (first a)) first_b
      ∙ ap (refusal (s b).kind (s b)) (entered_self a b s)
      ∙ refusal-with_links (s b).kind (s b) (s a) (b ∷ (s a).links)

  third_call : Finishes (connect (suc f) a b second) second
  unfolding connect
  third_call =
      again (second a).kind f (connect f b a) a b (s a).links second
        (ap (λ p. is_client p.kind) second_a ∙ ca) (ap (λ p. p.links) second_a)
        (ap (λ p. admits p.kind p (second b)) second_a
          ∙ ap (admits (s a).kind (with_links (s a) (b ∷ (s a).links))) second_b
          ∙ admits-with_links (s a).kind (s a) (s b) _ _
          ∙ refusal-admits (s a).kind (s a) (s b) ra)

  second_call :
      refusal (s b).kind (s b) (s a) ≡ none → Finishes (connect (suc (suc f)) b a first) second
  unfolding connect
  second_call rb =
      let (t, r, l) = third_call in
      let (u, r', l') =
        accepted (first b).kind (suc f) (connect (suc f) a b) b a first t
          (ap (λ p. is_client p.kind) first_b ∙ cb) (ap (λ p. contains a p.links) first_b ∙ nb)
          (peer_refusal ∙ rb) r in
      (u, r', Leads-trans l l')

  -- Both ports take the other.
  pub handshake :
      refusal (s b).kind (s b) (s a) ≡ none
      → (t : Net) × (connect (suc (suc (suc f))) a b s ≡ done t) × Leads s (links_of second) t
  unfolding connect
  handshake rb =
      let (t, r, l) = second_call rb in
      let (u, r', l') =
        accepted (s a).kind (suc (suc f)) (connect (suc (suc f)) b a) a b s t ca na ra r in
      (u, r', Leads-trans (Leads-trans (Leads-both a b s) l) l')

  -- The peer refuses.
  pub second_call_refused :
      (e : Exception)
      → refusal (s b).kind (s b) (s a) ≡ some e
      → connect (suc (suc f)) b a first ≡ raised e first
  unfolding connect
  second_call_refused e rb =
      refused (first b).kind (suc f) (connect (suc f) a b) b a first e
        (ap (λ p. is_client p.kind) first_b ∙ cb) (ap (λ p. contains a p.links) first_b ∙ nb)
        (peer_refusal ∙ rb)

-- ===== src/Port/Joined.antt =====
-- The net that a successful `connect(ptr)` leaves is well formed.
use superflow.Base.{
  ℕ, ◌≡◌, ◌≢◌, refl, sym, ap, ◌∙◌, Bool, true, false, ◌&&◌, ◌||◌, [], ◌∷◌, ◌==◌, arith,
  if◌then◌else◌, none,
}
use superflow.Policy.{single, multi}
use superflow.Port.{
  Kind, producer, consumer, multi_consumer, requester, responder, multi_requester, host, client,
  Net, Port, contains,
}
use superflow.Port.Sets.{links-set_links}
use superflow.Port.Isolate.{Leads, links_of, is_bounded, IsShort}
use superflow.Port.Leave.{is_manager}
use superflow.Port.Wired.{IsWired}
use superflow.Port.Connect.{is_consumer, is_responder, accepts_data, accepts_requests}
use superflow.Port.Admission.{refusal, is_client, entered, is_empty→nil}
use superflow.Port.Handshake.{both_entered}

consumer_lem : (k : Kind) → is_consumer k ≡ true → is_manager k ≡ true
unfolding is_consumer
consumer_lem producer h = cc
consumer_lem (consumer policy) h = refl
consumer_lem multi_consumer h = refl
consumer_lem requester h = cc
consumer_lem responder h = refl
consumer_lem multi_requester h = refl
consumer_lem host h = refl
consumer_lem client h = cc

responder_lem : (k : Kind) → is_responder k ≡ true → is_manager k ≡ true
unfolding is_responder
responder_lem producer h = cc
responder_lem (consumer policy) h = refl
responder_lem multi_consumer h = refl
responder_lem requester h = cc
responder_lem responder h = refl
responder_lem multi_requester h = refl
responder_lem host h = refl
responder_lem client h = cc

-- The peer that a producer or a requester takes has a ConnectionManager.
refusal-is_manager :
    (k : Kind) (p q : Port)
    → is_client k ≡ false
    → refusal k p q ≡ none
    → is_manager k ≡ false
    → is_manager q.kind ≡ true
unfolding refusal accepts_data accepts_requests is_consumer is_responder
refusal-is_manager producer p q c h m = consumer_lem q.kind (ground arith)
refusal-is_manager requester p q c h m = responder_lem q.kind (ground arith)
refusal-is_manager (consumer policy) p q c h m = cc
refusal-is_manager multi_consumer p q c h m = cc
refusal-is_manager responder p q c h m = cc
refusal-is_manager multi_requester p q c h m = cc
refusal-is_manager host p q c h m = cc
refusal-is_manager client p q c h m = cc

-- A bounded port takes no peer beside another.
refusal-empty :
    (k : Kind) (p q : Port)
    → is_client k ≡ false
    → refusal k p q ≡ none
    → is_bounded k ≡ true
    → p.links ≡ []
unfolding refusal
refusal-empty producer p q c h m = cc
refusal-empty requester p q c h m = is_empty→nil p.links (ground arith)
refusal-empty (consumer single) p q c h m = is_empty→nil p.links (ground arith)
refusal-empty (consumer multi) p q c h m = cc
refusal-empty multi_consumer p q c h m = cc
refusal-empty responder p q c h m = cc
refusal-empty multi_requester p q c h m = cc
refusal-empty host p q c h m = cc
refusal-empty client p q c h m = cc

-- The links of both ports
abbrev pub joined : Net → ℕ → ℕ → ℕ → ℕ → Bool
joined s a b x y = contains y (s x).links || (x == a && y == b) || (x == b && y == a)

links-both_entered :
    (a b : ℕ) (s : Net) (x : ℕ)
    → a ≢ b
    → (both_entered a b s x).links
      ≡ (if x == a then b ∷ (s a).links else if x == b then a ∷ (s b).links else (s x).links)
links-both_entered a b s x ne = ground (
  arith,
  links-set_links b (a ∷ (entered a b s b).links) (entered a b s) x,
  links-set_links a (b ∷ (s a).links) s x,
  links-set_links a (b ∷ (s a).links) s b,
)

contains-both_entered :
    (a b : ℕ) (s : Net) (x y : ℕ)
    → a ≢ b
    → contains y (both_entered a b s x).links ≡ joined s a b x y
unfolding contains
contains-both_entered a b s x y ne = ground (arith, links-both_entered a b s x ne)

module _ (a b : ℕ) (s t : Net) (w : IsWired s) (ne : a ≢ b)
    (l : Leads s (links_of (both_entered a b s)) t) (ca : is_client (s a).kind ≡ false)
    (cb : is_client (s b).kind ≡ false) (ra : refusal (s a).kind (s a) (s b) ≡ none)
    (rb : refusal (s b).kind (s b) (s a) ≡ none) where
  pub joined_links : (x y : ℕ) → contains y (t x).links ≡ joined s a b x y
  joined_links x y = ap (contains y) (l.linked x) ∙ contains-both_entered a b s x y ne

  joined-IsShort : IsShort t
  joined-IsShort x h =
      let k : is_bounded (s x).kind ≡ true = ap is_bounded (sym (l.kinds x)) ∙ h in
      ground (
        arith,
        l.linked x,
        links-both_entered a b s x ne,
        w.short x k,
        refusal-empty (s a).kind (s a) (s b) ca ra,
        refusal-empty (s b).kind (s b) (s a) cb rb,
      )

  joined_typed :
      (x y : ℕ)
      → is_manager (s x).kind ≡ false
      → joined s a b x y ≡ true
      → is_manager (s y).kind ≡ true
  joined_typed x y m h = ground (
    arith,
    w.typed x y m,
    refusal-is_manager (s a).kind (s a) (s b) ca ra,
    refusal-is_manager (s b).kind (s b) (s a) cb rb,
  )

  pub joined-IsWired : IsWired t
  joined-IsWired = record {
    symmetric = λ x y. ground (arith, joined_links x y, joined_links y x, w.symmetric x y);
    short = joined-IsShort;
    typed = λ x y m h.
        ap is_manager (l.kinds y)
        ∙ joined_typed x y (ap is_manager (sym (l.kinds x)) ∙ m) (sym (joined_links x y) ∙ h);
  }

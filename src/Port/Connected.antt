-- ===== src/Port/Connected.antt =====
-- What `connect(ptr)` does to a well-formed net: both links, or none, or for want of a handler one.
use superflow.Base.{
  ℕ, suc, ◌-◌, ◌≤◌, ◌≡◌, ◌≢◌, ap, ◌∙◌, inl, inr, ◌⊎◌, true, false, ◌∷◌, arith, none, some,
  Exception,
}
use superflow.Port.{Net, contains}
use superflow.Port.Sets.{links-set_links}
use superflow.Port.Isolate.{Leads-refl}
use superflow.Port.Wired.{IsWired}
use superflow.Port.Connect.{done, raised, connect}
use superflow.Port.Admission.{refusal, is_client, handles, refused, entered}
use superflow.Port.Handshake.{handshake, second_call_refused}
use superflow.Port.Rollback.{RollsBack, rolled_back, not_rolled_back}
use superflow.Port.Joined.{joined, joined-IsWired, joined_links}

-- In a well-formed net, if neither of two different ports refuses the other and they are not yet
-- connected and neither is an InterfacePort::Client, then `connect` ends after three nested calls,
-- in a well-formed net that has the links of before and the two between these ports.
pub connect-joined :
    (fuel a b : ℕ) (s : Net)
    → IsWired s
    → 3 ≤ fuel
    → a ≢ b
    → is_client (s a).kind ≡ false
    → is_client (s b).kind ≡ false
    → contains b (s a).links ≡ false
    → refusal (s a).kind (s a) (s b) ≡ none
    → refusal (s b).kind (s b) (s a) ≡ none
    → (t : Net) × (connect fuel a b s ≡ done t)
      × IsWired t
      × ((x y : ℕ) → contains y (t x).links ≡ joined s a b x y)
connect-joined fuel a b s w h ne ca cb na ra rb =
    let (t, r, l) = handshake (fuel - 3) a b s ne ca cb na (w.symmetric b a ∙ na) ra rb in
    let e : fuel ≡ suc (suc (suc (fuel - 3))) = omega arith in
    (
      t,
      ap (λ n. connect n a b s) e ∙ r,
      joined-IsWired a b s t w ne l ca cb ra rb,
      joined_links a b s t w ne l ca cb ra rb,
    )

-- One of the two ports refuses the other: `a`, which is called first, or `b`, and then `a` catches
-- the exception and takes its link back.
abbrev pub Refuses : ℕ → ℕ → Net → Exception → Type 0
Refuses a b s e =
    (refusal (s a).kind (s a) (s b) ≡ some e)
    ⊎ ((refusal (s a).kind (s a) (s b) ≡ none)
        × (handles (s a).kind ≡ true)
        × (refusal (s b).kind (s b) (s a) ≡ some e))

module _ (f a b : ℕ) (s : Net) (e : Exception) (ne : a ≢ b) (ca : is_client (s a).kind ≡ false)
    (cb : is_client (s b).kind ≡ false) (na : contains b (s a).links ≡ false)
    (nb : contains a (s b).links ≡ false) where
  refused_first :
      refusal (s a).kind (s a) (s b) ≡ some e → RollsBack (connect (suc (suc (suc f))) a b s) e s
  unfolding connect
  refused_first r = (
    s,
    refused (s a).kind (suc (suc f)) (connect (suc (suc f)) b a) a b s e ca na r,
    Leads-refl s,
  )

  refused_second :
      refusal (s a).kind (s a) (s b) ≡ none
      → handles (s a).kind ≡ true
      → refusal (s b).kind (s b) (s a) ≡ some e
      → RollsBack (connect (suc (suc (suc f))) a b s) e s
  unfolding connect
  refused_second ra h rb =
      rolled_back (s a).kind (suc (suc f)) (connect (suc (suc f)) b a) a b s e h na ra
        (second_call_refused f a b s ne ca cb na nb ra e rb)

  half_linked :
      refusal (s a).kind (s a) (s b) ≡ none
      → handles (s a).kind ≡ false
      → refusal (s b).kind (s b) (s a) ≡ some e
      → connect (suc (suc (suc f))) a b s ≡ raised e (entered a b s)
  unfolding connect
  half_linked ra h rb =
      not_rolled_back (s a).kind (suc (suc f)) (connect (suc (suc f)) b a) a b s e h ca na ra
        (second_call_refused f a b s ne ca cb na nb ra e rb)

-- In a well-formed net, if one of two different ports that are not yet connected refuses the other,
-- neither is an InterfacePort::Client, and the exception of the second is caught by the first, then
-- `connect` throws that exception and leaves all links as they were.
pub connect-RollsBack :
    (fuel a b : ℕ) (s : Net) (e : Exception)
    → IsWired s
    → 3 ≤ fuel
    → a ≢ b
    → is_client (s a).kind ≡ false
    → is_client (s b).kind ≡ false
    → contains b (s a).links ≡ false
    → Refuses a b s e
    → RollsBack (connect fuel a b s) e s
connect-RollsBack fuel a b s e w h ne ca cb na (inl r) =
    let k : fuel ≡ suc (suc (suc (fuel - 3))) = omega arith in
    rw k (refused_first (fuel - 3) a b s e ne ca cb na (w.symmetric b a ∙ na) r)
connect-RollsBack fuel a b s e w h ne ca cb na (inr (ra, c, rb)) =
    let k : fuel ≡ suc (suc (suc (fuel - 3))) = omega arith in
    rw k (refused_second (fuel - 3) a b s e ne ca cb na (w.symmetric b a ∙ na) ra c rb)

-- A producer or a requester does not catch the exception. In a well-formed net, if it takes a port
-- that is not connected to it and that port (no InterfacePort::Client) refuses it, `connect` throws
-- and leaves a link in one direction only.
pub connect_half_linked :
    (fuel a b : ℕ) (s : Net) (e : Exception)
    → IsWired s
    → 3 ≤ fuel
    → a ≢ b
    → handles (s a).kind ≡ false
    → is_client (s a).kind ≡ false
    → is_client (s b).kind ≡ false
    → contains b (s a).links ≡ false
    → refusal (s a).kind (s a) (s b) ≡ none
    → refusal (s b).kind (s b) (s a) ≡ some e
    → (t : Net) × (connect fuel a b s ≡ raised e t)
      × (contains b (t a).links ≡ true)
      × (contains a (t b).links ≡ false)
unfolding contains
connect_half_linked fuel a b s e w h ne c ca cb na ra rb =
    let k : fuel ≡ suc (suc (suc (fuel - 3))) = omega arith in
    let nb : contains a (s b).links ≡ false = w.symmetric b a ∙ na in
    (
      entered a b s,
      ap (λ n. connect n a b s) k ∙ half_linked (fuel - 3) a b s e ne ca cb na nb ra c rb,
      ground (arith, links-set_links a (b ∷ (s a).links) s a),
      ground (arith, links-set_links a (b ∷ (s a).links) s b, nb),
    )

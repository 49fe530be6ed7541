-- ===== src/Graph/Statuses.antt =====
-- isConnected and getStatus of the ports, which the statuses of a graph are made of
-- (core/include/superflow: connection_manager.h and the classes of ports beside it).
use superflow.Base.{
  ℕ, ◌≤◌, ◌≡◌, ◌≢◌, refl, ap, ◌∙◌, sym, Bool, true, false, not, List, [], ◌∷◌, length, is_empty,
  none, some, ltb, if◌then◌else◌, arith,
}
use superflow.Port.{
  Kind, producer, consumer, multi_consumer, requester, responder, multi_requester, host, client,
  Port, Net, contains,
}
use superflow.Port.Disconnect.{disconnect, everything}
use superflow.Port.Connect.{connect, done}
use superflow.Port.Isolate.{is_bounded}
use superflow.Port.Wired.{IsWired, disconnect-IsWired}
use superflow.Port.Admission.{refusal, is_client}
use superflow.Port.Connected.{connect-joined}
use superflow.Graph.{PortStatus}

-- ConnectionManager
unfoldable pub get_num_connections : Port → ℕ
get_num_connections p = length p.links

unfoldable pub manager_is_connected : Port → Bool
unfolding get_num_connections
manager_is_connected p = ltb 0 (get_num_connections p)

-- ProducerPort
unfoldable pub num_connections : Port → ℕ
num_connections p = length p.links

unfoldable pub producer_is_connected : Port → Bool
unfolding num_connections
producer_is_connected p = ltb 0 (num_connections p)

-- RequesterPort and InterfacePort::Client: the pointer to the peer is not null.
unfoldable pub pointer_is_connected : Port → Bool
pointer_is_connected p = not (is_empty p.links)

-- The virtual calls, by the class of the port
unfoldable pub is_connected_as : Kind → Port → Bool
unfolding manager_is_connected producer_is_connected pointer_is_connected
is_connected_as producer p = producer_is_connected p
is_connected_as requester p = pointer_is_connected p
is_connected_as client p = pointer_is_connected p
is_connected_as _ p = manager_is_connected p

unfoldable pub count_as : Kind → Port → ℕ
unfolding num_connections get_num_connections pointer_is_connected
count_as producer p = num_connections p
count_as requester p = if pointer_is_connected p then 1 else 0
count_as client p = if pointer_is_connected p then 1 else 0
count_as _ p = get_num_connections p

unfoldable pub is_connected : Port → Bool
unfolding is_connected_as
is_connected p = is_connected_as p.kind p

-- getStatus, with the member num_transactions_
unfoldable pub get_port_status : ℕ → Port → PortStatus
unfolding count_as
get_port_status num_transactions p = record {
  num_connections = count_as p.kind p;
  num_transactions = num_transactions;
}

some_peer : (links : List ℕ) → not (is_empty links) ≡ ltb 0 (length links)
some_peer [] = refl
some_peer (x ∷ links) = ground arith

pointer_count :
    (p : Port) → length p.links ≤ 1 → (if pointer_is_connected p then 1 else 0) ≡ length p.links
unfolding pointer_is_connected
pointer_count p h = ground (arith, some_peer p.links)

short-count :
    (k : Kind) (p : Port)
    → (is_bounded k ≡ true → length p.links ≤ 1)
    → count_as k p ≡ length p.links
unfolding count_as
short-count producer p h = refl
short-count (consumer policy) p h = refl
short-count multi_consumer p h = refl
short-count responder p h = refl
short-count multi_requester p h = refl
short-count host p h = refl
short-count requester p h = pointer_count p (h refl)
short-count client p h = pointer_count p (h refl)

connected-count : (k : Kind) (p : Port) → is_connected_as k p ≡ ltb 0 (length p.links)
unfolding is_connected_as
connected-count producer p = refl
connected-count (consumer policy) p = refl
connected-count multi_consumer p = refl
connected-count responder p = refl
connected-count multi_requester p = refl
connected-count host p = refl
connected-count requester p = some_peer p.links
connected-count client p = some_peer p.links

-- In a well-formed net the two reports of a port agree, whatever its class: the number of
-- connections is that of its links, and it is connected if this is not 0.
pub is_connected-get_port_status :
    (num_transactions a : ℕ) (s : Net)
    → IsWired s
    → ((get_port_status num_transactions (s a)).num_connections ≡ length (s a).links)
      × (is_connected (s a) ≡ ltb 0 (get_port_status num_transactions (s a)).num_connections)
unfolding is_connected get_port_status
is_connected-get_port_status num_transactions a s w =
    let counted = short-count (s a).kind (s a) (w.short a) in
    (counted, connected-count (s a).kind (s a) ∙ ap (ltb 0) (sym counted))

none_linked : (links : List ℕ) → ((x : ℕ) → contains x links ≡ false) → ltb 0 (length links) ≡ false
unfolding contains
none_linked [] h = refl
none_linked (x ∷ links) h = absurd (ground (arith, h x))

linked : (x : ℕ) (links : List ℕ) → contains x links ≡ true → ltb 0 (length links) ≡ true
unfolding contains
linked x [] h = cc
linked x (y ∷ links) h = ground arith

-- In a well-formed net, after `disconnect()` of any port its isConnected is false.
pub disconnect-is_connected :
    (fuel a : ℕ) (s : Net)
    → IsWired s
    → 5 ≤ fuel
    → (t : Net) × (disconnect fuel everything a s ≡ some t) × (is_connected (t a) ≡ false)
unfolding is_connected
disconnect-is_connected fuel a s w h =
    let (t, run, v, gone) = disconnect-IsWired fuel a s w h in
    (t, run, connected-count (t a).kind (t a) ∙ none_linked (t a).links (λ x. (gone x).0))

-- In a well-formed net, after `connect` of two different ports that take each other and are not yet
-- connected, none of them an InterfacePort::Client, isConnected is true of both.
pub connect-is_connected :
    (fuel a b : ℕ) (s : Net)
    → IsWired s
    → 3 ≤ fuel
    → a ≢ b
    → is_client (s a).kind ≡ false
    → is_client (s b).kind ≡ false
    → contains b (s a).links ≡ false
    → refusal (s a).kind (s a) (s b) ≡ none
    → refusal (s b).kind (s b) (s a) ≡ none
    → (t : Net) × (connect fuel a b s ≡ done t)
      × (is_connected (t a) ≡ true)
      × (is_connected (t b) ≡ true)
unfolding is_connected
connect-is_connected fuel a b s w h ne ca cb na ra rb =
    let (t, run, v, links) = connect-joined fuel a b s w h ne ca cb na ra rb in
    let forth : contains b (t a).links ≡ true = ground (arith, links a b) in
    let back : contains a (t b).links ≡ true = ground (arith, links b a) in
    (
      t,
      run,
      connected-count (t a).kind (t a) ∙ linked b (t a).links forth,
      connected-count (t b).kind (t b) ∙ linked a (t b).links back,
    )

-- ===== src/Port/Connect.antt =====
-- `connect(ptr)` of every class of port.
use superflow.Base.{
  ℕ, zero, suc, Bool, true, false, not, ◌&&◌, ◌||◌, List, [], ◌∷◌, Option, none, some, is_empty,
  if◌then◌else◌, Exception, invalid_argument, runtime_error,
}
use superflow.Policy.{ConnectPolicy, single, multi}
use superflow.Port.{
  Kind, producer, consumer, multi_consumer, requester, responder, multi_requester, host, client,
  Port, Net, set_links, set_slots, contains, remove, add, is_front,
}
use superflow.Port.Disconnect.{disconnect, everything}

-- `raised`: the exception, and the ports as they are when it leaves the call.
pub data Verdict : Type 0 where
  done : Net → Verdict
  raised : Exception → Net → Verdict
  starved : Verdict  -- the fuel ran out

-- `other->connect(owner)`, as a method of the owner sees it
abbrev pub Peer : Type 0
Peer = Net → Verdict

-- `catch (...) { undo; rethrow; }`
unfoldable pub on_raise : (Net → Net) → Verdict → Verdict
on_raise undo (done s) = done s
on_raise undo (raised e s) = raised e (undo s)
on_raise undo starved = starved

unfoldable pub and_then : (Net → Net) → Verdict → Verdict
and_then f (done s) = done (f s)
and_then f (raised e s) = raised e s
and_then f starved = starved

-- ConnectionManager::connect(owner, other)
unfoldable pub manager_connect : ConnectPolicy → Peer → ℕ → ℕ → Net → Verdict
unfolding on_raise
manager_connect multi peer a b s =
    if contains b (s a).links
    then done s
    else on_raise (λ t. set_links a (remove b (t a).links) t)
        (peer (set_links a (b ∷ (s a).links) s))
manager_connect single peer a b s =
    if is_front b (s a).links
    then done s
    else if not (is_empty (s a).links)
    then raised invalid_argument s
    else on_raise (set_links a []) (peer (set_links a (b ∷ (s a).links) s))

unfoldable pub shares : List ℕ → List ℕ → Bool
unfolding contains
shares [] ys = false
shares (x ∷ xs) ys = contains x ys || shares xs ys

-- `dynamic_pointer_cast<detail::Consumer<Base>>` for T and each of the Variants
unfoldable pub is_consumer : Kind → Bool
is_consumer (consumer policy) = true
is_consumer multi_consumer = true
is_consumer _ = false

unfoldable pub accepts_data : Port → Port → Bool
unfolding is_consumer shares
accepts_data p q = is_consumer q.kind && shares p.types q.types

-- `dynamic_pointer_cast<detail::Responder<Variant, Args...>>` for ReturnValue and the Variants
unfoldable pub is_responder : Kind → Bool
is_responder responder = true
is_responder _ = false

unfoldable pub accepts_requests : Port → Port → Bool
unfolding is_responder shares
accepts_requests p q = is_responder q.kind && shares p.types q.types

-- `dynamic_pointer_cast<ResponderPort<ReturnValue(Args...)>>`: that very class, with no variants
unfoldable pub same_types : List ℕ → List ℕ → Bool
unfolding is_front
same_types [] [] = true
same_types (x ∷ xs) (y ∷ ys) = is_front x (y ∷ []) && same_types xs ys
same_types _ _ = false

unfoldable pub is_slave : Port → Port → Bool
unfolding is_responder same_types
is_slave p q = is_responder q.kind && same_types p.types q.types

-- `dynamic_pointer_cast<Host>`
unfoldable pub is_host : Kind → Bool
is_host host = true
is_host _ = false

unfoldable pub hosts : Port → Port → Bool
unfolding is_host same_types
hosts p q = is_host q.kind && same_types p.types q.types

-- ProducerPort: no handler around `ptr->connect(shared_from_this())`
unfoldable pub producer_connect : Peer → ℕ → ℕ → Net → Verdict
unfolding accepts_data
producer_connect peer a b s =
    if not (accepts_data (s a) (s b))
    then raised invalid_argument s
    else if contains b (s a).links
    then done s
    else peer (set_links a (b ∷ (s a).links) s)

-- MultiConsumerPort: `multi_queue_.addQueue(ptr)` after the ConnectionManager
unfoldable pub multi_consumer_connect : Peer → ℕ → ℕ → Net → Verdict
unfolding and_then manager_connect
multi_consumer_connect peer a b s =
    and_then (λ t. set_slots a (add b (t a).slots) t) (manager_connect multi peer a b s)

-- MultiRequesterPort: `slaves_.put(ptr, slave)` after the ConnectionManager
unfoldable pub multi_requester_connect : Peer → ℕ → ℕ → Net → Verdict
unfolding and_then manager_connect is_slave
multi_requester_connect peer a b s =
    if not (is_slave (s a) (s b))
    then raised invalid_argument s
    else and_then (λ t. set_slots a (add b (t a).slots) t) (manager_connect multi peer a b s)

-- RequesterPort
unfoldable pub requester_connect : Peer → ℕ → ℕ → Net → Verdict
unfolding accepts_requests
requester_connect peer a b s =
    if is_front b (s a).links
    then done s
    else if not (accepts_requests (s a) (s b))
    then raised invalid_argument s
    else if not (is_empty (s a).links)
    then raised runtime_error s
    else peer (set_links a (b ∷ []) s)

-- InterfacePort::Client: `disconnect()` from the old host first
unfoldable pub leave_host : ℕ → ℕ → Net → Option Net
leave_host fuel a s = if not (is_empty (s a).links) then disconnect fuel everything a s else some s

unfoldable pub client_connect : ℕ → Peer → ℕ → ℕ → Net → Verdict
unfolding hosts leave_host
client_connect fuel peer a b s =
    if is_front b (s a).links
    then done s
    else if not (hosts (s a) (s b))
    then raised invalid_argument s
    else elim (leave_host fuel a s) [ none ↦ starved | some t ↦ peer (set_links a (b ∷ []) t) ]

unfoldable pub on_connect : Kind → ℕ → Peer → ℕ → ℕ → Net → Verdict
unfolding producer_connect manager_connect multi_consumer_connect multi_requester_connect
    requester_connect client_connect
on_connect producer fuel = producer_connect
on_connect (consumer policy) fuel = manager_connect policy
on_connect multi_consumer fuel = multi_consumer_connect
on_connect requester fuel = requester_connect
on_connect responder fuel = manager_connect multi
on_connect multi_requester fuel = multi_requester_connect
on_connect host fuel = manager_connect multi
on_connect client fuel = client_connect fuel

unfoldable pub connect : ℕ → ℕ → ℕ → Net → Verdict
unfolding on_connect
connect zero a b s = starved
connect (suc fuel) a b s = on_connect (s a).kind fuel (connect fuel b a) a b s

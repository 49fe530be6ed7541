-- ===== src/Port/Disconnect.antt =====
-- `disconnect()` and `disconnect(ptr)` of every class of port. Each call of a peer's method is a
-- virtual call; fuel bounds their depth.
use superflow.Base.{ℕ, zero, suc, List, [], ◌∷◌, Option, none, some, if◌then◌else◌}
use superflow.Policy.{ConnectPolicy, single, multi}
use superflow.Port.{
  Kind, producer, consumer, multi_consumer, requester, responder, multi_requester, host, client,
  Net, set_links, set_slots, contains, remove, is_front,
}

-- `disconnect()`, or `disconnect(ptr)` with the other port.
pub data Message : Type 0 where
  everything : Message
  only : ℕ → Message

-- The virtual calls, as a method of a port sees them. `none` means that the fuel ran out.
abbrev pub Virtual : Type 0
Virtual = Message → ℕ → Net → Option Net

infixl 5 ◌>>=◌
abbrev pub ◌>>=◌ : {A B : Type 0} → Option A → (A → Option B) → Option B
none >>= f = none
some a >>= f = f a

unfoldable pub for_each : (ℕ → Net → Option Net) → List ℕ → Net → Option Net
for_each f [] s = some s
for_each f (c ∷ cs) s = f c s >>= for_each f cs

-- ConnectionManager::disconnect(owner)
unfoldable pub manager_disconnect : Virtual → ℕ → Net → Option Net
unfolding for_each
manager_disconnect call a s = for_each (call (only a)) (s a).links (set_links a [] s)

-- ConnectionManager::disconnect(owner, other)
unfoldable pub manager_disconnect_from : ConnectPolicy → Virtual → ℕ → ℕ → Net → Option Net
manager_disconnect_from multi call a b s =
    if contains b (s a).links
    then call (only a) b (set_links a (remove b (s a).links) s)
    else some s
manager_disconnect_from single call a b s =
    if is_front b (s a).links then call (only a) b (set_links a [] s) else some s

-- ProducerPort
unfoldable pub producer_disconnect : Virtual → ℕ → Net → Option Net
unfolding for_each
producer_disconnect call a s = for_each (call everything) (s a).links (set_links a [] s)

unfoldable pub producer_disconnect_from : Virtual → ℕ → ℕ → Net → Option Net
producer_disconnect_from call a b s =
    if contains b (s a).links
    then call (only a) b (set_links a (remove b (s a).links) s)
    else some s

-- RequesterPort and InterfacePort::Client: one pointer, which is moved from before the call
unfoldable pub pointer_disconnect : Virtual → ℕ → Net → Option Net
pointer_disconnect call a s = elim (s a).links [
  | [] ↦ some s
  | c ∷ cs ↦ call everything c (set_links a [] s)
]

unfoldable pub pointer_disconnect_from : Virtual → ℕ → ℕ → Net → Option Net
unfolding pointer_disconnect
pointer_disconnect_from call a b s =
    if is_front b (s a).links then pointer_disconnect call a s else some s

-- MultiConsumerPort (`removeAllQueues`, `removeQueue`) and MultiRequesterPort (`slaves_`)
unfoldable pub slotted_disconnect : Virtual → ℕ → Net → Option Net
unfolding manager_disconnect
slotted_disconnect call a s = do t ← manager_disconnect call a s; some (set_slots a [] t)

unfoldable pub slotted_disconnect_from : Virtual → ℕ → ℕ → Net → Option Net
unfolding manager_disconnect_from
slotted_disconnect_from call a b s = do
  t ← manager_disconnect_from multi call a b s
  some (set_slots a (remove b (t a).slots) t)

unfoldable pub on_disconnect : Kind → Virtual → ℕ → Net → Option Net
unfolding producer_disconnect manager_disconnect slotted_disconnect pointer_disconnect
on_disconnect producer = producer_disconnect
on_disconnect (consumer policy) = manager_disconnect
on_disconnect multi_consumer = slotted_disconnect
on_disconnect requester = pointer_disconnect
on_disconnect responder = manager_disconnect
on_disconnect multi_requester = slotted_disconnect
on_disconnect host = manager_disconnect
on_disconnect client = pointer_disconnect

unfoldable pub on_disconnect_from : Kind → Virtual → ℕ → ℕ → Net → Option Net
unfolding producer_disconnect_from manager_disconnect_from slotted_disconnect_from
    pointer_disconnect_from
on_disconnect_from producer = producer_disconnect_from
on_disconnect_from (consumer policy) = manager_disconnect_from policy
on_disconnect_from multi_consumer = slotted_disconnect_from
on_disconnect_from requester = pointer_disconnect_from
on_disconnect_from responder = manager_disconnect_from multi
on_disconnect_from multi_requester = slotted_disconnect_from
on_disconnect_from host = manager_disconnect_from multi
on_disconnect_from client = pointer_disconnect_from

unfoldable pub disconnect : ℕ → Message → ℕ → Net → Option Net
unfolding on_disconnect on_disconnect_from
disconnect zero message a s = none
disconnect (suc fuel) everything a s = on_disconnect (s a).kind (disconnect fuel) a s
disconnect (suc fuel) (only b) a s = on_disconnect_from (s a).kind (disconnect fuel) a b s

-- ===== src/Port.antt =====
-- The ports of a graph and the links between them (core/include/superflow/port.h and the classes
-- that implement it).
pub mod Disconnect
pub mod Connect
pub mod Sets
pub mod Isolate
pub mod Leave
pub mod Cascade
pub mod Wired
pub mod Admission
pub mod Handshake
pub mod Rollback
pub mod Joined
pub mod Connected
use superflow.Base.{ℕ, Bool, true, false, List, [], ◌∷◌, ◌==◌, ◌||◌, Option, if◌then◌else◌}
use superflow.Policy.{ConnectPolicy}

-- The classes. `consumer` is BufferedConsumerPort and CallbackConsumerPort; `host` and `client` are
-- those of InterfacePort.
pub data Kind : Type 0 where
  producer : Kind
  consumer : ConnectPolicy → Kind
  multi_consumer : Kind
  requester : Kind
  responder : Kind
  multi_requester : Kind
  host : Kind
  client : Kind

-- `types`: a number for each C++ type that the class's template arguments name: the data types of
-- a producer or consumer, the signatures of a requester or responder with its variants, the
-- interface.
-- `links`: the peers, in the order in which a loop visits them: the keys of `consumers_`, the
-- `connections_` of the ConnectionManager, or the one peer of `connection_` or `host_` (`[]` if
-- it is null).
-- `slots`: the keys of `multi_queue_` of a MultiConsumerPort and of `slaves_` of a
-- MultiRequesterPort.
pub record Port : Type 0 where
  pub kind : Kind
  pub types : List ℕ
  pub links : List ℕ
  pub slots : List ℕ

-- A Port::Ptr that is not null is the number of a port.
abbrev pub Net : Type 0
Net = ℕ → Port

unfoldable pub update : Net → ℕ → Port → Net
update s a p x = if x == a then p else s x

unfoldable pub set_links : ℕ → List ℕ → Net → Net
unfolding update
set_links a ls s = update s a (record (s a) { links = ls })

unfoldable pub set_slots : ℕ → List ℕ → Net → Net
unfolding update
set_slots a ls s = update s a (record (s a) { slots = ls })

unfoldable pub contains : ℕ → List ℕ → Bool
contains b [] = false
contains b (x ∷ xs) = b == x || contains b xs

unfoldable pub remove : ℕ → List ℕ → List ℕ
remove b [] = []
remove b (x ∷ xs) = if b == x then remove b xs else x ∷ remove b xs

-- A set or map gets a new key.
unfoldable pub add : ℕ → List ℕ → List ℕ
unfolding contains
add b xs = if contains b xs then xs else b ∷ xs

-- `front()` of ConnectionManager<Single>, `connection_` and `host_`, compared with a port.
unfoldable pub is_front : ℕ → List ℕ → Bool
is_front b [] = false
is_front b (x ∷ xs) = b == x

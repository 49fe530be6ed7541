-- ===== src/Graph.antt =====
-- Graph, Proxel and PortManager (core/src/graph.cpp, proxel.cpp and port_manager.cpp).
pub mod Ownership
pub mod Life
pub mod Links
pub mod Statuses
use superflow.Base.{
  ℕ, zero, suc, ◌+◌, Bool, true, false, not, ◌&&◌, List, [], ◌∷◌, is_empty, Option, none, some,
  if◌then◌else◌, Outcome, returns, throws, waits, undefined, ◌>>=◌, Exception, invalid_argument,
  runtime_error, Ordering, length,
}
use superflow.Map.{Key, Map, lookup, insert}
use superflow.Registry as Registry
use superflow.Port.{Net}
use superflow.Port.Disconnect as Ports
use superflow.Port.Connect.{Verdict, done, raised}
use superflow.Port.Connect as Connecting

-- ProxelStatus::State
pub data State : Type 0 where
  awaiting_input awaiting_request awaiting_response crashed not_connected paused running unavailable
        undefined_state warning :
      State

-- A PortMap: a pointer to a port may be null.
abbrev pub PortMap {ℓ} : Type ℓ → Type ℓ
PortMap K = Map K (Option ℕ)

-- `K` are the names, `W` the texts.
pub record Proxel {ℓ κ} (K : Type ℓ) (W : Type κ) : Type (ℓ ⊔ κ) where
  pub ports : PortMap K
  pub state : State
  pub status_info : W

-- A std::thread of the graph, which runs `start()` of a proxel, or has come to its end
pub data Thread : Type 0 where
  runs : Thread
  ended : Thread

pub record Graph {ℓ κ} (K : Type ℓ) (W : Type κ) : Type (ℓ ⊔ κ) where
  pub proxels : Map K (Proxel K W)
  pub crashes : Map K W
  pub proxel_threads : Map K Thread

-- PortStatus
pub record PortStatus : Type 0 where
  pub num_connections : ℕ
  pub num_transactions : ℕ

pub record ProxelStatus {ℓ κ} (K : Type ℓ) (W : Type κ) : Type (ℓ ⊔ κ) where
  pub state : State
  pub info : W
  pub ports : Map K PortStatus

-- The body of the `try` in Graph::connect, with the two ports that were looked up
unfoldable pub connect_ports : ℕ → Option (Option ℕ) → Option (Option ℕ) → Net → Verdict
unfolding Connecting.connect
connect_ports fuel none found s = raised invalid_argument s
connect_ports fuel (some p) none s = raised invalid_argument s
connect_ports fuel (some none) (some p) s = raised invalid_argument s
connect_ports fuel (some (some a)) (some none) s = raised invalid_argument s
connect_ports fuel (some (some a)) (some (some b)) s = Connecting.connect fuel a b s

module _ {ℓ} {K : Type ℓ} ⦃key : Key K⦄ where
  -- PortManager::~PortManager
  unfoldable pub destroy : ℕ → PortMap K → Net → Option Net
  unfolding Ports.disconnect
  destroy fuel [] s = some s
  destroy fuel ((name, none) ∷ ports) s = destroy fuel ports s
  destroy fuel ((name, some port) ∷ ports) s =
      elim (Ports.disconnect fuel Ports.everything port s) [
        | none ↦ none
        | some t ↦ destroy fuel ports t
      ]

  -- PortManager::get, and so Proxel::getPort. `none`: it throws std::invalid_argument.
  unfoldable pub get_port : K → PortMap K → Option (Option ℕ)
  unfolding lookup
  get_port name ports = lookup name ports

  -- The loop of PortManager::getStatus, with the statuses so far; `status_of` is the virtual call.
  unfoldable pub port_statuses : (ℕ → PortStatus) → PortMap K → Map K PortStatus → Map K PortStatus
  unfolding insert
  port_statuses status_of [] statuses = statuses
  port_statuses status_of ((name, none) ∷ ports) statuses = port_statuses status_of ports statuses
  port_statuses status_of ((name, some port) ∷ ports) statuses =
      port_statuses status_of ports (insert name (status_of port) statuses)

module _ {ℓ κ} {K : Type ℓ} {W : Type κ} ⦃key : Key K⦄ where
  -- Proxel::getStatus
  unfoldable pub get_status : (ℕ → PortStatus) → Proxel K W → ProxelStatus K W
  unfolding port_statuses
  get_status status_of p = record {
    state = p.state;
    info = p.status_info;
    ports = port_statuses status_of p.ports [];
  }

  unfoldable pub make : Map K (Proxel K W) → Graph K W
  make proxels = record { proxels = proxels; crashes = []; proxel_threads = [] }

  unfoldable pub add : K → Proxel K W → Graph K W → Outcome (Graph K W)
  unfolding Registry.has insert
  add proxel_id proxel g =
      if Registry.has proxel_id g.proxels
      then throws invalid_argument
      else returns (record g { proxels = insert proxel_id proxel g.proxels })

  unfoldable pub is_running : Graph K W → Bool
  is_running g = not (is_empty g.proxel_threads)

  -- `proxel_threads_.emplace` for each proxel
  unfoldable pub spawn : Map K (Proxel K W) → Map K Thread → Map K Thread
  unfolding Registry.put
  spawn [] threads = threads
  spawn ((name, proxel) ∷ proxels) threads = spawn proxels (Registry.put name runs threads)

  unfoldable pub start : Graph K W → Outcome (Graph K W)
  unfolding is_running spawn
  start g =
      if is_running g
      then throws runtime_error
      else returns (record g { proxel_threads = spawn g.proxels g.proxel_threads })

  -- The handler in a thread that `start(true)` made, and the end of that thread
  unfoldable pub crash : K → W → Graph K W → Graph K W
  unfolding insert
  crash name what g = record g {
    crashes = insert name what g.crashes;
    proxel_threads = insert name ended g.proxel_threads;
  }

  -- `start()` of the proxel returns.
  unfoldable pub finish : K → Graph K W → Graph K W
  unfolding insert
  finish name g = record g { proxel_threads = insert name ended g.proxel_threads }

  -- `join` returns for each proxel that has a thread.
  unfoldable pub all_joined : Map K (Proxel K W) → Map K Thread → Bool
  unfolding lookup
  all_joined [] threads = true
  all_joined ((name, proxel) ∷ proxels) threads = elim (lookup name threads) [
    | none ↦ all_joined proxels threads
    | some runs ↦ false
    | some ended ↦ all_joined proxels threads
  ]

  -- The calls of `stop()` of the proxels are code of the user; then the threads are joined.
  unfoldable pub stop : Graph K W → Outcome (Graph K W)
  unfolding is_running all_joined
  stop g =
      if not (is_running g)
      then returns g
      else if all_joined g.proxels g.proxel_threads
      then returns (record g { proxel_threads = [] })
      else waits

  -- The entry of a proxel in getProxelStatuses
  unfoldable pub report : (ℕ → PortStatus) → Option W → Proxel K W → ProxelStatus K W
  unfolding get_status
  report status_of (some error_message) proxel = record {
    state = crashed;
    info = error_message;
    ports = [];
  }
  report status_of none proxel = get_status status_of proxel

  -- The loop of getProxelStatuses, with the statuses so far
  unfoldable pub statuses_of :
      (ℕ → PortStatus)
      → Map K W
      → Map K (Proxel K W)
      → Map K (ProxelStatus K W)
      → Map K (ProxelStatus K W)
  unfolding lookup insert report
  statuses_of status_of crashes [] statuses = statuses
  statuses_of status_of crashes ((name, proxel) ∷ proxels) statuses =
      statuses_of status_of crashes proxels
        (insert name (report status_of (lookup name crashes) proxel) statuses)

  unfoldable pub get_proxel_statuses : (ℕ → PortStatus) → Graph K W → Map K (ProxelStatus K W)
  unfolding statuses_of
  get_proxel_statuses status_of g = statuses_of status_of g.crashes g.proxels []

  -- `none`: it throws std::invalid_argument.
  unfoldable pub get_proxel : K → Graph K W → Option (Proxel K W)
  unfolding lookup
  get_proxel name g = lookup name g.proxels

  -- What `connect` looks up: a port of a proxel, which may be null
  unfoldable pub find_port : Graph K W → K → K → Option (Option ℕ)
  unfolding get_proxel get_port
  find_port g proxel port = elim (get_proxel proxel g) [
    | none ↦ none
    | some p ↦ get_port port p.ports
  ]

  -- The handler only adds to the text of an std::invalid_argument.
  unfoldable pub connect : ℕ → Graph K W → K → K → K → K → Net → Verdict
  unfolding find_port connect_ports
  connect fuel g proxel1 port1 proxel2 port2 s = elim (key.cmp proxel1 proxel2) [
    | Ordering.eq ↦ raised invalid_argument s
    | _ ↦ connect_ports fuel (find_port g proxel1 port1) (find_port g proxel2 port2) s
  ]

-- ===== src/Lib.antt =====
-- Superflow: a library of processing elements (proxels) that exchange data through ports, and
-- the queues in which a port keeps what it has received.
--
-- The parts, and how they work together. A port of one proxel is connected to a port of another
-- (core/include/superflow/port.h); each of the two keeps a reference to the other, in a
-- ConnectionManager or in a member of its own. A producer hands its items to each of its consumers,
-- whose LockQueue (for one stream) or MultiLockQueue (a queue for each producer) the consuming
-- thread reads.
--
-- The modules:
-- - LockQueue: core/include/superflow/utils/lock_queue.h. A record of the std::queue (its front is
--   the head of the list), the limit and the flag of termination. Each method is one critical
--   section, a function to an Outcome: it returns, throws, waits for the condition variable, or is
--   undefined behaviour. LockQueue/History has the use by any number of threads, as a sequence of
--   critical sections in the order in which they take the mutex; LockQueue/Threads has the threads
--   themselves, which test, sleep, wake up, and notify when the mutex is free again, as a step
--   relation on the numbers of threads that sleep, are awake, and have a signal to give. A
--   notification of a condition variable wakes any thread that waits on it, in pop() or in front().
-- - MultiLockQueue: core/include/superflow/utils/multi_lock_queue.h, in the same way, over a map
--   that is sorted by its keys (Map). The order of the keys is a parameter.
-- - Port: the classes of core/include/superflow/port.h: connection_manager.h, producer_port.h,
--   buffered_consumer_port.h, callback_consumer_port.h, multi_consumer_port.h, requester_port.h,
--   responder_port.h, multi_requester_port.h and interface_port.h beside it. A net is a function
--   from numbers (a shared pointer that is not null) to ports, so that all references to a port
--   see its changes. Port/Disconnect has `disconnect`, Port/Connect has `connect`; a virtual call
--   of a peer is a recursive call in the net as it is at that moment.
-- - Consumer: the buffers of buffered_consumer_port.h and multi_consumer_port.h, and what
--   queue_getter.h and multi_queue_getter.h beside them read from these. The keys of a
--   MultiLockQueue are the producers; `remove_producer` and its like are what the port's `connect`
--   and `disconnect` do to the queues after they have done what Port models.
-- - Registry: the maps of core/include/superflow/mapped_asset_manager.h and factory_map.h, and
--   createProxelsFromConfig of graph_factory.h beside them. A factory is a function of the user.
-- - Graph: core/src/graph.cpp, proxel.cpp and port_manager.cpp. A thread of a graph is
--   an entry that runs or has ended; `crash` (for start(true), which catches the exception) and
--   `finish` are the two ways in which it ends. The links that
--   Graph::connect and the destructor of PortManager change are those of a net of Port.
--   Graph/Statuses has isConnected and getStatus of the ports.
-- - Traffic: what passes over the links, in ProducerPort::send, CallbackConsumerPort::receive,
--   RequesterPort::request, ResponderPort::respond, MultiRequesterPort::request and the `get` of
--   InterfacePort. A callback of the user is a function that changes a world of its own and returns
--   or throws; the model keeps the counts of transactions, also where an exception passes through.
-- - Config: yaml/src/yaml.cpp, with yaml_property_list.h and yaml_string_pair.h. What it calls of
--   YAML::Node is a record of operations (Config), and so are YAML::LoadFile and the file system
--   (Config/Include). Config has the proxels and their replicas, Config/Links the connections,
--   Config/Include the included files and both readers, createGraph and generateDOTFile.
--   Config/Entries describes what the sections say of each proxel, for Config/Consistent.
-- - GraphViz: core/src/graphviz.cpp. The order in which a std::unordered_set is visited is a
--   parameter of the printing.
-- - Signals: core/src/signal_waiter.cpp, the handlers of all signals of the process.
-- - Blocker: core/include/superflow/utils/blocker.h, one thread that blocks among calls of others,
--   where a notification may come between the test of the flag and the sleep.
-- - DataStream: core/include/superflow/utils/data_stream.h, the iterator and the loop with it.
-- - GraphFactory: createGraph of core/include/superflow/graph_factory.h, which makes the proxels with
--   Registry and connects them with Graph; an exception destroys the graph on its way out.
-- - Throttle, Metronome: core/include/superflow/utils/throttle.h and core/src/metronome.cpp, the worker
--   thread among the calls of others and the ticks of the clock, as step relations. That a wait ends
--   late, or early without a notification, are steps too.
-- - Sleeper, ProxelTimer: core/src/sleeper.cpp and proxel_timer.cpp. The clock is an argument, and
--   so is the arithmetic of doubles.
-- - Curses: curses/src/graph_gui.cpp, proxel_window.cpp and window.cpp, up to the calls of ncurses: a
--   Drawing is a window, its colour and the texts that are printed in it, each with its row and column.
--   Curses/Lines cuts the texts, Curses/Render fills the windows (Curses/Shown: what they show), Curses/Grid places them, and
--   Curses/Gui has the state of GraphGUI and spinOnce.
-- - Text: std::string as the list of its bytes, and std::to_string.
-- - Policy: the enumerations of core/include/superflow/policy.h. Base: the names of the library
--   that the other modules use, exceptions, outcomes, and lemmas on lists. Tests: the theorems at
--   concrete inputs.
--
-- Bounds. Numbers of items are natural numbers: a queue is never longer than its limit, which
-- fits in the program's types. The depth of virtual calls is bounded by fuel: five calls
-- are enough for `disconnect` in a well-formed net (Port/Wired), and three for `connect` of
-- two ports that are not connected (Port/Connected). The loop over a stream takes as much fuel as
-- it has rounds (DataStream/Visit), std::to_string more than the number (Text/Digits), and the
-- cutting of a text into lines one more than the text has bytes (Curses/Cuts). Counts of transactions
-- and of runs wrap around at 2^64, and so does the index in a text. An int of the windows is an integer
-- without bounds (Base/Int), but a cast between int and size_t wraps around, also of the numbers of ports and proxels. Times are ticks.
--
-- A std::unordered_set of peers is a list, of which nothing but the members and the number is used.
-- A C++ type among the template arguments of a port is a number, and a dynamic cast of a peer is a
-- test on its class and these numbers.
--
-- Not modelled: the waking up of the threads of a MultiLockQueue (a call that waits is tried again at
-- any later point of a history), requestAsync and the worker thread of a SignalWaiter, which run in
-- threads of their own, the printing of doubles by ProxelTimer::getStatusInfo, the loop of
-- GraphGUI::spin, which reads keys, and the loading of libraries (Boost.DLL).
pub mod Base
pub mod Policy
pub mod Map
pub mod LockQueue
pub mod Metronome
pub mod MultiLockQueue
pub mod Port
pub mod Consumer
pub mod Text
pub mod ProxelTimer
pub mod Registry
pub mod Graph
pub mod Config
pub mod Curses
pub mod GraphFactory
pub mod GraphViz
pub mod Throttle
pub mod Traffic
pub mod Signals
pub mod Sleeper
pub mod Blocker
pub mod DataStream
pub mod Tests

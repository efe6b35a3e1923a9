-- ===== src/Lib.antt =====
-- spiderw: a Go client library for iwd, the wireless daemon, over D-Bus. This is a shallow embedding
-- of the library's own logic, with the theorems that it meets its promises.
--
-- The program has three layers and what connects them. internal/iwdbus speaks to iwd through godbus:
-- it introspects objects, dispatches their signals and exports the agents that iwd calls.
-- internal/core normalises what comes from there and classifies failures. The public package at the
-- root wraps the core's objects and errors. internal/connect opens the connection and builds the
-- objects, and internal/failure and internal/iwdvalue hold the vocabulary that the layers share.
--
-- The modules, and the code that each is about:
--   Base         names of the libraries, tests, lists, strings and package strings of Go.
--   Failure      internal/failure/kind.go.
--   Errors       Tree: error values as trees, with `errors.Is`, `errors.AsType` and `errors.Join`.
--                Bus: internal/iwdbus/errors.go and iwderrors.go. Wrap: internal/core/errors.go and
--                errors.go. Laws: what a caller finds in an error that all layers have wrapped.
--   Outside      the calls to godbus and iwd. A function of the program that makes calls takes a peer,
--                which answers each call, in view of all calls before it, with an error or nil, and
--                passes a trace of the calls and answers on. Outside/Balance counts in traces, each
--                exported object by its path and its interface.
--   Agents       internal/core/agent.go and internal/iwdbus/agent.go: the credentials agent, and the
--                requests that iwd makes of it (Agents/Requests).
--   Connect      internal/connect/wiring.go: `newConn` (Connect/Opening), the eight object constructors
--                with those of internal/iwdbus (Connect, Connect/Constructors, Connect/Objects), `NewAgent`
--                (Connect/Credentials), and `NewSignalLevelAgent` with the `MonitorSignalLevel` of
--                signalagent.go (Connect/SignalMonitor).
--   Client       client.go, clientgeneric.go and agent.go: a client with its agents as one world, and
--                the operations on it. Client/Invariant, Closing and Registering keep an invariant,
--                Client/Promises draws what follows, Client/Opening is `NewClient`, and Client/Handles
--                makes the handles.
--   Daemon       internal/core/daemon.go: the daemon's information and its enumerations.
--   SignalAgent  internal/core/signalagent.go: the configuration of a signal-level agent, and its
--                handle with what it calls of internal/iwdbus (SignalAgent/Handle).
--   Station      internal/core/station.go: the station's properties and networks, and the methods that ask
--                it to do something (Station/Commands).
--   Network      internal/core/network.go: the network's properties.
--   Wire         the objects of internal/iwdbus, as clients of iwd. Wire itself is introspect.go's
--                `Caller` and the helpers of utils.go, Wire/Parse what its parsers make of a D-Bus value, and
--                Wire/Introspected the calls of an introspected object. Station, Network, Adapter,
--                Device, KnownNetwork, AccessPoint and Small (bss.go and wsc.go) are the getters,
--                setters and methods of the files of that name, Events their subscriptions to properties,
--                Tree is objecttree.go, Daemon and Enumerate are daemon.go. Wire/Agreement
--                compares the properties of an object with its getters, Wire/Events/Follow
--                compares the subscriptions with the properties, and the children of Wire/Enumerate are
--                about the references that an enumeration returns.
--   Core         internal/core/adapter.go, device.go, knownnetwork.go, accesspoint.go, bss.go and wsc.go, and
--                the subscriptions of station.go and network.go (Core/Station, Core/Network). Core
--                itself is what the facades share. Core/Agreement compares properties with getters through
--                both layers, Core/Follow the subscriptions, and Core/Requests says which requests
--                reach an object.
--   Public       the package at the root: Public is call.go with what the objects' methods share, Public/Refs
--                is resolve.go and internal/connect/resolver.go, and Daemon, Adapter, Device, Network, Station,
--                KnownNetwork, AccessPoint and Small (bss.go and wsc.go) are the files of that name.
--                Public/Failures is about the errors of all methods, Public/Kept about what the package
--                checks again, and Public/Bundles about the references in a bundle.
--   Cli          cmd/spiderw/cli/refs.go: the names that the command line prints for paths. Cli/ByRef is the
--                search for the object that a reference means (`adapterByRef`, `deviceByRef`, `networkByRef`,
--                `stationByRef`, `bssByRef`, `knownNetworkByRef` and `accessPointByRef`, in the files of
--                cmd/spiderw/cli with those names).
--   Values       internal/iwdvalue.
--   Signals      internal/iwdbus/introspect.go. Registry and Subscriptions: the maps of handlers and the
--                list of live subscriptions that they represent. Lifecycle: the goroutines of an object,
--                with every interleaving of their steps; handlerMu is a field of the state, and the test of
--                closing and the wg.Add under it are two steps.
--
-- How code is rendered. A pointer or an interface is an Option, and (value, error) is a pair of two
-- options, so that "nil with an error" is written as Go returns it; in Wire, Core and Public, where no
-- function returns both, it is a Result. A map of properties in Wire is the list of its entries in the
-- order in which a loop ranges over it, and a section's parameters stand for what godbus decides:
-- which texts are object paths, which errors say that a property is unknown, and what a call stores in
-- its result. State is passed explicitly: a record for each struct, a world with all agents where
-- closures share a client, an association list for a map. A function value is a number where it is
-- only passed on, and a function of the model where its result matters. An object's closure `unexport`
-- is the path that it unexports. A `sync.Once` is a Boolean. A loop is structural recursion on the
-- list that the code ranges over; there is no fuel. The handler ids of introspect.go wrap around at
-- 2^64, and the theorems on subscriptions assume fewer calls than that. Integers of Go's type int are
-- unbounded here, and `int16` is the conversion with its wrap-around.
--
-- What is assumed. godbus and iwd are the peer and the records of answers; nothing is assumed of them
-- but what a theorem states. Operations of a client run one after another; the interleavings of the
-- goroutines are modelled for the introspected object alone.
--
-- What is not modelled. The text of errors beyond their constant parts, logging, contexts as such, nil
-- receivers of the methods of a client, the hooks that a client attaches to a handle, the callbacks
-- that only notify, the firehoses of internal/iwdbus (which serve stress tests), the
-- division of a signal strength by 100 in floating point, the command line in cmd but its references,
-- the mock of iwd in tools, tests and examples.
pub mod Base
pub mod Failure
pub mod Errors
pub mod Outside
pub mod Agents
pub mod Connect
pub mod Client
pub mod Daemon
pub mod SignalAgent
pub mod Station
pub mod Network
pub mod Wire
pub mod Core
pub mod Public
pub mod Cli
pub mod Values
pub mod Signals

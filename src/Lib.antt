-- ===== src/Lib.antt =====
-- The bridge between the ventilation controller "Oasis Syberia" (Modbus TCP) and Home Assistant
-- (MQTT). Paths are those of the repository.
--
-- The program. The Modbus client (infrastructure/modbus) talks to the controller, one request at a
-- time and with a guard interval between them. The command dispatcher (application/service) counts
-- its failures in a row and triggers the connection supervisor, which closes and connects again
-- with a growing delay. The poll controller (application/usecase) reads three tiers of registers
-- into partial snapshots (domain/entity); the poller merges them into the latest snapshot and hands
-- that to its subscribers, which publish the state of each entity. The availability manager watches
-- the age of the latest snapshot. The command subscriber (interface/mqtt) makes payloads of Home
-- Assistant into commands, which ApplyCommand turns into writes unless the controller is in
-- transition. The status listener has discovery and state published again when Home Assistant
-- comes back. The MQTT client (infrastructure/mqtt) keeps the subscriptions and asks for them again
-- when its connection comes back; the discovery builder (infrastructure/discovery) makes the configs
-- by which Home Assistant knows the entities. The configuration (infrastructure/config) is read from
-- the environment, and internal/app builds all parts, connects them by callbacks, starts them and
-- stops them.
--
-- The files.
--   Prelude, Float64: numbers, texts, Go's error values with errors.Is and %w, calls that change a
--     state and can fail, exact binary64 arithmetic. A context string of fmt.Errorf is its literal
--     part; the values formatted into it are left out.
--   Domain/*: domain/valueobject, domain/entity and, in Domain/Catalog, domain/catalog. NewTemperature
--     is new_temperature, and so on.
--   Port: application/port, and context.Context as the time at which it is done; `wait` is the
--     select on a timer and ctx.Done().
--   Modbus/Decode, Modbus/Classify: infrastructure/modbus/decode.go. Modbus/Client:
--     infrastructure/modbus/client.go; doOp is do_op, ModifyHolding is modify_holding with one helper
--     for each step at which it can return. The transport is a script of replies with their times.
--   Config: infrastructure/config/config.go. Config/Load and Config/Validate are its Load, in one
--     function for each part of the configuration, and its Validate; Config/Load/Table is the table
--     of the variables that Load is compared with.
--   Mqtt/Topics: infrastructure/mqtt/topic.go. Mqtt/Client: infrastructure/mqtt/client.go, with
--     onConnect as on_connect and so on; Mqtt/Client/Session is a broker that keeps what it is asked
--     for, and the sequences of calls and callbacks. In Mqtt/Client/Overlap what a method does under
--     the lock and each of its requests are steps of their own.
--   DiscoveryBuilder: infrastructure/discovery; its children compare the configs with what is
--     published, subscribed to and accepted.
--   Service/*: application/service, one file for each Go file. Tickers and goroutines are sequences
--     of steps: each mutex makes a step indivisible. The calls of the poller's subscribers, which
--     follow its locked merge, belong to the step of the merge: how those of two tiers interleave is
--     left out. Service/Poller/Tiers is Start of the poller with the goroutines of runTier.
--   UseCase/*: application/usecase. Interface/CommandSubscriber: interface/mqtt. Interface/Health:
--     interface/http/handler/health.go.
--   App: internal/app/app.go. App/Wiring is the checks and settings of New, App/Callbacks the
--     functions that it hands out, App/Run its Run and shutdown.
--   Tests: runs on concrete values.
--
-- Bounds. The decimal printer has 20 digits for a uint64 and 320 for a float64 of at most 309. The
-- loops of the supervisor have one unit of fuel for each attempt. Counters of type int are
-- unbounded. A clock is a number of nanoseconds, 0 being the zero time.
--
-- Not modelled: the routes and the server of interface/http, which are Gin and net/http; cmd/server;
-- the logger, which only writes, and the metrics, save for those that the clients and the poller move.
-- Apart from Mqtt/Client/Overlap, where Subscribe, Connect, onConnect and onConnectionLost
-- interleave, the methods of the MQTT client do not overlap. Atoi, ParseBool, ParseDuration and
-- ParseFloat, the JSON encoder, the MQTT library, the random generator, the clock and the order in
-- which Go walks through a map are parameters.
pub mod Prelude
pub mod App
pub mod Config
pub mod DiscoveryBuilder
pub mod Float64
pub mod Domain
pub mod Port
pub mod Modbus
pub mod Mqtt
pub mod Service
pub mod UseCase
pub mod Interface
pub mod Tests

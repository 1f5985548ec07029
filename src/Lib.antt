-- ===== src/Lib.antt =====
-- A verification library for MorningstarModbusAPI, a Python service that reads Morningstar solar
-- equipment over Modbus, interprets the registers by a catalog, and polls controllers with a
-- state for each of them. Paths are from the root of the repository; the code is under
-- src/morningstar_modbus.
--
-- The parts and how they interact. The codec (protocol/codec.py) builds read requests and takes
-- responses apart. The two clients (transports/modbus.py) exchange them over TCP or a serial line,
-- and report every exchange to an observer. The polling service (polling/service.py) is such an
-- observer: it makes a sample of the exchanges of one poll, evaluates samples, and chooses the
-- interval at which the watcher polls. Each controller has a lifecycle
-- (controllers/lifecycle.py), which says whether it may be polled and when a failed one is tried
-- again. The register catalog (catalog) turns words into values by named decoders and selects
-- fields by firmware; a profile (catalog/profile.py) reads the blocks of its family through a
-- client, keeps the metadata, and reports the named values, and the registry (catalog/registry.py)
-- selects the profile of a device. The plausibility checks (intelligence/validation.py) judge the
-- values. The watcher (runtime/watcher.py) puts these together: a refresh binds each controller to
-- one of the endpoints that it was found at, and a poll runs the profile on the controller's client
-- and tells the lifecycle, the limiter, the tracker and the schedule of the history what came of it.
--
-- Files.
--   Prelude        what the modules share: Boolean tests and lists on native numbers, two-sided
--                  integers, bitwise laws, str and bytes as lists of numbers, a dict with str
--                  keys, and an interface of float operations
--   Errors         the exceptions of protocol/errors.py, with a constructor for each message, and
--                  the result of a call that may raise
--   Actions        calls that may raise and change an object, which comes back after a raise too;
--                  Runs: invariants of such calls
--   Protocol       Crc: crc16, append_crc and valid_crc; Codec: read_registers_pdu,
--                  parse_register_response and parse_device_identification
--   Transports     Stream: the bytes that a connection yields, in any portions, and how it ends;
--                  Tcp: AsyncModbusTcpClient; Rtu: AsyncModbusRtuClient, with _exchange_blocking
--                  and its port; Exchange: what the observer is told; Client: the interface
--                  ReadOnlyModbusClient and its implementation by the TCP client
--   Controllers    Lifecycle: DeviceLifecycle; Trace: the histories of its calls
--   Polling        Samples: PollTrafficTracker; Limiter: PollPersistenceLimiter; Benchmark:
--                  summarize_performance, evaluate_benchmark_stage and build_benchmark_report;
--                  AutoPoll: AutoPollIntervalController
--   Catalog        Compatibility: version_tuple, compare_versions and in_range; Scaling: the
--                  integer and text decoders; Decode: decode_value; Types and
--                  Families: the register tables of the products; Words and Naming: the dict of
--                  words of a profile and the names of its values; Profile: CatalogProfile; Derived:
--                  derive_register_values; Registry: select_spec and detect_profile
--   Intelligence   Validation: validate_values; Resolver: resolve_device_intelligence,
--                  refresh_intelligence, score and negotiate_capabilities
--   Config         Settings: _normalize_poll_interval and _validate; Accepts: what settings that
--                  they accept are good for; Floor: how fast the watcher polls under them
--   Runtime        Endpoints: Endpoint, its stable_key, and _select_controller_endpoints; Watcher:
--                  the state and the bindings of _refresh_devices; Watcher.Polls: _poll_one; Cycle:
--                  the calibration of the interval and _poll_all
--
-- How the code is rendered. A method takes the state that it works on and returns the new one,
-- and an exception is a value of the result. Requests of one client follow each other, as its
-- lock makes them. What time.monotonic(), the wall clock, a socket, a serial port and struct's
-- IEEE formats give is an argument. Times of the lifecycle and of the limiter are counted in
-- ticks. The numbers that the polling service and the checks compare as floats are of any type
-- with the operations of Prelude.Floats, so that no theorem rests on exact arithmetic; where a
-- theorem needs a law of floats, it is a hypothesis. A setting has the type of its dataclass, and
-- a refusal names the setting in place of the message. A dict is an association list and a set a
-- list without repetition.
--
-- Fuel. decimal_digits and hex_all run on the number itself, which has fewer digits; the other
-- loops are structural. A read that waits for bytes ends where the stream does.
--
-- Not modelled: SQL storage (persistence, polling/storage.py), discovery, capture, maintenance,
-- SNMP, the reading of the TOML file, the HTTP API and the command line, which are input and
-- output around third-party libraries; history, forecasting, systems, incidents, inventory, and of
-- the watcher the sleeps of its loop, stop, and the rows that it stores. What the watcher uses of
-- the inventory and of the resolver, the text of floats and exceptions, and the observer of a
-- client are arguments. Of the polling service, the rates per second and the texts of the reasons
-- are left out, and timestamps and latencies of an exchange.
pub mod Prelude
pub mod Errors
pub mod Protocol
pub mod Controllers
pub mod Transports
pub mod Actions
pub mod Catalog
pub mod Config
pub mod Intelligence
pub mod Polling
pub mod Runtime

-- ===== src/Lib.antt =====
-- A model of GCisco-Exporter, a Prometheus exporter for Cisco devices. The program reads a
-- configuration (internal/config), creates the metric vectors (internal/metrics), the cache
-- (internal/cache) and a pool of workers (internal/worker), and collects from every device at fixed
-- intervals (internal/scheduler). A collection tries the methods of its device one after another:
-- JSON output of commands over SSH, RESTCONF, NETCONF, and plain output of commands over SSH
-- (internal/provider).
-- What a method returns is reported to the vectors and kept in the cache.
--
-- The files:
--   Base                 the names of the library, Boolean tests, lists, and Go maps as lists of pairs
--   Float, Int, Error,   float64 as a parameter, int, Go errors and calls that may panic, and
--   Text, Strings        what is used of package strings, on lists of characters
--   Regexp               what is used of package regexp: a backtracking matcher, whose patterns are terms
--   Config               internal/config/config.go: `Load`, `setDefaults`, `TimeoutDuration`
--   Metrics, Metrics/Vecs, Metrics/Setters
--                        internal/metrics/metrics.go: one constructor of `Metric` for each field of
--                        `Collector`, `NewCollector`, and one function for each setter, which returns
--                        the call on the vector
--   Metrics/Registry     the Prometheus library: a parameter with the laws of `Add` and a scrape
--   Metrics/Category     the categories of metric.example.yaml; what decides on a metric in the code is
--                        `is_selected` of Scheduler/Ownership, which differs for the uptime
--   Cache                internal/cache/cache.go
--   Worker               internal/worker/worker.go: a state of the pool, one function for each atomic
--                        action, and `Step` over them for the interleavings
--   Provider/Json        internal/provider/json/json.go: the data, and below it `parseJSON`, the fields of
--                        a decoded answer, and the methods of the provider
--   Provider/Basic       the data of internal/provider/restconf and netconf, which is the same, and the
--                        interface under which the scheduler calls both
--   Provider/Restconf    internal/provider/restconf/restconf.go: `doRequest` and the methods
--   Provider/Netconf     internal/provider/netconf/netconf.go: `execRPC`, `parseXMLFields` and the methods
--   Provider/Cli         the data of internal/provider/ssh/parser_*.go, and below it the parsers: Nxos,
--                        Iosxe and Ios, each with its patterns
--   Provider/Output      `cleanOutput` and `readOutput` of internal/provider/ssh/client.go
--   Scheduler/World      what the scheduler works on, and the monad of its functions
--   Scheduler/Collect    `collectJSON`, `collectSSH` with its three platforms, `collectRESTCONF` and
--                        `collectNETCONF` of internal/scheduler/scheduler.go
--   Scheduler/Device     `collectDevice`, `findCredential`, `methodToFloat`
--   Scheduler/Cycle      `runCollection`
--   Scheduler/Start      `Start`, over the ticks that its loop receives
--   Scheduler/Frame, Scheduler/Ownership
--                        what a part of a collection may do, by rules for the monad
--   Scheduler/Fallback   the contract of `collectDevice`
--   Scheduler/Implemented
--                        the scheduler over the providers and parsers above
--   Capture              internal/debugcapture/debugcapture.go: `sanitize`
--   Tests                runs at small inputs
--
-- The functions of the scheduler are in a monad on `World`: the cache, the calls that were made on the
-- vectors so far, and the instant of the next question to the environment. `Env` answers the questions
-- (a connection, a command, the clock, a provider), each at its own instant, and may answer otherwise
-- the next time. A run-time panic ends the program, and is `none`. A setter only adds its call to
-- the list, but an `Add` of a number below zero panics, as the Prometheus library says;
-- Metrics/Registry says what a list of calls does to the numbers. A Go map is an association list,
-- whose order stands for one order of iteration. Numbers are float64 values, whose type and operations
-- are a parameter with no laws; counts are ℕ, which is what `len` gives. A text is a list of characters,
-- where the source indexes bytes: what it cuts at are ASCII characters. A text that is not valid UTF-8,
-- on which `WithLabelValues` panics, is outside the model. All recursion is on a list, a number or a
-- pattern, and no function takes fuel but one in a proof (Worker/Progress), which is given the number of
-- moves that are left. A pattern repeats only classes of characters, so that a match is a recursion on the
-- text; no pattern of the program repeats anything else.
--
-- A type assertion that is not tested, and an index past the groups of a match, panic. What `json.Unmarshal`
-- gives is a parameter of the providers; so are `xml.Unmarshal`, the HTTP client, what a NETCONF session
-- answers, and `fmt` on a decoded value.
--
-- Not modelled: the jobs of a cycle in parallel (Scheduler/Cycle runs them one after another; Worker has
-- the interleavings of the pool); `Stop` of the pool; `Connect` and `Close` of NETCONF, and a session
-- of it that neither answers nor ends; the shell session of the SSH client, of which only `readOutput`
-- and `cleanOutput` are modelled; logging; cmd/exporter (flags, signals, HTTP);
-- `New` and `Save` of internal/debugcapture (files); internal/capabilities,
-- internal/collector and internal/provider/types.go, which no other file uses.
pub mod Base
pub mod Float
pub mod Int
pub mod Metrics
pub mod Config
pub mod Cache
pub mod Error
pub mod Text
pub mod Regexp
pub mod Strings
pub mod Provider
pub mod Scheduler
pub mod Worker
pub mod Capture
mod Tests

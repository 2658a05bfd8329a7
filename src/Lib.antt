-- ===== src/Lib.antt =====
-- Verification of nat-pmp, a daemon that keeps port mappings alive on the network's gateway.
--
-- The daemon finds the gateway, tries NAT-PMP, PCP and UPnP until one of them answers, creates the
-- mappings of the configuration, renews each halfway through its lease, and releases all of them
-- when it is stopped. Its parts, in the order in which they build on one another:
--
--   Common       numbers, lists, bytes, dictionaries, durations, errors, and calls that may fail
--   Addr         the parts of Go's net/netip that the program uses
--   Mapping      internal/mapping/mapping.go: requests, their validation, leases
--   Portmapper   internal/portmapper/portmapper.go: the interface `Client` and its errors
--   Network      the calls of sockets, contexts and clocks that the packet clients make, and in
--                Network.Exchange the request loop that natpmp.go (`exchange`) and pcp.go
--                (`exchangeOn`) both have; its children Answer, Backoff, Loss,
--                Served and Destination hold the proofs
--   Natpmp       internal/portmapper/natpmp: Codec is codec.go, Client is natpmp.go; Wire, Leases
--                and Destination hold the proofs, Gateway is a gateway after RFC 6886
--   Pcp          internal/portmapper/pcp: Codec is codec.go, Client is pcp.go, with its state in
--                Client.Session; Wire, Leases, Nonces, Datagrams and Destination hold the proofs,
--                Gateway is a gateway after RFC 6887
--   Config       internal/config/config.go: Requests is the expansion into requests, Validate is
--                `Validate`, Load is `Load`, Level is the log level, also of internal/cli/cli.go
--   Daemon       internal/daemon: Ensure is reconcile.go, State and Run are daemon.go, Detect is
--                detect.go, Wiring is wiring.go and `New` of daemon.go, where the daemon, the three
--                clients, Config, Netgw and Portcheck meet; Effects, Outcomes, Invariant, Scheduling,
--                Due, Release, Order, Members, Probes, Clients, Frame, Destination and Run.Reach hold
--                the proofs; Configured joins the daemon and Config; Registry is an abstract registry
--                of leases that the daemon implements, with its steps in Registry.Changes; Punctual
--                bounds how long the passes take, and Continuity shows what follows for the
--                leases: Continuity.Natpmp is the whole program with a NAT-PMP gateway
--   Upnp         internal/portmapper/upnp: Soap is soap.go, Ssdp and Ssdp.Discover are ssdp.go,
--                Device is device.go, Client is upnp.go, Xml is `escapeXML`; Leases, Targets,
--                Preference, Envelope, Posts, Xml.Reader, Ssdp.Collected and the modules under
--                Ssdp.Discover hold the proofs; Search gives the client the search of ssdp.go, and the
--                modules under it hold the proofs of the composition
--   Netgw        internal/netgw/netgw.go: the default gateway of the routing table; Lines describes
--                its lines by their fields, and Least, Found and the modules under Lines hold the
--                proofs
--   Portcheck    internal/portcheck/portcheck.go: whether a local socket is bound to a port; Lines
--                describes the lines of the socket tables, and Sockets holds the proofs
--   Cli          internal/cli/cli.go and main.go: the command and its exit code, in Cli.Exit
--
-- A function keeps its name in this language's spelling: `reconcileOne` is `reconcile_one`. A call
-- that may fail returns a `Result`, and a method that changes its receiver or talks to the world is
-- a `Run W A`, a function from the world to the result and the next world. The world of a packet
-- client is the history of its calls, the newest first; each call is answered by the record `Net`
-- from all that happened before, so a theorem over every `Net` holds for every order of answers,
-- losses, foreign datagrams and errors. The daemon runs over any client, any listener check and any
-- clock, the record `Daemon.State.Host`.
--
-- Loops are structural: the outer loop of an exchange counts down the attempts that are left, the
-- inner loop the foreign datagrams that may still be ignored (16), as the program's own counters
-- do. Only the collection of SSDP responses, which the deadline of its socket ends, has fuel, the
-- rounds of its loop: one more than the datagrams that arrive is enough. `renew_loop` ends when the
-- context is done, which is the environment's choice: its argument counts the times that the timer
-- fires before.
--
-- Bytes are numbers below 256, and 16- and 32-bit fields are cut off with the remainder written
-- out. A duration is a signed count of nanoseconds, a time a count of nanoseconds; neither wraps at
-- 64 bits. Maps are association lists. An error is a sentinel or the constant part of a message,
-- perhaps wrapped; the numbers printed in a message are left out.
--
-- Not modelled: log lines; the parsing of the configuration file and of the command line, which
-- third-party libraries do, parameters here, and how a signal ends the context; the mutexes of the
-- PCP and UPnP clients, whose methods run one at a time here. To the UPnP client the SSDP search is
-- a call of its network, which Upnp.Search makes the code of Ssdp.Discover. The constructors' options, by which
-- tests replace a part, are the choice of the parameters. Go's libraries on XML, URLs and interfaces
-- are parameters too, records of functions.
pub mod Common
pub mod Addr
pub mod Mapping
pub mod Portmapper
pub mod Network
pub mod Natpmp
pub mod Pcp
pub mod Config
pub mod Daemon
pub mod Cli
pub mod Netgw
pub mod Portcheck
pub mod Upnp

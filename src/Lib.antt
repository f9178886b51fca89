-- ===== src/Lib.antt =====
-- A model of bigmachine, a library that runs Go programs on a cluster of machines.
--
-- A driver starts machines through a system (EC2, local processes, the in-process test system)
-- and talks to the supervisor on each of them by RPCs over HTTP. The parts and their files:
--
--   Machine (machine.go): the driver's view of a machine. Machine holds its state and the
--     operations under its lock (setState, setError, Wait, context), Machine/Waiting, /Contexts,
--     /Invariant and /Latencies follow them through any sequence of operations by any goroutines.
--     Machine/Calls is Call, Machine/Retry retryCall and RetryCall, Machine/Loop the goroutine
--     that brings a machine up and keeps it alive, Machine/Exec the upload of the driver's
--     binary. Machine/Timeouts adds the deadlines to calls and retries, Machine/Dumps saves the
--     profiles of a dying machine, Machine/Beginning completes a new one. Machine/Ooms is the
--     monitor of the kernel's log, Machine/Tails the tail of the machine's.
--   Rpc (rpc/server.go, rpc/client.go, rpc/stats.go): Rpc/Paths builds and takes apart the URLs,
--     Rpc/Wire is what the two sides exchange, Rpc/Services registers the services of Rpc/Server,
--     the side of the server, and Rpc/Client is the other; the
--     other files under Rpc are about the registration, the types of the methods, the statistics and the
--     client cache. Rpc/Stats is the tree of the statistics, Rpc/Logging (rpc/log.go too) has the
--     loggers of a client and the writers that flush.
--   Supervisor (supervisor.go): the service on each machine, with Supervisor/Uploads for the
--     calls that prepare Exec, Supervisor/Watchdog and /Keepalive for the watchdog and the
--     keepalives that hold it off, Supervisor/Upkeep for the driver's loop against the watchdog,
--     and Supervisor/Reports and /Info for the calls that report on the process or end it.
--   Authority (internal/authority/authority.go): the certificates that machines and driver trust.
--   Cluster (bigmachine.go): the B of a program: Start, Dial, the parameters, run; with
--     Cluster/Refinement for the table of machines that it stands for, with Dial's goroutines, Cluster/Registry
--     (system.go) for the systems by name, Cluster/Shutdown, Cluster/Profiler (profile.go),
--     Cluster/Status and /Rows (status.go, expvar.go), and Cluster/Debug and /Pages for the
--     routes, the index and the replies of the diagnostic pages.
--   Local (local.go): the system of local processes, whose environment makes them machines.
--   Streams (internal/tee, internal/ioutil, internal/filebuf, rpc/sizereader.go,
--     rpc/fault_injector.go): the readers and writers that wrap others; Streams/Tee/Writers is a
--     Writer with its targets and their goroutines, as steps in any order.
--   Ec2 (ec2system/cloudconfig.go, ec2system/ec2machine.go): the cloud configuration and its
--     rendering; Ec2/Init, Ec2/Devices and Ec2/Slices for the block devices, Ec2/Boot and
--     Ec2/Templates for what an instance is told to do, Ec2/Launch for Start, Ec2/Addresses for
--     its URLs, Ec2/Remote and /Shell for ListenAndServe and the commands run by SSH, Ec2/Trust
--     for the authority that driver and instances share, Ec2/Config (ec2system/config.go) for
--     the settings, Ec2/Requests and /Tagging for what EC2 is asked for.
--   Testing (testsystem/testsystem.go): a part of the test system.
--   Commands (driver/driver.go, cmd/bigpi/bigpi.go): the driver's choice of a system, and the
--     estimate of pi.
--   Errors and Prelude: what the parts share. Tests: each result at a concrete input.
--
-- How the code is represented. Stateful code takes the state and returns it. A goroutine is the
-- sequence of its operations: where a function gives up the lock, it takes as an argument the
-- list of the operations that others carry out meanwhile. Channels, contexts, HTTP clients and
-- service instances are identifiers. Strings are lists of bytes; times are nanoseconds as natural
-- numbers, and overflow of 64-bit durations and counters is not modelled, except that of the total
-- of cmd/bigpi. Two processes that exchange deadlines read one clock.
--
-- Parameters. The library github.com/grailbio/base/errors is the record Errors, with the laws
-- that the code relies on in Laws; encoding/gob is the record Gob of Rpc/Wire, with GobLaws; the
-- path that net/url finds in a URL is a function, with ReadsPaths of Rpc/Paths for URLs without
-- special characters; text/template is the function Execute of Ec2/Boot, which may fail; what
-- a remote call, the operating system, the clock, a random draw, AWS, fatbin or yaml returns is
-- an argument; PEM, x509 and the files of an authority are the record Crypto of Authority, with
-- Laws in Authority/RoundTrips. Tests/Samples has instances for which the laws are proved.
--
-- Fuel. retry_call, retry_call_at and retry_temporary run on fuel; for retry_call and
-- retry_temporary any fuel past the attempt after which the policy gives up is enough, for
-- retry_call_at, whose policy need not give up, any past the overall timeout. The loop of Authority over PEM blocks runs on the length of its
-- text, since a decoded block is not empty, and a number is printed on fuel of the number. The
-- other loops run over the list of what the environment does.
--
-- Not modelled: the text of logs, the HTML of the index, HTTP transports and servers, the parsing of
-- flags and forms, the protocol of SSH, the generated instance types, the regression tests and the
-- commands bigoom and ec2boot, which only call the library.
pub mod Prelude
pub mod Errors
pub mod Machine
pub mod Rpc
pub mod Supervisor
pub mod Authority
pub mod Cluster
pub mod Local
pub mod Streams
pub mod Ec2
pub mod Testing
pub mod Commands
mod Tests

-- ===== src/Lib.antt =====
-- A model of the two privileged helpers of the operations agent, and of what they promise.
--
-- The agent runs without privileges. It sends framed JSON requests over Unix sockets to two
-- helpers: the root helper, which prepares, approves, rejects and rolls back changes of the host,
-- and the systemd helper, which inspects the host and restarts an agent that has gone silent. Both
-- write every decision into an audit log whose entries are chained by hashes.
--
-- The parts, the files and the sources:
--   * Base and its children: conditionals, lists, Go maps as association lists (`Dict`), results,
--     equality tests, integers, decimal and hexadecimal texts.
--   * Protocol (internal/protocol/messages.go): `Request`, `Response`, the methods, the states of
--     a change. Protocol/Pattern has the regular expressions, Protocol/FilePath the functions of
--     path/filepath that the code calls, Protocol/Operations the tagged union of operations with
--     `Validate`, `MarshalOperation` and `parseOperation`, Protocol/Frame `ReadFrame` and
--     `WriteFrame` (internal/protocol/framing.go). Protocol/Json has the decoding of JSON values
--     into structs and `strictDecode`, Protocol/Decode the decoding of `parseOperation`,
--     Protocol/Parse `ParseRequest`; Parse/WellFormed and Parse/Strict are about what it lets
--     through, Parse/RoundTrip and Parse/Accepted about what it reads back.
--   * RpcServer (internal/rpcserver/server.go): `serveConnection` with `writeResponse` and
--     `requestIDFromMalformed`. RpcServer/Ends is about its loop, RpcServer/Sound about what the
--     handler is called with, RpcServer/Answers about the responses. RpcServer/Listen:
--     `ListenAndServe`, `removeStaleSocket` and `Close`, by what they do to the socket's path.
--     RpcServer/Connections: the connections that are served side by side; Connections/Kept is
--     about what their turns keep.
--   * PeerCred (internal/peercred): the credential of a socket's peer.
--   * Programs (cmd/ops-root-helper/main.go): the tests on the flags and the start of the root
--     helper; Programs/Started is about what holds then, Programs/Lifetime about every run from
--     then on, with all connections, and Lifetime/Strangers about those without the approver;
--     Lifetime/Printing is a printing of operations for the examples. Programs/Systemd
--     (cmd/ops-systemd-helper/main.go): the start of the systemd helper, with the monitor's
--     `SystemdRestarter` on a host; Systemd/Restarts is about what it runs.
--   * Audit (internal/audit/log.go): `Open` (`open_at`, and `open_log` on a file that is read
--     whole), `verifyExisting`, `Append`. Audit/Lines is about the lines of the file, Audit/Chain
--     about what `Open` accepts, Audit/Append about what `Append` leaves, Audit/Evidence about
--     what the last hash shows.
--   * RootHelper/Change and RootHelper/Store (internal/roothelper/store.go): the records, the
--     state in memory, state.json, `PutChange`, `Cached`, `Cache`, `persistLocked`;
--     RootHelper/Recovery: `OpenStore`, `recoverInterrupted`. RootHelper/Store/Durable is about
--     what a write leaves on disk.
--   * RootHelper/Machine: the state of the service and the calls that change it; the executor is
--     an interface over a state of the host. RootHelper/Handler: how the methods return early.
--     RootHelper/Service, with Prepare, Approve, Failure and Dispatch
--     (internal/roothelper/service.go): one function per method, `Handle` and
--     `RecoverInterrupted`.
--   * RootHelper/Policy (internal/roothelper/executor.go): `ValidateOperation`,
--     `ensureAllowedPath`, `isCriticalPath`, `isCriticalService`; Policy/Allowed is about what
--     they let through. RootHelper/Command: `limitedBuffer` and `safeUnitFragment`;
--     RootHelper/Runner: `ExecRunner`. RootHelper/Host: a host of files and commands, on which the
--     other parts of the executor run: RootHelper/FileChange (`prepareFile`, `executeFile`,
--     `atomicReplace`, `copyFile`, the rollback of a file; FileChange/Temporary is about the
--     temporary file), RootHelper/Packages (package managers, `systemctl`), RootHelper/Capsule
--     (break-glass scripts) and RootHelper/Executor (`Prepare`, `Execute`, `Verify`, `Rollback`).
--     The children of FileChange are about the files that a change leaves, those of Executor about
--     the commands run.
--   * RootHelper/Spec: the step relation that the service implements: the edges between the states
--     of a change, who may move it, and what must be stored before the executor touches the host.
--     Its children are about every run of the relation. RootHelper/Refine: every method is a run
--     of the relation. RootHelper/Guarantees: what this gives for `Handle`, for a request that
--     comes again (Guarantees/Replay, Guarantees/Remember) and for a restart (Guarantees/Restart);
--     Guarantees/Committed is about what a success of `approve` shows.
--   * SystemdHelper/Monitor (internal/systemdhelper/monitor.go): `Heartbeat`, and what `Check`
--     decides under its lock; Monitor/Runs: whole runs of it; Monitor/Limits is about their
--     restarts, Monitor/Detection about when they come. SystemdHelper/Service
--     (internal/systemdhelper/service.go): `Handle`; Service/Served is about who is served.
--     SystemdHelper/Watchdog: `Run` and the whole of `Check`, beside the requests that are served;
--     Watchdog/Heartbeats is about what a request does to the monitor, Watchdog/Reported about the
--     audit entries, Watchdog/Limited about the restarts. SystemdHelper/Inspect: `OSInspector` and
--     `SystemdRestarter` on a host; Inspect/Complete is about the snapshot. SystemdHelper/Runner:
--     `ExecRunner`, beside that of the root helper.
--
-- How the code corresponds to the model:
--   * The state is passed explicitly. A Go error is an `Option` of its text, a call with a value
--     and an error a `Result`. Records are values, so the clones in the store are the value
--     itself.
--   * `Handle` runs under the service's mutex, so its calls come one after the other. What the
--     outside answers (clock, random bytes, system calls) is given by the number of the call, and
--     no theorem limits these answers but for the hypotheses that it names.
--   * `Check` lets go of its lock before it calls `Restart` and `Append`, so `Run` moves in steps
--     (`Phase`), between which requests are served in any number. A request is one step.
--   * crypto/sha256, the formatting and parsing of times, the scanning and printing of JSON and
--     what commands do are parameters (`Encoding`, `StateCodec`, `Env`, `Scan`, `FileCodec`,
--     `System`). The hypotheses on them: an audit entry is read back as it was written and takes
--     one line (`IsFaithful`), the operation of the request is read back (`ReadsBack`), random
--     change ids are new (`IsFresh`) and not drawn twice (`IsDistinct`), state.json is read back
--     up to the layout of the JSON values embedded in it, and the metadata of a file's backup are
--     read back. The service's theorems hold for every executor; `os_executor` is the one of the
--     program.
--   * On the host a file is its bytes, mode and owner under its path. Directories are not
--     followed; the temporary file of `atomicReplace` stands beside the paths that the executor
--     names, until it is renamed or removed. Any system call may fail, and a copy, a write or a
--     sync that fails leaves a part of the bytes.
--   * `json.Marshal` is total here: what the code gives to it are maps and structs of texts,
--     numbers, booleans and raw JSON. Only the encoding of the whole state may fail.
--   * Loops are structural recursions, but for that of `serveConnection`: it runs on as many turns
--     as the input has bytes and one more, which is enough, since every turn that goes on takes a
--     frame off the input.
--   * Times are natural numbers of nanoseconds, durations integers.
--   * The goroutines of the connections make their turns in any order on the state of one handler;
--     a turn is a step, since it touches that state only within `Handle`.
--
-- Not modelled: the parsing of flags and the signals in cmd, the deadlines of reads and writes,
-- the ticker of `Run`: all of them are calls of the operating system and of the library. The
-- printing of responses is the function `encode` of a server. A state in state.json that is none
-- of the constants, and a change that is null there, have no value in the model: the reading of
-- state.json (`unmarshal_state`) gives changes in one of the nine states, or an error.
pub mod Audit
pub mod Base
pub mod PeerCred
pub mod Programs
pub mod Protocol
pub mod RootHelper
pub mod RpcServer
pub mod SystemdHelper

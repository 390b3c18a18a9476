-- ===== src/Lib.antt =====
-- minisshd, a small single-user SSH server: a model of its core and the theorems about it.
--
-- The program resolves its settings and its host key (cmd/minisshd, internal/hostkey), accepts
-- connections (internal/server), authenticates them by password or public key (internal/auth)
-- behind a per-IP back-off (internal/ratelimit), and serves sessions (internal/session) and local
-- port forwards (internal/server/forward.go), with structured logs (internal/logging). The auth
-- callbacks of the server call the limiter, then the credential and key checks, then the limiter's
-- release, then the logger; they are modelled over the models of those parts. The session's state
-- machine reads its requests with the wire formats and builds the environment of the child, which
-- is then started, supervised, and reported. The command line is modelled over the resolvers, the
-- key source, the scrubs and the host key, and its result is what the handshake's configuration is
-- built from.
--
-- Files, and the code they are about:
--   Prelude              numbers, lists, byte strings and association lists shared by the rest
--   Ratelimit/Clock      internal/ratelimit/clock.go
--   Ratelimit/Delay      computeDelay (internal/ratelimit/ratelimit.go), on a 64-bit product
--   Ratelimit/Limiter    entry, Limiter, loadOrCreate, Acquire, release and Snapshot: the map of
--                        pointers is an association list into a heap of entries
--   Ratelimit/Refinement, Attempts   the well-formed limiter, its view as one record per key, and
--                        sequences of attempts
--   Ratelimit/HeadStart, Guesses   how long a client's failing attempts take
--   Ratelimit/Moves      the same code as steps between the lock operations of goroutines
--   Ratelimit/Lookups, Exclusion, Safety, Races   what the locks guarantee of the reachable states
--   Auth/Credentials     NewCredentials, Check, CheckUsername (internal/auth/credentials.go), with a
--                        trace of the constant-time comparisons
--   Auth/Keyset          Keyset and KeysetSource (internal/auth/pubkey.go)
--   Auth/Methods         Methods and ResolveMethods (internal/auth/resolve.go)
--   Auth/Resolve         the resolvers of the password, the user name and the keys path in
--                        internal/auth/resolve.go
--   Session/Wire         parsers and payloads of internal/session/helpers.go; a slice out of range
--                        is a panic value
--   Session/Env          filterEnv and buildEnv, whose map has no order
--   Session/Pty          Setsize (internal/session/pty.go) and internal/session/sysproc.go
--   Session/Requests     preSpawnDispatch, its handlers and the first phase of Handle
--                        (internal/session/service.go), with replies, logs and PTY calls as effects
--   Session/Exit         signalName and sendExit
--   Session/Child        startChild, startWithPTY, processInflightRequests, signalAndKill, drain and the
--                        second phase of Handle (internal/session/service.go and pty.go)
--   Session/Child/Supervise   the waits of runChild as a step relation
--   Session/Resize       handleWindowChange beside the cleanup of runChild, on the session's lock
--   Session/Sftp         runSftp and defaultSftpHandler
--   Session/Handle       the whole of Handle: the first phase, the launch and what follows
--   Server/Config        Config, New (internal/server/config.go and server.go)
--   Start/Served         what main.go hands to New, and its exit code
--   Server/Dispatch      internal/server/dispatch.go
--   Server/Forward       internal/server/forward.go; the goroutine of a channel as stages
--   Server/Auth          the auth callbacks of internal/server/auth.go; Server/Auth/Guessing runs
--                        many of them
--   Server/Connection    newServerConfig, isExpectedHandshakeError and handleConn
--                        (internal/server/server.go)
--   Server/Serve         Serve and its helper goroutines as a step relation
--   Server/Serve/Connected   what handleConn does to the wait groups of Serve
--   HostKey/Files        the calls of package os that the program makes, with their laws
--   HostKey/Load         LoadOrGenerate and its helpers (internal/hostkey/hostkey.go)
--   Start/Settings       resolveForwardMax, validateShell, ensureMinisshdDir (cmd/minisshd/main.go) and
--                        ParseFormat (internal/logging/format.go)
--   Start/Ran, World, Run   run of cmd/minisshd/main.go up to Serve, in a monad of output and exit;
--                        what it asks of the outside is one record
--   Start/Causes, Stops, Exits   what the exit codes of run stand for
--   Start/Output, Printed   what run prints
--   Start/Reloader       the goroutine of run that reloads the accepted keys at a SIGHUP
--   Start/Drawn          the drawn password from the command line to the credentials and the log
--   Logging/Scrub        the password scrub of emit and New, and GeneratePassword
--   Logging/Line         the logfmt and JSON encoders
--   Logging/Events       the event methods of Logger
--   */Tests, Server/LoginTests   the theorems applied to concrete inputs
--
-- Conventions. Strings and byte slices are lists of byte values. A time is a number of nanoseconds
-- and never negative. An int that can overflow is a 64-bit number with its wrap-around written out;
-- uint32 conversions are taken modulo 2 ^ 32. Loops are recursion on the list that the code ranges
-- over; the polls of signalAndKill alone run on fuel, and 101 rounds are enough for 5 s in naps of
-- 50 ms. Calls that leave the program (the logger, the network, SSH replies) are recorded as lists
-- of effects, in the auth callbacks together with the calls of the limiter and of the checks. SHA-256, the text of an IP, the fingerprint, the authorized-keys line parser,
-- ssh.Unmarshal, json.Marshal, TrimSpace and the number formats are parameters.
--
-- Not modelled: what the sftp server does with its requests (a package outside the repository), the
-- copies of bytes between a channel and a child or a forwarded connection, the contents of system
-- calls (the listener's socket option, what setsid does), main, which is wiring, and the texts of
-- error messages on standard error.
pub mod Prelude
pub mod Ratelimit
pub mod Auth
pub mod Session
pub mod Server
pub mod Logging
pub mod HostKey
pub mod Start

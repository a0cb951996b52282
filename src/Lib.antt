-- ===== src/Lib.antt =====
-- The WebDAV service of src/service: rclone's requests, the gateway interface behind them, the
-- gateway over the Proton Drive SDK, the in-memory gateway of the tests, and the session that is
-- kept on disk.
--
-- A request passes `handleRequest` (src/service/webdav.ts), which decodes and normalises its path
-- (src/service/paths.ts), calls the gateway (src/service/gateway.ts), and answers with the XML of
-- src/service/propfind.ts or with the status of the error that was thrown. A PUT that fails over
-- existing content arms the guard of src/service/overwriteGuard.ts, which refuses the DELETE that
-- rclone sends next. `MockGateway` (src/service/mockGateway.ts) implements the gateway interface,
-- and so does `SdkGateway` (src/service/sdkGateway.ts). `main` (src/service/serve.ts) has
-- `bootstrapService` (src/service/bootstrap.ts) take the session (src/service/sessionStore.ts) for
-- this process alone, listens at its socket, and gives the session's lock back when it ends. A
-- sign-out sets the latch that `handleRequest` looks at.
--
-- Files and code:
--   Base       shared names, texts as lists of code points, association lists, integers
--   Guard      src/service/overwriteGuard.ts: `protect`, `is_protected`, `release`, `prune`, `size`
--   Uri        `encodeURIComponent` and `decodeURIComponent` of the language
--   Paths      src/service/paths.ts: `segments`, `normalize`, `is_root`, `base_name`, `parent_path`,
--              `join`, `is_safe_segment`, `decode`, `encode_href`
--   Gateway    src/service/gateway.ts: the data, the errors, and `DriveGateway` as a record
--   Number     `parseInt`, `trim` and decimal numerals of the language
--   HttpDate   `new Date(ms)` and `toUTCString` of the language
--   Propfind   src/service/propfind.ts: `xml_escape`, `response_xml`, `multistatus`,
--              `quota_multistatus`, `proppatch_multistatus`
--   Sdk        src/service/sdkGateway.ts: Cache (`cachePath`, `invalidate`), Nodes (`toEntry`, the
--              loop of `list`), Errors (`mapGenericError`, `mapUploadError`), Client (the calls of
--              the SDK), Resolve (`getRootUid`, `resolve`), Queries (`stat`, `list`, the head of
--              `read`, `quota`), Uploads (`put`), Changes (`mkcol`, `remove`, `move`, `copy`), Seek
--              (`readRange`, `readRangeByFullRead`), Whole (`readWhole`)
--   Webdav     src/service/webdav.ts: Http (requests, responses, errors), Range (`parseRange`),
--              Headers (checksum, time and length headers), Handlers (PROPFIND, PROPPATCH, PATCH,
--              GET, HEAD), Put (`handlePut`), Dispatch (`handleRequest`)
--   Mock       src/service/mockGateway.ts: Tree (nodes), State (faults, log, `stat`, `list`),
--              Reading (`read`), Put (`put`), Ops (`mkcol`, `remove`, `move`, `copy`); Visible is
--              what a client can see of it
--   Service    the two together: requests of src/service/webdav.ts on src/service/mockGateway.ts
--   Session    src/service/sessionStore.ts: Disk (the state directory and the calls on it), Write
--              (`writePrivateFileAtomic`, `pruneOrphanTempFiles`), Lock (`acquireSessionOwnership`,
--              its release, the events lock), Directory (`ensurePrivateDirectory`), Store
--              (`OwnedFileSessionStore`)
--   Bootstrap  src/service/bootstrap.ts, what it does with the state directory: `bootstrapService`,
--              `getOrGenerateServiceClientUid`, `acquireCredentialStoreOwnership`, `withSignOutLatch`
--   Serve      src/service/serve.ts: `envFlag`, `main` with its watchdog and its shutdown
--
-- An awaited call is a function from a state to an outcome, a value or what was thrown, and the
-- state it leaves in either case; the server's state is the gateway's and the guard. A request is
-- handled to its end before the next one: the interleavings of concurrent requests are not
-- modelled. The time is an argument of the calls that read it.
--
-- What the SDK answers is an argument: `Client` is a record of its calls on a world that the
-- service does not see, and the replies of a seekable stream, the chunks of a download and the
-- classes of an error are given. The releases of download slots and of request bodies are not
-- modelled, and one operation reads the clock once. A download is a list of events on the streams
-- between the SDK and the response, a chunk being written only when the one before it has been.
-- `resolve` recurses on the segments of the path, the last one first.
--
-- The state directory is a map from names to files, and `Machine` says which calls fail, which
-- processes live, what the clocks show and how many bytes a write takes. A call of the lock runs to
-- its end before another process does: what two starts at the same moment do is not modelled.
-- Errors of the session keep their class and not their message. The loop of a write has one unit of
-- fuel more than the file has bytes. The service's socket is an entry at one path, with a kind and
-- an inode; what `Bun.serve` does with what stands there is a parameter, and where it listens there
-- is a new socket; a run of the service is a list of events. Names are sorted by code points, where
-- JavaScript compares UTF-16 units.
--
-- Parameters: `parse_pid`, `parse_client_uid`, `client_uid_json`, `stringify` and `marker_json` are
-- what `JSON` reads and writes, `parse_stored_snapshot` the CLI's reader of a session, `get_name`
-- its name of a node, `url_pathname` the path name of `new URL(...)`, `sha1_hex` the digest of
-- node:crypto. Numbers are exact where JavaScript rounds above 2^53. Texts are sequences of code
-- points without lone surrogates. The logger is left out. `pull_chunks` has one unit of fuel more
-- than the stream has bytes, and every chunk holds a byte. `move` of the root, which where its
-- checks pass makes the mock's tree a cycle, fails there in the model and changes nothing.
--
-- Not modelled: of src/service/sdkGateway.ts the setting up of a ranged read and the pass-through
-- of an upload's body; of src/service/bootstrap.ts the wiring of the CLI's and the SDK's modules,
-- which are not in the repository, so that a start that fails there is `init_failed`; of
-- src/service/serve.ts the default path of the socket and what Bun does with connections, and with
-- the file of a socket when it stops; src/service/serveMock.ts; and of src/service/mockGateway.ts
-- the helpers that seed, save and restore the tree.
pub mod Base
pub mod Guard
pub mod Uri
pub mod Paths
pub mod Gateway
pub mod Number
pub mod HttpDate
pub mod Propfind
pub mod Sdk
pub mod Webdav
pub mod Mock
pub mod Service
pub mod Session
pub mod Bootstrap
pub mod Serve

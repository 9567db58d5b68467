-- ===== src/Lib.antt =====
-- A model of the Go backend of xrestream, a restreaming relay for HLS channels, and theorems
-- about it.
--
-- The program has a control plane (backend/internal/httpapi/, with its data in PostgreSQL,
-- backend/internal/store/) and nodes (backend/internal/nodeagent/). Both run the relay
-- (backend/internal/relay/), which fetches or transmuxes the channels' sources in one worker
-- goroutine per channel and serves playlists and segments. A node gets its channels from the
-- control plane, holds them in memory, and queues status reports and metrics for it.
--
-- - Base.antt and Base/: tests, lists, bytes as texts, association lists, 64-bit integers,
--   decimal numbers (strconv.ParseInt, %d of fmt) and results. A Go string is the list of its
--   bytes.
-- - Store/Models.antt: backend/internal/store/models.go, the records. A pointer that may be nil
--   is an Option, a time.Time the nanoseconds since 1970.
-- - NodeAgent/MemStore.antt: backend/internal/nodeagent/memstore.go, one function per method. A
--   Go map is an association list whose order stands for one order of iteration.
-- - NodeAgent/Token.antt: requirePlaybackToken of backend/internal/nodeagent/httpserver.go.
--   url.Values.Get is an argument.
-- - Relay/Signer.antt: backend/internal/relay/signer.go. SHA-256 and HMAC are a record of
--   functions.
-- - Relay/R2.antt: NewR2Client and PublicURL of backend/internal/relay/r2.go.
-- - Relay/Workers.antt: the registry of worker goroutines of backend/internal/relay/manager.go
--   (StartWorker, StopWorker, releaseWorker, StopAll, WorkerRunning), with workerLoop and
--   transmuxLoop as phases; how a part of a turn turns out is an argument of the event. An event
--   is one critical section or one status write, so the theorems over all lists of events cover
--   every interleaving.
-- - Relay/Viewers.antt: RecordViewer and LiveViewers of backend/internal/relay/manager.go.
-- - Relay/Transmux.antt: readTransmuxPlaylist and allOutputAreHeaders of
--   backend/internal/relay/manager.go. The directory, the clock and the set of uploaded segments
--   are a record, so a read sees one state of them.
-- - Relay/Tables.antt: RegisterAsset, assetSource, SetR2Client and PurgeChannel of
--   backend/internal/relay/manager.go, over the tables that they share.
-- - NodeAgent/Agent.antt: backend/internal/nodeagent/agent.go, syncConfig and flushReports. It
--   drives the channel store, the worker registry and the tables; what the control plane answers
--   is an argument.
-- - Relay/Restarts.antt: how transmuxLoop of backend/internal/relay/manager.go waits between the
--   starts of ffmpeg and when it gives a source up.
-- - HttpApi/Sessions.antt: bearerToken and currentSession of backend/internal/httpapi/server.go,
--   with the authCache of backend/internal/httpapi/auth.go. What the database answers is an
--   argument of each request.
-- - HttpApi/Tokens.antt: handlePlaybackToken, once the channel is found, and
--   requirePlaybackToken of backend/internal/httpapi/server.go.
-- - Store/Sql.antt, Store/Database.antt and Store/: the queries of
--   backend/internal/store/store.go, backend/internal/store/nodes.go and
--   backend/internal/store/auth.go over a record of tables. A statement is a function of the
--   tables; what its constraints refuse, and a failure from outside, leaves them as they were. Ids
--   are canonical texts of uuids, a request names an id in that form, and rows with equal sort
--   keys keep the order of the table.
-- - HttpApi/Server.antt, HttpApi/Answers.antt: the state of Server of
--   backend/internal/httpapi/server.go, requests and answers. A request is handled at one moment
--   with no other in between; its session, its decoded body and the failure of each of its queries
--   are arguments.
-- - HttpApi/Channels.antt, HttpApi/ChannelById.antt, HttpApi/Inputs.antt,
--   HttpApi/PlaylistUrls.antt, HttpApi/ShareLinks.antt, HttpApi/Accounts.antt: the channel
--   endpoints, share links, login, logout and signup of backend/internal/httpapi/server.go. A
--   start of a worker writes the channel's status to the database before the request is answered;
--   what the goroutine writes later is not part of the request.
-- - HttpApi/Admin.antt, HttpApi/Users.antt, HttpApi/Passwords.antt:
--   backend/internal/httpapi/admin.go; bcrypt is a record of functions.
-- - HttpApi/MyNodes.antt, HttpApi/MyStorage.antt, HttpApi/MyOrigins.antt, HttpApi/NodeApi.antt:
--   backend/internal/httpapi/nodes.go, with HttpApi/NodeApi/Outages.antt following an answer into
--   the node's agent.
-- - HttpApi/OriginCache.antt: originCache of backend/internal/httpapi/auth.go.
-- - HttpApi/Gates.antt: the referer gates of backend/internal/httpapi/server.go over that cache.
--
-- Loops over lists are structural recursion. Fuel occurs in the printing of a number (as much as
-- the number itself, and each round divides it by ten) and nowhere else. int64 arithmetic wraps
-- around where the code computes with it (wrap64, % 2 ^ 64).
--
-- Not modelled: the calls of the S3 client, of ffmpeg and of the file system; the HTTP client
-- and server; the wiring in backend/cmd/api/main.go; the frontend. frameAncestorsCSP, withCORS
-- and the playback routes of backend/internal/httpapi/server.go,
-- backend/internal/nodeagent/httpserver.go but for its token check,
-- backend/internal/config/config.go and the rest of the relay's manager are not modelled either.
pub mod Base
pub mod Store
pub mod NodeAgent
pub mod Relay
pub mod HttpApi

-- ===== src/Lib.antt =====
-- A verification library for the file server: FTP and SFTP access to an object store, with logins
-- from a table of users, an audit trail, and an HTTP API for administrators (apps/ftp).
--
-- The parts, and how they meet. A login goes from a protocol server (AuthUser, passwordCallback,
-- publicKeyCallback) to DBAuthenticator.Authenticate, which asks the Lockout and the table of users
-- and reports to the audit Logger. A user who is let in gets a driver: AuditFS around COS, which
-- keeps its files as objects under the user's root. COS calls cos.Client, which takes credentials
-- from the Chain and sends each request to the SDK, a second time if it was refused for its
-- credentials. The Logger writes events to the table audit_events in batches. The API admits a
-- request by the session that its cookie names, which an OpenID Connect provider's callback has
-- issued; its handlers read and write the same table, store and trail.
--
-- Which file models which code, all but the last two under apps/ftp/internal:
--   Auth/Password, Auth/Lockout   auth/auth.go: ValidatePassword; Lockout, with Allow, RecordFailure
--                                 and Reset. Auth/Runes is Go's decoding of UTF-8.
--   Config, Config/Ports          config/config.go: Load; its Sscanf of a range of ports
--   Db, Db/Admins                 db/queries.go: the queries on ftp_users and admin_users, over lists
--                                 of rows
--   Core/Authenticator            core/authenticator.go: Authenticate, over AuthState
--   Audit/Event, Audit/Logger     audit/audit.go: Event; New, Log, the loop of run, writeBatch, Close
--   Net, Ftpserver                ftpserver/server.go: clientIPFromAddr, AuthUser, ClientDisconnected
--   Ftpserver/Settings            ftpserver/server.go: GetSettings, WrapPassiveListener, GetTLSConfig,
--                                 logTLSState
--   Ftpserver/CertChain           ftpserver/server.go: loadCertChain, orderChain
--   Ftpserver/Sessions            ftpserver/sessions.go: SessionRegistry
--   Sftpserver                    sftpserver/server.go: passwordCallback, publicKeyCallback
--   Sftpserver/Session            sftpserver/server.go: handleConn, handleSession, serveSFTP
--   Cos, Cos/Client, Cos/Listing  cos/client.go and cos/fs.go: errors, refresh, do, the operations, List
--   Cos/Chain, Cos/Sts            cos/creds.go: NewChainFromEnv, HasStatic, Invalidate, Get; oidcSTS
--   Fsdriver/FileInfo, Files,     fsdriver/cos.go: fileInfo, readOnlyFile, memWriteFile, COS
--     ObjectFs
--   Fsdriver/DirFile, AuditFs     fsdriver/audit.go: dirFile; AuditFS, auditFile
--   Fsdriver/SftpHandlers         fsdriver/sftp_handlers.go
--   Fsdriver/Plugins              fsdriver/plugin.go: NewObjectStorage, COSPlugin, LocalPlugin
--   Admin/Paths, Admin/Sessions   admin/files.go: sanitizePath; admin/middleware.go
--   Admin/Files, Files/Send,      admin/files.go: listFiles, downloadFile, their routes, clientIP
--     Admin/Requests
--   Admin/Users                   admin/users_api.go and admin/cos_err.go
--   Admin/Oidc, Account, Folders  admin/oidc_api.go, account_api.go, folders_api.go
--   Admin/AuditApi, Admin/Limits  admin/audit_api.go: queryAudit, exportAuditCSV
--   Admin/Routes                  admin/api.go: Routes, listUsers; ListFTPUsers of db/queries.go
--   Startup                       apps/ftp/cmd/ftp-server/main.go: run, and the servers that it makes
--   Ftpserver/Drivers             apps/ftp/cmd/ftp-server/main.go: NewDriver
--   Base and Text hold what these share: tests, lists, sorting, maps as association lists, byte strings,
--   and the functions of Go's packages strings, strconv and path that the code calls. Tests holds
--   concrete inputs.
--
-- State is a record that an operation takes and returns. A Go error beside a result is a Result, an
-- error alone is an Option, and a panic is `none` or a constructor of its own. A mutex makes an
-- operation one step. The goroutines of the logger and of its callers are a list of steps in any
-- order: a Log is two of them, the load of closed and the send, and so is a Close, of its flag and of
-- its channel. The clock, and what is random, are arguments, or part of the interface of the store.
--
-- Code outside the repository is a parameter: bcrypt (a function of hash and password), the Unicode
-- tables, the parsers of addresses and of SSH keys, the SDK of the object store with its token
-- service (the record Cloud of Cos), in AuditFs any driver (the record AferoFs), in the file browser
-- any storage backend (Storage), the OpenID Connect provider (Provider), the file, HTTP and JSON of
-- the token service (Wire), the parsers of certificates (Certificates) and of the configuration's
-- numbers (Parsers), RFC 3339 (Clock), ILIKE, and the table of MIME types. What is asked of a store
-- is IsLawful; a PUT may have read of its body whatever it answers.
-- SQL statements are read as functions of the rows, under the constraints of db/migrations; a list
-- of faults says which statements fail for the connection. Tests/Data has a store that fulfils the
-- laws.
--
-- Bounds. Numbers are natural, or pos and negsuc of one where the code parses a sign: instants are
-- nanoseconds from a fixed origin, and sizes, counts and ids are taken to stay below 2^63, where
-- Go's int64 does not wrap. Atoi keeps its range errors. Fuel: the clients in
-- Fsdriver/DirFile/Paging take one round more than entries are left; the loop of io.Copy in
-- Admin/Files/Send, over the object store, one read more than bytes are left; the walk of orderChain
-- one round more than there are certificates; and the loop over pem.Decode one round more than there
-- are bytes, of which every block takes some.
--
-- Not modelled: the accept loops of the servers, SSH host keys, the pool, the migrations and the
-- seeds of internal/db, audit retention, telemetry, the local driver, which
-- only calls afero, WebIdentityClaims, which only a log shows, and the browser interface apps/web.
-- Logs, JSON and the quoting of CSV are left out, and so is the deferred Close of a file that a
-- download has only read.
pub mod Base
pub mod Config
pub mod Text
pub mod Auth
pub mod Db
pub mod Audit
pub mod Core
pub mod Net
pub mod Ftpserver
pub mod Sftpserver
pub mod Startup
pub mod Cos
pub mod Fsdriver
pub mod Admin
pub mod Tests

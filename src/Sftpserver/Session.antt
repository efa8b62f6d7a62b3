-- ===== src/Sftpserver/Session.antt =====
-- handleConn, handleSession and serveSFTP of internal/sftpserver/server.go, and the requests that
-- sftp.RequestServer hands to the handlers.
pub mod Trail
use cloud_file_server.Base.{
  ℕ, Bool, true, false, not, ◌&&◌, List, [], ◌∷◌, ◌++◌, Option, none, some, Result, ok, err, leb,
  length, drop, if◌then◌else◌,
}
use cloud_file_server.Text.{Text, ascii, text_beq}
use cloud_file_server.Net.{Net, client_ip_from_addr}
use cloud_file_server.Audit.Event.{Event, zero_event}
use cloud_file_server.Db.{FtpUser}
use cloud_file_server.Fsdriver.AuditFs.{AferoFs, Mount, World, AuditFile, read_at, write_at, close}
use cloud_file_server.Fsdriver.SftpHandlers.{Request, fileread, filewrite, filecmd, filelist}
use cloud_file_server.Sftpserver.{conn_type}

-- What a client opens in a connection: whether a channel becomes a session.
unfoldable is_session_channel : Text → Bool
is_session_channel kind = text_beq kind (ascii "session")

-- `ssh.Request`
pub record ChannelRequest : Type 0 where
  pub kind : Text
  pub want_reply : Bool
  pub payload : Text

is_sftp_subsystem : ChannelRequest → Bool
is_sftp_subsystem req =
    text_beq req.kind (ascii "subsystem")
    && leb 4 (length req.payload)
    && text_beq (drop 4 req.payload) (ascii "sftp")

abbrev reply_if : ChannelRequest → Bool → List Bool
reply_if req granted = if req.want_reply then granted ∷ [] else []

-- The loop of handleSession over the requests of a channel: the replies, and whether the channel is
-- then served.
unfoldable handle_session : List ChannelRequest → List Bool × Bool
unfolding is_sftp_subsystem
handle_session [] = ([], false)
handle_session (req ∷ reqs) =
    let (replies, served) = handle_session reqs in
    if is_sftp_subsystem req
    then (reply_if req true, true)
    else (reply_if req false ++ replies, served)

module _ (D : AferoFs) (a : Mount) where
  -- What the request server calls: one of the handlers, or a method of a file that one of them opened.
  pub data SftpCall : Type 0 where
    reads : Request → SftpCall
    writes : Request → SftpCall
    commands : Request → SftpCall
    lists : Request → SftpCall
    reads_at : (len off : ℕ) → AuditFile D a → SftpCall
    writes_at : (data_sent : Text) (off : ℕ) → AuditFile D a → SftpCall
    closes : AuditFile D a → SftpCall

  pub serve_call : SftpCall → World D a → World D a
  unfolding fileread filewrite filecmd filelist read_at write_at close
  serve_call (reads r) w = (fileread D a r w).1
  serve_call (writes r) w = (filewrite D a r w).1
  serve_call (commands r) w = (filecmd D a r w).1
  serve_call (lists r) w = (filelist D a r w).1
  serve_call (reads_at len off f) w = (read_at D a len off f w).2
  serve_call (writes_at data_sent off f) w = (write_at D a data_sent off f w).2
  serve_call (closes f) w = (close D a f w).2

  -- The same, with what the hooks of the driver's plug-in log meanwhile, such as OnRefresh of the COS
  -- plug-in: the requests of a call, whose credentials may be refreshed, come before its own event.
  pub serve_logged : (D.State → D.State → List Event) → SftpCall → World D a → World D a
  unfolding serve_call
  serve_logged hook k w =
      let (s, added) = serve_call k (w.0, []) in (s, w.1 ++ (hook w.0 s ++ added))

  pub serve_calls : (D.State → D.State → List Event) → List SftpCall → World D a → World D a
  unfolding serve_logged
  serve_calls hook [] w = w
  serve_calls hook (k ∷ ks) w = serve_calls hook ks (serve_logged hook k w)

abbrev mount_of : Text → Text → FtpUser → ℕ → Mount
mount_of ip backend u session = record {
  username = u.username;
  client_ip = some ip;
  connection_type = conn_type;
  backend_location = backend;
  root_folder = u.root_folder;
  session = session;
}

abbrev pub logout_event : Mount → Event
logout_event a = record zero_event {
  username = a.username;
  client_ip = a.client_ip;
  action = ascii "LOGOUT";
  success = true;
  connection_type = a.connection_type;
  backend_location = a.backend_location;
  root_folder = a.root_folder;
}

-- `serveSFTP`: what LookupUser answers, what Mount answers for the folder, a driver whose state is
-- passed through with the events, and the calls of the client until it leaves. `hook` is what the plug-in
-- of the driver logs between two of its states.
module _ (net : Net) (D : AferoFs) (backend : Text) (addr : Text) (session : ℕ)
    (hook : D.State → D.State → List Event) where
  abbrev pub mount_for : FtpUser → Mount
  mount_for u = mount_of (client_ip_from_addr net addr) backend u session

  pub serve_mounted :
      (u : FtpUser) → List (SftpCall D (mount_for u)) → D.State × List Event → D.State × List Event
  unfolding serve_calls
  serve_mounted u calls w =
      let (s, events) = serve_calls D (mount_for u) hook calls w in
      (s, events ++ (logout_event (mount_for u) ∷ []))

  pub serve_sftp :
      Bool
      → Result Text (Option FtpUser)
      → Result Text (Unit {0})
      → ((u : FtpUser) → List (SftpCall D (mount_for u)))
      → D.State × List Event
      → D.State × List Event
  unfolding serve_mounted
  serve_sftp is_set found mounted calls w = if not is_set then w else elim found [
    | err _ ↦ w
    | ok none ↦ w
    | ok (some u) ↦ elim mounted [ err _ ↦ w | ok _ ↦ serve_mounted u (calls u) w ]
  ]

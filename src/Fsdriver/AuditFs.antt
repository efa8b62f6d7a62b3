-- ===== src/Fsdriver/AuditFs.antt =====
-- AuditFS and auditFile of internal/fsdriver/audit.go, over any driver. What the driver keeps and the
-- events handed to `audit.Logger.Log` are passed through.
pub mod Transfers
pub mod Commands
pub mod Attribution
use cloud_file_server.Base.{
  ℕ, ◌+◌, Bool, true, false, List, [], ◌∷◌, ◌++◌, Option, none, some, Result, ok, err, succeeds,
  if◌then◌else◌, length,
}
use cloud_file_server.Text.{Text, ascii}
use cloud_file_server.Audit.Event.{Event, zero_event}
use cloud_file_server.Fsdriver.FileInfo.{FileInfo, FsError}
use cloud_file_server.Fsdriver.Files.{Chunk, Written}
use cloud_file_server.Fsdriver.DirFile.{DirFile}

-- The flags of OpenFile that the code looks at: one of O_WRONLY and O_RDWR, and O_CREATE.
pub record Flags : Type 0 where
  pub writes : Bool
  pub creates : Bool

-- `afero.Fs`, with what `listDir` asks of it: its own ReadDir, or Open and Readdir.
pub record AferoFs : Type 1 where
  pub State : Type 0
  pub File : Type 0
  pub stat : Text → State → Result FsError FileInfo × State
  pub list_dir : Text → State → Result FsError (List FileInfo) × State
  pub open_path : Text → State → Result FsError File × State
  pub create : Text → State → Result FsError File × State
  pub open_file : Text → Flags → State → Result FsError File × State
  pub remove : Text → State → Result FsError (Unit {0}) × State
  pub remove_all : Text → State → Result FsError (Unit {0}) × State
  pub rename : Text → Text → State → Result FsError (Unit {0}) × State
  pub mkdir : Text → State → Result FsError (Unit {0}) × State
  pub mkdir_all : Text → State → Result FsError (Unit {0}) × State
  pub read : ℕ → File → State → Chunk × File × State
  pub read_at : ℕ → ℕ → File → State → Chunk × File × State
  pub write : Text → File → State → Written × File × State
  pub write_at : Text → ℕ → File → State → Written × File × State
  pub close : File → State → Option FsError × File × State

-- The fields of AuditFS that every event carries; `session` is made by NewAuditFS.
pub record Mount : Type 0 where
  pub username : Text
  pub client_ip : Option Text
  pub connection_type : Text
  pub backend_location : Text
  pub root_folder : Text
  pub session : ℕ

-- The event that `log` hands to the logger.
pub event : Mount → Text → Text → ℕ → Bool → Event
event a action path bytes success = record zero_event {
  username = a.username;
  client_ip = a.client_ip;
  session_id = a.session;
  action = action;
  path = path;
  bytes = bytes;
  success = success;
  connection_type = a.connection_type;
  backend_location = a.backend_location;
  root_folder = a.root_folder;
}

module _ (D : AferoFs) (a : Mount) where
  -- The driver's state, and the events logged so far.
  abbrev pub World : Type 0
  World = D.State × List Event

  -- `auditFile`; its `onClose` logs `action` and `name`.
  pub record AuditFile : Type 0 where
    pub file : D.File
    pub n : ℕ
    pub action : Text
    pub name : Text
    pub closed : Bool

  -- What Open returns.
  pub data Opened : Type 0 where
    directory : DirFile → Opened
    transfer : AuditFile → Opened

  unfoldable pub log : Text → Text → ℕ → Bool → World → World
  unfolding event
  log action path bytes success (s, events) =
      (s, events ++ (event a action path bytes success ∷ []))

  -- An operation whose outcome is logged, whatever it is.
  pub logged :
      {A : Type 0}
      → Text
      → Text
      → (D.State → Result FsError A × D.State)
      → World
      → Result FsError A × World
  unfolding log
  logged action path op (s, events) =
      let (answer, s1) = op s in (answer, log action path 0 (succeeds answer) (s1, events))

  -- A file that is opened for transfer, of which only a failure is logged at once.
  unfoldable pub transferred :
      Text
      → Text
      → (D.State → Result FsError D.File × D.State)
      → World
      → Result FsError AuditFile × World
  unfolding log
  transferred action name op (s, events) =
      let (answer, s1) = op s in
      elim answer [
        | err e ↦ (err e, log action name 0 false (s1, events))
        | ok f ↦ (
          ok (record { file = f; n = 0; action = action; name = name; closed = false }),
          (s1, events),
        )
      ]

  unfoldable pub read_dir : Text → World → Result FsError (List FileInfo) × World
  read_dir name = logged (ascii "LIST") name (D.list_dir name)

  is_dir : Result FsError FileInfo → Bool
  is_dir (ok info) = info.is_dir
  is_dir (err e) = false

  open_dir : Text → World → Result FsError Opened × World
  unfolding read_dir
  open_dir name w =
      let (listed, w1) = read_dir name w in
      elim listed [
        | err e ↦ (err e, w1)
        | ok entries ↦ (
          ok (directory (record { name = name; entries = entries; offset = 0; closed = false })),
          w1,
        )
      ]

  open_transfer : Text → World → Result FsError Opened × World
  open_transfer name w =
      let (opened, w1) = transferred (ascii "DOWNLOAD") name (D.open_path name) w in
      elim opened [ err e ↦ (err e, w1) | ok f ↦ (ok (transfer f), w1) ]

  pub open_path : Text → World → Result FsError Opened × World
  unfolding is_dir open_dir open_transfer
  open_path name (s, events) =
      let (info, s1) = D.stat name s in
      if is_dir info then open_dir name (s1, events) else open_transfer name (s1, events)

  unfoldable pub create : Text → World → Result FsError AuditFile × World
  create name = transferred (ascii "UPLOAD") name (D.create name)

  unfoldable pub open_file : Text → Flags → World → Result FsError AuditFile × World
  open_file name flags =
      transferred (if flags.writes then ascii "UPLOAD" else ascii "DOWNLOAD") name
        (D.open_file name flags)

  unfoldable pub remove : Text → World → Result FsError (Unit {0}) × World
  remove name = logged (ascii "DELETE") name (D.remove name)

  unfoldable pub remove_all : Text → World → Result FsError (Unit {0}) × World
  remove_all path = logged (ascii "DELETE") path (D.remove_all path)

  unfoldable pub rename : Text → Text → World → Result FsError (Unit {0}) × World
  rename oldname newname =
      logged (ascii "RENAME") (oldname ++ ascii " -> " ++ newname) (D.rename oldname newname)

  unfoldable pub mkdir : Text → World → Result FsError (Unit {0}) × World
  mkdir name = logged (ascii "MKDIR") name (D.mkdir name)

  unfoldable pub mkdir_all : Text → World → Result FsError (Unit {0}) × World
  mkdir_all path = logged (ascii "MKDIR") path (D.mkdir_all path)

  -- The methods of auditFile; ReadAt and WriteAt are those of the file inside.
  pub read : ℕ → AuditFile → World → Chunk × AuditFile × World
  read len f (s, events) =
      let (chunk, file, s1) = D.read len f.file s in
      (chunk, record f { file = file; n = f.n + length chunk.0 }, (s1, events))

  unfoldable pub write : Text → AuditFile → World → Written × AuditFile × World
  write p f (s, events) =
      let (written, file, s1) = D.write p f.file s in
      (written, record f { file = file; n = f.n + written.0 }, (s1, events))

  unfoldable pub read_at : ℕ → ℕ → AuditFile → World → Chunk × AuditFile × World
  read_at len off f (s, events) =
      let (chunk, file, s1) = D.read_at len off f.file s in
      (chunk, record f { file = file }, (s1, events))

  unfoldable pub write_at : Text → ℕ → AuditFile → World → Written × AuditFile × World
  write_at p off f (s, events) =
      let (written, file, s1) = D.write_at p off f.file s in
      (written, record f { file = file }, (s1, events))

  unfoldable pub close : AuditFile → World → Option FsError × AuditFile × World
  unfolding log
  close f (s, events) =
      let (answer, file, s1) = D.close f.file s in
      if f.closed then (answer, record f { file = file }, (s1, events)) else (
        answer,
        record f { file = file; closed = true },
        log f.action f.name f.n true (s1, events),
      )

-- ===== src/Fsdriver/SftpHandlers.antt =====
-- SFTPHandlers of internal/fsdriver/sftp_handlers.go, over the mount of one user, which the servers
-- wrap into an AuditFS.
use cloud_file_server.Base.{true, List, [], ◌∷◌, Result, ok, err, if◌then◌else◌, ◌||◌}
use cloud_file_server.Text.{Text, text_beq, ascii}
use cloud_file_server.Fsdriver.FileInfo.{FileInfo, FsError}
use cloud_file_server.Fsdriver.AuditFs.{
  AferoFs, Mount, World, AuditFile, Opened, open_path, open_file, read_dir, remove, remove_all,
  rename, mkdir_all,
}

-- `sftp.Request`
pub record Request : Type 0 where
  pub method : Text
  pub filepath : Text
  pub target : Text

-- An error of the driver, or `sftp.ErrSSHFxOpUnsupported`.
pub data SftpError : Type 0 where
  failed : FsError → SftpError
  op_unsupported : SftpError

module _ (D : AferoFs) (a : Mount) where
  abbrev pub Handler : Type 0 → Type 0
  Handler A = World D a → Result SftpError A × World D a

  unfoldable pub lift : {A : Type 0} → (World D a → Result FsError A × World D a) → Handler A
  lift m w =
      let (answer, w1) = m w in elim answer [ ok x ↦ (ok x, w1) | err e ↦ (err (failed e), w1) ]

  unfoldable pub fileread : Request → Handler (Opened D a)
  fileread r = lift (open_path D a r.filepath)

  unfoldable pub filewrite : Request → Handler (AuditFile D a)
  filewrite r = lift (open_file D a r.filepath (record { writes = true; creates = true }))

  unfoldable pub filecmd : Request → Handler (Unit {0})
  filecmd r w =
      if text_beq r.method (ascii "Setstat")
      then (ok tt, w)
      else if text_beq r.method (ascii "Rename")
      then lift (rename D a r.filepath r.target) w
      else if text_beq r.method (ascii "Rmdir")
      then lift (remove_all D a r.filepath) w
      else if text_beq r.method (ascii "Mkdir")
      then lift (mkdir_all D a r.filepath) w
      else if text_beq r.method (ascii "Remove")
      then lift (remove D a r.filepath) w
      else (err op_unsupported, w)

  unfoldable pub stat_one : Text → Handler (List FileInfo)
  stat_one path (s, events) =
      let (info, s1) = D.stat path s in
      elim info [ ok i ↦ (ok (i ∷ []), (s1, events)) | err e ↦ (err (failed e), (s1, events)) ]

  unfoldable pub filelist : Request → Handler (List FileInfo)
  unfolding stat_one
  filelist r w =
      if text_beq r.method (ascii "List")
      then lift (read_dir D a r.filepath) w
      else if text_beq r.method (ascii "Stat") || text_beq r.method (ascii "Lstat")
      then stat_one r.filepath w
      else (err op_unsupported, w)

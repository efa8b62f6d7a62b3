-- ===== src/Admin/Files/Send.antt =====
-- downloadFile of internal/admin/files.go, with the loop of io.Copy, and emitDownloadAudit.
-- The deferred Close is left out: the file has only been read.
use cloud_file_server.Base.{
  ℕ, zero, suc, ◌-◌, Bool, true, false, [], ◌∷◌, ◌++◌, Option, none, some, ok, err, ltb, length,
  take, if◌then◌else◌,
}
use cloud_file_server.Text.{Text, ascii}
use cloud_file_server.Net.{Net}
use cloud_file_server.Audit.Event.{Event, zero_event, str, num}
use cloud_file_server.Db.{FtpUser}
use cloud_file_server.Fsdriver.FileInfo.{FileInfo, FsError, eof}
use cloud_file_server.Fsdriver.Files.{Chunk}
use cloud_file_server.Admin.Paths.{sanitize_path}
use cloud_file_server.Admin.Requests.{Request, client_ip, mime_by_name}
use cloud_file_server.Admin.Files.{
  Storage, FileReply, json_error, attachment, file_not_found, Browser, user_fs_for, load_user,
  user_not_found,
}

module _ (S : Storage) where
  -- How `io.Copy` came out: the bytes that the client took, and whether it ended without an error.
  pub record Copied : Type 0 where
    pub sent : Text
    pub complete : Bool

  abbrev sends : Text → Copied → Copied
  sends got c = record c { sent = got ++ c.sent }

  -- The bytes that a client takes which takes `room` more.
  abbrev pub taken : Option ℕ → Text → Text
  taken none got = got
  taken (some room) got = take room got

  abbrev pub breaks : Option ℕ → Text → Bool
  breaks none got = false
  breaks (some room) got = ltb room (length got)

  abbrev pub left : Option ℕ → Text → Option ℕ
  left none got = none
  left (some room) got = some (room - length got)

  abbrev pub ends : Option FsError → Option Bool
  ends none = none
  ends (some eof) = some true
  ends (some _) = some false

  -- One read of the loop of `io.Copy`: what is sent of it, and `rest` unless the loop ends here. A write of
  -- more bytes than are left of the Content-Length, `declared`, is refused whole by net/http.
  unfoldable pub after_read :
      ℕ → Option ℕ → Chunk → Option Copied × S.State → S.State → Option Copied × S.State
  after_read declared room (got, e) (rest, s2) s1 =
      if ltb declared (length got)
      then (some (record { sent = []; complete = false }), s1)
      else if breaks room got
      then (some (record { sent = taken room got; complete = false }), s1)
      else elim (ends e) [
        | some fine ↦ (some (record { sent = got; complete = fine }), s1)
        | none ↦ elim rest [ none ↦ (none, s2) | some c ↦ (some (sends got c), s2) ]
      ]

  -- At most `fuel` reads into 32 KiB; `none` means that the fuel ran out.
  unfoldable pub copy_body : ℕ → ℕ → Option ℕ → S.File → S.State → Option Copied × S.State
  unfolding after_read
  copy_body zero declared room f s = (none, s)
  copy_body (suc fuel) declared room f s =
      let (chunk, f1, s1) = S.read 32768 f s in
      after_read declared room chunk
        (copy_body fuel (declared - length chunk.0) (left room chunk.0) f1 s1) s1

  module _ (net : Net) (type_by_extension : Text → Text) where
    pub download_event : Request → FtpUser → Text → ℕ → Event
    unfolding client_ip
    download_event r target path size = record zero_event {
      username = r.current_user;
      client_ip = some (client_ip net r);
      action = ascii "FILE_DOWNLOAD";
      path = target.username ++ (b':' ∷ path);
      bytes = size;
      success = true;
      detail =
          (ascii "target_user_id", num target.id)
          ∷ (ascii "target_username", str target.username)
          ∷ [];
    }

    -- `emitDownloadAudit`
    unfoldable pub emit_download_audit : Request → FtpUser → Text → ℕ → Browser S → Browser S
    unfolding download_event
    emit_download_audit r target path size b = record b {
      events = b.events ++ (download_event r target path size ∷ []);
    }

    -- The answer once the file is open; the client takes `room` bytes, or all.
    unfoldable pub send_file :
        ℕ
        → Option ℕ
        → Request
        → FtpUser
        → Text
        → FileInfo
        → S.File
        → Browser S
        → Option (FileReply × Browser S)
    unfolding copy_body emit_download_audit mime_by_name
    send_file fuel room r u rel info f b =
        let (copied, disk) = copy_body fuel info.size room f b.disk in
        let b1 : Browser S = record b { disk = disk } in
        elim copied [
          | none ↦ none
          | some c ↦ some (
            attachment info.name (mime_by_name type_by_extension info.name) info.size c.sent,
            if c.complete then emit_download_audit r u rel info.size b1 else b1,
          )
        ]

    unfoldable pub download_opened :
        ℕ
        → Option ℕ
        → Request
        → FtpUser
        → Text
        → S.Root
        → Browser S
        → Option (FileReply × Browser S)
    unfolding send_file
    download_opened fuel room r u rel fs b =
        let (info, disk) = S.stat fs rel b.disk in
        let b1 : Browser S = record b { disk = disk } in
        elim info [
          | err e ↦ some (file_not_found, b1)
          | ok i ↦
              if i.is_dir
              then some (json_error 400 (ascii "not_file") (ascii "path is a directory"), b1)
              else let (opened, disk2) = S.open_path fs rel disk in
                let b2 : Browser S = record b1 { disk = disk2 } in
                elim opened [
                  | err e ↦ some (file_not_found, b2)
                  | ok f ↦ send_file fuel room r u rel i f b2
                ]
        ]

    unfoldable pub download_file :
        ℕ → Option ℕ → Request → FtpUser → Text → Browser S → Option (FileReply × Browser S)
    unfolding user_fs_for download_opened
    download_file fuel room r u p b = elim (sanitize_path p) [
      | err _ ↦ some (json_error 400 (ascii "bad_path") (ascii "invalid path"), b)
      | ok rel ↦
          let (root, b1) = user_fs_for S u b in
          elim root [
            | err message ↦ some (json_error 503 (ascii "internal") message, b1)
            | ok fs ↦ download_opened fuel room r u rel fs b1
          ]
    ]

    unfoldable download_file_route :
        ℕ → Option ℕ → Request → Text → Text → Browser S → Option (FileReply × Browser S)
    unfolding load_user download_file
    download_file_route fuel room r user_id p b =
        let (found, b1) = load_user S user_id b in
        elim found [ none ↦ some (user_not_found, b1) | some u ↦ download_file fuel room r u p b1 ]

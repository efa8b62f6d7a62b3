-- ===== src/Admin/Files/Content.antt =====
-- downloadFile of internal/admin/files.go over the object store: the bytes that a client gets.
use cloud_file_server.Base.{
  ℕ, ◌<◌, ◌≡◌, true, [], ◌∷◌, ◌++◌, Option, some, ok, err, take, ◌≤◌, length, if◌then◌else◌,
}
use cloud_file_server.Text.{Text, ascii}
use cloud_file_server.Net.{Net}
use cloud_file_server.Db.{FtpUser}
use cloud_file_server.Cos.{Cloud, IsLawful}
use cloud_file_server.Cos.Client.{Client}
use cloud_file_server.Fsdriver.FileInfo.{FileInfo, FsError}
use cloud_file_server.Fsdriver.ObjectFs.{File, stat, open_file_for_reading}
use cloud_file_server.Admin.Requests.{Request, mime_by_name}
use cloud_file_server.Admin.Files.{
  cos_storage, FileReply, json_error, attachment, file_not_found, Browser,
}
use cloud_file_server.Admin.Files.Send.{taken, breaks, download_event, send_file}

module _ (C : Cloud) (object : C.State → Text → Option Text) (L : IsLawful C object)
    (root : Text) where
  module _ (net : Net) (types : Text → Text) (fuel : ℕ) (room : Option ℕ) (r : Request)
      (u : FtpUser) (rel v : Text) where
    -- The answer with the entry of Stat and some bytes.
    abbrev attached : FileInfo → Text → FileReply
    attached info body = attachment info.name (mime_by_name types info.name) info.size body

    -- What a download of some content comes to: an error where Stat or Open fails or finds a folder; what
    -- the client takes of the content, with an event if that is all; or a part of it that is no longer than
    -- Stat says, where the content is longer.
    pub data IsServed (b : Browser (cos_storage C)) (reply : FileReply)
        (b1 : Browser (cos_storage C)) : Type 0 where
      no_entry :
          (e : FsError)
          → (stat C root rel b.disk).0 ≡ err e
          → reply ≡ file_not_found
          → b1.events ≡ b.events
          → IsServed b reply b1
      folder :
          (info : FileInfo)
          → (stat C root rel b.disk).0 ≡ ok info
          → info.is_dir ≡ true
          → reply ≡ json_error 400 (ascii "not_file") (ascii "path is a directory")
          → b1.events ≡ b.events
          → IsServed b reply b1
      not_opened :
          (e : FsError)
          → (open_file_for_reading C root rel (stat C root rel b.disk).1).0 ≡ err e
          → reply ≡ file_not_found
          → b1.events ≡ b.events
          → IsServed b reply b1
      sent :
          (info : FileInfo)
          → (stat C root rel b.disk).0 ≡ ok info
          → length v ≤ info.size
          → reply ≡ attached info (taken (cos_storage C) room v)
          → b1.events ≡ (
              if breaks (cos_storage C) room v
              then b.events
              else b.events ++ (download_event (cos_storage C) net types r u rel info.size ∷ []))
          → IsServed b reply b1
      cut_off :
          (info : FileInfo) (n : ℕ)
          → (stat C root rel b.disk).0 ≡ ok info
          → info.size < length v
          → n ≤ info.size
          → reply ≡ attached info (taken (cos_storage C) room (take n v))
          → b1.events ≡ b.events
          → IsServed b reply b1

    -- What sending the opened file comes to.
    abbrev Sending : FileInfo → Browser (cos_storage C) → Browser (cos_storage C) → File → Type 0
    Sending info b b2 f =
        (reply : FileReply) × (b1 : Browser (cos_storage C)) × (send_file (cos_storage C) net types
            fuel room r u rel info f b2
          ≡ some (reply, b1))
        × IsServed b reply b1

-- ===== src/Admin/Files/Download.antt =====
-- downloadFile of internal/admin/files.go: what a client gets, and what is logged of it.
use cloud_file_server.Base.{
  ℕ, ◌≡◌, ap, ◌∙◌, [], ◌∷◌, ◌++◌, Option, some, ok, arith, Bool-cases, Result-cases, Option-cases,
  inl, inr, ◌⊎◌,
}
use cloud_file_server.Text.{Text}
use cloud_file_server.Net.{Net}
use cloud_file_server.Db.{FtpUser}
use cloud_file_server.Fsdriver.FileInfo.{FileInfo}
use cloud_file_server.Admin.Paths.{sanitize_path}
use cloud_file_server.Admin.Requests.{Request, mime_by_name}
use cloud_file_server.Admin.Files.{Storage, FileReply, attachment, Browser, user_fs_for}
use cloud_file_server.Admin.Files.Send.{
  copy_body, download_event, emit_download_audit, send_file, download_opened, download_file,
}

module _ (S : Storage) (net : Net) (types : Text → Text) (fuel : ℕ) (room : Option ℕ) (r : Request)
    (u : FtpUser) where
  -- The events of a download that adds one, with the attachment that the client sees.
  pub record IsLogged (p : Text) (b : Browser S) (reply : FileReply) (b1 : Browser S) : Type 0 where
    pub rel : Text
    pub name : Text
    pub size : ℕ
    pub body : Text
    pub sanitized : sanitize_path p ≡ ok rel
    pub answered : reply ≡ attachment name (mime_by_name types name) size body
    pub added : b1.events ≡ b.events ++ (download_event S net types r u rel size ∷ [])

  send_file-events :
      (rel : Text) (info : FileInfo) (f : S.File) (b b1 : Browser S) (reply : FileReply)
      → send_file S net types fuel room r u rel info f b ≡ some (reply, b1)
      → (b1.events ≡ b.events)
        ⊎ ((body : Text) × (reply
              ≡ attachment info.name (mime_by_name types info.name) info.size body)
            × (b1.events ≡ b.events ++ (download_event S net types r u rel info.size ∷ [])))
  unfolding send_file emit_download_audit
  send_file-events rel info f b b1 reply h =
      elim (Option-cases (copy_body S fuel info.size room f b.disk).0) [
        | inl out ↦ absurd (ground arith)
        | inr (c, ended) ↦ elim (Bool-cases c.complete) [
          | inr broken ↦ inl (ground arith)
          | inl whole ↦ inr (c.sent, ground arith, ground arith)
        ]
      ]

  download_opened-events :
      (rel : Text) (fs : S.Root) (b b1 : Browser S) (reply : FileReply)
      → download_opened S net types fuel room r u rel fs b ≡ some (reply, b1)
      → (b1.events ≡ b.events)
        ⊎ ((name : Text) × (size : ℕ) × (body : Text) × (reply
              ≡ attachment name (mime_by_name types name) size body)
            × (b1.events ≡ b.events ++ (download_event S net types r u rel size ∷ [])))
  unfolding download_opened
  download_opened-events rel fs b b1 reply h =
      let disk1 : S.State = (S.stat fs rel b.disk).1 in
      let disk2 : S.State = (S.open_path fs rel disk1).1 in
      let b2 : Browser S = record b { disk = disk2 } in
      elim (Result-cases (S.stat fs rel b.disk).0) [
        | inr (e, bad) ↦ inl (ground arith)
        | inl (info, found) ↦ elim (Bool-cases info.is_dir) [
          | inl folder ↦ inl (ground arith)
          | inr file ↦ elim (Result-cases (S.open_path fs rel disk1).0) [
            | inr (e, bad) ↦ inl (ground arith)
            | inl (f, opened) ↦
                let k : send_file S net types fuel room r u rel info f b2 ≡ some (reply, b1) =
                  ground arith in
                elim (send_file-events rel info f b2 b1 reply k) [
                  | inl none_added ↦ inl none_added
                  | inr (body, answered, added) ↦ inr (info.name, info.size, body, answered, added)
                ]
          ]
        ]
      ]

  user_fs_for-events : (b : Browser S) → (user_fs_for S u b).1.events ≡ b.events
  unfolding user_fs_for
  user_fs_for-events b = ground arith

  -- A download adds no event, or one: a FILE_DOWNLOAD of the sanitized path, and then the answer is
  -- an attachment whose length is the size in that event.
  download_file-IsLogged :
      (p : Text) (b b1 : Browser S) (reply : FileReply)
      → download_file S net types fuel room r u p b ≡ some (reply, b1)
      → (b1.events ≡ b.events) ⊎ IsLogged p b reply b1
  unfolding download_file
  download_file-IsLogged p b b1 reply h = elim (Result-cases (sanitize_path p)) [
    | inr (e, bad) ↦ inl (ground arith)
    | inl (rel, fine) ↦ elim (Result-cases (user_fs_for S u b).0) [
      | inr (e, bad) ↦ inl (ground (arith, user_fs_for-events b))
      | inl (fs, mounted) ↦
          let b2 : Browser S = (user_fs_for S u b).1 in
          let k : download_opened S net types fuel room r u rel fs b2 ≡ some (reply, b1) =
            ground arith in
          elim (download_opened-events rel fs b2 b1 reply k) [
            | inl none_added ↦ inl (none_added ∙ user_fs_for-events b)
            | inr (name, size, body, answered, added) ↦ inr (record {
              rel = rel;
              name = name;
              size = size;
              body = body;
              sanitized = fine;
              answered = answered;
              added =
                  added
                  ∙ ap (λ es. es ++ (download_event S net types r u rel size ∷ []))
                      (user_fs_for-events b);
            })
          ]
    ]
  ]

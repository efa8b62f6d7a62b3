-- ===== src/Admin/Files/Laws.antt =====
-- What listFiles of internal/admin/files.go answers.
use mathlib.Core.List.{map, Perm}
use cloud_file_server.Base.{
  ℕ, Bool, ◌≡◌, List, [], ◌∷◌, ok, err, ◌⊎◌, inl, inr, Result-cases, arith, Bool-cases, any, true,
}
use cloud_file_server.Base.Sorting.{IsOrdered}
use cloud_file_server.Text.{Text, ascii, text_beq}
use cloud_file_server.Db.{FtpUser}
use cloud_file_server.Fsdriver.FileInfo.{
  FileInfo, FsError, raw, backend_auth, backend_unavailable, invalid, eof,
}
use cloud_file_server.Admin.Paths.{sanitize_path}
use cloud_file_server.Admin.Files.{
  Storage, json_error, listing, ListEntryOut, entry_out, sort_entries, Browser, user_fs_for,
  list_failed, list_root, list_files,
}
use cloud_file_server.Admin.Files.Sorting.{IsBefore, sort_entries-IsOrdered, sort_entries-perm}

-- What was listed: the driver's entries of the sanitized path, all of them, in the order of the page.
pub record Listed (S : Storage) (u : FtpUser) (prefix : Text) (b : Browser S) (shown : Text)
    (out : List ListEntryOut) : Type 0 where
  pub root : S.Root
  pub entries : List FileInfo
  pub sorted : List FileInfo
  pub sanitized : sanitize_path prefix ≡ ok shown
  pub mounted : (user_fs_for S u b).0 ≡ ok root
  pub answered : (S.list_dir root shown (user_fs_for S u b).1.disk).0 ≡ ok entries
  pub shows : out ≡ map entry_out sorted
  pub all : Perm sorted entries
  pub ordered : IsOrdered IsBefore sorted

module _ (S : Storage) where
  list_root-listing :
      (rel : Text) (fs : S.Root) (b : Browser S) (shown : Text) (out : List ListEntryOut)
      → (list_root S rel fs b).0 ≡ listing shown out
      → (entries : List FileInfo) × ((S.list_dir fs rel b.disk).0 ≡ ok entries)
        × (shown ≡ rel)
        × (out ≡ map entry_out (sort_entries entries))
  unfolding list_root list_failed
  list_root-listing rel fs b shown out h = elim (Result-cases (S.list_dir fs rel b.disk).0) [
    | inl (entries, fine) ↦ (entries, fine, ground arith, ground arith)
    | inr (e, bad) ↦ absurd (refuse e (rw (bad, list_root) at h))
  ]
    where
      refuse : (e : FsError) → ¬ (list_failed e ≡ listing shown out)
      refuse (raw e) k = ground arith
      refuse (backend_auth _) k = ground arith
      refuse (backend_unavailable _) k = ground arith
      refuse invalid k = ground arith
      refuse eof k = ground arith

  -- The page that listFiles answers shows the driver's entries of the sanitized path, each once, the
  -- folders first and every kind in the order of the names.
  pub list_files-Listed :
      (u : FtpUser) (prefix : Text) (b : Browser S) (shown : Text) (out : List ListEntryOut)
      → (list_files S u prefix b).0 ≡ listing shown out
      → Listed S u prefix b shown out
  unfolding list_files
  list_files-Listed u prefix b shown out h = elim (Result-cases (sanitize_path prefix)) [
    | inr (e, bad) ↦ absurd (ground arith)
    | inl (rel, fine) ↦ elim (Result-cases (user_fs_for S u b).0) [
      | inr (e, bad) ↦ absurd (ground arith)
      | inl (fs, mounted) ↦
          let k : (list_root S rel fs (user_fs_for S u b).1).0 ≡ listing shown out = ground arith in
          let (entries, answered, same, shows) =
            list_root-listing rel fs (user_fs_for S u b).1 shown out k in
          record {
            root = fs;
            entries = entries;
            sorted = sort_entries entries;
            sanitized = ground arith;
            mounted = mounted;
            answered = rw (same) answered;
            shows = shows;
            all = sort_entries-perm entries;
            ordered = sort_entries-IsOrdered entries;
          }
    ]
  ]

-- The texts that a failed listing may show.
abbrev storage_messages : List Text
storage_messages =
    ascii "folder not found"
    ∷ ascii "storage backend rejected credentials"
    ∷ ascii "storage backend unavailable"
    ∷ ascii "storage error"
    ∷ []

abbrev is_storage_message : Text → Bool
is_storage_message message = any (text_beq message) storage_messages

list_failed-message :
    (e : FsError) (status : ℕ) (code message : Text)
    → list_failed e ≡ json_error status code message
    → is_storage_message message ≡ true
unfolding list_failed text_beq ascii
list_failed-message (raw e) status code message h = elim (Bool-cases e.not_exist) [
  | inl missing ↦ ground arith
  | inr other ↦ ground arith
]
list_failed-message (backend_auth _) status code message h = ground arith
list_failed-message (backend_unavailable _) status code message h = ground arith
list_failed-message invalid status code message h = ground arith
list_failed-message eof status code message h = ground arith

-- An error answer of listFiles is the one for a path with `..`, the one of the mount, or one of four
-- fixed texts: nothing of what the driver says of a failed listing gets out.
list_files-message :
    (S : Storage) (u : FtpUser) (prefix : Text) (b : Browser S) (status : ℕ) (code message : Text)
    → (list_files S u prefix b).0 ≡ json_error status code message
    → ((status ≡ 400) × (message ≡ ascii "invalid prefix"))
      ⊎ (((user_fs_for S u b).0 ≡ err message) ⊎ (is_storage_message message ≡ true))
unfolding list_files
list_files-message S u prefix b status code message h = elim (Result-cases (sanitize_path prefix)) [
  | inr (e, bad) ↦ inl (ground arith)
  | inl (rel, fine) ↦ elim (Result-cases (user_fs_for S u b).0) [
    | inr (e, bad) ↦ inr (inl (ground arith))
    | inl (fs, mounted) ↦
        let s1 : Browser S = (user_fs_for S u b).1 in
        let k : (list_root S rel fs s1).0 ≡ json_error status code message = ground arith in
        elim (Result-cases (S.list_dir fs rel s1.disk).0) [
          | inl (entries, found) ↦ absurd (unfold list_root in ground arith)
          | inr (e, bad) ↦ inr (
              inr (
                list_failed-message e status code message
                  (unfold list_root in rw (bad, list_root) at k)))
        ]
  ]
]

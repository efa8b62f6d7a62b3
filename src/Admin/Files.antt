-- ===== src/Admin/Files.antt =====
-- The file browser of internal/admin/files.go, over any storage backend: listFiles and what it calls.
-- downloadFile stands in Send.
pub mod Sorting
pub mod Laws
pub mod Send
pub mod Copying
pub mod Download
pub mod Content
use mathlib.Core.List.{map}
use cloud_file_server.Base.{
  ℕ, zero, suc, ◌-◌, Bool, true, false, not, ◌&&◌, ◌||◌, List, [], ◌∷◌, ◌++◌, Option, none, some,
  Result, ok, err, ltb, nat_beq, length, take, if◌then◌else◌,
}
use cloud_file_server.Base.Int.{ℤ, pos, negsuc}
use cloud_file_server.Base.Sorting.{sort_by}
use cloud_file_server.Text.{Text, ascii}
use cloud_file_server.Text.Numbers.{atoi}
use cloud_file_server.Net.{Net}
use cloud_file_server.Audit.Event.{Event, zero_event, str, num}
use cloud_file_server.Db.{FtpUser, Db, DbError, not_found, query, get_ftp_user_by_id}
use cloud_file_server.Cos.{Cloud}
use cloud_file_server.Cos.Client.{Client}
use cloud_file_server.Fsdriver.FileInfo.{
  FileInfo, FsError, raw, backend_auth, backend_unavailable, invalid, eof,
}
use cloud_file_server.Fsdriver.Files.{Chunk}
use cloud_file_server.Fsdriver.ObjectFs.{File, new_cos, read_dir, stat, open_file_for_reading}
use cloud_file_server.Fsdriver.ObjectFs.Mounted.{file_read}
use cloud_file_server.Admin.Paths.{sanitize_path}
use cloud_file_server.Admin.Requests.{Request, client_ip, mime_by_name}

-- `core.ObjectStorage`, with the methods of the mounted driver that the handlers call; `list_dir`
-- is its ReadDir, or Open and Readdir. The error of Mount is its text.
pub record Storage : Type 1 where
  pub State : Type 0
  pub Root : Type 0
  pub File : Type 0
  pub mount : Text → State → Result Text Root × State
  pub list_dir : Root → Text → State → Result FsError (List FileInfo) × State
  pub stat : Root → Text → State → Result FsError FileInfo × State
  pub open_path : Root → Text → State → Result FsError File × State
  pub read : ℕ → File → State → Chunk × File × State

-- The plug-in of the object store: Mount is NewCOS.
abbrev pub cos_storage : Cloud → Storage
cos_storage C = record {
  State = Client C;
  Root = Text;
  File = File;
  mount = λ folder c. let (root, c1) = new_cos C folder c in (ok root, c1);
  list_dir = read_dir C;
  stat = stat C;
  open_path = open_file_for_reading C;
  read = λ len f c. let (chunk, f1) = file_read len f in (chunk, f1, c);
}

-- `<` of Go strings.
pub text_ltb : Text → Text → Bool
text_ltb [] [] = false
text_ltb [] (b ∷ t) = true
text_ltb (a ∷ s) [] = false
text_ltb (a ∷ s) (b ∷ t) = ltb a b || (nat_beq a b && text_ltb s t)

-- The function that sortEntries hands to sort.Slice.
pub less : FileInfo → FileInfo → Bool
unfolding text_ltb
less a b =
    if a.is_dir
    then not b.is_dir || text_ltb a.name b.name
    else not b.is_dir && text_ltb a.name b.name

pub sort_entries : List FileInfo → List FileInfo
unfolding sort_by less
sort_entries es = sort_by less es

pub record ListEntryOut : Type 0 where
  pub name : Text
  pub is_dir : Bool
  pub size : ℕ
  pub modified : ℕ

abbrev pub entry_out : FileInfo → ListEntryOut
entry_out fi = record { name = fi.name; is_dir = fi.is_dir; size = fi.size; modified = fi.mod_time }

-- What the client sees: writeJSONError, the JSON of listRespBody, or an attachment of which the bytes
-- in `body` were sent before the copy ended or broke off.
pub data FileReply : Type 0 where
  json_error : (status : ℕ) (code message : Text) → FileReply
  listing : (prefix : Text) → List ListEntryOut → FileReply
  attachment : (filename content_type : Text) (content_length : ℕ) (body : Text) → FileReply

pub list_failed : FsError → FileReply
list_failed (raw e) =
    if e.not_exist
    then json_error 404 (ascii "not_found") (ascii "folder not found")
    else json_error 500 (ascii "internal") (ascii "storage error")
list_failed (backend_auth _) =
    json_error 502 (ascii "internal") (ascii "storage backend rejected credentials")
list_failed (backend_unavailable _) =
    json_error 503 (ascii "internal") (ascii "storage backend unavailable")
list_failed invalid = json_error 500 (ascii "internal") (ascii "storage error")
list_failed eof = json_error 500 (ascii "internal") (ascii "storage error")

abbrev pub file_not_found : FileReply
file_not_found = json_error 404 (ascii "not_found") (ascii "file not found")

abbrev pub user_not_found : FileReply
user_not_found = json_error 404 (ascii "not_found") (ascii "user not found")

module _ (S : Storage) where
  -- What a request finds and leaves: whether a backend is set, its state, the table of users, and
  -- the events handed to the logger.
  pub record Browser : Type 0 where
    pub configured : Bool
    pub disk : S.State
    pub db : Db
    pub events : List Event

  abbrev FileHandler : Type 0
  FileHandler = Browser → FileReply × Browser

  pub user_fs_for : FtpUser → Browser → Result Text S.Root × Browser
  user_fs_for u b =
      if b.configured
      then (let (root, disk) = S.mount u.root_folder b.disk in (root, record b { disk = disk }))
      else (err (ascii "storage backend not configured"), b)

  -- The path of the request, and the driver of the user, or the answer if one of them fails.
  abbrev on_path : Text → FtpUser → Text → (Text → S.Root → FileHandler) → FileHandler
  on_path bad_message u p next b = elim (sanitize_path p) [
    | err _ ↦ (json_error 400 (ascii "bad_path") bad_message, b)
    | ok rel ↦
        let (root, b1) = user_fs_for u b in
        elim root [
          | err message ↦ (json_error 503 (ascii "internal") message, b1)
          | ok fs ↦ next rel fs b1
        ]
  ]

  pub list_root : Text → S.Root → FileHandler
  unfolding list_failed sort_entries
  list_root rel fs b =
      let (infos, disk) = S.list_dir fs rel b.disk in
      let b1 : Browser = record b { disk = disk } in
      elim infos [
        | err e ↦ (list_failed e, b1)
        | ok entries ↦ (listing rel (map entry_out (sort_entries entries)), b1)
      ]

  unfoldable pub list_files : FtpUser → Text → FileHandler
  unfolding user_fs_for list_root
  list_files u prefix = on_path (ascii "invalid prefix") u prefix list_root

  -- `loadUser`; ParseInt is Atoi on 64 bits. No row has a negative id.
  query_by_id : ℤ → Db → Result DbError FtpUser × Db
  unfolding get_ftp_user_by_id
  query_by_id (pos id) = get_ftp_user_by_id id
  query_by_id (negsuc _) = query (λ db. (err not_found, db))

  pub load_user : Text → Browser → Option FtpUser × Browser
  unfolding query_by_id atoi
  load_user user_id b =
      let (id, failed) = atoi user_id in
      let (row, db) = query_by_id id b.db in
      let b1 : Browser = record b { db = db } in
      elim failed [
        | some _ ↦ (none, b)
        | none ↦ elim row [ err _ ↦ (none, b1) | ok u ↦ (some u, b1) ]
      ]

  unfoldable list_files_route : Text → Text → FileHandler
  unfolding load_user list_files
  list_files_route user_id prefix b =
      let (found, b1) = load_user user_id b in
      elim found [ none ↦ (user_not_found, b1) | some u ↦ list_files u prefix b1 ]

-- ===== src/Admin/Folders.antt =====
-- listFolders of internal/admin/folders_api.go.
use cloud_file_server.Base.{ℕ, not, List, [], ◌∷◌, Option, none, some, ok, err, if◌then◌else◌}
use cloud_file_server.Text.{
  Text, ascii, text_beq, slash, is_slash, trim, trim_prefix, trim_suffix_slash,
}
use cloud_file_server.Cos.{Cloud}
use cloud_file_server.Cos.Client.{Client}
use cloud_file_server.Cos.Listing.{Entry, list}
use cloud_file_server.Admin.Users.Create.{friendly_cos_err}

-- The name that an entry suggests; the empty one is left out.
abbrev suggestion : Entry → Text
suggestion e = trim is_slash (trim_suffix_slash e.name)

suggestions : List Entry → List Text
suggestions [] = []
suggestions (e ∷ entries) =
    let rest = suggestions entries in
    if not e.is_dir then rest else if text_beq (suggestion e) [] then rest else suggestion e ∷ rest

abbrev folder_prefix_of : Text → Text → Text
folder_prefix_of default prefix =
    trim_prefix (if text_beq prefix [] then default else prefix) (slash ∷ [])

pub data FolderReply : Type 0 where
  http_error : ℕ → Text → FolderReply
  folders : List Text → FolderReply

module _ (C : Cloud) where
  unfoldable pub list_folders : Text → Text → Option (Client C) → FolderReply × Option (Client C)
  unfolding suggestions
  list_folders default prefix none =
      (http_error 503 (ascii "COS client not configured (server missing COS credentials)"), none)
  list_folders default prefix (some c) =
      let (answer, c1) = list C (folder_prefix_of default prefix) c in
      elim answer [
        | err e ↦ (http_error 502 (friendly_cos_err (ascii "list folders") e), some c1)
        | ok entries ↦ (folders (suggestions entries), some c1)
      ]

-- ===== src/Admin/Requests.antt =====
-- What the handlers of internal/admin read of a request: clientIP, and mimeByName with
-- `path.Ext` of the standard library.
use cloud_file_server.Base.{not, ◌&&◌, [], ◌∷◌, Option, none, some, nat_beq, any, if◌then◌else◌}
use cloud_file_server.Text.{Text, ascii, text_beq, is_slash, to_lower}
use cloud_file_server.Text.Spaces.{trim_space}
use cloud_file_server.Net.{Net, loopback}

-- The user whom Authenticate put into the context, the header X-Forwarded-For, and RemoteAddr.
pub record Request : Type 0 where
  pub current_user : Text
  pub forwarded_for : Text
  pub remote_addr : Text

-- `strings.Split(v, ",")[0]`
first_item : Text → Text
first_item [] = []
first_item (c ∷ s) = let rest = first_item s in if nat_beq c b',' then [] else c ∷ rest

-- The address that `net.ParseIP` reads in the header, if there is one.
forwarded_ip : Net → Text → Option Text
unfolding first_item trim_space
forwarded_ip net v = if text_beq v [] then none else net.parse_ip (trim_space (first_item v))

remote_ip : Net → Text → Option Text
remote_ip net addr = elim (net.split_host addr) [
  | none ↦ none
  | some host ↦ if text_beq host [] then none else net.parse_ip host
]

unfoldable pub client_ip : Net → Request → Text
unfolding forwarded_ip remote_ip loopback
client_ip net r = elim (forwarded_ip net r.forwarded_for) [
  | some ip ↦ ip
  | none ↦ elim (remote_ip net r.remote_addr) [ some ip ↦ ip | none ↦ loopback ]
]

-- `path.Ext`: from the last dot behind the last slash.
pub ext : Text → Text
ext [] = []
ext (c ∷ s) =
    let later = ext s in
    if not (text_beq later [])
    then later
    else if nat_beq c b'.' && not (any is_slash s)
    then c ∷ s
    else []

-- `mimeByName`, for a table of the types by extension.
unfoldable pub mime_by_name : (Text → Text) → Text → Text
unfolding ext to_lower
mime_by_name type_by_extension name =
    let t = type_by_extension (to_lower (ext name)) in
    if text_beq t [] then ascii "application/octet-stream" else t

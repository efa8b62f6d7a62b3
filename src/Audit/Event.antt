-- ===== src/Audit/Event.antt =====
-- Event and classifyEventType of internal/audit/audit.go.
use cloud_file_server.Base.{ℕ, Bool, false, [], Option, none, ◌||◌, if◌then◌else◌}
use cloud_file_server.Base.Dict.{Dict}
use cloud_file_server.Text.{Text, ascii, text_beq, has_prefix}

-- The values that the server puts under a key of `Detail`.
pub data Value : Type 0 where
  str : Text → Value
  num : ℕ → Value

-- The zero instant and the nil UUID are 0; a nil IP is `none`.
pub record Event : Type 0 where
  pub event_time : ℕ
  pub username : Text
  pub client_ip : Option Text
  pub session_id : ℕ
  pub action : Text
  pub event_type : Text
  pub connection_type : Text
  pub backend_location : Text
  pub root_folder : Text
  pub path : Text
  pub bytes : ℕ
  pub success : Bool
  pub source : Text
  pub detail : Dict Text Value

-- The zero value of the struct.
abbrev pub zero_event : Event
zero_event = record {
  event_time = 0;
  username = [];
  client_ip = none;
  session_id = 0;
  action = [];
  event_type = [];
  connection_type = [];
  backend_location = [];
  root_folder = [];
  path = [];
  bytes = 0;
  success = false;
  source = [];
  detail = [];
}

is_file_access : Text → Bool
is_file_access action =
    text_beq action (ascii "UPLOAD")
    || text_beq action (ascii "DOWNLOAD")
    || text_beq action (ascii "LIST")
    || text_beq action (ascii "DELETE")
    || text_beq action (ascii "RENAME")
    || text_beq action (ascii "MKDIR")
    || text_beq action (ascii "FILE_DOWNLOAD")

unfoldable pub classify_event_type : Text → Text
unfolding is_file_access
classify_event_type action =
    if text_beq action (ascii "LOGIN") || text_beq action (ascii "LOGOUT")
    then ascii "auth"
    else if is_file_access action
    then ascii "file_access"
    else if text_beq action (ascii "CRED_REFRESH")
    then ascii "system"
    else if has_prefix action (ascii "ADMIN")
    then ascii "admin"
    else ascii "other"

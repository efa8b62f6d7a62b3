-- ===== src/Tests/Files.antt =====
-- The file browser, over a list of entries and over a bucket in memory.
use cloud_file_server.Base.{
  ℕ, ◌+◌, ◌<◌, ◌≤◌, refl, Bool, true, false, List, [], ◌∷◌, ◌++◌, Option, some, Result, ok, err,
  All, any, length, if◌then◌else◌, ◌⊎◌,
}
use cloud_file_server.Base.Dict.{Dict}
use cloud_file_server.Text.{Text, ascii, text_beq}
use cloud_file_server.Fsdriver.FileInfo.{FileInfo, eof}
use cloud_file_server.Admin.Requests.{Request}
use cloud_file_server.Admin.Files.{Storage, cos_storage, entry_out, Browser, list_files}
use cloud_file_server.Admin.Files.Laws.{Listed, list_files-Listed}
use cloud_file_server.Tests.Data.{alice, memory, client_of}

abbrev file_named : Text → FileInfo
file_named name = record { name = name; size = 1; mode = 420; mod_time = 0; is_dir = false }

abbrev folder_named : Text → FileInfo
folder_named name = record (file_named name) { is_dir = true }

abbrev unsorted : List FileInfo
unsorted = file_named (ascii "b") ∷ file_named (ascii "a") ∷ folder_named (ascii "c") ∷ []

-- Every folder has the same entries.
abbrev shelf : Storage
shelf = record {
  State = Unit {0};
  Root = Text;
  File = Text;
  mount = λ folder s. (ok folder, s);
  list_dir = λ root path s. (ok unsorted, s);
  stat = λ root path s. (ok (file_named path), s);
  open_path = λ root path s. (ok path, s);
  read = λ len f s. (([], some eof), f, s);
}

abbrev on_shelf : Browser shelf
on_shelf = record {
  configured = true;
  disk = tt;
  db = record { rows = alice ∷ []; next_id = 2; now = 7; faults = [] };
  events = [];
}

list_files-Listed_example : Listed shelf alice (ascii "/x/") on_shelf (ascii "x") (
    entry_out (folder_named (ascii "c"))
    ∷ entry_out (file_named (ascii "a"))
    ∷ entry_out (file_named (ascii "b"))
    ∷ [])
unfolding list_files cloud_file_server.Admin.Paths.sanitize_path text_beq
    cloud_file_server.Text.Segments.join cloud_file_server.Text.Segments.clean_loop
    cloud_file_server.Text.Segments.clean_step cloud_file_server.Text.Segments.dot
list_files-Listed_example = list_files-Listed shelf alice (ascii "/x/") on_shelf (ascii "x") _ refl

abbrev bucket : Dict Text Text
bucket = (ascii "r/a", ascii "A") ∷ []

abbrev browser : Browser (cos_storage memory)
browser = record {
  configured = true;
  disk = client_of bucket;
  db = record { rows = alice ∷ []; next_id = 2; now = 7; faults = [] };
  events = [];
}

abbrev by_admin : Request
by_admin = record { current_user = ascii "root"; forwarded_for = []; remote_addr = ascii "h" }

abbrev no_types : Text → Text
no_types ext = []

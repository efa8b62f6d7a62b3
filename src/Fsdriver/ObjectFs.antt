-- ===== src/Fsdriver/ObjectFs.antt =====
-- COS of internal/fsdriver/cos.go: a file system over the keys of a bucket, under one root. The
-- client that all drivers share is passed through; `root` is the driver's state.
pub mod Confinement
pub mod Contents
pub mod Mounted
use mathlib.Core.List.{map}
use cloud_file_server.Base.{
  ℕ, ◌+◌, ◌-◌, Bool, true, false, not, ◌&&◌, List, [], ◌∷◌, ◌++◌, Option, none, some, Result, ok,
  err, length, if◌then◌else◌,
}
use cloud_file_server.Text.{Text, text_beq, slash, is_slash, trim, trim_left, ends_in_slash}
use cloud_file_server.Cos.{Err, Head, Cloud}
use cloud_file_server.Cos.Client.{Client, M, head_object, get_object, put, delete, copy}
use cloud_file_server.Cos.Listing.{Entry, list, parse_time, layouts}
use cloud_file_server.Fsdriver.FileInfo.{FileInfo, FsError, raw, wrap_backend_err, file_mode}
use cloud_file_server.Fsdriver.Files.{ReadOnlyFile, MemWriteFile, new_read_only_file}

-- `fullKey`
unfoldable pub full_key : Text → Text → Text
full_key root name = root ++ (slash ∷ trim_left is_slash name)

-- `fullName`
unfoldable pub full_name : Text → Text → Text
full_name root name =
    let rest = trim_left is_slash name in if text_beq rest [] then root ++ (slash ∷ []) else rest

-- What Open, Create and OpenFile return.
pub data File : Type 0 where
  reading : ReadOnlyFile → File
  writing : MemWriteFile → File

unfoldable pub info_of_entry : Entry → FileInfo
unfolding file_mode
info_of_entry e = record {
  name = e.name;
  size = e.size;
  mode = file_mode e.is_dir;
  mod_time = e.modify_time;
  is_dir = e.is_dir;
}

abbrev or_zero : Option ℕ → ℕ
or_zero none = 0
or_zero (some n) = n

module _ (C : Cloud) where
  abbrev Fs : Type 0 → Type 0
  Fs A = Client C → Result FsError A × Client C

  unfoldable pub with_raw : {A : Type 0} → M C A → Fs A
  with_raw m c =
      let (answer, c1) = m c in elim answer [ ok a ↦ (ok a, c1) | err e ↦ (err (raw e), c1) ]

  -- `NewCOS` ignores what its PUT answers.
  unfoldable pub new_cos : Text → Client C → Text × Client C
  new_cos root_prefix c =
      let root = trim is_slash root_prefix in (root, (put C (root ++ (slash ∷ [])) [] c).1)

  module _ (root : Text) where
    unfoldable pub read_dir : Text → Fs (List FileInfo)
    read_dir name c =
        let (answer, c1) = list C (full_key root name) c in
        elim answer [
          | err e ↦ (err (wrap_backend_err e), c1)
          | ok entries ↦ (ok (map info_of_entry entries), c1)
        ]

    -- A body that breaks off while it is read counts as a failed GET.
    unfoldable pub open_file_for_reading : Text → Fs File
    open_file_for_reading name c =
        let (answer, c1) = get_object C (full_key root name) 0 0 c in
        elim answer [
          | err e ↦ (err (raw e), c1)
          | ok body ↦ (ok (reading (new_read_only_file body (full_name root name))), c1)
        ]

    unfoldable pub create : Text → Fs File
    create name c =
        (ok (writing (record { buf = []; final_key = full_key root name; closed = false })), c)

    -- `OpenFile`, of which only the flag O_CREATE counts.
    unfoldable pub open_file : Text → Bool → Fs File
    open_file name o_create = if o_create then create name else open_file_for_reading name

    unfoldable pub remove : Text → Fs (Unit {0})
    remove name = with_raw (delete C (full_key root name))

    unfoldable pub rename : Text → Text → Fs (Unit {0})
    rename oldname newname c =
        let (copied, c1) = copy C (full_key root oldname) (full_key root newname) c in
        elim copied [
          | err e ↦ (err (raw e), c1)
          | ok _ ↦ with_raw (delete C (full_key root oldname)) c1
        ]

    unfoldable pub mkdir : Text → Fs (Unit {0})
    mkdir path = with_raw (put C (full_key root path ++ (slash ∷ [])) [])

    abbrev pub mkdir_all : Text → Fs (Unit {0})
    mkdir_all path = mkdir path

    abbrev pub remove_all : Text → Fs (Unit {0})
    remove_all path = remove path

    unfoldable stat_info : Text → Text → Head → Client C → FileInfo
    stat_info name key h c =
        let is_dir = ends_in_slash key in
        record {
          name = full_name root name;
          size = or_zero h.content_length;
          mode = file_mode is_dir;
          mod_time = parse_time C.parse_layout (C.now c.cloud) layouts h.last_modified;
          is_dir = is_dir;
        }

    -- `Stat` asks for the key, and then for the placeholder.
    pub stat : Text → Fs FileInfo
    stat name c =
        let key = full_key root name in
        let (answer, c1) = head_object C key c in
        elim answer [
          | ok h ↦ (ok (stat_info name key h c1), c1)
          | err e ↦
              let (answer2, c2) = head_object C (key ++ (slash ∷ [])) c1 in
              elim answer2 [
                | ok h ↦ (ok (stat_info name (key ++ (slash ∷ [])) h c2), c2)
                | err _ ↦ (err (raw e), c2)
              ]
        ]

    -- `Chmod`, `Chown` and `Chtimes` do nothing.
    unfoldable change_attributes : Text → Fs (Unit {0})
    change_attributes name c = (ok tt, c)

-- ===== src/Fsdriver/FileInfo.antt =====
-- What the drivers say of a file, and the errors that they return.
use cloud_file_server.Base.{ℕ, ◌+◌, Bool, if◌then◌else◌}
use cloud_file_server.Text.{Text}
use cloud_file_server.Cos.{Err, is_auth_err, is_unavailable}

-- `fileInfo` of internal/fsdriver/cos.go
pub record FileInfo : Type 0 where
  pub name : Text
  pub size : ℕ
  pub mode : ℕ
  pub mod_time : ℕ
  pub is_dir : Bool

-- `fileMode`: `os.ModeDir | 0o755`, or `0o644`.
unfoldable pub file_mode : Bool → ℕ
file_mode is_dir = if is_dir then 0x80000000 + 0o755 else 0o644

-- An error of a driver. `wrapBackendErr` puts a sentinel in front, which `errors.Is` then finds and
-- nothing of the error below it.
pub data FsError : Type 0 where
  raw : Err → FsError
  backend_auth : Text → FsError
  backend_unavailable : Text → FsError
  -- `os.ErrInvalid`, `io.EOF`
  invalid : FsError
  eof : FsError

unfoldable pub wrap_backend_err : Err → FsError
wrap_backend_err e =
    if is_auth_err e
    then backend_auth e.message
    else if is_unavailable e
    then backend_unavailable e.message
    else raw e

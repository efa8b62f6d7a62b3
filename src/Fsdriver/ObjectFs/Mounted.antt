-- ===== src/Fsdriver/ObjectFs/Mounted.antt =====
-- The methods of readOnlyFile and memWriteFile as one file type, and COS as a driver that AuditFS can
-- wrap.
use cloud_file_server.Base.{ℕ, true, [], Option, none, some}
use cloud_file_server.Text.{Text}
use cloud_file_server.Cos.{Cloud}
use cloud_file_server.Cos.Client.{Client}
use cloud_file_server.Fsdriver.FileInfo.{FsError, invalid}
use cloud_file_server.Fsdriver.Files.{
  Chunk, Written, read_only_read, read_at, write, write_at, close_write,
}
use cloud_file_server.Fsdriver.AuditFs.{AferoFs}
use cloud_file_server.Fsdriver.ObjectFs.{
  File, reading, writing, read_dir, open_file_for_reading, create, open_file, remove, remove_all,
  rename, mkdir, mkdir_all, stat,
}

abbrev pub file_read : ℕ → File → Chunk × File
file_read len (reading f) = let (chunk, f1) = read_only_read len f in (chunk, reading f1)
file_read len (writing m) = (([], some invalid), writing m)

abbrev file_read_at : ℕ → ℕ → File → Chunk × File
file_read_at len off (reading f) = (read_at f.reader.content len off, reading f)
file_read_at len off (writing m) = (read_at m.buf len off, writing m)

abbrev file_write : Text → File → Written × File
file_write p (reading f) = ((0, some invalid), reading f)
file_write p (writing m) = let (written, m1) = write p m in (written, writing m1)

abbrev file_write_at : Text → ℕ → File → Written × File
file_write_at p off (reading f) = ((0, some invalid), reading f)
file_write_at p off (writing m) = let (written, m1) = write_at p off m in (written, writing m1)

module _ (C : Cloud) where
  abbrev file_close : File → Client C → Option FsError × File × Client C
  file_close (reading f) c = (none, reading (record f { closed = true }), c)
  file_close (writing m) c = let (answer, m1, c1) = close_write C m c in (answer, writing m1, c1)

  -- COS under a root, with its own ReadDir for `listDir`.
  abbrev pub cos_mount : Text → AferoFs
  cos_mount root = record {
    State = Client C;
    File = File;
    stat = stat C root;
    list_dir = read_dir C root;
    open_path = open_file_for_reading C root;
    create = create C root;
    open_file = λ name flags. open_file C root name flags.creates;
    remove = remove C root;
    remove_all = remove_all C root;
    rename = rename C root;
    mkdir = mkdir C root;
    mkdir_all = mkdir_all C root;
    read = λ len f c. let (chunk, f1) = file_read len f in (chunk, f1, c);
    read_at = λ len off f c. let (chunk, f1) = file_read_at len off f in (chunk, f1, c);
    write = λ p f c. let (written, f1) = file_write p f in (written, f1, c);
    write_at = λ p off f c. let (written, f1) = file_write_at p off f in (written, f1, c);
    close = file_close;
  }

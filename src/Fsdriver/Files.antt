-- ===== src/Fsdriver/Files.antt =====
-- readOnlyFile and memWriteFile of internal/fsdriver/cos.go.
use cloud_file_server.Base.{
  ℕ, ◌+◌, Bool, true, false, not, [], ◌++◌, Option, none, some, ok, err, leb, ltb, nat_beq, take,
  drop, length, if◌then◌else◌,
}
use cloud_file_server.Text.{Text}
use cloud_file_server.Cos.{Cloud}
use cloud_file_server.Cos.Client.{Client, put}
use cloud_file_server.Fsdriver.FileInfo.{FileInfo, FsError, raw, invalid, eof, file_mode}

-- The bytes read, and the error beside them (`none` is nil).
abbrev pub Chunk : Type 0
Chunk = Text × Option FsError

-- `bytes.Reader`
pub record Reader : Type 0 where
  pub content : Text
  pub pos : ℕ

-- `Read` into a slice of `n` bytes.
unfoldable pub reader_read : ℕ → Reader → Chunk × Reader
reader_read n r =
    if leb (length r.content) r.pos
    then (([], some eof), r)
    else let got = take n (drop r.pos r.content) in
      ((got, none), record r { pos = r.pos + length got })

-- `ReadAt` into a slice of `n` bytes, at an offset that is not negative.
unfoldable pub read_at : Text → ℕ → ℕ → Chunk
read_at content n off =
    if leb (length content) off
    then ([], some eof)
    else let got = take n (drop off content) in (got, if ltb (length got) n then some eof else none)

-- `readOnlyFile`
pub record ReadOnlyFile : Type 0 where
  pub reader : Reader
  pub name : Text
  pub size : ℕ
  pub closed : Bool

unfoldable pub new_read_only_file : Text → Text → ReadOnlyFile
new_read_only_file content name = record {
  reader = record { content = content; pos = 0 };
  name = name;
  size = length content;
  closed = false;
}

unfoldable pub read_only_read : ℕ → ReadOnlyFile → Chunk × ReadOnlyFile
unfolding reader_read
read_only_read n f =
    let (chunk, reader) = reader_read n f.reader in (chunk, record f { reader = reader })

unfoldable read_only_stat : ReadOnlyFile → FileInfo
unfolding file_mode
read_only_stat f = record {
  name = f.name;
  size = f.size;
  mode = file_mode false;
  mod_time = 0;
  is_dir = false;
}

-- `memWriteFile`; the client that it flushes to is passed to `close`.
pub record MemWriteFile : Type 0 where
  pub buf : Text
  pub final_key : Text
  pub closed : Bool

-- The number of bytes written, and the error.
abbrev pub Written : Type 0
Written = ℕ × Option FsError

unfoldable pub write : Text → MemWriteFile → Written × MemWriteFile
write p m = ((length p, none), record m { buf = m.buf ++ p })

unfoldable pub write_at : Text → ℕ → MemWriteFile → Written × MemWriteFile
write_at p off m = if not (nat_beq off (length m.buf)) then ((0, some invalid), m) else write p m

unfoldable truncate : ℕ → MemWriteFile → MemWriteFile
truncate size m = record m { buf = [] }

module _ (C : Cloud) where
  unfoldable pub close_write : MemWriteFile → Client C → Option FsError × MemWriteFile × Client C
  close_write m c =
      if m.closed
      then (none, m, c)
      else let (answer, c1) = put C m.final_key m.buf c in
        let m1 : MemWriteFile = record m { closed = true } in
        elim answer [ ok _ ↦ (none, m1, c1) | err e ↦ (some (raw e), m1, c1) ]

-- ===== src/Fsdriver/DirFile.antt =====
-- dirFile of internal/fsdriver/audit.go and listerAt of internal/fsdriver/sftp_handlers.go: how FTP
-- and SFTP read a listing that was fetched before. A count of 0 stands for every count that is not
-- positive.
pub mod Paging
use mathlib.Core.List.{map}
use cloud_file_server.Base.{
  ℕ, ◌+◌, ◌-◌, Bool, true, false, not, List, [], ◌∷◌, ◌++◌, Option, none, some, leb, ltb, nat_beq,
  take, drop, length, if◌then◌else◌,
}
use cloud_file_server.Text.{Text}
use cloud_file_server.Fsdriver.FileInfo.{FileInfo, FsError, eof}

pub record DirFile : Type 0 where
  pub name : Text
  pub entries : List FileInfo
  pub offset : ℕ
  pub closed : Bool

-- A Go slice with the error beside it; a nil slice and an empty one are both `[]`.
abbrev Page : Type 0 → Type 0
Page A = List A × Option FsError

pub readdir : ℕ → DirFile → Page FileInfo × DirFile
readdir count d =
    let total = length d.entries in
    let rest = drop d.offset d.entries in
    let end = d.offset + count in
    if leb total d.offset
    then (([], if nat_beq count 0 then none else some eof), d)
    else if nat_beq count 0
    then ((rest, none), record d { offset = total })
    else if leb total end
    then ((rest, some eof), record d { offset = total })
    else ((take count rest, none), record d { offset = end })

pub readdirnames : ℕ → DirFile → Page Text × DirFile
readdirnames count d =
    let ((infos, e), d1) = readdir count d in
    (
      elim e [
        | some failed ↦ ([], some failed)
        | none ↦ (map (λ (i : FileInfo). i.name) infos, none)
      ],
      d1,
    )

-- `ListAt` into a slice of `n` places, at an offset that is not negative.
pub list_at : List FileInfo → ℕ → ℕ → Page FileInfo
list_at infos n offset =
    if leb (length infos) offset
    then ([], some eof)
    else let got = take n (drop offset infos) in
      (got, if ltb (length got) n then some eof else none)

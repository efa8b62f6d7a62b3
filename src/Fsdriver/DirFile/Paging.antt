-- ===== src/Fsdriver/DirFile/Paging.antt =====
-- Reading a listing page by page.
use cloud_file_server.Base.{
  ℕ, zero, suc, ◌+◌, ◌-◌, ◌≤◌, ◌<◌, ◌≡◌, refl, ap, List, [], ◌∷◌, ◌++◌, none, some, take, drop,
  length, arith, take-append-drop, length-drop, drop-drop, drop-all,
}
use cloud_file_server.Fsdriver.FileInfo.{FileInfo, eof}
use cloud_file_server.Fsdriver.DirFile.{DirFile, readdir, readdirnames, list_at}

-- A client that keeps what it is given, and stops at the first error.
pub read_pages : ℕ → ℕ → DirFile → List FileInfo
read_pages zero count d = []
read_pages (suc fuel) count d =
    let ((infos, e), d1) = readdir count d in
    elim e [ some _ ↦ infos | none ↦ infos ++ read_pages fuel count d1 ]

list_pages : ℕ → ℕ → List FileInfo → ℕ → List FileInfo
list_pages zero n infos offset = []
list_pages (suc fuel) n infos offset =
    let (got, e) = list_at infos n offset in
    elim e [ some _ ↦ got | none ↦ got ++ list_pages fuel n infos (offset + length got) ]

length-take_all : {A : Type 0} (n : ℕ) (xs : List A) → n ≤ length xs → length (take n xs) ≡ n
length-take_all zero xs h = refl
length-take_all (suc n) [] h = absurd (omega arith)
length-take_all (suc n) (x ∷ xs) h = ap suc (length-take_all n xs (omega arith))

take-all : {A : Type 0} (n : ℕ) (xs : List A) → length xs ≤ n → take n xs ≡ xs
take-all zero [] h = refl
take-all zero (x ∷ xs) h = elim h [ ]
take-all (suc n) [] h = refl
take-all (suc n) (x ∷ xs) h = ap (λ r. x ∷ r) (take-all n xs (omega arith))

-- A client that reads a listing in pages of any positive size, and keeps what comes with the end of
-- the listing, gets every entry from its offset on, once and in order; as many rounds as there are
-- entries left, and one more, are enough.
pub read_pages_all :
    (fuel count : ℕ) (d : DirFile)
    → 0 < count
    → length d.entries - d.offset < fuel
    → read_pages fuel count d ≡ drop d.offset d.entries
unfolding read_pages readdir
read_pages_all zero count d pos h = absurd (omega arith)
read_pages_all (suc fuel) count d pos h = ground (
  arith,
  read_pages_all fuel count (record d { offset = d.offset + count }) pos,
  drop-drop d.offset count d.entries,
  take-append-drop count (drop d.offset d.entries),
  drop-all d.offset d.entries,
)

-- An SFTP client that calls ListAt with a positive length at the offset that it has reached, and
-- stops at the first error, gets every entry from its offset on, once and in order; as many rounds as
-- there are entries left, and one more, are enough.
list_pages_all :
    (fuel n : ℕ) (infos : List FileInfo) (offset : ℕ)
    → 0 < n
    → length infos - offset < fuel
    → list_pages fuel n infos offset ≡ drop offset infos
unfolding list_pages list_at
list_pages_all zero n infos offset pos h = absurd (omega arith)
list_pages_all (suc fuel) n infos offset pos h =
    let rest = drop offset infos in
    ground (
      arith,
      list_pages_all fuel n infos (offset + length (take n rest)) pos,
      drop-drop offset n infos,
      take-append-drop n rest,
      drop-all offset infos,
      length-drop offset infos,
      length-take_all n rest,
      take-all n rest,
    )

-- Readdirnames drops the last page: a call with a positive count that reaches the end of the listing
-- answers with no name, where Readdir answers with every entry that is left, and the next call has
-- nothing more.
readdirnames_last_page :
    (count : ℕ) (d : DirFile)
    → 0 < count
    → d.offset < length d.entries
    → length d.entries ≤ d.offset + count
    → ((readdirnames count d).0 ≡ ([], some eof))
      × ((readdir count d).0 ≡ (drop d.offset d.entries, some eof))
      × ((readdirnames count (readdirnames count d).1).0 ≡ ([], some eof))
unfolding readdirnames readdir
readdirnames_last_page count d pos more h = (ground arith, ground arith, ground arith)

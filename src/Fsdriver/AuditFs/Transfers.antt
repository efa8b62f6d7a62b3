-- ===== src/Fsdriver/AuditFs/Transfers.antt =====
-- What is logged of one opened file, for every sequence of uses.
use cloud_file_server.Base.{
  ℕ, ◌+◌, ◌≡◌, refl, sym, ◌∙◌, Bool, true, false, List, [], ◌∷◌, ◌++◌, append-nil, Option, none,
  some, length, arith,
}
use cloud_file_server.Text.{Text}
use cloud_file_server.Audit.Event.{Event}
use cloud_file_server.Fsdriver.AuditFs.{
  AferoFs, Mount, event, World, AuditFile, log, read, write, read_at, write_at, close,
}

pub data Use : Type 0 where
  reads : ℕ → Use
  writes : Text → Use
  reads_at : ℕ → ℕ → Use
  writes_at : Text → ℕ → Use
  closes : Use

module _ (D : AferoFs) where
  -- The bytes that Read and Write moved before the first Close, or nothing if there is none.
  abbrev pub moved : ℕ → List Use → D.File → D.State → Option ℕ
  moved n [] f s = none
  moved n (reads len ∷ us) f s =
      let (chunk, f1, s1) = D.read len f s in moved (n + length chunk.0) us f1 s1
  moved n (writes p ∷ us) f s =
      let (written, f1, s1) = D.write p f s in moved (n + written.0) us f1 s1
  moved n (reads_at len off ∷ us) f s = let (_, f1, s1) = D.read_at len off f s in moved n us f1 s1
  moved n (writes_at p off ∷ us) f s = let (_, f1, s1) = D.write_at p off f s in moved n us f1 s1
  moved n (closes ∷ us) f s = some n

  -- Only positioned reads and writes, as SFTP makes them.
  abbrev is_positioned : List Use → Bool
  is_positioned [] = true
  is_positioned (reads len ∷ us) = false
  is_positioned (writes p ∷ us) = false
  is_positioned (reads_at len off ∷ us) = is_positioned us
  is_positioned (writes_at p off ∷ us) = is_positioned us
  is_positioned (closes ∷ us) = false

  module _ (a : Mount) where
    abbrev use_file : Use → AuditFile D a → World D a → AuditFile D a × World D a
    use_file (reads len) f w = let (_, f1, w1) = read D a len f w in (f1, w1)
    use_file (writes p) f w = let (_, f1, w1) = write D a p f w in (f1, w1)
    use_file (reads_at len off) f w = let (_, f1, w1) = read_at D a len off f w in (f1, w1)
    use_file (writes_at p off) f w = let (_, f1, w1) = write_at D a p off f w in (f1, w1)
    use_file closes f w = let (_, f1, w1) = close D a f w in (f1, w1)

    abbrev pub use_all : List Use → AuditFile D a → World D a → AuditFile D a × World D a
    use_all [] f w = (f, w)
    use_all (u ∷ us) f w = let (f1, w1) = use_file u f w in use_all us f1 w1

    use_file-closed :
        (u : Use) (f : AuditFile D a) (w : World D a)
        → f.closed ≡ true
        → ((use_file u f w).0.closed ≡ true) × ((use_file u f w).1.1 ≡ w.1)
    unfolding read write read_at write_at close
    use_file-closed (reads len) f w h = (h, refl)
    use_file-closed (writes p) f w h = (h, refl)
    use_file-closed (reads_at len off) f w h = (h, refl)
    use_file-closed (writes_at p off) f w h = (h, refl)
    use_file-closed closes f w h = (ground arith, ground arith)

    use_all-closed :
        (us : List Use) (f : AuditFile D a) (w : World D a)
        → f.closed ≡ true
        → (use_all us f w).1.1 ≡ w.1
    use_all-closed [] f w h = refl
    use_all-closed (u ∷ us) f w h =
        let (closed, same) = use_file-closed u f w h in
        use_all-closed us (use_file u f w).0 (use_file u f w).1 closed ∙ same

    report : AuditFile D a → Option ℕ → List Event
    report f none = []
    report f (some n) = event a f.action f.name n true ∷ []

    use_all-report :
        (us : List Use) (f : AuditFile D a) (w : World D a)
        → f.closed ≡ false
        → (use_all us f w).1.1 ≡ w.1 ++ report f (moved f.n us f.file w.0)
    unfolding report read write read_at write_at close log
    use_all-report [] f w h = sym (append-nil w.1)
    use_all-report (reads len ∷ us) f w h =
        use_all-report us (read D a len f w).1 (read D a len f w).2 h
    use_all-report (writes p ∷ us) f w h =
        use_all-report us (write D a p f w).1 (write D a p f w).2 h
    use_all-report (reads_at len off ∷ us) f w h =
        use_all-report us (read_at D a len off f w).1 (read_at D a len off f w).2 h
    use_all-report (writes_at p off ∷ us) f w h =
        use_all-report us (write_at D a p off f w).1 (write_at D a p off f w).2 h
    use_all-report (closes ∷ us) f w h = simp (h) (
        use_all-closed us (record f { file = (D.close f.file w.0).1; closed = true })
          ((D.close f.file w.0).2, w.1 ++ (event a f.action f.name f.n true ∷ [])) refl)

-- A file that is opened through AuditFS and used in any way, reads, writes and closes in any order and
-- number, is logged at its first Close and only there: one event, of a success, with the bytes that
-- Read and Write reported until then. A file that is never closed is not logged.
pub use_all-events :
    (D : AferoFs) (a : Mount) (us : List Use) (f : AuditFile D a) (w : World D a)
    → f.closed ≡ false
    → (use_all D a us f w).1.1
      ≡ w.1 ++ elim (moved D f.n us f.file w.0) [
        | none ↦ []
        | some n ↦ event a f.action f.name n true ∷ []
      ]
unfolding report
use_all-events D a us f w h = use_all-report D a us f w h ∙ same (moved D f.n us f.file w.0)
  where
    same :
        (o : Option ℕ)
        → w.1 ++ report D a f o
          ≡ w.1 ++ elim o [ none ↦ [] | some n ↦ event a f.action f.name n true ∷ [] ]
    same none = refl
    same (some n) = refl

moved-positioned :
    (D : AferoFs) (n : ℕ) (us : List Use) (f : D.File) (s : D.State)
    → is_positioned D us ≡ true
    → moved D n (us ++ (closes ∷ [])) f s ≡ some n
moved-positioned D n [] f s h = refl
moved-positioned D n (reads len ∷ us) f s h = absurd (ground arith)
moved-positioned D n (writes p ∷ us) f s h = absurd (ground arith)
moved-positioned D n (reads_at len off ∷ us) f s h =
    moved-positioned D n us (D.read_at len off f s).1 (D.read_at len off f s).2 h
moved-positioned D n (writes_at p off ∷ us) f s h =
    moved-positioned D n us (D.write_at p off f s).1 (D.write_at p off f s).2 h
moved-positioned D n (closes ∷ us) f s h = absurd (ground arith)

-- A transfer by positioned reads and writes alone, which are those that SFTP makes, is logged with no
-- bytes, whatever it moved, and as a success, whatever its Close answered.
use_all-positioned :
    (D : AferoFs) (a : Mount) (us : List Use) (f : AuditFile D a) (w : World D a)
    → f.closed ≡ false
    → f.n ≡ 0
    → is_positioned D us ≡ true
    → (use_all D a (us ++ (closes ∷ [])) f w).1.1 ≡ w.1 ++ (event a f.action f.name 0 true ∷ [])
use_all-positioned D a us f w h zero h1 =
    use_all-events D a (us ++ (closes ∷ [])) f w h
    ∙ (rw (moved-positioned D f.n us f.file w.0 h1) (simp zero))

-- ===== src/Fsdriver/AuditFs/Attribution.antt =====
-- To whom the events of AuditFS (internal/fsdriver/audit.go) belong.
use cloud_file_server.Base.{
  ℕ, ◌≡◌, refl, sym, ap, ◌∙◌, Bool, true, false, List, [], ◌∷◌, ◌++◌, Result, All, succeeds,
  All-append, append-nil, append_assoc, Bool-cases, Result-cases, inl, inr,
}
use cloud_file_server.Text.{Text, ascii}
use cloud_file_server.Audit.Event.{Event}
use cloud_file_server.Fsdriver.FileInfo.{FsError}
use cloud_file_server.Fsdriver.AuditFs.{
  AferoFs, Mount, World, AuditFile, event, log, logged, transferred, read_dir, is_dir, open_dir,
  open_transfer, open_path, close,
}

-- The event names the user of a mount, its address, its connection and its folder.
pub record IsOf (a : Mount) (e : Event) : Type 0 where
  pub username : e.username ≡ a.username
  pub client_ip : e.client_ip ≡ a.client_ip
  pub connection_type : e.connection_type ≡ a.connection_type
  pub backend_location : e.backend_location ≡ a.backend_location
  pub root_folder : e.root_folder ≡ a.root_folder

-- What was added to some events all belongs to a mount.
abbrev pub Adds : Mount → List Event → List Event → Type 0
Adds a before after = (es : List Event) × (after ≡ before ++ es) × All (IsOf a) es

pub Adds-none : (a : Mount) (events : List Event) → Adds a events events
Adds-none a events = ([], sym (append-nil events), tt)

pub Adds-trans : (a : Mount) (x y z : List Event) → Adds a x y → Adds a y z → Adds a x z
Adds-trans a x y z (es, e, h) (fs, f, k) =
    (es ++ fs, f ∙ ap (λ l. l ++ fs) e ∙ append_assoc x es fs, All-append (IsOf a) es fs h k)

event-IsOf :
    (a : Mount) (action path : Text) (bytes : ℕ) (success : Bool)
    → IsOf a (event a action path bytes success)
unfolding event
event-IsOf a action path bytes success = record {
  username = refl;
  client_ip = refl;
  connection_type = refl;
  backend_location = refl;
  root_folder = refl;
}

module _ (D : AferoFs) (a : Mount) where
  abbrev pub Adding : {A : Type 0} → (World D a → A × World D a) → Type 0
  Adding m = (w : World D a) → Adds a w.1 (m w).1.1

  log-Adds :
      (action path : Text) (bytes : ℕ) (success : Bool) (w : World D a)
      → Adds a w.1 (log D a action path bytes success w).1
  unfolding log
  log-Adds action path bytes success w =
      (event a action path bytes success ∷ [], refl, (event-IsOf a action path bytes success, tt))

  pub logged-Adds :
      {A : Type 0} (action path : Text) (op : D.State → Result FsError A × D.State)
      → Adding (logged D a action path op)
  unfolding logged
  logged-Adds action path op w = let r = op w.0 in log-Adds action path 0 (succeeds r.0) (r.1, w.1)

  pub transferred-Adds :
      (action name : Text) (op : D.State → Result FsError D.File × D.State)
      → Adding (transferred D a action name op)
  unfolding transferred
  transferred-Adds action name op w = elim (Result-cases (op w.0).0) [
    | inl (f, fine) ↦ rw (fine, transferred) (Adds-none a w.1)
    | inr (e, bad) ↦ rw (bad, transferred) (log-Adds action name 0 false ((op w.0).1, w.1))
  ]

  open_dir-Adds : (name : Text) → Adding (open_dir D a name)
  unfolding open_dir read_dir
  open_dir-Adds name w =
      let h = logged-Adds (ascii "LIST") name (D.list_dir name) w in
      elim (Result-cases (logged D a (ascii "LIST") name (D.list_dir name) w).0) [
        | inl (x, fine) ↦ rw (fine, open_dir) h
        | inr (e, bad) ↦ rw (bad, open_dir) h
      ]

  open_transfer-Adds : (name : Text) → Adding (open_transfer D a name)
  unfolding open_transfer
  open_transfer-Adds name w =
      let h = transferred-Adds (ascii "DOWNLOAD") name (D.open_path name) w in
      elim (Result-cases (transferred D a (ascii "DOWNLOAD") name (D.open_path name) w).0) [
        | inl (x, fine) ↦ rw (fine, open_transfer) h
        | inr (e, bad) ↦ rw (bad, open_transfer) h
      ]

  pub open_path-Adds : (name : Text) → Adding (open_path D a name)
  unfolding open_path
  open_path-Adds name w =
      let r = D.stat name w.0 in
      elim (Bool-cases (is_dir D a r.0)) [
        | inl folder ↦ rw (folder, open_path) (open_dir-Adds name (r.1, w.1))
        | inr file ↦ rw (file, open_path) (open_transfer-Adds name (r.1, w.1))
      ]

  pub close-Adds : (f : AuditFile D a) (w : World D a) → Adds a w.1 (close D a f w).2.1
  unfolding close
  close-Adds f w =
      let r = D.close f.file w.0 in
      elim (Bool-cases f.closed) [
        | inl shut ↦ rw (shut, close) (Adds-none a w.1)
        | inr still_open ↦ rw (still_open, close) (log-Adds f.action f.name f.n true (r.2, w.1))
      ]

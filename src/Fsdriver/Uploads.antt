-- ===== src/Fsdriver/Uploads.antt =====
-- An upload by FTP, from Create through AuditFS to the bucket.
use mathlib.Core.List.{map}
use native.Mathlib.Nat.{zero-add}
use cloud_file_server.Base.{
  ℕ, ◌+◌, ◌≡◌, refl, ap, ◌∙◌, true, false, List, [], ◌∷◌, ◌++◌, append-nil, append_assoc, Option,
  none, some, ok, err, if◌then◌else◌, length, length-append, arith,
}
use cloud_file_server.Text.{Text, text_beq, ascii}
use cloud_file_server.Cos.{Cloud, IsLawful}
use cloud_file_server.Cos.Client.{Client}
use cloud_file_server.Fsdriver.FileInfo.{FsError}
use cloud_file_server.Fsdriver.Files.{MemWriteFile, close_write}
use cloud_file_server.Fsdriver.AuditFs.{
  AferoFs, Mount, event, World, AuditFile, transferred, create, log, close,
}
use cloud_file_server.Fsdriver.AuditFs.Transfers.{writes, use_all}
use cloud_file_server.Fsdriver.ObjectFs.{full_key, File, writing}
use cloud_file_server.Fsdriver.ObjectFs.Contents.{IsAccepted, taken, close_write-effect}
use cloud_file_server.Fsdriver.ObjectFs.Mounted.{cos_mount}

abbrev pub concat : List Text → Text
concat [] = []
concat (p ∷ ps) = p ++ concat ps

module _ (C : Cloud) (root : Text) (a : Mount) where
  -- The file of an upload, with what was written so far.
  abbrev pub uploading : Text → Text → ℕ → AuditFile (cos_mount C root) a
  uploading name body n = record {
    file = writing (record { buf = body; final_key = full_key root name; closed = false });
    n = n;
    action = ascii "UPLOAD";
    name = name;
    closed = false;
  }

  -- An upload by FTP: a Create, a Write for each part, and a Close.
  abbrev pub upload :
      Text → List Text → World (cos_mount C root) a → Option FsError × World (cos_mount C root) a
  upload name ps w =
      let (opened, w1) = create (cos_mount C root) a name w in
      elim opened [
        | err e ↦ (some e, w1)
        | ok f ↦
            let (f1, w2) = use_all (cos_mount C root) a (map writes ps) f w1 in
            let (answer, f2, w3) = close (cos_mount C root) a f1 w2 in (answer, w3)
      ]

  use_all-writes :
      (name : Text) (ps : List Text) (body : Text) (n : ℕ) (w : World (cos_mount C root) a)
      → use_all (cos_mount C root) a (map writes ps) (uploading name body n) w
        ≡ (uploading name (body ++ concat ps) (n + length (concat ps)), w)
  unfolding cloud_file_server.Fsdriver.AuditFs.write cloud_file_server.Fsdriver.Files.write
  use_all-writes name [] body n w =
      rw (append-nil body) (ap (λ k. (uploading name body k, w)) (omega arith))
  use_all-writes name (p ∷ ps) body n w =
      use_all-writes name ps (body ++ p) (n + length p) w
      ∙ (rw (append_assoc body p (concat ps), length-append p (concat ps)) (ground arith))

  flushed : Text → Text → Client C → Option FsError × MemWriteFile × Client C
  flushed name body =
      close_write C (record { buf = body; final_key = full_key root name; closed = false })

  upload_lem :
      (name : Text) (ps : List Text) (w : World (cos_mount C root) a)
      → upload name ps w ≡ (
        (flushed name (concat ps) w.0).0,
        (
          (flushed name (concat ps) w.0).2,
          w.1 ++ (event a (ascii "UPLOAD") name (length (concat ps)) true ∷ []),
        ),
      )
  unfolding create transferred close log flushed cloud_file_server.Fsdriver.ObjectFs.create
  upload_lem name ps w = rw (use_all-writes name ps [] 0 w) (rw (zero-add) refl)

-- If an upload by FTP answers with no error, every object but that under the name's key is what it was. The
-- first PUT succeeded, and then the bucket holds under that key the parts written, in order; or it was
-- refused for its credentials, and then the key holds of them what that PUT had left in the reader.
pub upload-stored :
    (C : Cloud) (object : C.State → Text → Option Text) (L : IsLawful C object) (root : Text)
    (a : Mount) (name : Text) (ps : List Text) (w : World (cos_mount C root) a)
    → (upload C root a name ps w).0 ≡ none
    → IsAccepted C (full_key root name) (concat ps) w.0
      × ((j : Text)
          → object (upload C root a name ps w).1.0.cloud j ≡ (
              if text_beq (full_key root name) j
              then some (taken C (full_key root name) (concat ps) w.0)
              else object w.0.cloud j))
unfolding flushed
upload-stored C object L root a name ps w h =
    let m : MemWriteFile = record {
      buf = concat ps;
      final_key = full_key root name;
      closed = false;
    } in
    rw (upload_lem C root a name ps w)
      (close_write-effect C object L m w.0 refl (rw (upload_lem C root a name ps w) at h))

-- An upload by FTP adds one event to the trail, an UPLOAD of the name that counts every byte written
-- and is called a success: also where its Close, which is what sends it, answers with an error.
pub upload-events :
    (C : Cloud) (root : Text) (a : Mount) (name : Text) (ps : List Text)
    (w : World (cos_mount C root) a)
    → (upload C root a name ps w).1.1
      ≡ w.1 ++ (event a (ascii "UPLOAD") name (length (concat ps)) true ∷ [])
upload-events C root a name ps w = rw (upload_lem C root a name ps w) refl

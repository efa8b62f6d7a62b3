-- ===== src/Fsdriver/AuditFs/Commands.antt =====
-- What AuditFS does of a command that is over at once, against the driver that it wraps.
use cloud_file_server.Base.{
  ◌≡◌, refl, sym, ap, ◌∙◌, append-nil, append_assoc, List, [], ◌∷◌, ◌++◌, Result, succeeds,
}
use cloud_file_server.Text.{Text, ascii}
use cloud_file_server.Audit.Event.{Event}
use cloud_file_server.Fsdriver.FileInfo.{FsError}
use cloud_file_server.Fsdriver.AuditFs.{
  AferoFs, Mount, event, World, log, logged, remove, remove_all, rename, mkdir, mkdir_all,
}

-- The commands that change the tree.
pub data Command : Type 0 where
  removes : Text → Command
  removes_all : Text → Command
  renames : Text → Text → Command
  makes : Text → Command
  makes_all : Text → Command

module _ (D : AferoFs) where
  abbrev inner : Command → D.State → Result FsError (Unit {0}) × D.State
  inner (removes name) = D.remove name
  inner (removes_all path) = D.remove_all path
  inner (renames oldname newname) = D.rename oldname newname
  inner (makes name) = D.mkdir name
  inner (makes_all path) = D.mkdir_all path

  abbrev audited : (a : Mount) → Command → World D a → Result FsError (Unit {0}) × World D a
  audited a (removes name) = remove D a name
  audited a (removes_all path) = remove_all D a path
  audited a (renames oldname newname) = rename D a oldname newname
  audited a (makes name) = mkdir D a name
  audited a (makes_all path) = mkdir_all D a path

abbrev action_of : Command → Text
action_of (removes name) = ascii "DELETE"
action_of (removes_all path) = ascii "DELETE"
action_of (renames oldname newname) = ascii "RENAME"
action_of (makes name) = ascii "MKDIR"
action_of (makes_all path) = ascii "MKDIR"

abbrev path_of : Command → Text
path_of (removes name) = name
path_of (removes_all path) = path
path_of (renames oldname newname) = oldname ++ ascii " -> " ++ newname
path_of (makes name) = name
path_of (makes_all path) = path

-- A list of commands, with the drivers' answers.
module _ (D : AferoFs) where
  abbrev pub inner_all : List Command → D.State → List (Result FsError (Unit {0})) × D.State
  inner_all [] s = ([], s)
  inner_all (k ∷ ks) s =
      let (answer, s1) = inner D k s in
      let (answers, s2) = inner_all ks s1 in (answer ∷ answers, s2)

  abbrev pub audited_all :
      (a : Mount) → List Command → World D a → List (Result FsError (Unit {0})) × World D a
  audited_all a [] w = ([], w)
  audited_all a (k ∷ ks) w =
      let (answer, w1) = audited D a k w in
      let (answers, w2) = audited_all a ks w1 in (answer ∷ answers, w2)

-- The trail of some commands: for each its action, its path, and whether its answer is a success.
abbrev pub trail : Mount → List Command → List (Result FsError (Unit {0})) → List Event
trail a [] answers = []
trail a (k ∷ ks) [] = []
trail a (k ∷ ks) (answer ∷ answers) =
    event a (action_of k) (path_of k) 0 (succeeds answer) ∷ trail a ks answers

audited_lem :
    (D : AferoFs) (a : Mount) (k : Command) (w : World D a)
    → audited D a k w ≡ (
      (inner D k w.0).0,
      (
        (inner D k w.0).1,
        w.1 ++ (event a (action_of k) (path_of k) 0 (succeeds (inner D k w.0).0) ∷ []),
      ),
    )
unfolding remove remove_all rename mkdir mkdir_all logged log
audited_lem D a (removes name) w = refl
audited_lem D a (removes_all path) w = refl
audited_lem D a (renames oldname newname) w = refl
audited_lem D a (makes name) w = refl
audited_lem D a (makes_all path) w = refl

-- Any commands through AuditFS get the answers of the driver alone and leave it as they would alone,
-- and the trail has for each of them, in order, one event with its action, its path, and whether it
-- succeeded.
pub audited_all-trail :
    (D : AferoFs) (a : Mount) (ks : List Command) (w : World D a)
    → ((audited_all D a ks w).0 ≡ (inner_all D ks w.0).0)
      × ((audited_all D a ks w).1.0 ≡ (inner_all D ks w.0).1)
      × ((audited_all D a ks w).1.1 ≡ w.1 ++ trail a ks (inner_all D ks w.0).0)
audited_all-trail D a [] w = (refl, refl, sym (append-nil w.1))
audited_all-trail D a (k ∷ ks) w =
    let w1 : World D a = (
      (inner D k w.0).1,
      w.1 ++ (event a (action_of k) (path_of k) 0 (succeeds (inner D k w.0).0) ∷ []),
    ) in
    let (answers, state, events) = audited_all-trail D a ks w1 in
    (
      rw (audited_lem D a k w) (ap (λ r. (inner D k w.0).0 ∷ r) answers),
      rw (audited_lem D a k w) state,
      rw (audited_lem D a k w) (
          events
          ∙ append_assoc w.1 (event a (action_of k) (path_of k) 0 (succeeds (inner D k w.0).0) ∷ [])
              (trail a ks (inner_all D ks (inner D k w.0).1).0)),
    )

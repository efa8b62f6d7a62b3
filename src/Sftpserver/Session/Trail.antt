-- ===== src/Sftpserver/Session/Trail.antt =====
-- To whom the events of an SFTP session belong (internal/sftpserver/server.go).
use mathlib.Core.List.{map}
use cloud_file_server.Base.{
  ℕ, ◌≡◌, sym, ap, ◌∙◌, Bool, true, false, List, [], ◌∷◌, ◌++◌, ◌||◌, some, Result, ok, All,
  All-append, refl, drop, length, ◌⊎◌, append-nil, append_assoc, arith, Result-cases, inl, inr,
  if◌then◌else◌,
}
use cloud_file_server.Text.{Text, ascii, text_beq}
use cloud_file_server.Net.{Net}
use cloud_file_server.Audit.Event.{Event}
use cloud_file_server.Db.{FtpUser}
use cloud_file_server.Fsdriver.FileInfo.{FsError}
use cloud_file_server.Fsdriver.AuditFs.{
  AferoFs, Mount, World, open_path, open_file, read_dir, remove, remove_all, rename, mkdir_all,
  read_at, write_at,
}
use cloud_file_server.Fsdriver.AuditFs.Attribution.{
  IsOf, Adds, Adds-none, Adding, logged-Adds, transferred-Adds, open_path-Adds, close-Adds,
}
use cloud_file_server.Fsdriver.SftpHandlers.{
  Request, lift, fileread, filewrite, filecmd, filelist, stat_one,
}
use cloud_file_server.Cos.{Cloud}
use cloud_file_server.Cos.Chain.{Notice}
use cloud_file_server.Cos.Client.{Client}
use cloud_file_server.Fsdriver.Plugins.{CosPlugin, refresh_event}
use cloud_file_server.Sftpserver.Session.{
  SftpCall, reads, writes, commands, lists, reads_at, writes_at, closes, serve_call, serve_logged,
  serve_calls, logout_event, mount_for, serve_mounted, serve_sftp,
}

module _ (D : AferoFs) (a : Mount) where
  lift-Adds :
      {A : Type 0} (m : World D a → Result FsError A × World D a)
      → Adding D a m
      → Adding D a (lift D a m)
  unfolding lift
  lift-Adds m h w = elim (Result-cases (m w).0) [
    | inl (x, fine) ↦ rw (fine, lift) (h w)
    | inr (e, bad) ↦ rw (bad, lift) (h w)
  ]

  by_test :
      {A : Type 0} (b : Bool) (before : List Event) (x y : A × World D a)
      → Adds a before x.1.1
      → Adds a before y.1.1
      → Adds a before (if b then x else y).1.1
  by_test true before x y h k = h
  by_test false before x y h k = k

  filecmd-Adds : (r : Request) → Adding D a (filecmd D a r)
  unfolding filecmd rename remove_all mkdir_all remove
  filecmd-Adds r w =
      let nothing = Adds-none a w.1 in
      by_test (text_beq r.method (ascii "Setstat")) w.1 _ _ nothing (
        by_test (text_beq r.method (ascii "Rename")) w.1 _ _
          (lift-Adds (rename D a r.filepath r.target) (logged-Adds D a _ _ _) w)
          (by_test (text_beq r.method (ascii "Rmdir")) w.1 _ _
            (lift-Adds (remove_all D a r.filepath) (logged-Adds D a _ _ _) w)
            (by_test (text_beq r.method (ascii "Mkdir")) w.1 _ _
              (lift-Adds (mkdir_all D a r.filepath) (logged-Adds D a _ _ _) w)
              (by_test (text_beq r.method (ascii "Remove")) w.1 _ _
                (lift-Adds (remove D a r.filepath) (logged-Adds D a _ _ _) w) nothing))))

  stat_one-events : (path : Text) (w : World D a) → (stat_one D a path w).1.1 ≡ w.1
  unfolding stat_one
  stat_one-events path w = ground arith

  filelist-Adds : (r : Request) → Adding D a (filelist D a r)
  unfolding filelist read_dir
  filelist-Adds r w =
      by_test (text_beq r.method (ascii "List")) w.1 _ _
        (lift-Adds (read_dir D a r.filepath) (logged-Adds D a _ _ _) w)
        (by_test (text_beq r.method (ascii "Stat") || text_beq r.method (ascii "Lstat")) w.1 _ _
          ([], stat_one-events r.filepath w ∙ sym (append-nil w.1), tt) (Adds-none a w.1))

  serve_call-Adds : (k : SftpCall D a) (w : World D a) → Adds a w.1 (serve_call D a k w).1
  unfolding serve_call fileread filewrite open_file read_at write_at
  serve_call-Adds (reads r) w =
      lift-Adds (open_path D a r.filepath) (open_path-Adds D a r.filepath) w
  serve_call-Adds (writes r) w =
      lift-Adds (open_file D a r.filepath _) (transferred-Adds D a _ r.filepath _) w
  serve_call-Adds (commands r) w = filecmd-Adds r w
  serve_call-Adds (lists r) w = filelist-Adds r w
  serve_call-Adds (reads_at len off f) w = Adds-none a w.1
  serve_call-Adds (writes_at data_sent off f) w = Adds-none a w.1
  serve_call-Adds (closes f) w = close-Adds D a f w

-- An event of a refresh of the credentials, which names no user.
pub record IsRefresh (e : Event) : Type 0 where
  pub action : e.action ≡ ascii "CRED_REFRESH"
  pub username : e.username ≡ []

abbrev pub IsOwnOrRefresh : Mount → Event → Type 0
IsOwnOrRefresh a e = IsOf a e ⊎ IsRefresh e

-- What the hook of the COS plug-in logs between two states of its client.
abbrev pub cos_hook :
    {Float : Type 0} → {C : Cloud} → CosPlugin Float → Client C → Client C → List Event
cos_hook p c c' = map (refresh_event p) (drop (length c.notices) c'.notices)

refresh_event-IsRefresh :
    {Float : Type 0} (p : CosPlugin Float) (ns : List Notice)
    → All IsRefresh (map (refresh_event p) ns)
unfolding refresh_event
refresh_event-IsRefresh p [] = tt
refresh_event-IsRefresh p (n ∷ ns) =
    (record { action = refl; username = refl }, refresh_event-IsRefresh p ns)

pub cos_hook-IsRefresh :
    {Float : Type 0} {C : Cloud} (p : CosPlugin Float) (c c' : Client C)
    → All IsRefresh (cos_hook p c c')
cos_hook-IsRefresh p c c' = refresh_event-IsRefresh p (drop (length c.notices) c'.notices)

All-map-inr : (a : Mount) (es : List Event) → All IsRefresh es → All (IsOwnOrRefresh a) es
All-map-inr a [] h = tt
All-map-inr a (e ∷ es) h = (inr h.0, All-map-inr a es h.1)

All-map-inl : (a : Mount) (es : List Event) → All (IsOf a) es → All (IsOwnOrRefresh a) es
All-map-inl a [] h = tt
All-map-inl a (e ∷ es) h = (inl h.0, All-map-inl a es h.1)

module _ (D : AferoFs) (a : Mount) (hook : D.State → D.State → List Event)
    (hooked : (s t : D.State) → All IsRefresh (hook s t)) where
  abbrev Logs : List Event → List Event → Type 0
  Logs before after = (es : List Event) × (after ≡ before ++ es) × All (IsOwnOrRefresh a) es

  serve_logged-Logs : (k : SftpCall D a) (w : World D a) → Logs w.1 (serve_logged D a hook k w).1
  unfolding serve_logged
  serve_logged-Logs k w =
      let (es, e, h) = serve_call-Adds D a k (w.0, []) in
      let new : List Event = hook w.0 (serve_call D a k (w.0, [])).0 in
      (
        new ++ es,
        ap (λ l. w.1 ++ (new ++ l)) e,
        All-append (IsOwnOrRefresh a) new es
            (All-map-inr a new (hooked w.0 (serve_call D a k (w.0, [])).0)) (All-map-inl a es h),
      )

  serve_calls-Logs :
      (ks : List (SftpCall D a)) (w : World D a) → Logs w.1 (serve_calls D a hook ks w).1
  unfolding serve_calls
  serve_calls-Logs [] w = ([], sym (append-nil w.1), tt)
  serve_calls-Logs (k ∷ ks) w =
      let w1 : World D a = serve_logged D a hook k w in
      let (es, e, h) = serve_logged-Logs k w in
      let (fs, f, g) = serve_calls-Logs ks w1 in
      (
        es ++ fs,
        f ∙ ap (λ l. l ++ fs) e ∙ append_assoc w.1 es fs,
        All-append (IsOwnOrRefresh a) es fs h g,
      )

-- Where the hook of a driver logs refreshes of its credentials alone, each under no name, a session for a
-- user whose folder is mounted adds, whatever the client calls, such events and events of that user, with
-- the connection's address and the user's folder; the last is the user's LOGOUT.
pub serve_sftp-trail :
    (net : Net) (D : AferoFs) (backend addr : Text) (session : ℕ)
    (hook : D.State → D.State → List Event) (hooked : (s t : D.State) → All IsRefresh (hook s t))
    (u : FtpUser)
    (calls : (v : FtpUser) → List (SftpCall D (mount_for net D backend addr session hook v)))
    (w : D.State × List Event)
    → (es : List Event) × ((serve_sftp net D backend addr session hook true
          (ok (some u))
          (ok tt)
          calls
          w).1
        ≡ w.1 ++ (es ++ (logout_event (mount_for net D backend addr session hook u) ∷ [])))
      × All (IsOwnOrRefresh (mount_for net D backend addr session hook u)) es
unfolding serve_sftp serve_mounted
serve_sftp-trail net D backend addr session hook hooked u calls w =
    let a : Mount = mount_for net D backend addr session hook u in
    let (es, e, h) = serve_calls-Logs D a hook hooked (calls u) w in
    (es, ap (λ l. l ++ (logout_event a ∷ [])) e ∙ append_assoc w.1 es (logout_event a ∷ []), h)

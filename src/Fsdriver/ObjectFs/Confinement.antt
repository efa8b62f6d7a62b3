-- ===== src/Fsdriver/ObjectFs/Confinement.antt =====
-- The calls of a COS driver (internal/fsdriver/cos.go) against the objects outside its root.
use cloud_file_server.Base.{
  ◌≡◌, refl, sym, ap, ◌∙◌, subst, Bool, true, false, List, [], ◌∷◌, ◌++◌, append_assoc, Option,
  arith, Result-cases, inl, inr,
}
use cloud_file_server.Text.{Text, text_beq, text_beq_iff, slash, is_slash, has_prefix, trim_left}
use cloud_file_server.Text.Laws.{has_prefix-append}
use cloud_file_server.Cos.{Cloud, IsLawful}
use cloud_file_server.Cos.Client.{
  Client, M, stateless, put, delete, copy, head_object, get_object, bucket_get, range_of,
}
use cloud_file_server.Cos.Client.Laws.{perform-keeps, StsKeeps}
use cloud_file_server.Cos.Listing.{list, folder_prefix}
use cloud_file_server.Fsdriver.Files.{close_write}
use cloud_file_server.Fsdriver.ObjectFs.{
  full_key, read_dir, open_file_for_reading, remove, rename, mkdir, stat, with_raw,
}

-- The keys of a root are those that begin with it and a slash.
abbrev is_under : Text → Text → Bool
is_under root key = has_prefix key (root ++ (slash ∷ []))

full_key-under : (root name : Text) → is_under root (full_key root name) ≡ true
unfolding full_key
full_key-under root name =
    subst (λ k. has_prefix k (root ++ (slash ∷ [])) ≡ true)
      (append_assoc root (slash ∷ []) (trim_left is_slash name))
      (has_prefix-append (root ++ (slash ∷ [])) (trim_left is_slash name))

full_key-slash_under :
    (root name : Text) → is_under root (full_key root name ++ (slash ∷ [])) ≡ true
unfolding full_key
full_key-slash_under root name =
    subst (λ k. has_prefix k (root ++ (slash ∷ [])) ≡ true)
      (append_assoc root (slash ∷ []) (trim_left is_slash name ++ (slash ∷ []))
        ∙ sym (append_assoc root (slash ∷ trim_left is_slash name) (slash ∷ [])))
      (has_prefix-append (root ++ (slash ∷ [])) (trim_left is_slash name ++ (slash ∷ [])))

-- What a protocol asks of a mounted driver. An upload is Create, the writes, and Close.
pub data Call : Type 0 where
  listed : Text → Call
  downloaded : Text → Call
  uploaded : Text → Text → Call
  removed : Text → Call
  renamed : Text → Text → Call
  made_dir : Text → Call
  statted : Text → Call

-- The client after a call.
abbrev pub call : (C : Cloud) → Text → Call → Client C → Client C
call C root (listed name) c = (read_dir C root name c).1
call C root (downloaded name) c = (open_file_for_reading C root name c).1
call C root (uploaded name body) c =
    (close_write C (record { buf = body; final_key = full_key root name; closed = false }) c).2
call C root (removed name) c = (remove C root name c).1
call C root (renamed oldname newname) c = (rename C root oldname newname c).1
call C root (made_dir path) c = (mkdir C root path c).1
call C root (statted name) c = (stat C root name c).1

abbrev pub calls : (C : Cloud) → Text → List Call → Client C → Client C
calls C root [] c = c
calls C root (k ∷ ks) c = calls C root ks (call C root k c)

list-cloud :
    (C : Cloud) (prefix : Text) (c : Client C)
    → (list C prefix c).1.cloud ≡ (bucket_get C (folder_prefix prefix) c).1.cloud
unfolding list
list-cloud C prefix c = ground arith

close_write-cloud :
    (C : Cloud) (key body : Text) (c : Client C)
    → (close_write C (record { buf = body; final_key = key; closed = false }) c).2.cloud
      ≡ (put C key body c).1.cloud
unfolding close_write
close_write-cloud C key body c = ground arith

-- What only reads keeps every object.
module _ (C : Cloud) (object : C.State → Text → Option Text) (L : IsLawful C object) (j : Text)
    (v : Option Text) where
  abbrev Shown : C.State → Type 0
  Shown s = object s j ≡ v

  sts-Shown : StsKeeps C Shown
  sts-Shown s h = L.object-sts_get s j ∙ h

  head-Shown : (key : Text) (c : Client C) → Shown c.cloud → Shown (head_object C key c).1.cloud
  unfolding head_object
  head-Shown key c h =
      perform-keeps C Shown sts-Shown (stateless C (λ creds. C.object_head creds key))
        (λ creds r s k. L.object-object_head creds key s j ∙ k) tt c h

  get-Shown : (key : Text) (c : Client C) → Shown c.cloud → Shown (get_object C key 0 0 c).1.cloud
  unfolding get_object
  get-Shown key c h =
      perform-keeps C Shown sts-Shown (stateless C (λ creds. C.object_get creds key (range_of 0 0)))
        (λ creds r s k. L.object-object_get creds key (range_of 0 0) s j ∙ k) tt c h

  list-Shown : (prefix : Text) (c : Client C) → Shown c.cloud → Shown (list C prefix c).1.cloud
  list-Shown prefix c h = rw (list-cloud C prefix c) (
      unfold bucket_get in
      perform-keeps C Shown sts-Shown
        (stateless C (λ creds. C.bucket_get creds (folder_prefix prefix)))
        (λ creds r s k. L.object-bucket_get creds (folder_prefix prefix) s j ∙ k) tt c h)

  pub stat-Shown :
      (root name : Text) (c : Client C) → Shown c.cloud → Shown (stat C root name c).1.cloud
  unfolding stat
  stat-Shown root name c h =
      let key = full_key root name in
      let c1 : Client C = (head_object C key c).1 in
      let h1 : Shown c1.cloud = head-Shown key c h in
      let h2 = head-Shown (key ++ (slash ∷ [])) c1 h1 in
      elim (Result-cases (head_object C key c).0) [
        | inl (_, fine) ↦ rw (fine, stat) h1
        | inr (_, failed) ↦ elim (Result-cases (head_object C (key ++ (slash ∷ [])) c1).0) [
          | inl (_, fine) ↦ rw (failed, stat) (rw (fine) h2)
          | inr (_, failed2) ↦ rw (failed, stat) (rw (failed2) h2)
        ]
      ]

module _ (C : Cloud) (object : C.State → Text → Option Text) (L : IsLawful C object) (root j : Text)
    (outside : is_under root j ≡ false) (v : Option Text) where
  abbrev Holds : C.State → Type 0
  Holds s = object s j ≡ v

  sts : StsKeeps C Holds
  sts s h = L.object-sts_get s j ∙ h

  other_key : (key : Text) → is_under root key ≡ true → text_beq key j ≡ false
  other_key key under = ground (arith, text_beq_iff key j, ap (is_under root) {x = key} {y = j})

  put-Holds :
      (key body : Text) (c : Client C)
      → is_under root key ≡ true
      → Holds c.cloud
      → Holds (put C key body c).1.cloud
  unfolding put
  put-Holds key body c under h =
      perform-keeps C Holds sts (λ creds. C.object_put creds key)
        (λ creds r s k. ground (arith, L.object-object_put creds key r s j, other_key key under))
        body c h

  delete-Holds :
      (key : Text) (c : Client C)
      → is_under root key ≡ true
      → Holds c.cloud
      → Holds (delete C key c).1.cloud
  unfolding delete
  delete-Holds key c under h =
      perform-keeps C Holds sts (stateless C (λ creds. C.object_delete creds key))
        (λ creds r s k. ground (arith, L.object-object_delete creds key s j, other_key key under))
        tt c h

  copy-Holds :
      (src dst : Text) (c : Client C)
      → is_under root dst ≡ true
      → Holds c.cloud
      → Holds (copy C src dst c).1.cloud
  unfolding copy
  copy-Holds src dst c under h =
      perform-keeps C Holds sts (stateless C (λ creds. C.object_copy creds dst src))
        (λ creds r s k. ground (arith, L.object-object_copy creds dst src s j, other_key dst under))
        tt c h

  with_raw-Holds :
      {A : Type 0} (m : M C A) (c : Client C) → Holds (m c).1.cloud → Holds (with_raw C m c).1.cloud
  unfolding with_raw
  with_raw-Holds m c h = ground arith

  upload-Holds :
      (name body : Text) (c : Client C)
      → Holds c.cloud
      → Holds (call C root (uploaded name body) c).cloud
  upload-Holds name body c h =
      rw (close_write-cloud C (full_key root name) body c)
        (put-Holds (full_key root name) body c (full_key-under root name) h)

  rename-Holds :
      (oldname newname : Text) (c : Client C)
      → Holds c.cloud
      → Holds (rename C root oldname newname c).1.cloud
  rename-Holds oldname newname c h =
      let src = full_key root oldname in
      let dst = full_key root newname in
      let h1 = copy-Holds src dst c (full_key-under root newname) h in
      elim (Result-cases (copy C src dst c).0) [
        | inr (_, failed) ↦ unfold rename in rw (failed, rename) h1
        | inl (_, fine) ↦
            unfold rename in
            rw (fine, rename)
              (with_raw-Holds (delete C src) (copy C src dst c).1
                (delete-Holds src (copy C src dst c).1 (full_key-under root oldname) h1))
      ]

  call-Holds : (k : Call) (c : Client C) → Holds c.cloud → Holds (call C root k c).cloud
  unfolding read_dir open_file_for_reading remove mkdir
  call-Holds (listed name) c h = ground (arith, list-Shown C object L j v (full_key root name) c h)
  call-Holds (downloaded name) c h =
      ground (arith, get-Shown C object L j v (full_key root name) c h)
  call-Holds (uploaded name body) c h = upload-Holds name body c h
  call-Holds (removed name) c h =
      with_raw-Holds (delete C (full_key root name)) c
        (delete-Holds (full_key root name) c (full_key-under root name) h)
  call-Holds (renamed oldname newname) c h = rename-Holds oldname newname c h
  call-Holds (made_dir path) c h =
      with_raw-Holds (put C (full_key root path ++ (slash ∷ [])) []) c
        (put-Holds (full_key root path ++ (slash ∷ [])) [] c (full_key-slash_under root path) h)
  call-Holds (statted name) c h = stat-Shown C object L j v root name c h

  calls-Holds : (ks : List Call) (c : Client C) → Holds c.cloud → Holds (calls C root ks c).cloud
  calls-Holds [] c h = h
  calls-Holds (k ∷ ks) c h = calls-Holds ks (call C root k c) (call-Holds k c h)

-- Whatever a client of a driver does, with whatever names, `..` included, an object whose key does
-- not begin with the driver's root and a slash stays as it was; also where requests fail or are
-- sent twice.
pub calls_confined :
    (C : Cloud) (object : C.State → Text → Option Text) (root : Text) (ks : List Call)
    (c : Client C) (j : Text)
    → IsLawful C object
    → is_under root j ≡ false
    → object (calls C root ks c).cloud j ≡ object c.cloud j
calls_confined C object root ks c j L outside =
    calls-Holds C object L root j outside (object c.cloud j) ks c refl

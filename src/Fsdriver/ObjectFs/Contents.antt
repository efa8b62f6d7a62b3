-- ===== src/Fsdriver/ObjectFs/Contents.antt =====
-- What the bucket holds after an operation that succeeded, key by key.
use cloud_file_server.Base.{
  ◌≡◌, refl, ap, ◌∙◌, true, false, ◌⊎◌, succeeds, [], ◌∷◌, ◌++◌, Option, none, some, Result, ok,
  err, if◌then◌else◌, arith, Result-cases, inl, inr,
}
use cloud_file_server.Text.{Text, text_beq, text_beq_iff, slash}
use cloud_file_server.Cos.{Err, is_auth_err, Cloud, IsLawful}
use cloud_file_server.Cos.Client.{
  Client, refresh, put, delete, copy, get_object, stateless, range_of,
}
use cloud_file_server.Cos.Client.Ensures.{perform-ensures, perform-WentThrough}
use cloud_file_server.Fsdriver.Files.{MemWriteFile, close_write, new_read_only_file}
use cloud_file_server.Fsdriver.ObjectFs.{
  full_key, full_name, File, reading, with_raw, remove, rename, open_file_for_reading,
}

append-no_fixpoint : (k : Text) → text_beq k (k ++ (slash ∷ [])) ≡ false
append-no_fixpoint k = ground (arith, text_beq_iff k (k ++ (slash ∷ [])), longer k)
  where
    longer : (k : Text) → ¬ (k ≡ k ++ (slash ∷ []))
    longer [] e = absurd (ground arith)
    longer (x ∷ k) e = longer k (ground arith)

-- The first PUT of an upload, under the credentials that refresh leaves.
abbrev pub first_put :
    (C : Cloud) → Text → Text → Client C → (Result Err (Unit {0}) × Text) × C.State
first_put C key body c = C.object_put (refresh C c).1.curr key body (refresh C c).1.cloud

-- What an upload that succeeds stores: its body, or what a first PUT that was refused left of it.
abbrev pub taken : (C : Cloud) → Text → Text → Client C → Text
taken C key body c =
    if succeeds (first_put C key body c).0.0 then body else (first_put C key body c).0.1

-- The first PUT succeeded, or was refused for its credentials.
abbrev pub IsAccepted : (C : Cloud) → Text → Text → Client C → Type 0
IsAccepted C key body c =
    (succeeds (first_put C key body c).0.0 ≡ true)
    ⊎ ((e : Err) × ((first_put C key body c).0.0 ≡ err e) × (is_auth_err e ≡ true))

module _ (C : Cloud) (object : C.State → Text → Option Text) (L : IsLawful C object) where
  -- The bucket holds `f`.
  abbrev Shows : (Text → Option Text) → C.State → Type 0
  Shows f s = (j : Text) → object s j ≡ f j

  delete-ok :
      (key : Text) (f : Text → Option Text) (c : Client C) (a : Unit {0})
      → Shows f c.cloud
      → (delete C key c).0 ≡ ok a
      → Shows (λ j. if text_beq key j then none else f j) (delete C key c).1.cloud
  unfolding delete
  delete-ok key f c a shows h =
      perform-ensures C (stateless C (λ creds. C.object_delete creds key)) (λ _ s. Shows f s)
        (λ _ s. Shows (λ j. if text_beq key j then none else f j) s)
        (λ r s p j. L.object-sts_get s j ∙ p j)
        (λ creds r s a p fine j. ground (arith, L.object-object_delete creds key s j, p j))
        (λ creds r s e p bad j. ground (arith, L.object-object_delete creds key s j, p j)) tt c a
        shows h

  copy-ok :
      (src dst : Text) (f : Text → Option Text) (c : Client C) (a : Unit {0})
      → Shows f c.cloud
      → (copy C src dst c).0 ≡ ok a
      → (s : C.State) × Shows f s
        × Shows
            (λ j. if text_beq dst j then C.copy_source src s else f j)
            (copy C src dst c).1.cloud
  unfolding copy
  copy-ok src dst f c a shows h =
      perform-ensures C (stateless C (λ creds. C.object_copy creds dst src)) (λ _ s. Shows f s)
        (λ _ out.
          (s : C.State) × Shows f s
          × Shows (λ j. if text_beq dst j then C.copy_source src s else f j) out)
        (λ r s p j. L.object-sts_get s j ∙ p j)
        (λ creds r s a p fine.
          (s, p, λ j. ground (arith, L.object-object_copy creds dst src s j, p j)))
        (λ creds r s e p bad j. ground (arith, L.object-object_copy creds dst src s j, p j)) tt c a
        shows h

  pub get_object-ok :
      (key v : Text) (c : Client C) (body : Text)
      → object c.cloud key ≡ some v
      → (get_object C key 0 0 c).0 ≡ ok body
      → body ≡ v
  unfolding get_object range_of
  get_object-ok key v c body here h =
      perform-ensures C (stateless C (λ creds. C.object_get creds key (range_of 0 0)))
        (λ _ s. object s key ≡ some v) (λ a _. a ≡ v) (λ r s p. L.object-sts_get s key ∙ p)
        (λ creds r s a p fine. ground (arith, L.object_get-ok creds key s a))
        (λ creds r s e p bad. L.object-object_get creds key (range_of 0 0) s key ∙ p) tt c body here
        h

  put-Stored :
      (key body : Text) (f : Text → Option Text) (c : Client C) (a : Unit {0})
      → Shows f c.cloud
      → (put C key body c).0 ≡ ok a
      → IsAccepted C key body c
        × Shows
            (λ j. if text_beq key j then some (taken C key body c) else f j)
            (put C key body c).1.cloud
  unfolding put
  put-Stored key body f c a shows h =
      elim (perform-WentThrough C (λ creds. C.object_put creds key) (Shows f)
        (λ s p j. L.object-sts_get s j ∙ p j)
        (λ creds r s e p bad j. ground (arith, L.object-object_put creds key r s j, p j)) body c a
        shows h) [
          | inl (fine, S) ↦ (
            inl (ground arith),
            λ j. ground (
              arith,
              L.object-object_put S.creds key body S.before j,
              S.held j,
              S.fine,
              ap (λ t. object t j) S.after,
            ),
          )
          | inr (e, bad, auth, S) ↦ (
            inr (e, bad, auth),
            λ j. ground (
              arith,
              L.object-object_put S.creds key (first_put C key body c).0.1 S.before j,
              S.held j,
              S.fine,
              ap (λ t. object t j) S.after,
            ),
          )
        ]

-- The theorems below are about one bucket, and `Shows` says what it held before.
with_raw-ok :
    (C : Cloud) (A : Type 0) (m : Client C → Result Err A × Client C) (c : Client C) (a : A)
    → (with_raw C m c).0 ≡ ok a
    → ((m c).0 ≡ ok a) × ((with_raw C m c).1 ≡ (m c).1)
unfolding with_raw
with_raw-ok C A m c a h = elim (Result-cases (m c).0) [
  | inl (b, fine) ↦ (ground arith, rw (fine, with_raw))
  | inr (e, bad) ↦ absurd (ground arith)
]

-- A removal that succeeds takes away the object at the name's own key and changes no other.
remove-effect :
    (C : Cloud) (object : C.State → Text → Option Text) (L : IsLawful C object) (root name : Text)
    (c : Client C)
    → (remove C root name c).0 ≡ ok tt
    → (j : Text)
    → object (remove C root name c).1.cloud j
      ≡ (if text_beq (full_key root name) j then none else object c.cloud j)
unfolding remove
remove-effect C object L root name c h j =
    let key = full_key root name in
    let w = with_raw-ok C (Unit {0}) (delete C key) c tt h in
    ap (λ (d : Client C). object d.cloud j) w.1
    ∙ delete-ok C object L key (object c.cloud) c tt (λ i. refl) w.0 j

-- RemoveAll is Remove: after one that succeeds, the placeholder that Mkdir put at the name's key with
-- a slash behind it is still what it was.
remove-placeholder :
    (C : Cloud) (object : C.State → Text → Option Text) (L : IsLawful C object) (root name : Text)
    (c : Client C)
    → (remove C root name c).0 ≡ ok tt
    → object (remove C root name c).1.cloud (full_key root name ++ (slash ∷ []))
      ≡ object c.cloud (full_key root name ++ (slash ∷ []))
remove-placeholder C object L root name c h =
    let key = full_key root name in
    remove-effect C object L root name c h (key ++ (slash ∷ [])) ∙ (rw (append-no_fixpoint key))

-- A rename that succeeds leaves at the new key what was stored, with every object as it was before, under
-- the old key read as a source URL, whose first segment is a host; it leaves nothing at the old key, and
-- every other object as it was. Of a file renamed to its own key, nothing is left.
pub rename-effect :
    (C : Cloud) (object : C.State → Text → Option Text) (L : IsLawful C object)
    (root oldname newname : Text) (c : Client C)
    → (rename C root oldname newname c).0 ≡ ok tt
    → (s : C.State) × ((j : Text) → object s j ≡ object c.cloud j)
      × ((j : Text)
          → object (rename C root oldname newname c).1.cloud j ≡ (
              if text_beq (full_key root oldname) j
              then none
              else if text_beq (full_key root newname) j
              then C.copy_source (full_key root oldname) s
              else object c.cloud j))
unfolding rename
rename-effect C object L root oldname newname c h =
    let src = full_key root oldname in
    let dst = full_key root newname in
    elim (Result-cases (copy C src dst c).0) [
      | inr (e, bad) ↦ absurd (ground arith)
      | inl (a, fine) ↦
          let (s, same, shows) = copy-ok C object L src dst (object c.cloud) c a (λ i. refl) fine in
          let f : Text → Option Text =
            λ i. if text_beq dst i then C.copy_source src s else object c.cloud i in
          let c1 : Client C = (copy C src dst c).1 in
          let h1 : (with_raw C (delete C src) c1).0 ≡ ok tt = rw (fine, rename) at h in
          let w = with_raw-ok C (Unit {0}) (delete C src) c1 tt h1 in
          (
            s,
            same,
            λ j.
                rw (fine, rename)
                  (ap (λ (d : Client C). object d.cloud j) w.1
                    ∙ delete-ok C object L src f c1 tt shows w.0 j),
          )
    ]

-- An upload that Close calls a success changes no object but that at the name's key. Its first PUT succeeded,
-- and then it is stored whole, or was refused for its credentials, and then what that one left is stored.
pub close_write-effect :
    (C : Cloud) (object : C.State → Text → Option Text) (L : IsLawful C object) (m : MemWriteFile)
    (c : Client C)
    → m.closed ≡ false
    → (close_write C m c).0 ≡ none
    → IsAccepted C m.final_key m.buf c
      × ((j : Text)
          → object (close_write C m c).2.cloud j ≡ (
              if text_beq m.final_key j
              then some (taken C m.final_key m.buf c)
              else object c.cloud j))
unfolding close_write
close_write-effect C object L m c opened h = elim (Result-cases (put C m.final_key m.buf c).0) [
  | inr (e, bad) ↦ absurd (ground arith)
  | inl (a, fine) ↦
      let (accepted, shows) =
        put-Stored C object L m.final_key m.buf (object c.cloud) c a (λ i. refl) fine in
      (accepted, simp (opened, fine) shows)
]

-- What an upload stored is what a download of the same name then reads, if both succeed: the whole body if
-- the first PUT succeeded, else what that left of it, which was refused for its credentials.
pub upload-download :
    (C : Cloud) (object : C.State → Text → Option Text) (L : IsLawful C object) (root name : Text)
    (m : MemWriteFile) (c : Client C) (f : File)
    → m.closed ≡ false
    → m.final_key ≡ full_key root name
    → (close_write C m c).0 ≡ none
    → (open_file_for_reading C root name (close_write C m c).2).0 ≡ ok f
    → IsAccepted C m.final_key m.buf c
      × (f ≡ reading (new_read_only_file (taken C m.final_key m.buf c) (full_name root name)))
unfolding open_file_for_reading
upload-download C object L root name m c f opened key h got =
    let c1 : Client C = (close_write C m c).2 in
    let stored : Text = taken C m.final_key m.buf c in
    let (accepted, shows) = close_write-effect C object L m c opened h in
    let here : object c1.cloud (full_key root name) ≡ some stored =
      shows (full_key root name)
      ∙ (rw (key) (ground (arith, text_beq_iff (full_key root name) (full_key root name)))) in
    elim (Result-cases (get_object C (full_key root name) 0 0 c1).0) [
      | inr (e, bad) ↦ absurd (ground arith)
      | inl (body, fine) ↦
          let same : body ≡ stored =
            get_object-ok C object L (full_key root name) stored c1 body here fine in
          (accepted, ground arith)
    ]

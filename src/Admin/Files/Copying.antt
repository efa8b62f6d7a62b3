-- ===== src/Admin/Files/Copying.antt =====
-- The loop of io.Copy that downloadFile of internal/admin/files.go runs, on a file of the object store.
use cloud_file_server.Base.{
  ℕ, zero, suc, ◌+◌, ◌-◌, ◌<◌, ◌≤◌, subst, ◌≡◌, refl, sym, ap, ◌∙◌, false, not, ◌||◌, [], ◌∷◌, ◌++◌,
  Option, none, some, take, drop, length, ltb, leb, if◌then◌else◌, arith, Bool-cases, inl, inr,
  drop-drop, drop-all, take-append-drop, length-drop, length-append,
}
use cloud_file_server.Text.{Text}
use cloud_file_server.Cos.{Cloud}
use cloud_file_server.Cos.Client.{Client}
use cloud_file_server.Fsdriver.FileInfo.{eof}
use cloud_file_server.Fsdriver.Files.{Chunk, ReadOnlyFile, read_only_read, reader_read}
use cloud_file_server.Fsdriver.ObjectFs.{reading}
use cloud_file_server.Admin.Files.{Storage, cos_storage}
use cloud_file_server.Admin.Files.Send.{Copied, taken, breaks, left, after_read, copy_body}

take-append :
    (n : ℕ) (xs ys : Text)
    → take n (xs ++ ys) ≡ (if ltb n (length xs) then take n xs else xs ++ take (n - length xs) ys)
take-append zero [] ys = refl
take-append zero (x ∷ xs) ys = ground arith
take-append (suc n) [] ys = ground arith
take-append (suc n) (x ∷ xs) ys = ground (arith, take-append n xs ys)

drop-length-take : (n : ℕ) (xs : Text) → drop (length (take n xs)) xs ≡ drop n xs
drop-length-take zero xs = refl
drop-length-take (suc n) [] = refl
drop-length-take (suc n) (x ∷ xs) = drop-length-take n xs

take-past : (xs ys : Text) (n : ℕ) → take (length xs + n) (xs ++ ys) ≡ xs ++ take n ys
take-past [] ys n = ap (λ k. take k ys) (omega arith)
take-past (x ∷ xs) ys n =
    let e : length (x ∷ xs) + n ≡ suc (length xs + n) = omega arith in
    ap (λ k. take k (x ∷ (xs ++ ys))) e ∙ ap (λ l. x ∷ l) (take-past xs ys n)

taken_nil : (S : Storage) (room : Option ℕ) → taken S room [] ≡ []
taken_nil S none = refl
taken_nil S (some zero) = refl
taken_nil S (some (suc n)) = refl

module _ (S : Storage) where
  taken-append :
      (room : Option ℕ) (got rest : Text)
      → taken S room (got ++ rest)
        ≡ (if breaks S room got then taken S room got else got ++ taken S (left S room got) rest)
  taken-append none got rest = refl
  taken-append (some n) got rest = take-append n got rest

  breaks-append :
      (room : Option ℕ) (got rest : Text)
      → breaks S room (got ++ rest) ≡ (breaks S room got || breaks S (left S room got) rest)
  breaks-append none got rest = refl
  breaks-append (some n) got rest = ground (arith, length-append got rest)

  -- What the copy of some bytes comes to, for a client that takes `room` more.
  abbrev pub copied : Option ℕ → Text → Copied S
  copied room bytes = record { sent = taken S room bytes; complete = not (breaks S room bytes) }

  after_read-data :
      (declared : ℕ) (room : Option ℕ) (chunk : Chunk) (more : Text)
      (rest : Option (Copied S) × S.State) (s1 : S.State)
      → length chunk.0 ≤ declared
      → chunk.1 ≡ none
      → rest ≡ (some (copied (left S room chunk.0) more), s1)
      → after_read S declared room chunk rest s1 ≡ (some (copied room (chunk.0 ++ more)), s1)
  unfolding after_read
  after_read-data declared room chunk more rest s1 fits h k =
      ground (arith, taken-append room chunk.0 more, breaks-append room chunk.0 more)

  after_read-end :
      (declared : ℕ) (room : Option ℕ) (chunk : Chunk) (rest : Option (Copied S) × S.State)
      (s1 : S.State)
      → chunk ≡ ([], some eof)
      → after_read S declared room chunk rest s1 ≡ (some (copied room []), s1)
  unfolding after_read
  after_read-end declared none chunk rest s1 h = ground arith
  after_read-end declared (some zero) chunk rest s1 h = ground arith
  after_read-end declared (some (suc n)) chunk rest s1 h = ground arith

  -- What the copy of more bytes than are declared comes to: it breaks, with no more sent than are declared.
  abbrev pub BreaksOff : ℕ → Option ℕ → Text → Option (Copied S) × S.State → S.State → Type 0
  BreaksOff declared room bytes out s =
      (n : ℕ) × (n ≤ declared)
      × (out ≡ (some (record { sent = taken S room (take n bytes); complete = false }), s))

  after_read-refused :
      (declared : ℕ) (room : Option ℕ) (chunk : Chunk) (rest : Option (Copied S) × S.State)
      (s1 : S.State)
      → declared < length chunk.0
      → after_read S declared room chunk rest s1
        ≡ (some (record { sent = []; complete = false }), s1)
  unfolding after_read
  after_read-refused declared room chunk rest s1 h = ground arith

  after_read-more :
      (declared : ℕ) (room : Option ℕ) (chunk : Chunk) (more : Text)
      (rest : Option (Copied S) × S.State) (s1 : S.State)
      → length chunk.0 ≤ declared
      → chunk.1 ≡ none
      → BreaksOff (declared - length chunk.0) (left S room chunk.0) more rest s1
      → BreaksOff declared room (chunk.0 ++ more) (after_read S declared room chunk rest s1) s1
  unfolding after_read
  after_read-more declared room chunk more rest s1 fits h (n, low, same) = (
    length chunk.0 + n,
    omega arith,
    ground (arith, taken-append room chunk.0 (take n more), take-past chunk.0 more n),
  )

lt_of_not_leb : (a b : ℕ) → leb a b ≡ false → b < a
lt_of_not_leb a b h = ground arith

module _ (C : Cloud) where
  -- What is left to send.
  abbrev unread : ReadOnlyFile → Text
  unread f = drop f.reader.pos f.reader.content

  read-more :
      (f : ReadOnlyFile)
      → leb (length f.reader.content) f.reader.pos ≡ false
      → ((read_only_read 32768 f).0.1 ≡ none)
        × ((read_only_read 32768 f).0.0 ++ unread (read_only_read 32768 f).1 ≡ unread f)
        × (length (unread (read_only_read 32768 f).1) < length (unread f))
  unfolding read_only_read reader_read
  read-more f more =
      let next : unread (read_only_read 32768 f).1 ≡ drop 32768 (unread f) =
        rw (more, read_only_read)
          (drop-drop f.reader.pos (length (take 32768 (unread f))) f.reader.content
            ∙ drop-length-take 32768 (unread f)) in
      let shorter : length (drop 32768 (unread f)) < length (unread f) = omega (
        arith,
        lt_of_not_leb (length f.reader.content) f.reader.pos more,
        length-drop 32768 (unread f),
        length-drop f.reader.pos f.reader.content,
      ) in
      (rw (more) refl, rw (next) (rw (more) (take-append-drop 32768 (unread f))), rw (next) shorter)

  -- The copy of an open file of no more bytes than are declared ends within one read more than bytes are left;
  -- it sends all of them, or as many as the client takes, and ends without an error exactly if the client
  -- takes all.
  pub copy_body-reading :
      (fuel declared : ℕ) (room : Option ℕ) (f : ReadOnlyFile) (c : Client C)
      → length (unread f) < fuel
      → length (unread f) ≤ declared
      → copy_body (cos_storage C) fuel declared room (reading f) c
        ≡ (some (copied (cos_storage C) room (unread f)), c)
  unfolding copy_body
  copy_body-reading zero declared room f c h d = elim h [ ]
  copy_body-reading (suc fuel) declared room f c h d =
      let S : Storage = cos_storage C in
      let chunk : Chunk = (read_only_read 32768 f).0 in
      let f1 : ReadOnlyFile = (read_only_read 32768 f).1 in
      let less : ℕ = declared - length chunk.0 in
      let rest = copy_body S fuel less (left S room chunk.0) (reading f1) c in
      elim (Bool-cases (leb (length f.reader.content) f.reader.pos)) [
        | inl over ↦
            let nothing : unread f ≡ [] = drop-all f.reader.pos f.reader.content (ground arith) in
            after_read-end S declared room chunk rest c
              (unfold read_only_read reader_read in rw (over) refl)
            ∙ ap (λ bytes. (some (copied S room bytes), c)) (sym nothing)
        | inr more ↦
            let (fine, split, shorter) = read-more f more in
            let sum = ap length split in
            let parts = length-append chunk.0 (unread f1) in
            after_read-data S declared room chunk (unread f1) rest c (omega arith) fine
              (copy_body-reading fuel less (left S room chunk.0) f1 c (omega arith) (omega arith))
            ∙ ap (λ bytes. (some (copied S room bytes), c)) split
      ]

  -- The copy of an open file of more bytes than are declared ends, and breaks off.
  pub copy_body-BreaksOff :
      (fuel declared : ℕ) (room : Option ℕ) (f : ReadOnlyFile) (c : Client C)
      → length (unread f) < fuel
      → declared < length (unread f)
      → BreaksOff
          (cos_storage C)
          declared
          room
          (unread f)
          (copy_body (cos_storage C) fuel declared room (reading f) c)
          c
  unfolding copy_body
  copy_body-BreaksOff zero declared room f c h d = elim h [ ]
  copy_body-BreaksOff (suc fuel) declared room f c h d =
      let S : Storage = cos_storage C in
      let chunk : Chunk = (read_only_read 32768 f).0 in
      let f1 : ReadOnlyFile = (read_only_read 32768 f).1 in
      let less : ℕ = declared - length chunk.0 in
      let rest = copy_body S fuel less (left S room chunk.0) (reading f1) c in
      elim (Bool-cases (leb (length f.reader.content) f.reader.pos)) [
        | inl over ↦
            let none_left = ap length (drop-all f.reader.pos f.reader.content (ground arith)) in
            absurd (omega arith)
        | inr more ↦
            let (fine, split, shorter) = read-more f more in
            let sum = ap length split in
            let parts = length-append chunk.0 (unread f1) in
            elim (Bool-cases (ltb declared (length chunk.0))) [
              | inl refused ↦ (
                0,
                omega arith,
                after_read-refused S declared room chunk rest c (ground arith)
                    ∙ ap (λ t. (some (record { sent = t; complete = false }), c))
                        (sym (taken_nil S room)),
              )
              | inr room_left ↦
                  let fits : length chunk.0 ≤ declared = ground arith in
                  subst
                    (λ bytes.
                      BreaksOff S declared room bytes (after_read S declared room chunk rest c) c)
                    split
                    (after_read-more S declared room chunk (unread f1) rest c fits fine (
                      copy_body-BreaksOff fuel less (left S room chunk.0) f1 c (omega arith)
                        (omega arith)))
            ]
      ]

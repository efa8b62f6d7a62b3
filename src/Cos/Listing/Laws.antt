-- ===== src/Cos/Listing/Laws.antt =====
-- What a listing shows.
use cloud_file_server.Base.{
  ℕ, ◌≡◌, refl, ap, ◌≢◌, Bool, true, false, not, ◌&&◌, ◌||◌, List, [], ◌∷◌, ◌++◌, if◌then◌else◌,
  arith, All, All-append, Bool-cases, inl, inr, ◌⊎◌,
}
use cloud_file_server.Text.{Text, text_beq, text_beq_iff}
use cloud_file_server.Cos.{Object, BucketListing}
use cloud_file_server.Cos.Listing.{
  Entry, Kind, skipped, folder, file, member, folder_name, folder_names, kind, content_entries,
  folder_entries, list_entries,
}

abbrev dir_names : List Entry → List Text
dir_names [] = []
dir_names (e ∷ es) = let rest = dir_names es in if e.is_dir then e.name ∷ rest else rest

abbrev pub distinct : List Text → Bool
distinct [] = true
distinct (n ∷ names) = not (member n names) && distinct names

abbrev HasName : Entry → Type 0
HasName e = e.name ≢ []

folder_names-ne : (prefix : Text) (ps : List Text) → All (λ n. n ≢ []) (folder_names prefix ps)
unfolding folder_names
folder_names-ne prefix [] = tt
folder_names-ne prefix (p ∷ ps) = elim (Bool-cases (text_beq (folder_name prefix p) [])) [
  | inl empty ↦ simp empty (folder_names-ne prefix ps)
  | inr named ↦
      simp named (ground (arith, text_beq_iff (folder_name prefix p) []), folder_names-ne prefix ps)
]

folder_entries-HasName :
    (now : ℕ) (names : List Text) → All (λ n. n ≢ []) names → All HasName (folder_entries now names)
unfolding folder_entries
folder_entries-HasName now [] h = tt
folder_entries-HasName now (n ∷ names) (h, hs) = (h, folder_entries-HasName now names hs)

-- What each kind says of the object's name.
kind_named :
    (prefix : Text) (seen : List Text) (o : Object) (name : Text)
    → ((kind prefix seen o ≡ folder name) → (name ≢ []) × (member name seen ≡ false))
      × ((kind prefix seen o ≡ file name) → (name ≢ []))
unfolding kind
kind_named prefix seen o name =
    (λ h. ground (arith, text_beq_iff name []), λ h. ground (arith, text_beq_iff name []))

Kind-cases :
    (k : Kind) → (k ≡ skipped) ⊎ ((n : Text) × (k ≡ folder n)) ⊎ ((n : Text) × (k ≡ file n))
Kind-cases skipped = inl refl
Kind-cases (folder n) = inr (inl (n, refl))
Kind-cases (file n) = inr (inr (n, refl))

module _ (prefix : Text) (time : Text → ℕ) where
  content_entries-HasName :
      (seen : List Text) (objects : List Object)
      → All HasName (content_entries prefix time seen objects)
  unfolding content_entries
  content_entries-HasName seen [] = tt
  content_entries-HasName seen (o ∷ objects) = elim (Kind-cases (kind prefix seen o)) [
    | inl k ↦ rw (k, content_entries) (content_entries-HasName seen objects)
    | inr (inl (n, k)) ↦
        rw (k, content_entries)
          (((kind_named prefix seen o n).0 k).0, content_entries-HasName (n ∷ seen) objects)
    | inr (inr (n, k)) ↦
        rw (k, content_entries)
          ((kind_named prefix seen o n).1 k, content_entries-HasName seen objects)
  ]

  -- The folders that the second loop adds are new, and differ from one another.
  content_entries-fresh :
      (seen : List Text) (objects : List Object)
      → (distinct (dir_names (content_entries prefix time seen objects)) ≡ true)
        × ((n : Text)
            → member n seen ≡ true
            → member n (dir_names (content_entries prefix time seen objects)) ≡ false)
  unfolding content_entries member
  content_entries-fresh seen [] = (refl, λ n h. refl)
  content_entries-fresh seen (o ∷ objects) = elim (Kind-cases (kind prefix seen o)) [
    | inl k ↦ rw (k, content_entries) (content_entries-fresh seen objects)
    | inr (inl (n, k)) ↦
        let (d, f) = content_entries-fresh (n ∷ seen) objects in
        let (_, new) = (kind_named prefix seen o n).0 k in
        rw (k, content_entries)
          (
            ground (arith, d, f n, text_beq_iff n n),
            λ m h. ground (arith, f m, new, text_beq_iff n m),
          )
    | inr (inr (n, k)) ↦ rw (k, content_entries) (content_entries-fresh seen objects)
  ]

dir_names-append : (xs ys : List Entry) → dir_names (xs ++ ys) ≡ dir_names xs ++ dir_names ys
dir_names-append [] ys = refl
dir_names-append (e ∷ xs) ys = ground (arith, dir_names-append xs ys)

dir_names-folder_entries :
    (now : ℕ) (names : List Text) → dir_names (folder_entries now names) ≡ names
unfolding folder_entries
dir_names-folder_entries now [] = refl
dir_names-folder_entries now (n ∷ names) = ap (λ r. n ∷ r) (dir_names-folder_entries now names)

member-append : (n : Text) (xs ys : List Text) → member n (xs ++ ys) ≡ member n xs || member n ys
unfolding member
member-append n [] ys = refl
member-append n (x ∷ xs) ys = ground (arith, member-append n xs ys)

distinct-append :
    (xs ys : List Text)
    → distinct xs ≡ true
    → distinct ys ≡ true
    → ((n : Text) → member n xs ≡ true → member n ys ≡ false)
    → distinct (xs ++ ys) ≡ true
unfolding member
distinct-append [] ys h k apart = k
distinct-append (x ∷ xs) ys h k apart = ground (
  arith,
  distinct-append xs ys (ground arith) k (λ n m. apart n (ground arith)),
  member-append x xs ys,
  apart x (ground (arith, text_beq_iff x x)),
)

-- Every entry of a listing has a name, and if the store's common prefixes name different folders,
-- no two folders of the listing have one name, whatever placeholder objects stand beside them.
list_entries_names :
    (prefix : Text) (time : Text → ℕ) (now : ℕ) (listing : BucketListing)
    → distinct (folder_names prefix listing.common_prefixes) ≡ true
    → All (λ e. e.name ≢ []) (list_entries prefix time now listing)
      × (distinct (dir_names (list_entries prefix time now listing)) ≡ true)
unfolding list_entries
list_entries_names prefix time now listing h =
    let names = folder_names prefix listing.common_prefixes in
    let (d, f) = content_entries-fresh prefix time names listing.contents in
    (
      All-append HasName (folder_entries now names) _
          (folder_entries-HasName now names (folder_names-ne prefix listing.common_prefixes))
          (content_entries-HasName prefix time names listing.contents),
      rw (dir_names-append, dir_names-folder_entries) (distinct-append names _ h d f),
    )

-- ===== src/Cos/Listing.antt =====
-- `List` and `parseTime` of internal/cos/fs.go: the entries of one virtual folder.
pub mod Laws
use cloud_file_server.Base.{
  ℕ, Bool, true, false, not, ◌&&◌, ◌||◌, List, [], ◌∷◌, ◌++◌, Option, none, some, Result, ok, err,
  ltb, any, if◌then◌else◌,
}
use cloud_file_server.Text.{Text, text_beq, slash, trim_prefix, ends_in_slash, trim_suffix_slash}
use cloud_file_server.Cos.{Object, BucketListing, Cloud}
use cloud_file_server.Cos.Client.{Client, M, bucket_get}

pub record Entry : Type 0 where
  pub name : Text
  pub size : ℕ
  pub is_dir : Bool
  pub modify_time : ℕ

-- The four layouts in turn, as a year and an instant; a year before 1980 gives way to the present.
pub parse_time : (ℕ → Text → Option (ℕ × ℕ)) → ℕ → List ℕ → Text → ℕ
parse_time parse now [] s = now
parse_time parse now (layout ∷ layouts) s = elim (parse layout s) [
  | some (year, t) ↦ if ltb year 1980 then now else t
  | none ↦ parse_time parse now layouts s
]

abbrev pub layouts : List ℕ
layouts = 0 ∷ 1 ∷ 2 ∷ 3 ∷ []

pub folder_prefix : Text → Text
folder_prefix prefix =
    if not (ends_in_slash prefix) && not (text_beq prefix [])
    then prefix ++ (slash ∷ [])
    else prefix

-- What the loop over `Contents` makes of an object.
pub data Kind : Type 0 where
  skipped : Kind
  folder : Text → Kind
  file : Text → Kind

pub member : Text → List Text → Bool
member name names = any (λ n. text_beq n name) names

-- A placeholder counts as a folder that was not seen yet.
folder_kind : List Text → Text → Kind
unfolding member
folder_kind seen dir_name =
    if text_beq dir_name [] || member dir_name seen then skipped else folder dir_name

name_kind : List Text → Text → Kind
unfolding folder_kind
name_kind seen name =
    if text_beq name []
    then skipped
    else if ends_in_slash name
    then folder_kind seen (trim_suffix_slash name)
    else file name

module _ (prefix : Text) where
  unfoldable pub folder_name : Text → Text
  folder_name p = trim_suffix_slash (trim_prefix p prefix)

  pub folder_names : List Text → List Text
  folder_names [] = []
  folder_names (p ∷ ps) =
      let rest = folder_names ps in
      if text_beq (folder_name p) [] then rest else folder_name p ∷ rest

  pub kind : List Text → Object → Kind
  unfolding name_kind
  kind seen o = name_kind seen (trim_prefix o.key prefix)

  module _ (time : Text → ℕ) where
    pub content_entries : List Text → List Object → List Entry
    content_entries seen [] = []
    content_entries seen (o ∷ objects) = elim (kind seen o) [
      | skipped ↦ content_entries seen objects
      | folder name ↦
          record { name = name; size = o.size; is_dir = true; modify_time = time o.last_modified }
          ∷ content_entries (name ∷ seen) objects
      | file name ↦
          record { name = name; size = o.size; is_dir = false; modify_time = time o.last_modified }
          ∷ content_entries seen objects
    ]

-- A common prefix carries no size and no time.
pub folder_entries : ℕ → List Text → List Entry
folder_entries now [] = []
folder_entries now (name ∷ names) =
    record { name = name; size = 0; is_dir = true; modify_time = now } ∷ folder_entries now names

-- The two loops of `List`, over the answer for a prefix that ends in a slash.
pub list_entries : Text → (Text → ℕ) → ℕ → BucketListing → List Entry
list_entries prefix time now listing =
    let names = folder_names prefix listing.common_prefixes in
    folder_entries now names ++ content_entries prefix time names listing.contents

-- `List`
unfoldable pub list : (C : Cloud) → Text → M C (List Entry)
unfolding folder_prefix list_entries parse_time
list C prefix c =
    let dir = folder_prefix prefix in
    let (answer, c1) = bucket_get C dir c in
    let now = C.now c1.cloud in
    elim answer [
      | err e ↦ (err e, c1)
      | ok listing ↦ (ok (list_entries dir (parse_time C.parse_layout now layouts) now listing), c1)
    ]

-- ===== src/Cos.antt =====
-- internal/cos: errors of the object store, and what lies outside the repository, the Tencent SDK
-- and its token service, as the interface `Cloud`.
pub mod Chain
pub mod Sts
pub mod Client
pub mod Listing
use cloud_file_server.Base.{
  ℕ, Bool, true, false, ◌||◌, List, [], ◌∷◌, Option, none, some, Result, ok, err, leb, any, ◌&&◌,
  ◌≡◌, succeeds, if◌then◌else◌,
}
use cloud_file_server.Text.{Text, ascii, contains, text_beq}

-- What the code reads of a Go error: its text, and what `errors.Is`, `errors.As` and
-- `cos.IsCOSError` say of it.
pub record Err : Type 0 where
  pub message : Text
  pub not_exist : Bool
  pub is_net_error : Bool
  pub deadline_exceeded : Bool
  pub status_code : Option ℕ

-- An error made by `errors.New`.
abbrev pub plain_error : Text → Err
plain_error message = record {
  message = message;
  not_exist = false;
  is_net_error = false;
  deadline_exceeded = false;
  status_code = none;
}

auth_codes : List Text
unfolding ascii
auth_codes =
    ascii "SignatureDoesNotMatch"
    ∷ ascii "ExpiredToken"
    ∷ ascii "TokenExpired"
    ∷ ascii "InvalidAccessKeyId"
    ∷ ascii "InvalidToken"
    ∷ []

-- `IsAuthErr` and `IsUnavailable` of internal/cos/client.go, on an error that is there.
unfoldable pub is_auth_err : Err → Bool
unfolding contains auth_codes
is_auth_err e = any (contains e.message) auth_codes

unfoldable pub is_unavailable : Err → Bool
is_unavailable e =
    e.is_net_error
    || e.deadline_exceeded
    || elim e.status_code [ none ↦ false | some status ↦ leb 500 status ]

-- `creds`; the expiry is an instant in nanoseconds, and 0 is the zero time.
pub record Creds : Type 0 where
  pub id : Text
  pub key : Text
  pub token : Text
  pub expiry : ℕ

abbrev pub zero_creds : Creds
zero_creds = record { id = []; key = []; token = []; expiry = 0 }

-- What a HEAD answers: the Content-Length, if it parses, and the Last-Modified header.
pub record Head : Type 0 where
  pub content_length : Option ℕ
  pub last_modified : Text

pub record Object : Type 0 where
  pub key : Text
  pub size : ℕ
  pub last_modified : Text

-- What a listing with the delimiter `/` answers.
pub record BucketListing : Type 0 where
  pub common_prefixes : List Text
  pub contents : List Object

-- The Range header: none, `bytes=first-`, or `bytes=first-last`.
pub data Range : Type 0 where
  whole : Range
  from : ℕ → Range
  between : ℕ → ℕ → Range

-- `Bucket.Get`, `Object.Head`, `Object.Get` and so on of the SDK, under the credentials in use;
-- a PUT takes what is left in the reader of its body, and returns what it leaves there. A Copy takes a
-- source URL, a host and a key; `copy_source` is what is stored under one. Also the token service; the clock; and `time.Parse` with one of four layouts, as a year and an instant.
pub record Cloud : Type 1 where
  pub State : Type 0
  pub now : State → ℕ
  pub sts_get : State → Result Err Creds × State
  pub parse_layout : ℕ → Text → Option (ℕ × ℕ)
  pub bucket_get : Creds → Text → State → Result Err BucketListing × State
  pub object_head : Creds → Text → State → Result Err Head × State
  pub object_get : Creds → Text → Range → State → Result Err Text × State
  pub object_put : Creds → Text → Text → State → (Result Err (Unit {0}) × Text) × State
  pub object_delete : Creds → Text → State → Result Err (Unit {0}) × State
  pub copy_source : Text → State → Option Text
  pub object_copy : Creds → Text → Text → State → Result Err (Unit {0}) × State

-- What the server relies on of the object store, which holds the bytes `object s key`: a request
-- that answers with an error changed nothing, and one that succeeds did what it says and no more.
pub record IsLawful (C : Cloud) (object : C.State → Text → Option Text) : Type 0 where
  pub object-sts_get : (s : C.State) (j : Text) → object (C.sts_get s).1 j ≡ object s j
  pub object-bucket_get :
      (creds : Creds) (prefix : Text) (s : C.State) (j : Text)
      → object (C.bucket_get creds prefix s).1 j ≡ object s j
  pub object-object_head :
      (creds : Creds) (key : Text) (s : C.State) (j : Text)
      → object (C.object_head creds key s).1 j ≡ object s j
  pub object-object_get :
      (creds : Creds) (key : Text) (range : Range) (s : C.State) (j : Text)
      → object (C.object_get creds key range s).1 j ≡ object s j
  pub object-object_put :
      (creds : Creds) (key body : Text) (s : C.State) (j : Text)
      → object (C.object_put creds key body s).1 j ≡ (
          if succeeds (C.object_put creds key body s).0.0 && text_beq key j
          then some body
          else object s j)
  pub object-object_delete :
      (creds : Creds) (key : Text) (s : C.State) (j : Text)
      → object (C.object_delete creds key s).1 j
        ≡ (if succeeds (C.object_delete creds key s).0 && text_beq key j then none else object s j)
  pub object-object_copy :
      (creds : Creds) (dst source : Text) (s : C.State) (j : Text)
      → object (C.object_copy creds dst source s).1 j ≡ (
          if succeeds (C.object_copy creds dst source s).0 && text_beq dst j
          then C.copy_source source s
          else object s j)
  pub object_get-ok :
      (creds : Creds) (key : Text) (s : C.State) (body : Text)
      → (C.object_get creds key whole s).0 ≡ ok body
      → object s key ≡ some body

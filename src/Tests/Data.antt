-- ===== src/Tests/Data.antt =====
-- What the tests run on: a user, a login state, and an object store in memory.
use cloud_file_server.Base.{
  nat_beq, ltb, ◌≡◌, refl, Bool, true, false, [], ◌∷◌, Option, none, some, Result, ok, err,
  succeeds, if◌then◌else◌, length, arith, ◌&&◌,
}
use cloud_file_server.Base.Dict.{Dict, lookup, insert, erase, lookup-insert, lookup-erase}
use cloud_file_server.Text.{Text, ascii, text_eq, text_beq, slash}
use cloud_file_server.Net.{Net}
use cloud_file_server.Auth.Password.{Unicode}
use cloud_file_server.Auth.Lockout.{new_lockout}
use cloud_file_server.Db.{FtpUser}
use cloud_file_server.Core.Authenticator.{AuthState, Attempt}
use cloud_file_server.Cos.{Err, plain_error, zero_creds, Cloud, IsLawful, Head}
use cloud_file_server.Cos.Client.{Client}

-- Its password is `pw`, and so is what stands for its hash.
abbrev pub alice : FtpUser
alice = record {
  id = 1;
  username = ascii "al";
  password_hash = ascii "pw";
  root_folder = ascii "r";
  cos_bucket = [];
  cos_region = [];
  enabled = true;
  allow_active_mode = false;
  refuse_overwrite = false;
  max_sessions = 1;
  ftp_enabled = true;
  sftp_enabled = true;
  sftp_public_key = ascii "K";
  created_at = 1;
  updated_at = 1;
  deleted_at = none;
  last_login = none;
}

abbrev pub same_password : Text → Text → Bool
same_password hash plain = text_beq hash plain

abbrev pub start : AuthState
start = record {
  lockout = new_lockout 1 100;
  db = record { rows = alice ∷ []; next_id = 2; now = 5; faults = [] };
  events = [];
}

abbrev pub attempt_with : Text → Attempt
attempt_with pass = record {
  user = ascii "al";
  pass = pass;
  connection_type = ascii "ftp";
  client_ip = none;
  asked_at = 10;
  failed_at = 10;
}

abbrev pub plain_net : Net
plain_net = record { split_host = λ a. some a; parse_ip = λ h. some h }

-- A bucket that answers every request that makes sense.
abbrev pub object : Dict Text Text → Text → Option Text
object s j = lookup j s

abbrev missing : Err
missing = plain_error (ascii "NoSuchKey")

abbrev answer_get : Option Text → Result Err Text
answer_get none = err missing
answer_get (some body) = ok body

abbrev answer_head : Option Text → Result Err Head
answer_head none = err missing
answer_head (some body) = ok (record { content_length = some (length body); last_modified = [] })

abbrev copy_to : Text → Option Text → Dict Text Text → Result Err (Unit {0}) × Dict Text Text
copy_to dst none s = (err missing, s)
copy_to dst (some body) s = (ok tt, insert dst body s)

-- The key of a source URL.
abbrev pub behind_slash : Text → Text
behind_slash [] = []
behind_slash (b ∷ s) = let rest = behind_slash s in if nat_beq b slash then s else rest

abbrev pub memory : Cloud
memory = record {
  State = Dict Text Text;
  now = λ s. 0;
  sts_get = λ s. (err missing, s);
  parse_layout = λ layout t. none;
  bucket_get = λ creds prefix s. (ok (record { common_prefixes = []; contents = [] }), s);
  object_head = λ creds key s. (answer_head (lookup key s), s);
  object_get = λ creds key range s. (answer_get (lookup key s), s);
  object_put = λ creds key body s. ((ok tt, []), insert key body s);
  object_delete = λ creds key s. (ok tt, erase key s);
  copy_source = λ source s. lookup (behind_slash source) s;
  object_copy = λ creds dst source s. copy_to dst (lookup (behind_slash source) s) s;
}

pub memory-IsLawful : IsLawful memory object
memory-IsLawful = record {
  object-sts_get = λ s j. refl;
  object-bucket_get = λ creds prefix s j. refl;
  object-object_head = λ creds key s j. refl;
  object-object_get = λ creds key range s j. refl;
  object-object_put = λ creds key body s j. ground (arith, lookup-insert key j body s);
  object-object_delete = λ creds key s j. ground (arith, lookup-erase key j s);
  object-object_copy = λ creds dst src s j. copied dst src s j (lookup (behind_slash src) s) refl;
  object_get-ok = λ creds key s body h. ground arith;
}
  where
    copied :
        (dst src : Text) (s : Dict Text Text) (j : Text) (o : Option Text)
        → lookup (behind_slash src) s ≡ o
        → lookup j (copy_to dst o s).1 ≡ (
            if succeeds (copy_to dst o s).0 && text_beq dst j
            then lookup (behind_slash src) s
            else lookup j s)
    copied dst src s j none h = ground arith
    copied dst src s j (some body) h = ground (arith, lookup-insert dst j body s)

abbrev pub client_of : Dict Text Text → Client memory
client_of s = record { chain = none; curr = zero_creds; cloud = s; notices = [] }

-- The tables, on ASCII.
abbrev pub ascii_tables : Unicode
ascii_tables = record {
  is_upper = λ r. ltb 64 r && ltb r 91;
  is_lower = λ r. ltb 96 r && ltb r 123;
  is_digit = λ r. ltb 47 r && ltb r 58;
}

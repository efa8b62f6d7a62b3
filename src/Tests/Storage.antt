-- ===== src/Tests/Storage.antt =====
-- The drivers over a bucket in memory, credentials, and listings.
use cloud_file_server.Base.{
  ℕ, ◌≡◌, refl, ap, sym, ◌∙◌, ◌≢◌, Bool, true, false, not, ◌&&◌, ◌||◌, List, [], ◌∷◌, ◌++◌, Option,
  none, some, Result, ok, err, length, All, arith, succeeds, if◌then◌else◌,
}
use cloud_file_server.Base.Dict.{Dict, lookup}
use cloud_file_server.Text.{Text, ascii, text_beq, text_eq, slash}
use cloud_file_server.Cos.{Err, Creds, zero_creds, Cloud, IsLawful, BucketListing, plain_error}
use cloud_file_server.Cos.Chain.{Chain, EnvStatic, Notice, no_sts, invalidate, new_chain_from_env}
use cloud_file_server.Cos.Client.{Client}
use cloud_file_server.Fsdriver.FileInfo.{FileInfo}
use cloud_file_server.Fsdriver.Files.{MemWriteFile, close_write, new_read_only_file}
use cloud_file_server.Fsdriver.DirFile.{DirFile}
use cloud_file_server.Fsdriver.DirFile.Paging.{read_pages, read_pages_all}
use cloud_file_server.Base.{drop}
use cloud_file_server.Fsdriver.ObjectFs.{
  full_key, full_name, reading, remove, rename, open_file_for_reading,
}
use cloud_file_server.Fsdriver.ObjectFs.Confinement.{
  Call, calls, uploaded, removed, renamed, calls_confined,
}
use cloud_file_server.Fsdriver.ObjectFs.Contents.{IsAccepted, taken, rename-effect, upload-download}
use cloud_file_server.Tests.Data.{memory, object, memory-IsLawful, client_of}

abbrev bucket : Dict Text Text
bucket = (ascii "r/a", ascii "A") ∷ (ascii "q/b", ascii "B") ∷ []

abbrev client : Client memory
client = client_of bucket

abbrev busy : List Call
busy =
    renamed (ascii "a") (ascii "../q/b")
    ∷ uploaded (ascii "x") (ascii "X")
    ∷ removed (ascii "a")
    ∷ []

calls_confined_example :
    object (calls memory (ascii "r") busy client).cloud (ascii "q/b") ≡ object bucket (ascii "q/b")
unfolding cloud_file_server.Text.has_prefix ascii
calls_confined_example =
    calls_confined memory object (ascii "r") busy client (ascii "q/b") memory-IsLawful refl

-- The SDK reads the key of `a` under the root as the key `a` of a host `r`.
abbrev with_bare : Client memory
with_bare = client_of ((ascii "r/a", ascii "A") ∷ (ascii "a", ascii "B") ∷ [])

rename-effect_example :
    (s : Dict Text Text) × ((j : Text) → object s j ≡ object with_bare.cloud j)
    × ((j : Text)
        → object (rename memory (ascii "r") (ascii "a") (ascii "c") with_bare).1.cloud j ≡ (
            if text_beq (full_key (ascii "r") (ascii "a")) j
            then none
            else if text_beq (full_key (ascii "r") (ascii "c")) j
            then memory.copy_source (full_key (ascii "r") (ascii "a")) s
            else object with_bare.cloud j))
unfolding rename cloud_file_server.Cos.Client.copy cloud_file_server.Cos.Client.perform
    cloud_file_server.Cos.Client.refresh cloud_file_server.Cos.Client.do_op
    cloud_file_server.Cos.Client.request lookup text_beq ascii full_key
    cloud_file_server.Text.trim_left cloud_file_server.Fsdriver.ObjectFs.with_raw
    cloud_file_server.Cos.Client.delete
rename-effect_example =
    rename-effect memory object memory-IsLawful (ascii "r") (ascii "a") (ascii "c") with_bare refl

abbrev upload_of_a : MemWriteFile
upload_of_a = record { buf = ascii "NEW"; final_key = ascii "r/a"; closed = false }

upload-download_example :
    IsAccepted memory (ascii "r/a") (ascii "NEW") client
    × (reading (new_read_only_file (ascii "NEW") (ascii "a"))
        ≡ reading (
            new_read_only_file
              (taken memory (ascii "r/a") (ascii "NEW") client)
              (full_name (ascii "r") (ascii "a"))))
unfolding full_key ascii cloud_file_server.Text.trim_left close_write
    cloud_file_server.Cos.Client.put cloud_file_server.Cos.Client.perform
    cloud_file_server.Cos.Client.refresh cloud_file_server.Cos.Client.do_op
    cloud_file_server.Cos.Client.request open_file_for_reading
    cloud_file_server.Cos.Client.get_object lookup cloud_file_server.Base.Dict.insert text_beq
    full_name
upload-download_example =
    upload-download memory object memory-IsLawful (ascii "r") (ascii "a") upload_of_a client
      (reading (new_read_only_file (ascii "NEW") (ascii "a"))) refl refl refl refl

abbrev pair : EnvStatic
pair = record { id = ascii "i"; key = ascii "k"; tok = [] }

abbrev chain : Chain
chain = record {
  sts = no_sts;
  static = some pair;
  use_pod_identity = false;
  margin = 1;
  curr = zero_creds;
  src = [];
  exp = 0;
}

abbrev static_creds : Creds
static_creds = record { id = ascii "i"; key = ascii "k"; token = []; expiry = 3_600_000_000_000 }

abbrev listing : BucketListing
listing = record {
  common_prefixes = ascii "r/d/" ∷ [];
  contents =
      record { key = ascii "r/"; size = 0; last_modified = [] }
      ∷ record { key = ascii "r/a"; size = 1; last_modified = [] }
      ∷ [];
}

abbrev info_named : Text → FileInfo
info_named name = record { name = name; size = 0; mode = 0; mod_time = 0; is_dir = false }

abbrev three : List FileInfo
three = info_named (ascii "x") ∷ info_named (ascii "y") ∷ info_named (ascii "z") ∷ []

abbrev folder : DirFile
folder = record { name = ascii "f"; entries = three; offset = 0; closed = false }

read_pages_all_example : read_pages 4 2 folder ≡ drop 0 three
read_pages_all_example = read_pages_all 4 2 folder (omega arith) (omega arith)

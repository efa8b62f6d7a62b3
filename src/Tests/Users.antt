-- ===== src/Tests/Users.antt =====
-- The handlers that change users.
use cloud_file_server.Base.{
  ℕ, ◌≡◌, refl, Bool, true, false, List, [], ◌∷◌, Option, none, some, Result, ok, err, arith,
}
use cloud_file_server.Text.{Text, ascii, text_beq, text_beq_iff}
use cloud_file_server.Text.Spaces.{trim_space}
use cloud_file_server.Auth.Password.{Unicode, IsStrong}
use cloud_file_server.Auth.Lockout.{new_lockout}
use cloud_file_server.Db.{FtpUser, Db}
use cloud_file_server.Core.Authenticator.{Attempt, login_failed, authenticate}
use cloud_file_server.Admin.Users.{delete_user, Caller, Site, normalize_root_folder}
use cloud_file_server.Admin.Users.Create.{CreateBody, create_user}
use cloud_file_server.Admin.Users.Access.{
  delete_user-authenticate, Verifies, create_user-authenticate,
}
use cloud_file_server.Db.Table.{has_unique_names, execute_all, execute_all-has_unique_names}
use cloud_file_server.Tests.Data.{alice, memory, client_of, same_password, ascii_tables}

abbrev plain_hash : Text → Option Text
plain_hash p = some p

abbrev any_key : Text → Result Text Text
any_key t = ok t

abbrev boss : Caller
boss = record { username = ascii "root"; client_ip = none }

abbrev site : Site memory
site = record {
  cos_bucket = ascii "bk";
  cos_region = ascii "rg";
  cos_client = some (client_of []);
  db = record { rows = []; next_id = 1; now = 7; faults = [] };
  events = [];
}

abbrev body : CreateBody
body = record {
  username = ascii " bo ";
  root_folder = ascii "r/";
  password = ascii "Passw0rd";
  enabled = true;
  ftp_enabled = none;
  sftp_enabled = none;
}

abbrev bo : FtpUser
bo = record {
  id = 1;
  username = ascii "bo";
  password_hash = ascii "Passw0rd";
  root_folder = ascii "/r";
  cos_bucket = ascii "bk";
  cos_region = ascii "rg";
  enabled = true;
  allow_active_mode = false;
  refuse_overwrite = false;
  max_sessions = 5;
  ftp_enabled = true;
  sftp_enabled = false;
  sftp_public_key = [];
  created_at = 7;
  updated_at = 7;
  deleted_at = none;
  last_login = none;
}

plain-Verifies : Verifies plain_hash same_password
plain-Verifies plain hash h = ground (arith, text_beq_iff hash plain, h)

abbrev bo_attempt : Attempt
bo_attempt = record {
  user = ascii "bo";
  pass = ascii "Passw0rd";
  connection_type = ascii "ftp";
  client_ip = none;
  asked_at = 10;
  failed_at = 10;
}

create_user-authenticate_example :
    (authenticate same_password
      (record {
        lockout = new_lockout 1 100;
        db = (create_user memory plain_hash any_key ascii_tables boss (some body) site).1.db;
        events = [];
      })
      bo_attempt).0
    ≡ ok bo
unfolding create_user text_beq cloud_file_server.Auth.Password.validate_password
    cloud_file_server.Cos.Client.put cloud_file_server.Cos.Client.perform
    cloud_file_server.Cos.Client.refresh cloud_file_server.Cos.Client.do_op
    cloud_file_server.Cos.Client.request cloud_file_server.Db.create_ftp_user normalize_root_folder
    cloud_file_server.Text.trim cloud_file_server.Db.get_ftp_user_by_username
    cloud_file_server.Auth.Lockout.allow cloud_file_server.Base.Dict.lookup new_lockout
create_user-authenticate_example =
    create_user-authenticate memory plain_hash any_key ascii_tables boss body site bo same_password
      bo_attempt (new_lockout 1 100) [] plain-Verifies refl refl refl refl refl refl

space_test : trim_space (0xC2 ∷ 0xA0 ∷ 98 ∷ 32 ∷ 0xE2 ∷ 0x80 ∷ 0x83 ∷ []) ≡ 98 ∷ []
unfolding trim_space
space_test = refl

abbrev site_of_alice : Site memory
site_of_alice = record site { db = record { rows = alice ∷ []; next_id = 2; now = 7; faults = [] } }

abbrev al_attempt : Attempt
al_attempt = record bo_attempt { user = ascii "al"; pass = ascii "pw" }

delete_user-authenticate_example :
    (authenticate same_password
      (record {
        lockout = new_lockout 1 100;
        db =
            (delete_user memory plain_hash any_key ascii_tables boss
              (ascii "al")
              site_of_alice).1.db;
        events = [];
      })
      al_attempt).0
    ≡ err login_failed
unfolding has_unique_names delete_user cloud_file_server.Db.get_ftp_user_by_username text_beq ascii
    cloud_file_server.Db.soft_delete_ftp_user
delete_user-authenticate_example =
    delete_user-authenticate memory plain_hash any_key ascii_tables boss (ascii "al") site_of_alice
      same_password al_attempt (new_lockout 1 100) [] refl refl refl

execute_all-has_unique_names_example :
    has_unique_names
      (execute_all
        (cloud_file_server.Db.Table.creates bo
          ∷ cloud_file_server.Db.Table.deletes 2
          ∷ cloud_file_server.Db.Table.creates bo
          ∷ [])
        site_of_alice.db).rows
    ≡ true
unfolding has_unique_names
execute_all-has_unique_names_example =
    execute_all-has_unique_names
      (cloud_file_server.Db.Table.creates bo
        ∷ cloud_file_server.Db.Table.deletes 2
        ∷ cloud_file_server.Db.Table.creates bo
        ∷ [])
      site_of_alice.db refl

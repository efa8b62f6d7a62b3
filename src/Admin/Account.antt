-- ===== src/Admin/Account.antt =====
-- internal/admin/account_api.go: session and logout.
use cloud_file_server.Base.{Bool, true, List, [], ◌∷◌, ◌++◌, Option, none, some}
use cloud_file_server.Text.{Text, ascii}
use cloud_file_server.Net.{Net}
use cloud_file_server.Audit.Event.{Event, zero_event}
use cloud_file_server.Admin.Requests.{Request, client_ip}
use cloud_file_server.Admin.Sessions.{SessionEntry, SessionManager, Cookie, revoke, clear_cookie}

-- The fields of API that session shows.
pub record Addresses : Type 0 where
  pub ftp_enabled : Bool
  pub ftp_address : Text
  pub ftp_public_address : Text
  pub sftp_enabled : Bool
  pub sftp_address : Text
  pub sftp_public_address : Text
  pub cos_bucket : Text
  pub cos_region : Text

pub record SessionView : Type 0 where
  pub username : Text
  pub role : Text
  pub email : Text
  pub first_name : Text
  pub last_name : Text
  pub addresses : Addresses
  pub cos_address : Text

unfoldable pub session : Addresses → SessionEntry → SessionView
session a e = record {
  username = e.username;
  role = e.role;
  email = e.email;
  first_name = e.first_name;
  last_name = e.last_name;
  addresses = a;
  cos_address =
      ascii "https://" ++ a.cos_bucket ++ ascii ".cos." ++ a.cos_region ++ ascii ".myqcloud.com";
}

abbrev pub logout_event : Net → Request → Event
logout_event net r = record zero_event {
  username = r.current_user;
  client_ip = some (client_ip net r);
  action = ascii "ADMIN_LOGOUT";
  success = true;
}

-- The cookie that `logout` sets beside 204, the sessions and the events.
unfoldable pub logout :
    Net → Request → Option Text → SessionManager → List Event → Cookie × SessionManager × List Event
unfolding revoke clear_cookie
logout net r cookie m events =
    let m1 : SessionManager = elim cookie [ none ↦ m | some value ↦ revoke value m ] in
    (clear_cookie m1, m1, events ++ (logout_event net r ∷ []))

-- ===== src/Tests/Web.antt =====
-- Paths and sessions of the API, and the registry of FTP sessions.
use cloud_file_server.Base.{
  ℕ, nat_eq, ◌≡◌, refl, true, not, [], ◌∷◌, some, ok, err, any, select, arith, if◌then◌else◌,
}
use cloud_file_server.Text.{Text, ascii, text_beq, text_eq}
use cloud_file_server.Text.Segments.{split, join}
use cloud_file_server.Text.SegmentLaws.{is_dotdot, is_proper}
use cloud_file_server.Admin.Paths.{bad_path, sanitize_path, sanitize_path_lem}
use cloud_file_server.Admin.Sessions.{
  SessionEntry, SessionManager, new_session_manager, revoke, unauthorized, served, authenticate,
  encode_to_string,
}
use cloud_file_server.Admin.Sessions.Laws.{
  issued, asked, calls, ask_all, authenticate-revoked, authenticate-in_use,
}
use cloud_file_server.Ftpserver.Sessions.{
  Registry, new_session_registry, is_closed, is_active, term_channel,
}
use cloud_file_server.Ftpserver.Sessions.Laws.{registered, terminated, watched, calls-term_channel}

sanitize_path_lem_example : sanitize_path (ascii "/a//./b/") ≡ (
    if any is_dotdot (split (ascii "/a//./b/"))
    then err bad_path
    else ok (join (select is_proper (split (ascii "/a//./b/")))))
sanitize_path_lem_example = sanitize_path_lem (ascii "/a//./b/")

sanitize_path_test : sanitize_path (ascii "/a//./b/") ≡ ok (ascii "a/b")
unfolding sanitize_path text_beq join cloud_file_server.Text.Segments.clean_loop
    cloud_file_server.Text.Segments.clean_step cloud_file_server.Text.Segments.dot
sanitize_path_test = refl

dotdot_test : sanitize_path (ascii "a/../b") ≡ err bad_path
unfolding sanitize_path text_beq
dotdot_test = refl

abbrev admin : SessionEntry
admin = record {
  username = ascii "al";
  role = ascii "admin";
  auth_method = ascii "local";
  email = [];
  first_name = [];
  last_name = [];
  expires = 0;
}

abbrev manager : SessionManager
manager = new_session_manager 10 true

authenticate-revoked_example :
    (authenticate (some (ascii "0a")) 5 (
      calls
        (asked (ascii "0a") 3 ∷ [])
        (revoke (ascii "0a") (calls (issued admin (10 ∷ []) 1 ∷ []) manager)))).0
    ≡ unauthorized
authenticate-revoked_example =
    authenticate-revoked (ascii "0a") (asked (ascii "0a") 3 ∷ []) 5
      (calls (issued admin (10 ∷ []) 1 ∷ []) manager) refl

authenticate-in_use_example :
    (authenticate
      (some (encode_to_string (10 ∷ [])))
      15
      (calls (issued admin (10 ∷ []) 1 ∷ ask_all (encode_to_string (10 ∷ [])) (8 ∷ [])) manager)).0
    ≡ served (record admin { expires = 25 })
unfolding new_session_manager
authenticate-in_use_example =
    authenticate-in_use admin (10 ∷ []) 1 (8 ∷ []) 15 manager refl (omega arith)

abbrev one_session : SessionManager
one_session = record {
  ttl = 10;
  cookie_secure = true;
  sessions = (ascii "0a", record admin { expires = 11 }) ∷ [];
}

calls-term_channel_example :
    (r : Registry) × (cloud_file_server.Ftpserver.Sessions.Laws.calls
        (registered 1 (ascii "al") (ascii "h") ∷ watched 2 ∷ terminated 1 ∷ terminated 1 ∷ [])
        new_session_registry
      ≡ some r)
    × ((id : ℕ) → is_closed (term_channel id r).0 (term_channel id r).1 ≡ not (is_active id r))
calls-term_channel_example =
    calls-term_channel
      (registered 1 (ascii "al") (ascii "h") ∷ watched 2 ∷ terminated 1 ∷ terminated 1 ∷ [])

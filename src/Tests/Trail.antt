-- ===== src/Tests/Trail.antt =====
-- The audit logger, and the drivers that report to it.
use cloud_file_server.Base.{
  ℕ, zero, suc, ◌≡◌, refl, ◌⊎◌, true, false, List, [], ◌∷◌, ◌++◌, none, some, length, arith,
  if◌then◌else◌,
}
use cloud_file_server.Text.{Text, ascii, text_beq, text_eq}
use cloud_file_server.Audit.Event.{Event, zero_event}
use cloud_file_server.Audit.Logger.{
  Logger, Action, checked, sent, received, marked_closed, channel_closing, new, run, send, flush,
  close,
}
use cloud_file_server.Audit.Logger.Invariant.{IsValid, run-IsValid}
use cloud_file_server.Audit.Logger.Closing.{ClosesEarly}
use cloud_file_server.Audit.Logger.Batches.{flush_long_name}
use cloud_file_server.Audit.Logger.Delivery.{accepted_by, in_order, run-in_order}
use cloud_file_server.Audit.Logger.Shutdown.{receives, close-receives}
use cloud_file_server.Fsdriver.AuditFs.{Mount, event, World, AuditFile}
use cloud_file_server.Fsdriver.AuditFs.Transfers.{Use, writes, closes, use_all, use_all-events}
use cloud_file_server.Fsdriver.AuditFs.Commands.{
  Command, makes, removes, inner_all, audited_all, trail, audited_all-trail,
}
use cloud_file_server.Fsdriver.ObjectFs.{full_key}
use cloud_file_server.Fsdriver.ObjectFs.Mounted.{cos_mount}
use cloud_file_server.Fsdriver.Uploads.{upload, uploading, concat, upload-stored, upload-events}
use cloud_file_server.Tests.Data.{memory, object, memory-IsLawful, client_of}
use cloud_file_server.Fsdriver.ObjectFs.Contents.{IsAccepted, taken}

abbrev login : Event
login = record zero_event { username = ascii "al"; action = ascii "LOGIN" }

abbrev actions : List Action
actions =
    checked login 7 9
    ∷ sent 0
    ∷ received true
    ∷ marked_closed
    ∷ channel_closing
    ∷ received true
    ∷ []

abbrev final : Logger
final = record {
  closed = true;
  sending = [];
  channel = [];
  channel_closed = true;
  buf = [];
  running = false;
  stored = record login { event_time = 7; session_id = 9; event_type = ascii "auth" } ∷ [];
}

run-in_order_example : in_order final ≡ [] ++ accepted_by (new []) actions
unfolding run cloud_file_server.Audit.Logger.step cloud_file_server.Audit.Logger.check new send
    cloud_file_server.Audit.Logger.send_next cloud_file_server.Audit.Logger.send_picked
    cloud_file_server.Audit.Logger.pick cloud_file_server.Audit.Logger.receive close
    cloud_file_server.Audit.Logger.offer cloud_file_server.Audit.Logger.receive_from
    cloud_file_server.Audit.Logger.add_to_buf flush cloud_file_server.Audit.Logger.fits
    cloud_file_server.Audit.Logger.stamp ascii text_beq
    cloud_file_server.Audit.Event.classify_event_type
run-in_order_example =
    run-in_order [] actions final refl (tt, (tt, (refl, (tt, (tt, (refl, tt)))))) refl

run-IsValid_example :
    ((l : Logger) × (run (new []) actions ≡ some l) × IsValid l)
    ⊎ ((run (new []) actions ≡ none) × ClosesEarly (new []) actions)
run-IsValid_example = run-IsValid [] actions

-- A Log that found the logger open before Close and sends after it.
run_panics : run (new []) (checked login 7 9 ∷ marked_closed ∷ channel_closing ∷ sent 0 ∷ []) ≡ none
unfolding run new cloud_file_server.Audit.Logger.step cloud_file_server.Audit.Logger.send_next
    cloud_file_server.Audit.Logger.send_picked cloud_file_server.Audit.Logger.pick close
    cloud_file_server.Audit.Logger.check send
run_panics = refl

abbrev waiting : Logger
waiting = record (new []) { channel = login ∷ []; buf = login ∷ [] }

abbrev a_n : ℕ → List ℕ
a_n zero = []
a_n (suc n) = 97 ∷ a_n n

abbrev a_65 : Text
a_65 = ascii "aaaaaaaaaaaaaaaaaaaaaaaaaaaaaaaaaaaaaaaaaaaaaaaaaaaaaaaaaaaaaaaaa"

abbrev poisoned : Logger
poisoned = record (new []) { buf = login ∷ record login { username = a_65 } ∷ [] }

flush_long_name_example : ((flush true poisoned).stored ≡ []) × ((flush true poisoned).buf ≡ [])
unfolding ascii new cloud_file_server.Auth.Runes.runes
flush_long_name_example =
    flush_long_name true poisoned (login ∷ []) [] (record login { username = a_65 }) (a_n 64) [] 97
      refl refl (omega arith) (λ h. ground arith)

waiting-IsValid : IsValid waiting
unfolding new
waiting-IsValid = record {
  channel_bounded = omega arith;
  buf_bounded = omega arith;
  closed_first = λ h. absurd (ground (arith, h));
  stopped_after_close = λ h. absurd (ground (arith, h));
  stopped_empty = λ h. absurd (ground (arith, h));
}

close-receives_example :
    ((receives 2 (close waiting)).running ≡ false)
    × ((receives 2 (close waiting)).stored ≡ in_order waiting)
unfolding new cloud_file_server.Audit.Logger.fits ascii
close-receives_example = close-receives waiting waiting-IsValid refl refl

abbrev mount : Mount
mount = record {
  username = ascii "al";
  client_ip = none;
  connection_type = ascii "ftp";
  backend_location = ascii "cos";
  root_folder = ascii "r";
  session = 4;
}

abbrev world : World (cos_mount memory (ascii "r")) mount
world = (client_of [], [])

abbrev upload_file : AuditFile (cos_mount memory (ascii "r")) mount
upload_file = uploading memory (ascii "r") mount (ascii "a") [] 0

abbrev uses : List Use
uses = writes (ascii "xy") ∷ closes ∷ closes ∷ []

use_all-events_example :
    (use_all (cos_mount memory (ascii "r")) mount uses upload_file world).1.1
    ≡ event mount (ascii "UPLOAD") (ascii "a") 2 true ∷ []
unfolding cloud_file_server.Fsdriver.Files.write ascii
use_all-events_example =
    use_all-events (cos_mount memory (ascii "r")) mount uses upload_file world refl

abbrev commands : List Command
commands = makes (ascii "d") ∷ removes (ascii "a") ∷ []

audited_all-trail_example :
    ((audited_all (cos_mount memory (ascii "r")) mount commands world).0
      ≡ (inner_all (cos_mount memory (ascii "r")) commands (client_of [])).0)
    × ((audited_all (cos_mount memory (ascii "r")) mount commands world).1.0
        ≡ (inner_all (cos_mount memory (ascii "r")) commands (client_of [])).1)
    × ((audited_all (cos_mount memory (ascii "r")) mount commands world).1.1
        ≡ []
          ++ trail mount commands
              (inner_all (cos_mount memory (ascii "r")) commands (client_of [])).0)
audited_all-trail_example = audited_all-trail (cos_mount memory (ascii "r")) mount commands world

abbrev parts : List Text
parts = ascii "xy" ∷ ascii "z" ∷ []

upload-stored_example :
    IsAccepted memory (full_key (ascii "r") (ascii "a")) (concat parts) world.0
    × ((j : Text)
        → object (upload memory (ascii "r") mount (ascii "a") parts world).1.0.cloud j ≡ (
            if text_beq (full_key (ascii "r") (ascii "a")) j
            then some (taken memory (full_key (ascii "r") (ascii "a")) (concat parts) world.0)
            else object [] j))
unfolding cloud_file_server.Fsdriver.AuditFs.create cloud_file_server.Fsdriver.AuditFs.transferred
    cloud_file_server.Fsdriver.ObjectFs.create cloud_file_server.Fsdriver.AuditFs.close
    cloud_file_server.Fsdriver.AuditFs.write cloud_file_server.Fsdriver.Files.close_write
    cloud_file_server.Fsdriver.Files.write cloud_file_server.Cos.Client.put
    cloud_file_server.Cos.Client.perform cloud_file_server.Cos.Client.refresh
    cloud_file_server.Cos.Client.do_op cloud_file_server.Cos.Client.request
upload-stored_example =
    upload-stored memory object memory-IsLawful (ascii "r") mount (ascii "a") parts world refl

upload-events_example :
    (upload memory (ascii "r") mount (ascii "a") parts world).1.1
    ≡ [] ++ (event mount (ascii "UPLOAD") (ascii "a") (length (concat parts)) true ∷ [])
upload-events_example = upload-events memory (ascii "r") mount (ascii "a") parts world

-- ===== src/Admin/AuditApi.antt =====
-- internal/admin/audit_api.go: queryAudit and exportAuditCSV. The SQL statements are read as functions
-- of the rows of `audit_events`, which hold what the logger wrote.
pub mod Laws
use mathlib.Core.List.{map}
use cloud_file_server.Base.{
  ℕ, ◌+◌, ◌-◌, ◌*◌, Bool, true, false, not, ◌&&◌, ◌||◌, List, [], ◌∷◌, ◌++◌, Option, none, some,
  Result, ok, err, leb, ltb, take, drop, select, if◌then◌else◌,
}
use cloud_file_server.Base.Int.{ℤ, pos, negsuc}
use cloud_file_server.Base.Sorting.{sort_by}
use cloud_file_server.Text.{Text, ascii, text_beq}
use cloud_file_server.Text.Numbers.Decimal.{itoa}
use cloud_file_server.Audit.Event.{Event}
use cloud_file_server.Admin.Limits.{limit_of, offset_of}

-- `time.Parse` and `Format` with RFC3339.
pub record Clock : Type 0 where
  pub parse : Text → Option ℕ
  pub format : ℕ → Text

pub record AuditQuery : Type 0 where
  pub username : Text
  pub action : Text
  pub success : Text
  pub from : Text
  pub to : Text
  pub limit : Text
  pub offset : Text

pub parse_time_or : Clock → Text → ℕ → ℕ
parse_time_or k s def = if text_beq s [] then def else elim (k.parse s) [ none ↦ def | some t ↦ t ]

-- 30 days in nanoseconds; the clock is past them.
abbrev pub thirty_days : ℕ
thirty_days = 30 * 24 * 3600 * 1_000_000_000

abbrev pub between : ℕ → ℕ → Event → Bool
between from to e = leb from e.event_time && leb e.event_time to

abbrev bool_text : Bool → Text
bool_text b = if b then ascii "true" else ascii "false"

-- The conditions that a query adds: none for an empty parameter.
pub filtered : AuditQuery → Event → Bool
filtered q e =
    (text_beq q.username [] || text_beq e.username q.username)
    && (text_beq q.action [] || text_beq e.action q.action)
    && (not (text_beq q.success (ascii "true") || text_beq q.success (ascii "false"))
        || text_beq (bool_text e.success) q.success)

abbrev pub is_later : Event → Event → Bool
is_later a b = ltb b.event_time a.event_time

abbrev pub is_earlier : Event → Event → Bool
is_earlier a b = ltb a.event_time b.event_time

-- LIMIT and OFFSET; a negative offset fails when the statement is run, which the loop over the rows sees as
-- their end.
pub page : ℕ → ℤ → List Event → List Event
page limit (pos offset) rows = take limit (drop offset rows)
page limit (negsuc _) rows = []

-- The rows that the loop over rows.Next sees: the first ones, where the iteration breaks after so many. No
-- handler asks rows.Err.
abbrev pub arrived : Option ℕ → List Event → List Event
arrived none rows = rows
arrived (some n) rows = take n rows

-- The rows that queryAudit answers 200 with, or `none` for 500, where Query itself fails.
unfoldable pub query_audit :
    Clock → AuditQuery → ℕ → Bool → Option ℕ → List Event → Option (List Event)
unfolding parse_time_or filtered page limit_of offset_of sort_by
query_audit k q now queried broken rows =
    let from = parse_time_or k q.from (now - thirty_days) in
    let to = parse_time_or k q.to now in
    if queried
    then some (
        arrived broken (
          page (limit_of 1000 100 q.limit) (offset_of q.offset)
            (sort_by is_later (select (λ e. between from to e && filtered q e) rows))))
    else none

abbrev deref : Option Text → Text
deref none = []
deref (some s) = s

abbrev pub csv_header : List Text
csv_header =
    ascii "event_time"
    ∷ ascii "username"
    ∷ ascii "client_ip"
    ∷ ascii "action"
    ∷ ascii "event_type"
    ∷ ascii "connection_type"
    ∷ ascii "backend_location"
    ∷ ascii "root_folder"
    ∷ ascii "path"
    ∷ ascii "bytes"
    ∷ ascii "success"
    ∷ []

-- The fields of a line, before csv.Writer quotes them.
pub csv_row : Clock → Event → List Text
unfolding itoa
csv_row k e =
    k.format e.event_time
    ∷ e.username
    ∷ deref e.client_ip
    ∷ e.action
    ∷ e.event_type
    ∷ e.connection_type
    ∷ e.backend_location
    ∷ e.root_folder
    ∷ e.path
    ∷ itoa e.bytes
    ∷ bool_text e.success
    ∷ []

pub export_audit_csv :
    Clock → Text → Text → ℕ → Bool → Option ℕ → List Event → Option (List (List Text))
unfolding parse_time_or sort_by csv_row
export_audit_csv k from to now queried broken rows =
    if queried
    then some (
        csv_header
        ∷ map (csv_row k) (
            arrived broken (
              sort_by is_earlier (
                select (between (parse_time_or k from (now - thirty_days)) (parse_time_or k to now))
                  rows))))
    else none

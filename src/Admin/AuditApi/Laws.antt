-- ===== src/Admin/AuditApi/Laws.antt =====
-- What the lists of internal/admin/audit_api.go show.
use mathlib.Core.List.{map, Perm}
use cloud_file_server.Base.{
  ℕ, ◌-◌, ◌≤◌, ◌≡◌, refl, Bool, true, ◌&&◌, ◌⊎◌, List, [], ◌∷◌, Option, none, some, take, drop,
  select, arith,
}
use cloud_file_server.Base.Int.{pos, negsuc}
use cloud_file_server.Base.Sorting.{sort_by, IsOrdered, sort_by-IsOrdered, sort_by-perm}
use cloud_file_server.Text.{Text}
use cloud_file_server.Audit.Event.{Event}
use cloud_file_server.Admin.Limits.{limit_of, offset_of}
use cloud_file_server.Admin.AuditApi.{
  Clock, AuditQuery, parse_time_or, thirty_days, between, filtered, is_earlier, arrived, csv_header,
  csv_row, export_audit_csv,
}

abbrev IsNotBefore : Event → Event → Type 0
IsNotBefore a b = b.event_time ≤ a.event_time

-- What the parameters ask for: an event in the interval that fulfils the conditions.
abbrev is_asked : Clock → AuditQuery → ℕ → Event → Bool
is_asked k q now e =
    between (parse_time_or k q.from (now - thirty_days)) (parse_time_or k q.to now) e
    && filtered q e

-- A page of the events that are asked for, the latest first, or what arrived of it.
pub record IsPage (k : Clock) (q : AuditQuery) (now : ℕ) (broken : Option ℕ) (rows out : List Event)
    : Type 0 where
  pub found : List Event
  pub limit : ℕ
  pub all : Perm found (select (is_asked k q now) rows)
  pub latest_first : IsOrdered IsNotBefore found
  pub shown :
      ((offset : ℕ) × (offset_of q.offset ≡ pos offset)
        × (out ≡ arrived broken (take limit (drop offset found))))
      ⊎ ((n : ℕ) × (offset_of q.offset ≡ negsuc n) × (out ≡ []))
  pub not_empty : 1 ≤ limit
  pub bounded : limit ≤ 1000
  pub asked : limit ≡ limit_of 1000 100 q.limit

-- An export whose rows all arrive has the header, and under it one line for each event of the interval,
-- the earliest first.
export_audit_csv-rows :
    (k : Clock) (from to : Text) (now : ℕ) (rows : List Event)
    → (events : List Event) × (export_audit_csv k from to now true none rows
        ≡ some (csv_header ∷ map (csv_row k) events))
      × Perm events (
          select (between (parse_time_or k from (now - thirty_days)) (parse_time_or k to now)) rows)
      × IsOrdered (λ a b. a.event_time ≤ b.event_time) events
unfolding export_audit_csv
export_audit_csv-rows k from to now rows =
    let inside =
      select (between (parse_time_or k from (now - thirty_days)) (parse_time_or k to now)) rows in
    (
      sort_by is_earlier inside,
      refl,
      sort_by-perm is_earlier inside,
      sort_by-IsOrdered is_earlier (λ a b. a.event_time ≤ b.event_time) (λ x e p. ground arith)
          (λ x e p. ground arith) (λ x y z a b. omega arith) inside,
    )

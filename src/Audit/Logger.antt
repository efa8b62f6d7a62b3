-- ===== src/Audit/Logger.antt =====
-- Logger of internal/audit/audit.go: the channel that Log fills, the goroutine `run` that empties
-- it into batches, and Close. `sending` has the events of the Logs that found the logger open and have
-- not come to their `select` yet. `stored` is the table `audit_events`, as far as this logger
-- wrote it: the events of its rows, of which the table cuts off spaces beyond the width of a column.
pub mod Closing
pub mod Invariant
pub mod Delivery
pub mod Batches
pub mod Shutdown
use cloud_file_server.Base.{
  ℕ, zero, suc, ◌+◌, Bool, true, false, not, ◌&&◌, List, [], ◌∷◌, ◌++◌, Option, none, some, nat_beq,
  leb, ltb, if◌then◌else◌, length,
}
use cloud_file_server.Text.{Text, text_beq}
use cloud_file_server.Auth.Runes.{runes}
use cloud_file_server.Audit.Event.{Event, classify_event_type}

pub record Logger : Type 0 where
  pub closed : Bool
  pub sending : List Event
  pub channel : List Event
  pub channel_closed : Bool
  pub buf : List Event
  pub running : Bool
  pub stored : List Event

abbrev pub channel_size : ℕ
channel_size = 1024

abbrev pub batch_size : ℕ
batch_size = 100

-- `New`
unfoldable pub new : List Event → Logger
new stored = record {
  closed = false;
  sending = [];
  channel = [];
  channel_closed = false;
  buf = [];
  running = true;
  stored = stored;
}

-- The fields that Log fills where the caller left them zero.
unfoldable pub stamp : Event → ℕ → ℕ → Event
stamp e now fresh = record e {
  event_time = if nat_beq e.event_time 0 then now else e.event_time;
  session_id = if nat_beq e.session_id 0 then fresh else e.session_id;
  event_type = if text_beq e.event_type [] then classify_event_type e.action else e.event_type;
}

-- A full channel drops the event.
unfoldable pub offer : Logger → Event → Logger
offer l e =
    if ltb (length l.channel) channel_size then record l { channel = l.channel ++ (e ∷ []) } else l

-- The `select` of Log: a send on a closed channel panics (`none`).
unfoldable pub send : Logger → Event → Option Logger
send l e = if l.channel_closed then none else some (offer l e)

-- The first step of `Log` on a logger that is there: the load of `closed`; the stamps touch nothing that
-- is shared.
unfoldable pub check : Logger → Event → ℕ → ℕ → Logger
check l e now fresh =
    if l.closed then l else record l { sending = l.sending ++ (stamp e now fresh ∷ []) }

-- One of some events, and the others.
unfoldable pub pick : ℕ → List Event → Option (Event × List Event)
pick n [] = none
pick zero (e ∷ events) = some (e, events)
pick (suc n) (e ∷ events) = elim (pick n events) [
  | none ↦ none
  | some (found, rest) ↦ some (found, e ∷ rest)
]

unfoldable pub send_picked : Logger → Option (Event × List Event) → Option Logger
send_picked l none = some l
send_picked l (some (e, rest)) = send (record l { sending = rest }) e

-- The second step of a `Log`, one of those that wait for it, in any order.
unfoldable pub send_next : Logger → ℕ → Option Logger
send_next l n = send_picked l (pick n l.sending)

-- Whether PostgreSQL takes a text for a column of `n` characters: what is beyond them has to be spaces,
-- which it cuts off.
unfoldable pub fits_column : ℕ → List ℕ → Bool
fits_column n [] = true
fits_column zero (c ∷ cs) = let rest = fits_column zero cs in nat_beq c 32 && rest
fits_column (suc n) (c ∷ cs) = fits_column n cs

-- The columns of `audit_events`. The texts are taken to be UTF-8 without zero bytes, since PostgreSQL
-- refuses all others.
unfoldable pub fits : Event → Bool
unfolding fits_column runes
fits e =
    fits_column 64 (runes e.username)
    && fits_column 32 (runes e.action)
    && fits_column 16 (runes e.event_type)
    && fits_column 16 (runes e.connection_type)
    && fits_column 256 (runes e.backend_location)
    && fits_column 512 (runes e.root_folder)
    && fits_column 8 (runes e.source)

-- The inserts of one transaction, over the rows that it holds so far; `none` is an error.
pub insert_all : List Event → List Event → Option (List Event)
insert_all done [] = some done
insert_all done (e ∷ batch) =
    let rest = insert_all (done ++ (e ∷ [])) batch in if fits e then rest else none

-- `writeBatch`; `up` says whether the database takes the transaction's beginning and its commit.
-- An error rolls the transaction back.
pub write_batch : Bool → List Event → List Event → Option (List Event)
unfolding insert_all
write_batch up stored batch = if up then insert_all stored batch else none

unfoldable pub flush : Bool → Logger → Logger
unfolding write_batch
flush up l = elim l.buf [
  | [] ↦ l
  | e ∷ batch ↦ elim (write_batch up l.stored (e ∷ batch)) [
    | none ↦ record l { buf = [] }
    | some stored ↦ record l { stored = stored; buf = [] }
  ]
]

unfoldable pub add_to_buf : Bool → Logger → Event → List Event → Logger
add_to_buf up l e channel =
    let l1 : Logger = record l { channel = channel; buf = l.buf ++ (e ∷ []) } in
    if leb batch_size (length l1.buf) then flush up l1 else l1

-- The first case of the `select` in `run`: with nothing to read it waits, unless the channel is
-- closed.
unfoldable pub receive_from : Bool → Logger → List Event → Logger
receive_from up l [] = if l.channel_closed then record (flush up l) { running = false } else l
receive_from up l (e ∷ channel) = add_to_buf up l e channel

unfoldable pub receive : Bool → Logger → Logger
receive up l = if l.running then receive_from up l l.channel else l

-- Its second case.
pub tick : Bool → Logger → Logger
tick up l = if l.running then flush up l else l

-- The compare-and-swap of `Close`.
unfoldable pub mark_closed : Logger → Logger
mark_closed l = record l { closed = true }

-- Its `close(l.ch)`, to which only the call comes that has set the flag.
unfoldable pub close_channel : Logger → Logger
close_channel l = if l.closed && not l.channel_closed then record l { channel_closed = true } else l

-- `Close`, up to its wait for `run`, where nothing comes between its steps.
unfoldable pub close : Logger → Logger
unfolding mark_closed close_channel
close l = if l.closed then l else close_channel (mark_closed l)

-- What the goroutines do, one step at a time.
pub data Action : Type 0 where
  checked : Event → ℕ → ℕ → Action
  sent : ℕ → Action
  received : Bool → Action
  ticked : Bool → Action
  marked_closed : Action
  channel_closing : Action

unfoldable pub step : Logger → Action → Option Logger
step l (checked e now fresh) = some (check l e now fresh)
step l (sent n) = send_next l n
step l (received up) = some (receive up l)
step l (ticked up) = some (tick up l)
step l marked_closed = some (mark_closed l)
step l channel_closing = some (close_channel l)

unfoldable pub run : Logger → List Action → Option Logger
run l [] = some l
run l (a ∷ actions) = elim (step l a) [ none ↦ none | some l' ↦ run l' actions ]

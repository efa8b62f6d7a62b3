-- ===== src/Audit/Logger/Closing.antt =====
-- What makes a send of Log in internal/audit/audit.go panic: Close, where a Log is under way.
use cloud_file_server.Base.{
  ◌<◌, ◌≡◌, refl, ap, Bool, true, false, List, [], ◌∷◌, ◌++◌, some, length, arith, Bool-cases,
  Option-cases, inl, inr, ◌⊎◌,
}
use cloud_file_server.Audit.Event.{Event}
use cloud_file_server.Audit.Logger.{
  Logger, check, pick, send, send_picked, send_next, offer, flush, add_to_buf, receive,
  receive_from, tick, mark_closed, close_channel, Action, checked, sent, received, ticked,
  marked_closed, channel_closing, step, run,
}

pub flush_lem :
    (up : Bool) (l : Logger)
    → ((flush up l).buf ≡ [])
      × ((flush up l).channel ≡ l.channel)
      × ((flush up l).closed ≡ l.closed)
      × ((flush up l).channel_closed ≡ l.channel_closed)
      × ((flush up l).running ≡ l.running)
unfolding flush
flush_lem up l = ground arith

-- In a list of steps, Close comes to closing the channel while a Log has found the logger open and not sent.
abbrev pub ClosesEarly : Logger → List Action → Type 0
ClosesEarly l actions =
    (before after : List Action) × (m : Logger) × (actions ≡ before ++ (channel_closing ∷ after))
    × (run l before ≡ some m)
    × (m.closed ≡ true)
    × (m.channel_closed ≡ false)
    × (0 < length m.sending)

-- Nothing is on its way to a closed channel.
abbrev pub IsQuiet : Logger → Type 0
IsQuiet l = (l.channel_closed ≡ false) ⊎ ((l.closed ≡ true) × (l.sending ≡ []))

ClosesEarly-cons :
    (l m : Logger) (a : Action) (actions : List Action)
    → step l a ≡ some m
    → ClosesEarly m actions
    → ClosesEarly l (a ∷ actions)
unfolding run
ClosesEarly-cons l m a actions e (before, after, n, split, runs, marked, still_open, some_left) =
    (a ∷ before, after, n, ap (λ x. a ∷ x) split, run_cons, marked, still_open, some_left)
  where
    run_cons : run l (a ∷ before) ≡ some n
    run_cons = rw (e, run) runs

empty_or_not : (events : List Event) → (events ≡ []) ⊎ (0 < length events)
empty_or_not [] = inl refl
empty_or_not (e ∷ events) = inr (omega arith)

flush-sending : (up : Bool) (l : Logger) → (flush up l).sending ≡ l.sending
unfolding flush
flush-sending up l = ground arith

tick-IsQuiet : (up : Bool) (l : Logger) → IsQuiet l → IsQuiet (tick up l)
unfolding tick
tick-IsQuiet up l q = ground (arith, flush_lem up l, flush-sending up l)

receive-IsQuiet : (up : Bool) (l : Logger) → IsQuiet l → IsQuiet (receive up l)
unfolding receive receive_from add_to_buf
receive-IsQuiet up l q = elim (Bool-cases l.running) [
  | inl h ↦ simp h (reads l.channel)
  | inr h ↦ simp h q
]
  where
    reads : (channel : List Event) → IsQuiet (receive_from up l channel)
    reads [] = ground (arith, flush_lem up l, flush-sending up l)
    reads (e ∷ channel) =
        let moved : Logger = record l { channel = channel; buf = l.buf ++ (e ∷ []) } in
        ground (arith, flush_lem up moved, flush-sending up moved)

-- A step that closes the channel too early.
abbrev IsEarly : Logger → Action → Type 0
IsEarly l a =
    (a ≡ channel_closing) × (l.closed ≡ true) × (l.channel_closed ≡ false) × (0 < length l.sending)

-- A step of a quiet logger does not panic, and leaves it quiet or closes the channel early.
step-IsQuiet :
    (l : Logger) (a : Action)
    → IsQuiet l
    → (m : Logger) × (step l a ≡ some m) × (IsQuiet m ⊎ IsEarly l a)
unfolding step check send_next send_picked send offer pick mark_closed close_channel
step-IsQuiet l (checked e now fresh) q = (check l e now fresh, refl, inl (check-IsQuiet q))
  where
    check-IsQuiet : IsQuiet l → IsQuiet (check l e now fresh)
    check-IsQuiet (inl still_open) = inl (ground arith)
    check-IsQuiet (inr (over, empty)) = inr (ground arith, ground arith)
step-IsQuiet l (sent n) q = sends q
  where
    sends : IsQuiet l → (m : Logger) × (send_next l n ≡ some m) × (IsQuiet m ⊎ IsEarly l (sent n))
    sends (inr (over, empty)) = (l, rw empty refl, inl (inr (over, empty)))
    sends (inl still_open) = elim (Option-cases (pick n l.sending)) [
      | inl nobody ↦ (l, rw nobody refl, inl (inl still_open))
      | inr ((e, rest), found) ↦
          let r : Logger = record l { sending = rest } in
          (offer r e, rw found (rw still_open refl), inl (inl (ground arith)))
    ]
step-IsQuiet l (received up) q = (receive up l, refl, inl (receive-IsQuiet up l q))
step-IsQuiet l (ticked up) q = (tick up l, refl, inl (tick-IsQuiet up l q))
step-IsQuiet l marked_closed q = (mark_closed l, refl, inl (mark-IsQuiet q))
  where
    mark-IsQuiet : IsQuiet l → IsQuiet (mark_closed l)
    mark-IsQuiet (inl still_open) = inl still_open
    mark-IsQuiet (inr (over, empty)) = inr (refl, empty)
step-IsQuiet l channel_closing q = (close_channel l, refl, closes q)
  where
    closes : IsQuiet l → IsQuiet (close_channel l) ⊎ IsEarly l channel_closing
    closes (inr (over, empty)) = inl (inr (ground arith, ground arith))
    closes (inl still_open) = elim (Bool-cases l.closed) [
      | inr alive ↦ inl (inl (ground arith))
      | inl over ↦ elim (empty_or_not l.sending) [
        | inl empty ↦ inl (inr (ground arith, ground arith))
        | inr some_left ↦ inr (refl, over, still_open, some_left)
      ]
    ]

pub run_from-IsQuiet :
    (l : Logger) (actions : List Action)
    → IsQuiet l
    → ((l' : Logger) × (run l actions ≡ some l')) ⊎ ClosesEarly l actions
unfolding run
run_from-IsQuiet l [] q = inl (l, refl)
run_from-IsQuiet l (a ∷ actions) q =
    let (m, e, next) = step-IsQuiet l a q in
    elim next [
      | inr (closing, over, still_open, some_left) ↦
          inr ([], actions, l, ap (λ x. x ∷ actions) closing, refl, over, still_open, some_left)
      | inl still ↦ elim (run_from-IsQuiet m actions still) [
        | inl (l', ends) ↦ inl (l', rw (e, run) ends)
        | inr early ↦ inr (ClosesEarly-cons l m a actions e early)
      ]
    ]

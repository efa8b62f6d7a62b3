-- ===== src/Audit/Logger/Invariant.antt =====
-- What holds of the logger between two steps.
use mathlib.Core.Option.{some-injective}
use cloud_file_server.Base.{
  ℕ, ◌≤◌, ◌<◌, ◌≡◌, refl, ap, Bool, true, false, List, [], ◌∷◌, ◌++◌, Option, none, some, length,
  length-append, arith, Bool-cases, Option-cases, inl, inr, ◌⊎◌, subst,
}
use cloud_file_server.Audit.Event.{Event}
use cloud_file_server.Audit.Logger.{
  Logger, new, channel_size, batch_size, check, pick, send, send_picked, send_next, offer,
  add_to_buf, receive, receive_from, tick, mark_closed, close_channel, close, Action, checked, sent,
  received, ticked, marked_closed, channel_closing, step, run,
}
use cloud_file_server.Audit.Logger.Closing.{ClosesEarly, flush_lem, run_from-IsQuiet}

pub record IsValid (l : Logger) : Type 0 where
  pub channel_bounded : length l.channel ≤ channel_size
  pub buf_bounded : length l.buf < batch_size
  pub closed_first : l.channel_closed ≡ true → l.closed ≡ true
  pub stopped_after_close : l.running ≡ false → l.channel_closed ≡ true
  pub stopped_empty : l.running ≡ false → (l.channel ≡ []) × (l.buf ≡ [])

offer-IsValid :
    (l : Logger) (e : Event) → l.channel_closed ≡ false → IsValid l → IsValid (offer l e)
unfolding offer
offer-IsValid l e h v = ground (arith, length-append l.channel (e ∷ []))

check-IsValid : (l : Logger) (e : Event) (now fresh : ℕ) → IsValid l → IsValid (check l e now fresh)
unfolding check
check-IsValid l e now fresh v = ground arith

send_picked-IsValid :
    (l l' : Logger) (p : Option (Event × List Event))
    → send_picked l p ≡ some l'
    → IsValid l
    → IsValid l'
unfolding send_picked send
send_picked-IsValid l l' none h v = subst IsValid (some-injective _ _ h) v
send_picked-IsValid l l' (some (e, rest)) h v = elim (Bool-cases l.channel_closed) [
  | inl panics ↦ absurd (ground arith)
  | inr open_channel ↦
      let r : Logger = record l { sending = rest } in
      let w : IsValid r = ground arith in
      let same : offer r e ≡ l' = ground arith in
      subst IsValid same (offer-IsValid r e open_channel w)
]

add_to_buf-IsValid :
    (up : Bool) (l : Logger) (e : Event) (channel : List Event)
    → l.running ≡ true
    → length channel ≤ channel_size
    → IsValid l
    → IsValid (add_to_buf up l e channel)
unfolding add_to_buf
add_to_buf-IsValid up l e channel h b v = ground (
  arith,
  length-append l.buf (e ∷ []),
  flush_lem up (record l { channel = channel; buf = l.buf ++ (e ∷ []) }),
)

receive_from-IsValid :
    (up : Bool) (l : Logger) (channel : List Event)
    → l.channel ≡ channel
    → l.running ≡ true
    → IsValid l
    → IsValid (receive_from up l channel)
unfolding receive_from
receive_from-IsValid up l [] e h v = ground (arith, flush_lem up l)
receive_from-IsValid up l (x ∷ channel) e h v =
    add_to_buf-IsValid up l x channel h (omega (arith, ap length e)) v

receive-IsValid : (up : Bool) (l : Logger) → IsValid l → IsValid (receive up l)
unfolding receive
receive-IsValid up l v = elim (Bool-cases l.running) [
  | inl h ↦ simp h (receive_from-IsValid up l l.channel refl h v)
  | inr h ↦ simp h v
]

tick-IsValid : (up : Bool) (l : Logger) → IsValid l → IsValid (tick up l)
unfolding tick
tick-IsValid up l v = ground (arith, flush_lem up l)

mark_closed-IsValid : (l : Logger) → IsValid l → IsValid (mark_closed l)
unfolding mark_closed
mark_closed-IsValid l v = ground arith

close_channel-IsValid : (l : Logger) → IsValid l → IsValid (close_channel l)
unfolding close_channel
close_channel-IsValid l v = ground arith

step-IsValid : (l l' : Logger) (a : Action) → step l a ≡ some l' → IsValid l → IsValid l'
unfolding step
step-IsValid l l' (checked e now fresh) h v =
    subst IsValid (some-injective _ _ h) (check-IsValid l e now fresh v)
step-IsValid l l' (sent n) h v =
    send_picked-IsValid l l' (pick n l.sending) (unfold send_next in h) v
step-IsValid l l' (received up) h v = subst IsValid (some-injective _ _ h) (receive-IsValid up l v)
step-IsValid l l' (ticked up) h v = subst IsValid (some-injective _ _ h) (tick-IsValid up l v)
step-IsValid l l' marked_closed h v = subst IsValid (some-injective _ _ h) (mark_closed-IsValid l v)
step-IsValid l l' channel_closing h v =
    subst IsValid (some-injective _ _ h) (close_channel-IsValid l v)

run_from-IsValid :
    (l l' : Logger) (actions : List Action) → run l actions ≡ some l' → IsValid l → IsValid l'
unfolding run
run_from-IsValid l l' [] h v = subst IsValid (some-injective _ _ h) v
run_from-IsValid l l' (a ∷ actions) h v = elim (Option-cases (step l a)) [
  | inl panics ↦ absurd (ground arith)
  | inr (m, e) ↦ run_from-IsValid m l' actions (rw (e, run) at h) (step-IsValid l m a e v)
]

-- Whatever is logged and however the goroutines take turns, with any steps between a Log's look at
-- `closed` and its send, and between the flag and the channel of Close: either no step panics, and in the
-- end the channel holds at most 1024 events and the buffer fewer than 100, the channel is closed only with
-- the flag, and `run` has stopped only after that and left nothing behind in the channel or the buffer; or a
-- step panics, and then a Close closed the channel while a Log had found the logger open and not sent.
pub run-IsValid :
    (stored : List Event) (actions : List Action)
    → ((l : Logger) × (run (new stored) actions ≡ some l) × IsValid l)
      ⊎ ((run (new stored) actions ≡ none) × ClosesEarly (new stored) actions)
unfolding new
run-IsValid stored actions = elim (Option-cases (run (new stored) actions)) [
  | inr (l, ends) ↦ inl (l, ends, run_from-IsValid (new stored) l actions ends fresh)
  | inl panics ↦ elim (run_from-IsQuiet (new stored) actions (inl (refl))) [
    | inl (l, ends) ↦ absurd (ground arith)
    | inr early ↦ inr (panics, early)
  ]
]
  where
    fresh : IsValid (new stored)
    fresh = ground arith

-- Log looks at `closed` and sends in two steps. Where Close comes between them, on a logger that
-- was open, the send panics.
send-close_panics :
    (l : Logger) (e : Event) → IsValid l → l.closed ≡ false → send (close l) e ≡ none
unfolding send close mark_closed close_channel
send-close_panics l e v h = ground arith

-- ===== src/Audit/Logger/Delivery.antt =====
-- The way of an event through internal/audit/audit.go, from Log to the table.
use mathlib.Core.Option.{some-injective}
use cloud_file_server.Base.{
  not, subst, ℕ, ◌≡◌, refl, ap, sym, ◌∙◌, Bool, true, ◌&&◌, List, [], ◌∷◌, ◌++◌, Option, none, some,
  leb, ltb, if◌then◌else◌, length, arith, Bool-cases, Option-cases, inl, inr, append_assoc,
  append-nil, All,
}
use cloud_file_server.Audit.Event.{Event}
use cloud_file_server.Audit.Logger.{
  Logger, new, fits, flush, channel_size, batch_size, check, pick, send, send_picked, send_next,
  offer, add_to_buf, receive, receive_from, tick, mark_closed, close_channel, Action, checked, sent,
  received, ticked, marked_closed, channel_closing, step, run,
}
use cloud_file_server.Audit.Logger.Batches.{all_fit, all_fit-append, flush-stored}

abbrev offered : Logger → Event → List Event
offered l e = if ltb (length l.channel) channel_size then e ∷ [] else []

abbrev offered_of : Logger → Option (Event × List Event) → List Event
offered_of l none = []
offered_of l (some (e, rest)) = offered l e

-- What one step puts in the channel.
abbrev accepted : Logger → Action → List Event
accepted l (sent n) = offered_of l (pick n l.sending)
accepted l _ = []

abbrev pub accepted_by : Logger → List Action → List Event
accepted_by l [] = []
accepted_by l (a ∷ actions) =
    accepted l a ++ elim (step l a) [ none ↦ [] | some l' ↦ accepted_by l' actions ]

-- Everything that has been accepted so far: the table, then the buffer, then the channel.
abbrev pub in_order : Logger → List Event
in_order l = l.stored ++ (l.buf ++ l.channel)

-- The database took part in every flush.
abbrev IsUp : Action → Type 0
IsUp (received up) = up ≡ true
IsUp (ticked up) = up ≡ true
IsUp _ = Unit

abbrev pub waiting_fit : Logger → Bool
waiting_fit l = all_fit (l.buf ++ l.channel)

flush_rest : (up : Bool) (l : Logger) → ((flush up l).buf ≡ []) × ((flush up l).channel ≡ l.channel)
unfolding flush
flush_rest up l = ground arith

flush-in_order : (l : Logger) → all_fit l.buf ≡ true → in_order (flush true l) ≡ in_order l
flush-in_order l h =
    let (b, c) = flush_rest true l in
    rw (b, c, flush-stored true l, h) (append_assoc l.stored l.buf l.channel)

-- What a step on a healthy database keeps: the order of all events, and that they fit.
pub record Keeps (l l' : Logger) (more : List Event) : Type 0 where
  pub same_order : in_order l' ≡ in_order l ++ more
  pub fit : waiting_fit l' ≡ true

flush-Keeps : (l : Logger) → waiting_fit l ≡ true → Keeps l (flush true l) []
flush-Keeps l w =
    let (b, c) = flush_rest true l in
    let split : (all_fit l.buf && all_fit l.channel) ≡ true = rw (← all_fit-append) w in
    record {
      same_order = flush-in_order l (ground arith) ∙ sym (append-nil (in_order l));
      fit = rw (b, c) (ground arith);
    }

abbrev moved : Logger → Event → List Event → Logger
moved l e channel = record l { channel = channel; buf = l.buf ++ (e ∷ []) }

moved-Keeps :
    (l : Logger) (e : Event) (channel : List Event)
    → l.channel ≡ e ∷ channel
    → waiting_fit l ≡ true
    → Keeps l (moved l e channel) []
moved-Keeps l e channel h w = record {
  same_order = simp (h, append-nil, append_assoc);
  fit = simp (append_assoc) (simp h at w);
}

Keeps-trans : (l m n : Logger) (more : List Event) → Keeps l m [] → Keeps m n more → Keeps l n more
Keeps-trans l m n more h k = record {
  same_order = k.same_order ∙ ap (λ xs. xs ++ more) (h.same_order ∙ append-nil (in_order l));
  fit = k.fit;
}

Keeps-refl : (l : Logger) → waiting_fit l ≡ true → Keeps l l []
Keeps-refl l w = record { same_order = sym (append-nil (in_order l)); fit = w }

pub add_to_buf-Keeps :
    (l : Logger) (e : Event) (channel : List Event)
    → l.channel ≡ e ∷ channel
    → waiting_fit l ≡ true
    → Keeps l (add_to_buf true l e channel) []
unfolding add_to_buf
add_to_buf-Keeps l e channel h w =
    let m : Logger = moved l e channel in
    let k = moved-Keeps l e channel h w in
    elim (Bool-cases (leb batch_size (length (l.buf ++ (e ∷ []))))) [
      | inl full ↦ simp full (Keeps-trans l m (flush true m) [] k (flush-Keeps m k.fit))
      | inr room ↦ simp room k
    ]

receive_from-Keeps :
    (l : Logger) (channel : List Event)
    → l.channel ≡ channel
    → waiting_fit l ≡ true
    → Keeps l (receive_from true l channel) []
unfolding receive_from
receive_from-Keeps l [] h w = elim (Bool-cases l.channel_closed) [
  | inl over ↦
      let k = flush-Keeps l w in simp over (record { same_order = k.same_order; fit = k.fit })
  | inr waits ↦ simp waits (Keeps-refl l w)
]
receive_from-Keeps l (e ∷ channel) h w = add_to_buf-Keeps l e channel h w

receive-Keeps : (l : Logger) → waiting_fit l ≡ true → Keeps l (receive true l) []
unfolding receive
receive-Keeps l w = elim (Bool-cases l.running) [
  | inl h ↦ simp h (receive_from-Keeps l l.channel refl w)
  | inr h ↦ simp h (Keeps-refl l w)
]

tick-Keeps : (l : Logger) → waiting_fit l ≡ true → Keeps l (tick true l) []
unfolding tick
tick-Keeps l w = elim (Bool-cases l.running) [
  | inl h ↦ simp h (flush-Keeps l w)
  | inr h ↦ simp h (Keeps-refl l w)
]

offer-Keeps :
    (l : Logger) (e : Event)
    → fits e ≡ true
    → waiting_fit l ≡ true
    → Keeps l (record l { channel = l.channel ++ (e ∷ []) }) (e ∷ [])
offer-Keeps l e f w = record {
  same_order = simp append_assoc;
  fit = simp (← append_assoc) (ground (arith, all_fit-append (l.buf ++ l.channel) (e ∷ [])));
}

Keeps-sending :
    (l l' : Logger) (rest more : List Event)
    → Keeps (record l { sending = rest }) l' more
    → Keeps l l' more
Keeps-sending l l' rest more k = record { same_order = k.same_order; fit = k.fit }

check-Keeps :
    (l : Logger) (e : Event) (now fresh : ℕ)
    → waiting_fit l ≡ true
    → Keeps l (check l e now fresh) []
unfolding check
check-Keeps l e now fresh w = elim (Bool-cases l.closed) [
  | inl over ↦ simp over (Keeps-refl l w)
  | inr alive ↦ simp alive (record { same_order = sym (append-nil (in_order l)); fit = w })
]

send-Keeps :
    (l l' : Logger) (e : Event)
    → send l e ≡ some l'
    → all_fit (offered l e) ≡ true
    → waiting_fit l ≡ true
    → Keeps l l' (offered l e)
unfolding send offer
send-Keeps l l' e h f w = elim (Bool-cases l.channel_closed) [
  | inl panics ↦ absurd (ground arith)
  | inr open_channel ↦ elim (Bool-cases (ltb (length l.channel) channel_size)) [
    | inl room ↦
        let same : record l { channel = l.channel ++ (e ∷ []) } ≡ l' = ground arith in
        simp room (subst (λ m. Keeps l m (e ∷ [])) same (offer-Keeps l e (ground arith) w))
    | inr full ↦
        let same : l ≡ l' = ground arith in
        simp full (subst (λ m. Keeps l m []) same (Keeps-refl l w))
  ]
]

send_picked-Keeps :
    (l l' : Logger) (p : Option (Event × List Event))
    → send_picked l p ≡ some l'
    → all_fit (offered_of l p) ≡ true
    → waiting_fit l ≡ true
    → Keeps l l' (offered_of l p)
unfolding send_picked
send_picked-Keeps l l' none h f w =
    subst (λ m. Keeps l m []) (some-injective _ _ h) (Keeps-refl l w)
send_picked-Keeps l l' (some (e, rest)) h f w =
    Keeps-sending l l' rest (offered l e) (send-Keeps (record l { sending = rest }) l' e h f w)

mark_closed-Keeps : (l : Logger) → waiting_fit l ≡ true → Keeps l (mark_closed l) []
unfolding mark_closed
mark_closed-Keeps l w = record { same_order = sym (append-nil (in_order l)); fit = w }

close_channel-Keeps : (l : Logger) → waiting_fit l ≡ true → Keeps l (close_channel l) []
unfolding close_channel
close_channel-Keeps l w = elim (Bool-cases (l.closed && not l.channel_closed)) [
  | inl closes ↦ simp closes (record { same_order = sym (append-nil (in_order l)); fit = w })
  | inr stays ↦ simp stays (Keeps-refl l w)
]

step-Keeps :
    (l l' : Logger) (a : Action)
    → step l a ≡ some l'
    → IsUp a
    → all_fit (accepted l a) ≡ true
    → waiting_fit l ≡ true
    → Keeps l l' (accepted l a)
unfolding step
step-Keeps l l' (checked e now fresh) h up f w =
    subst (λ m. Keeps l m []) (some-injective _ _ h) (check-Keeps l e now fresh w)
step-Keeps l l' (sent n) h up f w =
    send_picked-Keeps l l' (pick n l.sending) (unfold send_next in h) f w
step-Keeps l l' (received b) h up f w =
    subst (λ m. Keeps l m []) (some-injective _ _ h) (rw up (receive-Keeps l w))
step-Keeps l l' (ticked b) h up f w =
    subst (λ m. Keeps l m []) (some-injective _ _ h) (rw up (tick-Keeps l w))
step-Keeps l l' marked_closed h up f w =
    subst (λ m. Keeps l m []) (some-injective _ _ h) (mark_closed-Keeps l w)
step-Keeps l l' channel_closing h up f w =
    subst (λ m. Keeps l m []) (some-injective _ _ h) (close_channel-Keeps l w)

run-Keeps :
    (l l' : Logger) (actions : List Action)
    → run l actions ≡ some l'
    → All IsUp actions
    → all_fit (accepted_by l actions) ≡ true
    → waiting_fit l ≡ true
    → Keeps l l' (accepted_by l actions)
unfolding run
run-Keeps l l' [] h up f w = subst (λ m. Keeps l m []) (some-injective _ _ h) (Keeps-refl l w)
run-Keeps l l' (a ∷ actions) h (up, ups) f w = elim (Option-cases (step l a)) [
  | inl panics ↦ absurd (ground arith)
  | inr (m, e) ↦
      let fits_both : (all_fit (accepted l a) && all_fit (accepted_by m actions)) ≡ true =
        rw (← all_fit-append) (simp e at f) in
      let k = step-Keeps l m a e up (ground arith) w in
      let k2 = run-Keeps m l' actions (rw (e, run) at h) ups (ground arith) k.fit in
      simp e (record {
        same_order =
            k2.same_order
            ∙ ap (λ xs. xs ++ accepted_by m actions) k.same_order
            ∙ append_assoc (in_order l) (accepted l a) (accepted_by m actions);
        fit = k2.fit;
      })
]

-- While the database takes every flush and every accepted event fits its columns, the table, the
-- buffer and the channel together hold what the table held at first and then each accepted event,
-- once and in the order in which the Logs sent them, however the steps are interleaved.
pub run-in_order :
    (stored : List Event) (actions : List Action) (l : Logger)
    → run (new stored) actions ≡ some l
    → All IsUp actions
    → all_fit (accepted_by (new stored) actions) ≡ true
    → in_order l ≡ stored ++ accepted_by (new stored) actions
unfolding new
run-in_order stored actions l h up f =
    (run-Keeps (new stored) l actions h up f refl).same_order
    ∙ ap (λ xs. xs ++ accepted_by (new stored) actions) (append-nil stored)

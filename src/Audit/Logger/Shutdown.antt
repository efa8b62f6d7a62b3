-- ===== src/Audit/Logger/Shutdown.antt =====
-- The end of a logger of internal/audit/audit.go: the steps of `run` after Close.
use cloud_file_server.Base.{
  ℕ, zero, suc, ◌≡◌, sym, ◌∙◌, subst, true, false, List, [], ◌∷◌, length, arith, append-nil,
}
use cloud_file_server.Audit.Event.{Event}
use cloud_file_server.Audit.Logger.{
  Logger, flush, add_to_buf, receive, receive_from, mark_closed, close_channel, close,
}
use cloud_file_server.Audit.Logger.Invariant.{IsValid}
use cloud_file_server.Audit.Logger.Batches.{all_fit-append, flush-stored}
use cloud_file_server.Audit.Logger.Delivery.{in_order, waiting_fit, add_to_buf-Keeps}

-- `n` rounds of `run` in which the channel is read.
abbrev pub receives : ℕ → Logger → Logger
receives zero l = l
receives (suc n) l = receives n (receive true l)

add_to_buf_rest :
    (l : Logger) (e : Event) (channel : List Event)
    → ((add_to_buf true l e channel).channel ≡ channel)
      × ((add_to_buf true l e channel).running ≡ l.running)
      × ((add_to_buf true l e channel).channel_closed ≡ l.channel_closed)
unfolding add_to_buf flush
add_to_buf_rest l e channel = ground arith

receive_cons :
    (l : Logger) (e : Event) (channel : List Event)
    → l.running ≡ true
    → l.channel ≡ e ∷ channel
    → receive true l ≡ add_to_buf true l e channel
unfolding receive receive_from
receive_cons l e channel r c = ground arith

receive_last :
    (l : Logger)
    → l.running ≡ true
    → l.channel_closed ≡ true
    → l.channel ≡ []
    → waiting_fit l ≡ true
    → ((receive true l).running ≡ false) × ((receive true l).stored ≡ in_order l)
unfolding receive receive_from
receive_last l r over c w =
    ground (arith, flush-stored true l, append-nil l.buf, all_fit-append l.buf l.channel)

receives_channel :
    (channel : List Event) (l : Logger)
    → l.channel ≡ channel
    → l.running ≡ true
    → l.channel_closed ≡ true
    → waiting_fit l ≡ true
    → ((receives (suc (length channel)) l).running ≡ false)
      × ((receives (suc (length channel)) l).stored ≡ in_order l)
receives_channel [] l c r over w = receive_last l r over c w
receives_channel (e ∷ channel) l c r over w =
    let k = add_to_buf-Keeps l e channel c w in
    let (c', r', over') = add_to_buf_rest l e channel in
    let (stops, stores) =
      receives_channel channel (add_to_buf true l e channel) c' (r' ∙ r) (over' ∙ over) k.fit in
    subst
      (λ m.
        ((receives (suc (length channel)) m).running ≡ false)
        × ((receives (suc (length channel)) m).stored ≡ in_order l))
      (sym (receive_cons l e channel r c))
      (stops, stores ∙ (k.same_order ∙ append-nil (in_order l)))

close_rest :
    (l : Logger)
    → IsValid l
    → l.closed ≡ false
    → ((close l).channel ≡ l.channel)
      × ((close l).channel_closed ≡ true)
      × ((close l).running ≡ true)
      × ((close l).buf ≡ l.buf)
      × ((close l).stored ≡ l.stored)
unfolding close mark_closed close_channel
close_rest l v h = ground arith

-- Close a running logger while the database works and what waits fits its columns: one reading step
-- for each event of the channel and one more end `run`, and by then the table has every event of
-- the buffer and of the channel, in order.
pub close-receives :
    (l : Logger)
    → IsValid l
    → l.closed ≡ false
    → waiting_fit l ≡ true
    → ((receives (suc (length l.channel)) (close l)).running ≡ false)
      × ((receives (suc (length l.channel)) (close l)).stored ≡ in_order l)
close-receives l v h w =
    let (c, over, r, b, stored) = close_rest l v h in
    let (stops, stores) = receives_channel l.channel (close l) c r over (rw (c, b) w) in
    (stops, stores ∙ rw (c, b, stored))

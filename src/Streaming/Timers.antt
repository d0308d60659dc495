-- ===== src/Streaming/Timers.antt =====
-- src/client/api/streaming.cc: the handlers of the timers that resend packets and send
-- acknowledgements.
use xi2p_old.Base.{ℕ, zero, suc, ◌+◌, ◌*◌, ◌/◌, Bool, false, List, [], ◌∷◌, ltb, leb, if◌then◌else◌}
use xi2p_old.Streaming.{
  max_num_resend_attempts, min_window_size, initial_rto, Packet, is_negative, reset,
  schedule_resend, pick_lease, pick_tunnel, Stream, emit, Owner,
}
use xi2p_old.Streaming.Sending.{is_open, close, send_packets, send_quick_ack}

-- The packets whose time has come, and all sent packets with the times of these renewed.
unfoldable pub is_due : ℕ → ℕ → Packet → Bool
is_due ts rto p = leb (p.send_time + rto) ts

unfoldable pub due_packets : ℕ → ℕ → List Packet → List Packet
unfolding is_due
due_packets ts rto [] = []
due_packets ts rto (p ∷ ps) =
    let rest = due_packets ts rto ps in
    if is_due ts rto p then record p { send_time = ts } ∷ rest else rest

unfoldable pub renewed : ℕ → ℕ → List Packet → List Packet
unfolding is_due
renewed ts rto [] = []
renewed ts rto (p ∷ ps) =
    (if is_due ts rto p then record p { send_time = ts } else p) ∷ renewed ts rto ps

-- The number of attempts decides what is tried next.
unfoldable pub try_other : ℕ → Stream → Stream
unfolding emit
try_other (suc zero) s = record s {
  window_size =
      if ltb (s.window_size / 2) min_window_size then min_window_size else s.window_size / 2;
}
try_other (suc (suc zero)) s = emit pick_lease (record s { rto = initial_rto })
try_other (suc (suc (suc zero))) s = emit pick_tunnel s
try_other (suc (suc (suc (suc zero)))) s = emit pick_lease s
try_other _ s = s

unfoldable pub resend : List Packet → Stream → Stream
unfolding try_other
resend [] s = s
resend (p ∷ ps) s =
    let attempts = suc s.num_resend_attempts in
    send_packets (p ∷ ps)
      (try_other attempts (record s { num_resend_attempts = attempts; rto = s.rto * 2 }))

unfoldable pub handle_resend_timer : Bool → Owner → ℕ → Stream → Stream
unfolding emit
handle_resend_timer aborted o ts s =
    let s' =
      resend (due_packets ts s.rto s.sent_packets)
        (record s { sent_packets = renewed ts s.rto s.sent_packets }) in
    if aborted
    then s
    else if leb max_num_resend_attempts s.num_resend_attempts
    then close o (record s { status = reset })
    else emit (schedule_resend s'.rto) s'

unfoldable pub handle_ack_send_timer : Owner → Stream → Stream
unfolding close send_quick_ack is_open is_negative
handle_ack_send_timer o s =
    if s.is_ack_send_scheduled
    then if is_negative s.last_received
      then close o (record s { status = reset })
      else record (if is_open s.status then send_quick_ack s else s) {
        is_ack_send_scheduled = false;
      }
    else s

-- ===== src/Ssu/Data/Timers.antt =====
-- src/core/router/transports/ssu/data.cc: the handlers of the three timers; `aborted` is the error code
-- operation_aborted, of a timer that was cancelled.
use xi2p_old.Base.{
  ℕ, suc, ◌+◌, ◌*◌, ◌%◌, ◌^◌, ◌++◌, Bool, Option, none, some, List, [], ◌∷◌, ltb, leb,
  if◌then◌else◌,
}
use xi2p_old.Ssu.Data.{
  Fragment, IncompleteMessage, SentMessage, Event, send, schedule_resend, schedule_cleanup, SsuData,
  emit, resend_interval, max_resends, cleanup_timeout,
}

-- The packets that a message sends again: those of its fragments that are not acknowledged.
unfoldable pub resends : List (Option Fragment) → List Event
resends [] = []
resends (none ∷ fs) = resends fs
resends (some f ∷ fs) = send f.buffer f.len ∷ resends fs

-- A message whose time has come and that may still be sent again.
unfoldable pub resent : SentMessage → SentMessage
resent m = record m {
  num_resends = suc m.num_resends;
  next_resend_time = (m.next_resend_time + suc m.num_resends * resend_interval) % 2 ^ 32;
}

-- The loop over the sent messages: those that remain, and the packets sent.
unfoldable pub resend_all : ℕ → List (ℕ × SentMessage) → List (ℕ × SentMessage) × List Event
resend_all now [] = ([], [])
resend_all now ((msg_id, m) ∷ ms) =
    let (kept, sent) = resend_all now ms in
    if leb m.next_resend_time now
    then if ltb m.num_resends max_resends
      then ((msg_id, resent m) ∷ kept, resends m.fragments ++ sent)
      else (kept, sent)
    else ((msg_id, m) ∷ kept, sent)

unfoldable pub handle_resend_timer : Bool → ℕ → SsuData → SsuData
handle_resend_timer aborted now d =
    let (kept, sent) = resend_all now d.sent_messages in
    if aborted
    then d
    else emit schedule_resend (record d { sent_messages = kept; events = d.events ++ sent })

unfoldable pub handle_decay_timer : Bool → SsuData → SsuData
handle_decay_timer aborted d = if aborted then d else record d { received_messages = [] }

unfoldable pub drop_stale : ℕ → List (ℕ × IncompleteMessage) → List (ℕ × IncompleteMessage)
drop_stale now [] = []
drop_stale now ((msg_id, m) ∷ ms) =
    if ltb ((m.last_fragment_insert_time + cleanup_timeout) % 2 ^ 32) now
    then drop_stale now ms
    else (msg_id, m) ∷ drop_stale now ms

unfoldable pub handle_cleanup_timer : Bool → ℕ → SsuData → SsuData
handle_cleanup_timer aborted now d =
    if aborted
    then d
    else emit schedule_cleanup
        (record d { incomplete_messages = drop_stale now d.incomplete_messages })

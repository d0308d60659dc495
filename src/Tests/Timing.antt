-- ===== src/Tests/Timing.antt =====
-- src/core/router/transports/ssu/data.cc: timers and sizes.
use xi2p_old.Base.{lookup, ◌≤◌, ◌≡◌, refl, true, false, none, some, [], ◌∷◌, length, ok, arith}
use xi2p_old.I2np.{new_buffer, append_data}
use xi2p_old.Ssu.Data.{SsuData, SentMessage, Fragment, IncompleteMessage}
use xi2p_old.Ssu.Data.Incoming.{
  new_incomplete, receive_fragment, attach_next_fragment, attach_data, attach_saved,
}
use xi2p_old.Ssu.Data.Timers.{drop_stale}
use xi2p_old.Ssu.Data.Resending.{allowance, resend_runs, resend_runs-allowance}
use xi2p_old.Ssu.Data.Resending.GivingUp.{fire, fire-given_up}
use xi2p_old.Ssu.Data.Limits.{receive_fragment-drop_stale}

abbrev fragment : Fragment
fragment = record { fragment_num = 0; len = 48; is_last = false; buffer = 4 ∷ 1 ∷ [] }

abbrev waiting : SentMessage
waiting = record { fragments = some fragment ∷ none ∷ []; next_resend_time = 10; num_resends = 1 }

abbrev session : SsuData
session = record {
  incomplete_messages = [];
  sent_messages = (5, waiting) ∷ [];
  received_messages = [];
  max_packet_size = 1456;
  packet_size = 1456;
  established = true;
  events = [];
}

resend_runs-allowance_example :
    length (resend_runs (10 ∷ 20 ∷ 90 ∷ []) session.sent_messages) ≤ allowance session.sent_messages
resend_runs-allowance_example = resend_runs-allowance (10 ∷ 20 ∷ 90 ∷ []) session.sent_messages

abbrev begun : IncompleteMessage
begun = record {
  msg = record (new_buffer 4096) {
    bytes = 0 ∷ 0 ∷ 0 ∷ 0 ∷ 0 ∷ 0 ∷ 0 ∷ 0 ∷ 0 ∷ 0 ∷ 0 ∷ 0 ∷ 0 ∷ 4 ∷ 1 ∷ [];
  };
  next_fragment_num = 1;
  last_fragment_insert_time = 0;
  saved_fragments = [];
}

fragment_begins : receive_fragment 1000 fragment new_incomplete ≡ ok (false, begun)
unfolding receive_fragment attach_next_fragment attach_data attach_saved new_incomplete append_data
    new_buffer
fragment_begins = refl

receive_fragment-drop_stale_example : drop_stale 1001 ((8, begun) ∷ []) ≡ []
receive_fragment-drop_stale_example =
    receive_fragment-drop_stale 1000 1001 8 fragment begun refl refl fragment_begins (omega arith)

message_sent : lookup 5 session.sent_messages ≡ some waiting
unfolding lookup
message_sent = refl

no_more : lookup {A = SentMessage} 5 [] ≡ none
unfolding lookup
no_more = refl

-- The first five times send again, the sixth gives up.
fire-given_up_example :
    lookup 5 (fire (60 ∷ 63 ∷ 70 ∷ 79 ∷ 91 ∷ 106 ∷ []) session).sent_messages ≡ none
fire-given_up_example =
    fire-given_up (60 ∷ 63 ∷ 70 ∷ 79 ∷ 91 ∷ 106 ∷ []) 5 waiting session (no_more, tt) message_sent
      (omega arith)
      (omega arith, (omega arith, (omega arith, (omega arith, (omega arith, (omega arith, tt))))))

-- ===== src/Ssu/Data/Incoming.antt =====
-- src/core/router/transports/ssu/data.cc: AttachNextFragment, and what ProcessFragments does with one
-- fragment of one incomplete message.
use xi2p_old.Base.{
  ℕ, suc, ◌+◌, ◌-◌, ◌%◌, ◌^◌, ◌==◌, Bool, true, false, Option, none, some, List, [], ◌∷◌, length,
  take, ltb, if◌then◌else◌, Result, ok, err,
}
use xi2p_old.I2np.{
  Message, new_buffer, assign, append_data, i2np_max_message_size, i2np_max_short_message_size,
  i2np_short_header_size,
}
use xi2p_old.Ssu.Data.{Fragment, IncompleteMessage}

-- The message after a full-size buffer has taken its place.
unfoldable pub enlarge : Message → Result Message
enlarge msg = assign (new_buffer i2np_max_message_size) msg

-- AttachNextFragment on `msg`.
unfoldable pub attach_data : List ℕ → Message → Result Message
attach_data fragment msg =
    if ltb msg.max_len (length msg.bytes + length fragment)
    then elim (enlarge msg) [ ok m ↦ append_data m fragment | err e ↦ err e ]
    else append_data msg fragment

unfoldable pub attach_next_fragment : List ℕ → IncompleteMessage → Result IncompleteMessage
attach_next_fragment fragment m = elim (attach_data fragment m.msg) [
  | ok msg ↦ ok (record m { msg = msg; next_fragment_num = suc m.next_fragment_num })
  | err e ↦ err e
]

-- NewI2NPShortMessage, its length cut by a short header.
unfoldable pub new_incomplete : IncompleteMessage
new_incomplete =
    let short = new_buffer i2np_max_short_message_size in
    record {
      msg = record short { bytes = take (length short.bytes - i2np_short_header_size) short.bytes };
      next_fragment_num = 0;
      last_fragment_insert_time = 0;
      saved_fragments = [];
    }

-- The insertion into the set of saved fragments; `none` when the number is there already.
unfoldable pub insert_saved : Fragment → List Fragment → Option (List Fragment)
insert_saved f [] = some (f ∷ [])
insert_saved f (g ∷ gs) =
    if ltb f.fragment_num g.fragment_num
    then some (f ∷ g ∷ gs)
    else if f.fragment_num == g.fragment_num
    then none
    else elim (insert_saved f gs) [ some hs ↦ some (g ∷ hs) | none ↦ none ]

-- The loop over the saved fragments, with is_last on the way in and out.
unfoldable pub attach_saved :
    List Fragment → Bool → IncompleteMessage → Result (Bool × IncompleteMessage)
attach_saved [] is_last m = ok (is_last, record m { saved_fragments = [] })
attach_saved (f ∷ fs) is_last m =
    if f.fragment_num == m.next_fragment_num
    then elim (attach_next_fragment f.buffer m) [
      | ok m' ↦ attach_saved fs f.is_last m'
      | err e ↦ err e
    ]
    else ok (is_last, record m { saved_fragments = f ∷ fs })

-- A fragment that is ahead of the expected one.
unfoldable pub save_fragment : ℕ → Fragment → IncompleteMessage → IncompleteMessage
save_fragment now f m = elim (insert_saved f m.saved_fragments) [
  | some fs ↦ record m { saved_fragments = fs; last_fragment_insert_time = now % 2 ^ 32 }
  | none ↦ m
]

-- Whether the message is complete, and the message, after one received fragment.
unfoldable pub receive_fragment :
    ℕ → Fragment → IncompleteMessage → Result (Bool × IncompleteMessage)
receive_fragment now f m =
    if f.fragment_num == m.next_fragment_num
    then elim (attach_next_fragment f.buffer m) [
      | ok m' ↦ if f.is_last then ok (true, m') else attach_saved m'.saved_fragments false m'
      | err e ↦ err e
    ]
    else if ltb f.fragment_num m.next_fragment_num
    then ok (false, m)
    else ok (false, save_fragment now f m)

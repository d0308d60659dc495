-- ===== src/Ssu/Data/Fragmentation/Wire.antt =====
-- src/core/router/transports/ssu/data.cc: a packet of Send, read by ProcessMessage.
use xi2p_old.Base.{
  ℕ, ◌+◌, ◌*◌, ◌/◌, ◌%◌, ◌^◌, ◌<◌, ◌≡◌, refl, ◌∙◌, Bool, true, false, List, ◌∷◌, ◌++◌, leb, sym,
  length, of_bool, bit, pure, arith,
}
use xi2p_old.ByteStream.{to_big}
use xi2p_old.Ssu.Data.{SsuData}
use xi2p_old.Ssu.Data.Outgoing.{fragment_info, fragment_payload}
use xi2p_old.Ssu.Data.Acks.{raw_bytes, raw, when}
use xi2p_old.Ssu.Data.Process.{
  process_fragment_at, process_sized, process_each, process_fragments, process_message,
}
use xi2p_old.Ssu.Data.Fragmentation.Info.{fragment_info_lem}
use xi2p_old.Ssu.Data.Reading.{raw_bytes-append, bind_ok, then_ok, then_pure, raw-to_big}

-- The parts of a fragment info, read back.
info_parts :
    (info fragment_num size : ℕ) (is_last : Bool)
    → size < 2 ^ 14
    → info ≡ fragment_num * 2 ^ 17 + of_bool is_last * 2 ^ 16 + size
    → (info % 2 ^ 14 ≡ size) × (info / 2 ^ 17 ≡ fragment_num) × (bit 16 info ≡ is_last)
info_parts info num size true h e = (omega arith, omega arith, ground arith)
info_parts info num size false h e = (omega arith, omega arith, ground arith)

process_sized-append :
    (now msg_id info fragment_num : ℕ) (is_last : Bool) (bytes padding : List ℕ) (d : SsuData)
    → length bytes < 2 ^ 14
    → info ≡ fragment_num * 2 ^ 17 + of_bool is_last * 2 ^ 16 + length bytes
    → process_sized now msg_id info (bytes ++ padding, d)
      ≡ process_fragment_at now msg_id
          (record {
            fragment_num = fragment_num;
            len = length bytes;
            is_last = is_last;
            buffer = bytes;
          })
          (padding, d)
unfolding process_sized
process_sized-append now msg_id info num is_last bytes padding d h e =
    let (a, b, c) = info_parts info num (length bytes) is_last h e in
    bind_ok (raw_bytes (info % 2 ^ 14)) _ (raw_bytes-append _ bytes padding d (sym a))
    ∙ rw (a, b, c) refl

-- A data packet that Send makes of a piece of less than 1456 bytes, with a message id of 32 bits, a
-- fragment number below 128 and any padding behind it, is read as that one fragment, with its
-- number, its last mark and its bytes; the padding is left over.
pub process_message-fragment_payload :
    (now msg_id fragment_num : ℕ) (is_last : Bool) (bytes padding : List ℕ) (d : SsuData)
    → msg_id < 2 ^ 32
    → fragment_num < 128
    → length bytes < 1456
    → process_message now (fragment_payload msg_id fragment_num is_last bytes ++ padding, d)
      ≡ process_fragment_at now msg_id
          (record {
            fragment_num = fragment_num;
            len = length bytes;
            is_last = is_last;
            buffer = bytes;
          })
          (padding, d)
unfolding fragment_payload process_message process_fragments process_each when pure
process_message-fragment_payload now msg_id num is_last bytes padding d p q r =
    let info = fragment_info num is_last (length bytes) in
    let i : info ≡ num * 2 ^ 17 + of_bool is_last * 2 ^ 16 + length bytes =
      fragment_info_lem num (length bytes) is_last q (omega arith) in
    let small : leb 1456 (info % 2 ^ 14) ≡ false =
      ground (arith, (info_parts info num (length bytes) is_last (omega arith) i).1) in
    let after_info = bytes ++ padding in
    let after_id = to_big 3 info ++ after_info in
    bind_ok (raw 1) _ (raw-to_big 1 4 (1 ∷ (to_big 4 msg_id ++ after_id)) d (omega arith))
    ∙ then_ok _ _ refl
    ∙ then_ok _ _ refl
    ∙ bind_ok (raw 1) _ (raw-to_big 1 1 (to_big 4 msg_id ++ after_id) d (omega arith))
    ∙ bind_ok (raw 4) _ (raw-to_big 4 msg_id after_id d (omega arith))
    ∙ bind_ok (raw 3) _ (raw-to_big 3 info after_info d (ground (arith, i)))
    ∙ rw small (
        then_pure (process_sized now msg_id info) (after_info, d)
        ∙ process_sized-append now msg_id info num is_last bytes padding d (omega arith) i)

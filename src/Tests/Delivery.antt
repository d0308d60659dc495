-- ===== src/Tests/Delivery.antt =====
-- src/core/router/transports/ssu/data.cc: a message of three fragments that come out of order.
use xi2p_old.Base.{
  lookup, ℕ, zero, suc, ◌<◌, ◌≡◌, ◌⊎◌, inl, inr, refl, Bool, true, false, none, List, [], ◌∷◌, ◌++◌,
  length, replicate, ok, arith,
}
use xi2p_old.I2np.{Message, from_ssu}
use xi2p_old.Ssu.Data.{IncompleteMessage, SsuData}
use xi2p_old.Ssu.Data.Incoming.{new_incomplete}
use xi2p_old.Ssu.Data.Process.{deliver}
use xi2p_old.Ssu.Data.Reassembly.{piece, join, receive_all, arrived}
use xi2p_old.Ssu.Data.Reassembly.Run.{receive_all-new_incomplete, receive_all_sound}
use xi2p_old.Ssu.Data.Delivery.{receive_packets, SameSession}
use xi2p_old.Ssu.Data.Delivery.Whole.{receive_packets-deliver}

abbrev pieces : List (List ℕ)
pieces = (1 ∷ 2 ∷ []) ∷ (3 ∷ []) ∷ (4 ∷ 5 ∷ []) ∷ []

abbrev early : List (ℕ × ℕ)
early = (7, 2) ∷ (8, 0) ∷ (8, 0) ∷ []

abbrev idle : SsuData
idle = record {
  incomplete_messages = [];
  sent_messages = [];
  received_messages = [];
  max_packet_size = 1456;
  packet_size = 1456;
  established = true;
  events = [];
}

abbrev zeros : ℕ → List ℕ
zeros i = replicate 3 0

small_pieces : (j : ℕ) → length (piece pieces j) < 1456
unfolding piece
small_pieces zero = omega arith
small_pieces (suc zero) = omega arith
small_pieces (suc (suc zero)) = omega arith
small_pieces (suc (suc (suc j))) = omega arith

others_arrived : (j : ℕ) → j < length pieces → (arrived j early ≡ true) ⊎ (j ≡ 1)
unfolding arrived
others_arrived zero h = inl refl
others_arrived (suc zero) h = inr refl
others_arrived (suc (suc zero)) h = inl refl
others_arrived (suc (suc (suc j))) h = absurd (omega arith)

all_arrived : (j : ℕ) → j < length pieces → arrived j (early ++ (9, 1) ∷ []) ≡ true
unfolding arrived
all_arrived zero h = refl
all_arrived (suc zero) h = refl
all_arrived (suc (suc zero)) h = refl
all_arrived (suc (suc (suc j))) h = absurd (omega arith)

whole_size : length (join pieces) ≡ 5
unfolding join
whole_size = refl

not_yet : arrived 1 early ≡ false
unfolding arrived
not_yet = refl

no_fragments : lookup 77 idle.incomplete_messages ≡ none
unfolding lookup
no_fragments = refl

receive_packets-deliver_example :
    (e : SsuData) × (msg : Message) × (receive_packets zeros 77 pieces (early ++ (9, 1) ∷ []) idle
      ≡ ok (deliver 77 (from_ssu 77 msg) e))
    × (msg.bytes ≡ replicate 13 0 ++ join pieces)
    × SameSession idle e
receive_packets-deliver_example =
    receive_packets-deliver zeros 77 pieces early 9 1 idle (omega arith) (omega arith) small_pieces
      (omega (arith, whole_size)) no_fragments (omega arith, (omega arith, (omega arith, tt)))
      (omega arith) not_yet others_arrived

receive_all-new_incomplete_example :
    (m : IncompleteMessage) × (receive_all pieces (early ++ (9, 1) ∷ []) new_incomplete
      ≡ ok (true, m))
    × (m.msg.bytes ≡ replicate 13 0 ++ join pieces)
receive_all-new_incomplete_example =
    receive_all-new_incomplete pieces (early ++ (9, 1) ∷ []) (omega arith)
      (omega (arith, whole_size)) (omega arith, (omega arith, (omega arith, (omega arith, tt))))
      all_arrived

receive_all_sound_example :
    (done : Bool) × (m : IncompleteMessage) × (receive_all pieces early new_incomplete
      ≡ ok (done, m))
    × ((done ≡ false) ⊎ ((arrived 1 early ≡ true) × (m.msg.bytes ≡ replicate 13 0 ++ join pieces)))
receive_all_sound_example =
    receive_all_sound pieces early 1 (omega arith) (omega (arith, whole_size))
      (omega arith, (omega arith, (omega arith, tt))) (omega arith)

-- ===== src/Tests/Tunnel.antt =====
-- src/core/router/tunnel: messages through a gateway and an endpoint, with a stand-in for the crypto
-- library.
use xi2p_old.Base.{
  ℕ, ◌+◌, ◌^◌, ◌≤◌, ◌<◌, ◌≡◌, ◌≢◌, refl, inl, inr, true, false, none, some, List, [], ◌∷◌, ◌++◌,
  length, take, replicate, length-replicate, length-take, length-append, ok, err, fault, arith,
}
use xi2p_old.ByteStream.{read_at}
use xi2p_old.I2np.{Message, get_length, get_buffer}
use xi2p_old.Tunnel.{Crypto, Target, TunnelMessageBlock, to_router, unknown}
use xi2p_old.Tunnel.Gateway.{
  GatewayBuffer, Gateway, new_gateway_buffer, message_id, instructions, put_i2np_msg, send_buffer,
  send_tunnel_data_msg, frame,
}
use xi2p_old.Tunnel.Gateway.Groups.{Packs, Fits}
use xi2p_old.Tunnel.Gateway.Putting.{IsBlock, Puts, full_len}
use xi2p_old.Tunnel.Gateway.Whole.{put_i2np_msg-Puts}
use xi2p_old.Tunnel.Gateway.Unfinished.{put_i2np_msg-unfinished}
use xi2p_old.Tunnel.Pieces.{
  Piece, whole, begin, encode_all, head, data_of, idle, one_piece, stop, step,
}
use xi2p_old.Tunnel.Endpoint.{
  Endpoint, new_endpoint, route, same, handle_out_of_sequence, handle_follow_on,
}
use xi2p_old.Tunnel.Endpoint.Received.{read_header, handle_decrypted}
use xi2p_old.Tunnel.Endpoint.Headers.{header_of, read_header-head}
use xi2p_old.Tunnel.Endpoint.Joining.{Holding}
use xi2p_old.Tunnel.Endpoint.Phases.{Represents, Handled, waiting, contents, delivered}
use xi2p_old.Tunnel.Endpoint.Frames.{Parts, received, handle_decrypted-refused}
use xi2p_old.Tunnel.Endpoint.Received.{process_fragments}
use xi2p_old.Tunnel.Endpoint.Termination.{process_fragments-turns}
use xi2p_old.Tunnel.Endpoint.Early.{
  saved, after_last, out_last, handle_out_of_sequence-fault, handle_follow_on-swapped,
}
use xi2p_old.Tunnel.Transfer.{
  length-frame, map-non_zero, handle_all, count, tunnel_data_msg, handle_decrypted-Run,
}
use xi2p_old.Tunnel.Transfer.Sending.{IsReady, put_all, messages}
use xi2p_old.Tunnel.Transfer.Delivery.{send_tunnel_data_msg-handle_all, put_all-handle_all}

abbrev pub ours : List ℕ
ours = replicate 32 9

-- A digest of 32 bytes, random bytes of any number, and the low end of any range.
length-digest : (bytes : List ℕ) → length (take 32 (bytes ++ replicate 32 3)) ≡ 32
length-digest bytes =
    omega (arith, length-take 32 (bytes ++ replicate 32 3), length-append bytes (replicate 32 3))

pub crypto : Crypto
crypto = record {
  sha256 = λ bytes. take 32 (bytes ++ replicate 32 3);
  rand_bytes = λ draw n. replicate n draw;
  rand_in_range = λ draw low high. low;
  length-sha256 = length-digest;
  length-rand_bytes = λ draw n. length-replicate {A = ℕ} n draw;
  rand_in_range-bound = λ draw low high h. h;
}

abbrev pub target : Target
target = record { delivery_type = to_router; hash = replicate 32 8; tunnel_id = 0 }

target-IsTarget :
    (target.delivery_type ≢ unknown) × (length target.hash ≡ 32) × (target.tunnel_id < 2 ^ 32)
target-IsTarget = ((λ h. cc), refl, omega arith)

-- A message of n + 5 bytes.
abbrev pub message : ℕ → Message
message n = record {
  bytes = 7 ∷ 7 ∷ 7 ∷ 7 ∷ 7 ∷ 7 ∷ 7 ∷ replicate n 7;
  offset = 2;
  max_len = 32768;
  capacity = 32784;
}

abbrev block : ℕ → TunnelMessageBlock
block n = record { target = target; data_ = message n }

pub block-IsBlock : (n : ℕ) → n < 32000 → IsBlock (block n)
unfolding message_id get_length
block-IsBlock n h = (target-IsTarget, omega (arith, length-replicate {A = ℕ} n 7), omega arith)

full_len-block : (n : ℕ) → full_len (block n) ≡ n + 40
unfolding instructions get_length
full_len-block n = omega (arith, length-replicate {A = ℕ} n 7)

abbrev pub gateway : Gateway
gateway = record { buffer = new_gateway_buffer crypto 5; num_sent_bytes = 0; sent = [] }

pub gateway-IsReady : IsReady gateway.buffer
unfolding new_gateway_buffer
gateway-IsReady =
    (refl, refl, map-non_zero (crypto.rand_bytes 0 1003) (crypto.length-rand_bytes 0 1003))

abbrev pub endpoint : Endpoint
endpoint = new_endpoint false

pub endpoint-Represents : Represents idle endpoint
unfolding new_endpoint
endpoint-Represents = (refl, refl)

send_tunnel_data_msg-handle_all_example :
    (g' : Gateway) × (frames : List (List ℕ)) × (e' : Endpoint) × (n : ℕ) × (send_tunnel_data_msg
        crypto target
        (some (message 3000))
        gateway
      ≡ some g')
    × (g'.sent ≡ [] ++ frames ∷ [])
    × (handle_all ours crypto frames endpoint ≡ ok (tt, e'))
    × (contents e'.events
        ≡ contents endpoint.events
          ++ route ours endpoint.is_inbound target (get_buffer (message 3000)))
    × Represents idle e'
    × IsReady g'.buffer
    × (g'.num_sent_bytes ≡ 0 + n)
    × (e'.num_received_bytes ≡ endpoint.num_received_bytes + n)
send_tunnel_data_msg-handle_all_example =
    send_tunnel_data_msg-handle_all ours crypto target (message 3000) gateway endpoint
      gateway-IsReady (block-IsBlock 3000 (omega arith)) endpoint-Represents

put_all-handle_all_example :
    (g' : Gateway) × (frames : List (List ℕ)) × (e' : Endpoint) × (put_all crypto
        (block 1200 ∷ block 3000 ∷ [])
        gateway
      ≡ some g')
    × ((send_buffer crypto g').sent ≡ [] ++ frames ∷ [])
    × (handle_all ours crypto frames endpoint ≡ ok (tt, e'))
    × (contents e'.events
        ≡ contents endpoint.events
          ++ delivered ours endpoint.is_inbound (messages crypto (block 1200 ∷ block 3000 ∷ [])))
    × Represents idle e'
    × IsReady (send_buffer crypto g').buffer
put_all-handle_all_example =
    put_all-handle_all ours crypto (block 1200 ∷ block 3000 ∷ []) gateway endpoint gateway-IsReady
      (
        (block-IsBlock 1200 (omega arith), omega (arith, full_len-block 1200)),
        ((block-IsBlock 3000 (omega arith), omega (arith, full_len-block 3000)), tt),
      )
      endpoint-Represents

put_i2np_msg-Puts_example :
    (b' : GatewayBuffer) × (put_i2np_msg crypto 2 (block 3000) gateway.buffer ≡ some b')
    × Puts crypto (block 3000) gateway.buffer b' []
unfolding new_gateway_buffer
put_i2np_msg-Puts_example =
    put_i2np_msg-Puts crypto (block 3000) (block-IsBlock 3000 (omega arith)) gateway.buffer []
      (inl (refl, refl)) (inl refl)

-- A gateway with 100 bytes left in the message in preparation.
abbrev pieces : List Piece
pieces = whole target (replicate 868 1) ∷ []

length-pieces : length (encode_all pieces) ≡ 903
unfolding encode_all head data_of instructions
length-pieces = omega (arith, length-replicate {A = ℕ} 868 1)

abbrev filling : GatewayBuffer
filling = record gateway.buffer { current = some (encode_all pieces); remaining_size = 100 }

put_i2np_msg-unfinished_example :
    (b' : GatewayBuffer) × (d : List ℕ) × (put_i2np_msg crypto 2 (block 200) filling ≡ some b')
    × Packs crypto filling b' pieces (begin target (message_id (message 200)) d ∷ [])
    × (length d + full_len (block 200) ≡ 999 + get_length (message 200))
    × (b'.current ≡ none)
put_i2np_msg-unfinished_example =
    put_i2np_msg-unfinished crypto (block 200) (block-IsBlock 200 (omega arith)) filling pieces
      (refl, omega (arith, length-pieces)) (omega (arith, full_len-block 200))
      (omega (arith, full_len-block 200))

-- A run of one whole message.
abbrev one : List Piece
one = whole target (5 ∷ 6 ∷ []) ∷ []

one-Fits : Fits one
unfolding encode_all head data_of instructions
one-Fits = omega arith

handle_decrypted-Run_example : Handled ours idle ((target, 5 ∷ 6 ∷ []) ∷ []) (count 1028 endpoint) (
    handle_decrypted ours crypto
      (tunnel_data_msg (frame crypto gateway.buffer (encode_all one)))
      endpoint)
handle_decrypted-Run_example =
    handle_decrypted-Run ours crypto gateway.buffer endpoint gateway-IsReady.2
      (step (one_piece target (5 ∷ 6 ∷ []) target-IsTarget (omega arith)) stop) one-Fits
      endpoint-Represents

read_header-head_example :
    read_header (head (whole target (5 ∷ 6 ∷ [])) ++ 5 ∷ 6 ∷ [])
    ≡ header_of (whole target (5 ∷ 6 ∷ []))
read_header-head_example =
    read_header-head (5 ∷ 6 ∷ []) (one_piece target (5 ∷ 6 ∷ []) target-IsTarget (omega arith))

-- Messages with the bytes `d` behind 18 others.
abbrev holds : List ℕ → Message
holds d = record { bytes = replicate 18 0 ++ d; offset = 18; max_len = 4096; capacity = 4112 }

holds-Holding : (d : List ℕ) → length d ≤ 4000 → Holding (holds d) d
holds-Holding d h = record {
  front = replicate 18 0;
  bytes = refl;
  offset = refl;
  max_len = refl;
  low = omega arith;
  room = inl refl;
  fits = omega arith;
}

abbrev msg_id : List ℕ
msg_id = 1 ∷ 2 ∷ 3 ∷ 4 ∷ []

-- An endpoint that waits for the first follow-on fragment.
abbrev waits : Endpoint
waits = record endpoint {
  incomplete_messages = (read_at 4 msg_id, waiting 1 target (holds (1 ∷ []))) ∷ [];
  out_of_sequence_fragments = [];
}

handle_follow_on-swapped_example :
    (e' : Endpoint) × (handle_follow_on ours (read_at 4 msg_id) true 2 (holds (3 ∷ [])) waits
      ≡ ok (tt, e'))
    × Handled ours
        (after_last target msg_id 3 (1 ∷ 2 ∷ 3 ∷ []) true)
        (out_last target (1 ∷ 2 ∷ 3 ∷ []) true)
        waits
        (handle_follow_on ours (read_at 4 msg_id) false 1 (holds (2 ∷ [])) e')
handle_follow_on-swapped_example =
    handle_follow_on-swapped ours target msg_id 1 true (1 ∷ []) (2 ∷ []) (3 ∷ []) waits
      (holds (2 ∷ [])) (holds (3 ∷ []))
      (
        refl,
        record {
          message = holds (1 ∷ []);
          entry = refl;
          holding = holds-Holding (1 ∷ []) (omega arith);
        },
      )
      (holds-Holding (2 ∷ []) (omega arith)) (holds-Holding (3 ∷ []) (omega arith)) (omega arith)
      (omega arith) (omega arith)

-- A message of almost the largest size, with one more fragment saved.
abbrev large : Message
large = record { bytes = 0 ∷ 0 ∷ replicate 32782 1; offset = 2; max_len = 4096; capacity = 32784 }

large-Holding : Holding large (replicate 32782 1)
large-Holding = record {
  front = 0 ∷ 0 ∷ [];
  bytes = refl;
  offset = refl;
  max_len = refl;
  low = omega arith;
  room = inr (refl, refl);
  fits = omega (arith, length-replicate {A = ℕ} 32782 1);
}

abbrev overfull : Endpoint
overfull = record endpoint {
  incomplete_messages = (9, waiting 3 target large) ∷ [];
  out_of_sequence_fragments = (9, saved 3 true (holds (2 ∷ []))) ∷ [];
}

handle_out_of_sequence-fault_example :
    handle_out_of_sequence ours 9 (waiting 3 target large) overfull ≡ err fault
handle_out_of_sequence-fault_example =
    handle_out_of_sequence-fault ours 9 (waiting 3 target large) (replicate 32782 1) (2 ∷ []) true
      (holds (2 ∷ [])) overfull refl large-Holding refl (holds-Holding (2 ∷ []) (omega arith))
      (omega (arith, length-replicate {A = ℕ} 32782 1))

-- A tunnel data message whose checksum is not that of its payload.
damaged :
    Parts
      (replicate 18 0)
      (0 ∷ 0 ∷ 0 ∷ 5 ∷ [])
      (replicate 16 1)
      (1 ∷ 1 ∷ 1 ∷ 1 ∷ [])
      []
      (replicate 1003 0)
damaged = record {
  header = refl;
  tunnel_id = refl;
  vector = refl;
  sum = refl;
  non_zero = tt;
  total = omega (arith, length-replicate {A = ℕ} 1003 0);
}

handle_decrypted-refused_example :
    handle_decrypted ours crypto (received 4096 damaged) endpoint ≡ ok (tt, count 1028 endpoint)
unfolding crypto same
handle_decrypted-refused_example = handle_decrypted-refused 4096 damaged ours crypto endpoint refl

length-frame_example : length (frame crypto gateway.buffer (1 ∷ 2 ∷ 3 ∷ [])) ≡ 1028
length-frame_example =
    length-frame crypto gateway.buffer gateway-IsReady.2 (1 ∷ 2 ∷ 3 ∷ []) (omega arith)

-- Four fragments that announce no bytes.
process_fragments-turns_example :
    process_fragments ours 1000 (replicate 12 0) 12 0 (received 4096 damaged) endpoint
    ≡ process_fragments ours 12 (replicate 12 0) 12 0 (received 4096 damaged) endpoint
process_fragments-turns_example =
    process_fragments-turns ours 12 1000 (replicate 12 0) 12 0 (received 4096 damaged) endpoint
      (omega arith) (omega arith)

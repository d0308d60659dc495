-- ===== src/Lib.antt =====
-- xi2p is a router of the I2P network in C++. Its transports exchange packets with other routers and
-- hand I2NP messages to the router and to its tunnels; the client side stands on top of these. This
-- library models three parts: the one that turns messages into packets of the transport SSU and
-- packets into messages, the two ends of a tunnel, which cut messages into tunnel data messages and
-- put them together again, and the streams of the client side, which carry bytes in order over the
-- tunnels.
--
-- Parts, and how they interact:
--
-- ByteStream is src/core/util/byte_stream.h and byte_stream.cc. Input and Output are InputByteStream
-- and OutputByteStream; a method that may throw is a Method, a function from the state of the stream
-- to a Result. The children are about reads and writes (Bounds), big-endian words (Words), and readers
-- and writers of longer forms (Codec). A read that is used behind the end of the array is the error
-- `fault`.
--
-- I2np is the message buffer of src/core/router/i2np.h: the bytes up to `len`, the offset, max_len and
-- the size of the array. A copy beyond the array is the error `fault`, which stands for undefined
-- behaviour and not for an exception.
--
-- Identity is src/core/router/identity.h and identity.cc: IdentityEx, FromBuffer, ToBuffer and the
-- signature length. Identity.Wire is about the two together.
--
-- Ssu.Header, Ssu.Packet, Ssu.Parser and Ssu.Builder are src/core/router/transports/ssu/packet.h and
-- packet.cc: the header, the nine payloads with their checked setters and sizes, SSUPacketParser and
-- SSUPacketBuilder. A pointer of the source is an Option of the bytes behind it. Ssu.RoundTrip puts
-- the builder and the parser together.
--
-- Ssu.Data is src/core/router/transports/ssu/data.h and data.cc, SSUData of one session: Incoming is
-- AttachNextFragment and the treatment of one fragment in ProcessFragments, Process is the rest of
-- ProcessFragments and ProcessMessage, Outgoing is AdjustPacketSize, Send, SendMsgACK and
-- SendFragmentACK, Acks is ProcessACKs, and Timers the three timer handlers. The maps are association
-- lists in the order of their keys, and the calls of the session, the handler and the timers are
-- appended to a list of events. Reading, Reassembly, Fragmentation, Delivery, Resending
-- and Limits are about what these do.
--
-- Tunnel is src/core/router/tunnel. Tunnel.Gateway is gateway.h and gateway.cc, TunnelGatewayBuffer
-- and TunnelGateway: the message in preparation is the list of its payload bytes, a completed one its
-- 1028 bytes, before encryption. Tunnel.Endpoint is endpoint.h and endpoint.cc, TunnelEndpoint: its
-- two maps, and HandleDecryptedTunnelDataMsg in Tunnel.Endpoint.Received, on the array behind the
-- received message. SHA-256 and the random numbers are the fields of the interface Crypto, with the
-- lengths and the bound that their documentation gives. What the endpoint hands on is a list of
-- events. Tunnel.Pieces says what a tunnel carries without the packing, as phases and steps between
-- them; the children of Gateway and Endpoint relate the code to these, and Tunnel.Transfer puts the
-- two together. A message between them is as CreateEmptyTunnelDataMsg in src/core/router/i2np.cc makes
-- it, with the bytes that the gateway completed.
--
-- Tunnel.Hops is Tunnel::EncryptTunnelMsg in impl.cc and transit.cc: the layers of encryption that the
-- owner of an outbound tunnel puts on a tunnel data message, and the participants and the endpoint
-- that take one off each. Tunnel.Cipher is their cipher, src/core/crypto/impl/cryptopp/tunnel.cc with
-- the CBC mode of aes.cc: the IV encrypted twice, and the 63 chained blocks between, in the branch
-- without the processor's AES instructions. AES on one block, which is Crypto++'s, is the interface
-- Aes, with the law that encryption undoes decryption.
--
-- Streaming is src/client/api/streaming.h and streaming.cc: Packet, and the members of Stream as a
-- record. Streaming.Sending is SendBuffer, SendQuickAck, SendClose, SendPacket, SendPackets, Close,
-- Terminate, Send and AsyncSend; Streaming.Receiving is HandleNextPacket, ProcessPacket, ProcessAck,
-- SavePacket, ConcatenatePackets and ReadSome; Streaming.Timers is HandleResendTimer and
-- HandleAckSendTimer. A packet is the bytes of its array with its offset and its length; a read
-- outside the array is `fault`. The sets of packets are lists in the order of their numbers, and a
-- signed 32-bit number is its bit pattern. What a stream asks of the destination, the timers and the
-- application is a list of events. The identity that signs and the check of signatures are the
-- interface Owner, and whether SendPackets finds a lease set, a tunnel and a lease is a field of the
-- stream. The byte of the resend delay that two functions leave uninitialised is 0. Keeping and Frames
-- say what sending leaves as it was, Parts and Pieces what the packets carry, Ordering, Delivery and
-- Transfer how they are put in order, Acks what an acknowledgement says, Faults what wrong packets do,
-- Resending how resending ends, and Window what holds after any of these operations.
--
-- Numbers are unbounded, and the source's width is written out where an operation can leave it. The
-- loops over input are recursions on the bytes or on the announced counts; that of SendBuffer is one
-- on the room in the window. Five have fuel: the bitfields of a parsed data packet, which get the
-- bytes left since each turn reads one, the loop of Send, which gets the length of the message since
-- each turn takes at least a byte, in the same way the loop over follow-on fragments of PutI2NPMsg,
-- the calls that PutI2NPMsg makes of itself, of which two are given, and the loop over the fragments
-- of a tunnel data message, which gets the bytes up to its end. The clock is an argument.
--
-- Not modelled: the sessions that encrypt, decrypt and send the packets, the SSU server, the transport
-- NTCP, the building and the pools of tunnels, the network database, garlic encryption, the client
-- side but for streams, all other cryptography with the branches in AES instructions, files and
-- logging. Of streams, the choice of a lease, the compression of what is sent, AsyncReceive and the
-- destination that finds the stream of a packet are not modelled. The random padding of
-- SessionConfirmed is an argument of the builder. What a packet is filled with behind its payload, and
-- the header that the session writes into it, are not part of the bytes that a `send` event shows.
--
-- Tests applies the theorems at concrete inputs.
pub mod Base
pub mod ByteStream
pub mod I2np
pub mod Identity
pub mod Ssu
pub mod Tunnel
pub mod Streaming
pub mod Tests

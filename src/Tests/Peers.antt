-- ===== src/Tests/Peers.antt =====
-- The peer protocol over a socket that passes one byte at a time.
mod Transfers
use daobell.Prelude.{
  ℕ, zero, suc, ◌≤◌, ◌<◌, Bytes, [], ◌∷◌, ◌++◌, length, take, Option, none, some, ◌≡◌, ◌≢◌, refl,
  arith, ok, append-nil, codes,
}
use daobell.Net.{Socket, peer_send_buff}
use daobell.Net.Sending.{IsStream, IsReliable, Sends, peer_send_buff-Sends}
use daobell.Message.{PeerMsg, request}
use daobell.Message.Send.{peer_msg_send}
use daobell.Message.Receive.{peer_msg_recv}
use daobell.Message.Wire.{wire}
use daobell.Message.Wire.Sent.{peer_msg_send-wire}
use daobell.Message.Wire.Received.{peer_msg_recv-wire}
use daobell.Message.Wire.RoundTrip.{Reads, peer_msg_recv-peer_msg_send}
use daobell.Tests.Blocks.{small}
use daobell.Message.{bitfield_num_bytes}
use daobell.Message.Bits.{read_bits, bitfield_payload}
use daobell.Message.Bits.RoundTrip.{read_bits-bitfield_payload}
use daobell.Message.Handshake.{peer_send_handshake, peer_recv_handshake}
use daobell.Message.Handshake.Exchange.{
  received_ids, left_over, peer_recv_handshake-peer_send_handshake,
}
use daobell.Torrent.{resize}
use daobell.Prelude.{List, replicate, ◌*◌, Bool, true, false}

-- What went out, and what is to come in.
abbrev pub Ends : Type 0
Ends = Bytes × Bytes

abbrev send_byte : Bytes → Ends → Option ℕ × Ends
send_byte [] ends = (some 0, ends)
send_byte (c ∷ bytes) (out, to_come) = (some 1, (out ++ c ∷ [], to_come))

abbrev recv_byte : ℕ → Ends → Option Bytes × Ends
recv_byte zero ends = (some [], ends)
recv_byte (suc n) (out, []) = (some [], (out, []))
recv_byte (suc n) (out, c ∷ to_come) = (some (c ∷ []), (out, to_come))

abbrev pub byte_socket : Socket
byte_socket = record { State = Ends; send = send_byte; recv = recv_byte }

send_byte-takes :
    (bytes : Bytes) (n : ℕ) (s : Ends)
    → (send_byte bytes s).0 ≡ some n
    → (n ≤ length bytes)
      × ((send_byte bytes s).1.0 ≡ s.0 ++ take n bytes)
      × ((send_byte bytes s).1.1 ≡ s.1)
send_byte-takes [] n s e = let z : n ≡ 0 = cc in rw z (omega arith, rw append-nil refl, refl)
send_byte-takes (c ∷ bytes) n s e = let z : n ≡ 1 = cc in rw z (omega arith, refl, refl)

send_byte-moves :
    (bytes : Bytes) (n : ℕ) (s : Ends) → (send_byte bytes s).0 ≡ some n → 0 < length bytes → 0 < n
send_byte-moves [] n s e h = absurd (omega arith)
send_byte-moves (c ∷ bytes) n s e h = let z : n ≡ 1 = cc in omega arith

send_byte-works : (bytes : Bytes) (s : Ends) → (send_byte bytes s).0 ≢ none
send_byte-works [] s e = cc
send_byte-works (c ∷ bytes) s e = cc

recv_byte-gives :
    (n : ℕ) (bytes : Bytes) (s : Ends)
    → (recv_byte n s).0 ≡ some bytes
    → (length bytes ≤ n) × (s.1 ≡ bytes ++ (recv_byte n s).1.1) × ((recv_byte n s).1.0 ≡ s.0)
recv_byte-gives zero bytes s e = let z : bytes ≡ [] = cc in rw z (omega arith, refl, refl)
recv_byte-gives (suc n) bytes (out, []) e =
    let z : bytes ≡ [] = cc in rw z (omega arith, refl, refl)
recv_byte-gives (suc n) bytes (out, c ∷ to_come) e =
    let z : bytes ≡ c ∷ [] = cc in rw z (omega arith, refl, refl)

recv_byte-some : (n : ℕ) (s : Ends) → (recv_byte n s).0 ≢ none
recv_byte-some zero s e = cc
recv_byte-some (suc n) (out, []) e = cc
recv_byte-some (suc n) (out, c ∷ to_come) e = cc

recv_byte-works :
    (n : ℕ) (s : Ends)
    → 0 < n
    → 0 < length s.1
    → (bytes : Bytes) × (0 < length bytes) × ((recv_byte n s).0 ≡ some bytes)
recv_byte-works zero s h h' = absurd (omega arith)
recv_byte-works (suc n) (out, []) h h' = absurd (omega arith)
recv_byte-works (suc n) (out, c ∷ to_come) h h' = (c ∷ [], omega arith, refl)

pub byte_socket-IsStream : IsStream byte_socket
byte_socket-IsStream = record {
  sent = λ s. s.0;
  pending = λ s. s.1;
  send_takes = send_byte-takes;
  send_moves = send_byte-moves;
  send_fails = λ bytes s e. absurd (send_byte-works bytes s e);
  recv_gives = recv_byte-gives;
  recv_fails = λ n s e. absurd (recv_byte-some n s e);
}

pub byte_socket-pending : (s : Ends) → byte_socket-IsStream.pending s ≡ s.1
unfolding byte_socket-IsStream
byte_socket-pending s = refl

pub byte_socket-IsReliable : IsReliable byte_socket-IsStream
unfolding byte_socket-IsStream
byte_socket-IsReliable = record { send_works = send_byte-works; recv_works = recv_byte-works }

abbrev ask : PeerMsg
ask = request 0 16384 5

peer_send_buff-Sends_example :
    Sends byte_socket-IsStream
      (codes "abc")
      ([], [])
      (peer_send_buff byte_socket (codes "abc") ([], []))
peer_send_buff-Sends_example =
    peer_send_buff-Sends byte_socket-IsStream (codes "abc") ([], []) (omega arith)

peer_msg_recv-peer_msg_send_example :
    (bytes : Bytes) × (s' : Ends) × (peer_msg_send byte_socket small ask ([], [])
      ≡ ok (some tt, s'))
    × (s'.0 ≡ bytes)
    × ((rest : Bytes) (r : Ends)
        → r.1 ≡ bytes ++ rest
        → Reads byte_socket-IsStream byte_socket-IsStream byte_socket-IsReliable
            byte_socket-IsReliable small ask rest r)
unfolding byte_socket-IsStream
peer_msg_recv-peer_msg_send_example =
    peer_msg_recv-peer_msg_send byte_socket-IsStream byte_socket-IsStream byte_socket-IsReliable
      byte_socket-IsReliable small small ask ([], []) (omega arith, omega arith, omega arith)
      (omega arith, omega arith, omega arith) tt

abbrev bits : List Bool
bits = true ∷ false ∷ true ∷ false ∷ false ∷ false ∷ false ∷ false ∷ false ∷ true ∷ []

read_bits-bitfield_payload_example :
    read_bits (bitfield_num_bytes (length bits) * 8) 0 (bitfield_payload bits)
    ≡ true ∷ false ∷ true ∷ false ∷ false ∷ false ∷ false ∷ false ∷ false ∷ true ∷ replicate 6 false
unfolding resize bitfield_num_bytes
read_bits-bitfield_payload_example = read_bits-bitfield_payload bits

peer_recv_handshake-peer_send_handshake_example :
    (bytes : Bytes) × (s' : Ends) × (peer_send_handshake byte_socket
        (replicate 20 1)
        (replicate 20 2)
        ([], [])
      ≡ ok (some tt, s'))
    × (s'.0 ≡ bytes)
    × ((peer_id : Bool) (rest : Bytes) (r : Ends)
        → r.1 ≡ bytes ++ rest
        → (r' : Ends) × (peer_recv_handshake byte_socket peer_id r
            ≡ ok (some (received_ids peer_id (replicate 20 1) (replicate 20 2)), r'))
          × (r'.1 ≡ left_over peer_id (replicate 20 2) rest))
unfolding byte_socket-IsStream
peer_recv_handshake-peer_send_handshake_example =
    peer_recv_handshake-peer_send_handshake byte_socket-IsStream byte_socket-IsStream
      (replicate 20 1) (replicate 20 2) ([], []) byte_socket-IsReliable byte_socket-IsReliable refl
      refl

-- ===== src/Tests/Connections.antt =====
-- A connection on the torrent of three pieces, over the socket that passes one byte at a time.
use daobell.Prelude.{
  ℕ, zero, suc, Bytes, [], ◌∷◌, ◌++◌, length, take, replicate, get_elem?, some, ◌≡◌, ◌↔◌, refl, sym,
  arith, fault, true, false,
}
use daobell.Torrent.{requested}
use daobell.Torrent.Sound.{IsSound}
use daobell.Pieces.{PieceRequest}
use daobell.Message.{PeerMsg, unchoke, piece}
use daobell.Message.Wire.{wire}
use daobell.Connection.{ConnState, initial_state}
use daobell.Connection.Incoming.{process_msg, count_block, complete_block}
use daobell.Connection.Incoming.Interest.{IsConnected, Handles}
use daobell.Connection.Incoming.Blocks.{IsTallied, count_block-IsTallied, first_block, open_blocks}
use daobell.Connection.Incoming.Safety.{
  process_msg-IsConnected, process_msg_completing, process_msg_outside,
}
use daobell.Connection.Outgoing.{request_blocks, send_requests}
use daobell.Connection.Outgoing.Asking.{
  wire_requests, Asks, request_blocks-Sends, send_requests-IsConnected,
}
use daobell.Connection.Session.{Poll, start_connection, process_queued_msgs}
use daobell.Connection.Session.Start.{StartsUp, start_connection-IsConnected}
use daobell.Connection.Session.Queue.{IsArrived, Empties, wire_all, process_queued_msgs-Empties}
use daobell.Net.Sending.{Sends}
use daobell.Tests.Blocks.{one_block}
use daobell.Tests.Peers.{
  byte_socket, byte_socket-IsStream, byte_socket-IsReliable, byte_socket-pending,
}
use daobell.Tests.Torrents.{three, three-IsCounted}

three_hashed :
    (index : ℕ) (hash : Bytes) → get_elem? three.pieces index ≡ some hash → length hash ≡ 20
three_hashed zero hash e = let same : replicate 20 1 ≡ hash = cc in rw (sym same) refl
three_hashed (suc zero) hash e = let same : replicate 20 2 ≡ hash = cc in rw (sym same) refl
three_hashed (suc (suc zero)) hash e = let same : replicate 20 3 ≡ hash = cc in rw (sym same) refl
three_hashed (suc (suc (suc n))) hash e = absurd (cc)

pub three-IsSound : IsSound three
three-IsSound = record {
  blocks = 1;
  mapped = ((refl, omega arith), ((refl, omega arith), tt));
  whole = refl;
  word = omega arith;
  begins = λ index h. omega arith;
  hashed = three_hashed;
}

abbrev one_request : PieceRequest
one_request = record { piece_index = 1; block_requests = one_block ∷ []; blocks_left = 1 }

-- A peer that has every piece; the second one was asked for.
abbrev idle : ConnState
idle = record (initial_state three (true ∷ false ∷ false ∷ [])) {
  local = record { choked = false; interested = true };
  peer_have = true ∷ true ∷ true ∷ [];
}

abbrev busy : ConnState
busy = record idle { local_requests = one_request ∷ [] }

idle-IsConnected : IsConnected three idle
idle-IsConnected = record {
  counted = three-IsCounted;
  sound = three-IsSound;
  peer_bits = refl;
  local_bits = refl;
  few = omega arith;
  asked = tt;
}

busy-IsConnected : IsConnected three busy
busy-IsConnected = record {
  counted = three-IsCounted;
  sound = three-IsSound;
  peer_bits = refl;
  local_bits = refl;
  few = omega arith;
  asked = ((requested, refl, λ e. cc), tt);
}

-- A block that was not asked for.
process_msg-IsConnected_example :
    Handles byte_socket-IsStream
      (replicate 64 7)
      three
      ([], [])
      (process_msg byte_socket (replicate 64 7) (piece 1 1 0) three busy ([], []))
unfolding count_block complete_block
process_msg-IsConnected_example =
    process_msg-IsConnected byte_socket-IsStream (replicate 64 7) three busy (piece 1 1 0) ([], [])
      busy-IsConnected tt (λ e z. absurd (omega (arith, z)), tt)

process_msg_completing_example :
    process_msg byte_socket (replicate 64 7) (piece 1 0 0) three busy ([], []) ≡ fault
unfolding count_block complete_block
process_msg_completing_example =
    process_msg_completing byte_socket-IsStream (replicate 64 7) three busy one_request 0 0 ([], [])
      refl busy-IsConnected refl refl

process_msg_outside_example :
    process_msg byte_socket (replicate 64 7) (PeerMsg.have 3) three idle ([], []) ≡ fault
process_msg_outside_example =
    process_msg_outside byte_socket-IsStream (replicate 64 7) three idle 3 ([], []) idle-IsConnected
      (omega arith)

count_block-IsTallied_example : IsTallied (count_block one_request 0 0) ↔ (false ≡ false)
unfolding first_block open_blocks
count_block-IsTallied_example =
    count_block-IsTallied one_request 0 0 one_block refl (omega arith) refl

request_blocks-Sends_example :
    Sends byte_socket-IsStream
      (wire_requests 1 (one_block ∷ []))
      ([], [])
      (request_blocks byte_socket three 1 (one_block ∷ []) ([], []))
request_blocks-Sends_example =
    request_blocks-Sends byte_socket-IsStream three 1 (one_block ∷ []) ([], [])

send_requests-IsConnected_example :
    Asks byte_socket-IsStream ([], []) (send_requests byte_socket three idle ([], []))
send_requests-IsConnected_example =
    send_requests-IsConnected byte_socket-IsStream three idle ([], []) idle-IsConnected

start_connection-IsConnected_example :
    StartsUp byte_socket-IsStream three ([], []) (start_connection byte_socket three ([], []))
start_connection-IsConnected_example =
    start_connection-IsConnected byte_socket-IsStream three ([], []) three-IsCounted three-IsSound

abbrev byte_poll : Poll byte_socket
byte_poll = record { peek = λ n s. some (take n s.1); available = λ s. some (length s.1) }

byte_poll-IsArrived : IsArrived byte_socket-IsStream byte_poll
byte_poll-IsArrived = record {
  peeks = λ n s. rw (byte_socket-pending s) refl;
  counts = λ s. rw (byte_socket-pending s) refl;
}

abbrev two_messages : Bytes
two_messages = wire unchoke ++ (wire (PeerMsg.have 2) ++ [])

process_queued_msgs-Empties_example :
    Empties byte_socket-IsStream byte_poll
      (replicate 64 7)
      (unchoke ∷ PeerMsg.have 2 ∷ [])
      three
      idle
      (process_queued_msgs byte_socket byte_poll (replicate 64 7) 3 three idle ([], two_messages))
unfolding wire_all
process_queued_msgs-Empties_example =
    process_queued_msgs-Empties byte_socket-IsStream byte_poll (replicate 64 7) byte_poll-IsArrived
      byte_socket-IsReliable (unchoke ∷ PeerMsg.have 2 ∷ []) three idle ([], two_messages)
      idle-IsConnected ((tt, tt, tt), ((omega arith, tt, omega arith), tt))
      (byte_socket-pending ([], two_messages))

-- ===== src/Message.antt =====
-- src/peer_msg.h and src/peer_msg.cpp: the messages between peers, written to a socket.
pub mod Bits
pub mod Handshake
pub mod Piece
pub mod Send
pub mod Receive
pub mod Wire
use daobell.Prelude.{
  ℕ, ◌+◌, ◌-◌, ◌*◌, ◌/◌, ◌%◌, ◌^◌, Bool, true, false, ◌&&◌, ltb, leb, ◌==◌, if◌then◌else◌, Bytes,
  [], ◌∷◌, ◌++◌, List, length, Option, none, some, Outcome, ok, fault, ◌>>=◌,
}
use daobell.Torrent.{Torrent}
use daobell.Pieces.{peer_request_size}

-- peer_msg with its type and the part of the payload that goes with it; the numbers of a message
-- are words of 32 bits.
pub data PeerMsg : Type 0 where
  keepalive choke unchoke interested not_interested cancel : PeerMsg
  have : (index : ℕ) → PeerMsg
  bitfield : List Bool → PeerMsg
  request : (index begin len : ℕ) → PeerMsg
  piece : (index begin block_len : ℕ) → PeerMsg
  port : (listen_port : ℕ) → PeerMsg

-- The values of msg_type without MSG_KEEPALIVE, which is -1 and has no byte.
pub data MsgType : Type 0 where
  msg_choke msg_unchoke msg_interested msg_not_interested msg_have msg_bitfield msg_request
        msg_piece msg_cancel msg_port :
      MsgType

unfoldable pub type_byte : MsgType → ℕ
type_byte msg_choke = 0
type_byte msg_unchoke = 1
type_byte msg_interested = 2
type_byte msg_not_interested = 3
type_byte msg_have = 4
type_byte msg_bitfield = 5
type_byte msg_request = 6
type_byte msg_piece = 7
type_byte msg_cancel = 8
type_byte msg_port = 9

-- The type of a received byte; from MSG_MAX on there is none.
unfoldable pub type_of_byte : ℕ → Option MsgType
type_of_byte c =
    if c == 0
    then some msg_choke
    else if c == 1
    then some msg_unchoke
    else if c == 2
    then some msg_interested
    else if c == 3
    then some msg_not_interested
    else if c == 4
    then some msg_have
    else if c == 5
    then some msg_bitfield
    else if c == 6
    then some msg_request
    else if c == 7
    then some msg_piece
    else if c == 8
    then some msg_cancel
    else if c == 9
    then some msg_port
    else none

unfoldable pub msg_type : PeerMsg → Option MsgType
msg_type keepalive = none
msg_type choke = some msg_choke
msg_type unchoke = some msg_unchoke
msg_type interested = some msg_interested
msg_type not_interested = some msg_not_interested
msg_type cancel = some msg_cancel
msg_type (have index) = some msg_have
msg_type (bitfield bits) = some msg_bitfield
msg_type (request index begin len) = some msg_request
msg_type (piece index begin block_len) = some msg_piece
msg_type (port listen_port) = some msg_port

-- BITFIELD_NUM_BYTES
unfoldable pub bitfield_num_bytes : ℕ → ℕ
bitfield_num_bytes len = len / 8 + (if len % 8 == 0 then 0 else 1)

-- `none` is MSG_KEEPALIVE.
unfoldable pub msg_length : Option MsgType → Torrent → ℕ
msg_length none t = 0
msg_length (some msg_piece) t = 1 + 2 * 4 + peer_request_size
msg_length (some msg_bitfield) t = 1 + bitfield_num_bytes (length t.pieces)
msg_length (some msg_request) t = 1 + 3 * 4
msg_length (some msg_have) t = 1 + 4
msg_length (some msg_port) t = 1 + 4
msg_length (some _) t = 1

unfoldable pub valid_len : MsgType → Torrent → ℕ → Bool
valid_len msg_piece t len = leb (1 + 2 * 4 + 1) len && leb len (1 + 2 * 4 + peer_request_size)
valid_len type t len = len == msg_length (some type) t

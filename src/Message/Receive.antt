-- ===== src/Message/Receive.antt =====
-- peer_msg_recv. The torrent comes back with the message: a piece is written to its files.
use daobell.Prelude.{ℕ, ◌-◌, ◌*◌, ◌==◌, if◌then◌else◌, drop, get_or, Option, none, some, fault}
use daobell.Torrent.{Torrent}
use daobell.Net.{Socket, Action, and_then, done, failed, receive, ntohl}
use daobell.Message.{
  PeerMsg, keepalive, choke, unchoke, interested, not_interested, have, bitfield, request, port,
  MsgType, msg_choke, msg_unchoke, msg_interested, msg_not_interested, msg_have, msg_bitfield,
  msg_request, msg_piece, msg_cancel, msg_port, type_of_byte, valid_len,
}
use daobell.Message.Bits.{read_bits}
use daobell.Message.Piece.{peer_msg_recv_piece}

module _ (S : Socket) (t : Torrent) where
  -- The switch on the type, with `left` bytes to come; the asserts on `left` follow from valid_len.
  unfoldable pub recv_payload : MsgType → ℕ → Action S (PeerMsg × Torrent)
  recv_payload msg_choke left = done S (choke, t)
  recv_payload msg_unchoke left = done S (unchoke, t)
  recv_payload msg_interested left = done S (interested, t)
  recv_payload msg_not_interested left = done S (not_interested, t)
  recv_payload msg_piece left = peer_msg_recv_piece S t left
  recv_payload msg_bitfield left =
      and_then S (receive S left) (λ buff. done S (bitfield (read_bits (left * 8) 0 buff), t))
  recv_payload msg_request left =
      and_then S (receive S left)
        (λ buff. done S (request (ntohl buff) (ntohl (drop 4 buff)) (ntohl (drop 8 buff)), t))
  recv_payload msg_have left = and_then S (receive S left) (λ buff. done S (have (ntohl buff), t))
  recv_payload msg_port left = and_then S (receive S left) (λ buff. done S (port (ntohl buff), t))
  recv_payload msg_cancel left = (λ s. fault)

  -- What follows the type byte.
  unfoldable pub recv_typed : ℕ → Option MsgType → Action S (PeerMsg × Torrent)
  unfolding recv_payload
  recv_typed len none s = failed S s
  recv_typed len (some type) s =
      if valid_len type t len then recv_payload type (len - 1) s else failed S s

  unfoldable pub peer_msg_recv_pastlen : ℕ → Action S (PeerMsg × Torrent)
  unfolding recv_typed
  peer_msg_recv_pastlen len s =
      let typed = and_then S (receive S 1) (λ c. recv_typed len (type_of_byte (get_or c 0 0))) s in
      if len == 0 then done S (keepalive, t) s else typed

  unfoldable pub peer_msg_recv : Action S (PeerMsg × Torrent)
  unfolding peer_msg_recv_pastlen
  peer_msg_recv s = and_then S (receive S 4) (λ len. peer_msg_recv_pastlen (ntohl len)) s

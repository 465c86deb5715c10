-- ===== src/Message/Send.antt =====
-- peer_msg_send.
use daobell.Prelude.{[], ◌∷◌, Option, none, some, ok, fault}
use daobell.Torrent.{Torrent}
use daobell.Net.{Socket, Action, and_then, peer_send_buff, htonl}
use daobell.Message.{
  PeerMsg, keepalive, choke, unchoke, interested, not_interested, cancel, have, bitfield, request,
  piece, port, MsgType, type_byte, msg_type, msg_length,
}
use daobell.Message.Bits.{bitfield_payload}
use daobell.Message.Piece.{peer_msg_send_piece}

module _ (S : Socket) (t : Torrent) where
  -- The switch on the type; the assert on the length of the first four holds.
  unfoldable pub send_payload : PeerMsg → Action S (Unit {0})
  send_payload keepalive s = ok (some tt, s)
  send_payload choke s = ok (some tt, s)
  send_payload unchoke s = ok (some tt, s)
  send_payload interested s = ok (some tt, s)
  send_payload not_interested s = ok (some tt, s)
  send_payload cancel s = fault
  send_payload (have index) s = peer_send_buff S (htonl index) s
  send_payload (bitfield bits) s = peer_send_buff S (bitfield_payload bits) s
  send_payload (request index begin len) s =
      and_then S (peer_send_buff S (htonl index))
        (λ _. and_then S (peer_send_buff S (htonl begin)) (λ _. peer_send_buff S (htonl len))) s
  send_payload (piece index begin block_len) s = peer_msg_send_piece S t index begin block_len s
  send_payload (port listen_port) s = peer_send_buff S (htonl listen_port) s

  -- What follows the length; a keepalive has nothing.
  unfoldable pub send_body : PeerMsg → Option MsgType → Action S (Unit {0})
  unfolding send_payload
  send_body msg none s = ok (some tt, s)
  send_body msg (some type) s =
      and_then S (peer_send_buff S (type_byte type ∷ [])) (λ _. send_payload msg) s

  unfoldable pub peer_msg_send : PeerMsg → Action S (Unit {0})
  unfolding send_body
  peer_msg_send msg s =
      and_then S (peer_send_buff S (htonl (msg_length (msg_type msg) t)))
        (λ _. send_body msg (msg_type msg)) s

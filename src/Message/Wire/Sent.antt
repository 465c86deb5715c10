-- ===== src/Message/Wire/Sent.antt =====
-- peer_msg_send keeps to the format.
use daobell.Prelude.{ℕ, Bytes, [], ◌∷◌, ◌++◌, length, ◌+◌, ◌<◌, ◌^◌, arith, List, Bool}
use daobell.Torrent.{Torrent}
use daobell.Net.{Socket, htonl, peer_send_buff, and_then, Action}
use daobell.Net.Sending.{IsStream, Sends, Sends-nothing, Sends-go_on, peer_send_buff-Sends}
use daobell.Message.{
  PeerMsg, keepalive, choke, unchoke, interested, not_interested, cancel, have, bitfield, request,
  piece, port, msg_type, msg_length, type_byte, bitfield_num_bytes,
}
use daobell.Message.Bits.{bitfield_payload}
use daobell.Message.Bits.Lengths.{length-bitfield_payload}
use daobell.Message.Send.{peer_msg_send, send_body, send_payload}
use daobell.Message.Wire.{wire, IsPlain}

num_bytes-word : (n : ℕ) → n < 2 ^ 32 → bitfield_num_bytes n < 2 ^ 32
unfolding bitfield_num_bytes
num_bytes-word n h = ground arith

payload-word : (bits : List Bool) → length bits < 2 ^ 32 → length (bitfield_payload bits) < 2 ^ 32
payload-word bits h = rw length-bitfield_payload (num_bytes-word (length bits) h)

-- Three sends in a row: the length, the type, and what the message carries.
Sends-frame :
    {S : Socket} (I : IsStream S) (n type : ℕ) (payload : Bytes) (s : S.State)
    (rest : Action S (Unit {0}))
    → ((u : S.State) → Sends I payload u (rest u))
    → Sends I (htonl n ++ (type ∷ payload)) s (
        and_then S
          (peer_send_buff S (htonl n))
          (λ _. and_then S (peer_send_buff S (type ∷ [])) (λ _. rest))
          s)
Sends-frame {S = S} I n type payload s rest h =
    Sends-go_on I (htonl n) (type ∷ payload) s _ _
      (peer_send_buff-Sends I (htonl n) s (omega arith))
      (λ u.
        Sends-go_on I (type ∷ []) payload u _ (λ _. rest)
          (peer_send_buff-Sends I (type ∷ []) u (omega arith)) h)

pub request-Sends :
    {S : Socket} (I : IsStream S) (t : Torrent) (i b l : ℕ) (s : S.State)
    → Sends I (wire (request i b l)) s (peer_msg_send S t (request i b l) s)
unfolding peer_msg_send send_body send_payload wire msg_type msg_length type_byte
request-Sends I t i b l s = Sends-frame I 13 6 (htonl i ++ (htonl b ++ htonl l)) s _ (λ u.
    Sends-go_on I (htonl i) (htonl b ++ htonl l) u _ _
      (peer_send_buff-Sends I (htonl i) u (omega arith))
      (λ v.
        Sends-go_on I (htonl b) (htonl l) v _ _ (peer_send_buff-Sends I (htonl b) v (omega arith))
          (λ w. peer_send_buff-Sends I (htonl l) w (omega arith))))

-- peer_msg_send returns 0 where it sent the message in its format, and -1 only where a send failed,
-- with the front of the message sent. For every message but a piece and a cancel; a bitfield has
-- fewer than 2 ^ 32 bits.
pub peer_msg_send-wire :
    {S : Socket} (I : IsStream S) (t : Torrent) (msg : PeerMsg) (s : S.State)
    → IsPlain t msg
    → Sends I (wire msg) s (peer_msg_send S t msg s)
unfolding peer_msg_send send_body send_payload wire msg_type msg_length type_byte
peer_msg_send-wire I t keepalive s h =
    Sends-go_on I (htonl 0) [] s _ _ (peer_send_buff-Sends I (htonl 0) s (omega arith))
      (Sends-nothing I)
peer_msg_send-wire I t choke s h = Sends-frame I 1 0 [] s _ (Sends-nothing I)
peer_msg_send-wire I t unchoke s h = Sends-frame I 1 1 [] s _ (Sends-nothing I)
peer_msg_send-wire I t interested s h = Sends-frame I 1 2 [] s _ (Sends-nothing I)
peer_msg_send-wire I t not_interested s h = Sends-frame I 1 3 [] s _ (Sends-nothing I)
peer_msg_send-wire I t cancel s h = elim h [ ]
peer_msg_send-wire I t (piece _ _ _) s h = elim h [ ]
peer_msg_send-wire I t (have i) s h =
    Sends-frame I 5 4 (htonl i) s _ (λ u. peer_send_buff-Sends I (htonl i) u (omega arith))
peer_msg_send-wire I t (bitfield bits) s h = rw (h.0) (
    Sends-frame I (1 + bitfield_num_bytes (length t.pieces)) 5 (bitfield_payload bits) s _
      (λ u. peer_send_buff-Sends I (bitfield_payload bits) u (payload-word bits h.1)))
peer_msg_send-wire I t (request i b l) s h = request-Sends I t i b l s
peer_msg_send-wire I t (port i) s h =
    Sends-frame I 5 9 (htonl i) s _ (λ u. peer_send_buff-Sends I (htonl i) u (omega arith))

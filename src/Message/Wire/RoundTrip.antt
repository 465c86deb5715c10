-- ===== src/Message/Wire/RoundTrip.antt =====
-- What one peer sends, another receives.
use daobell.Prelude.{Bytes, ◌++◌, ◌≡◌, some, ok}
use daobell.Torrent.{Torrent}
use daobell.Net.{Socket}
use daobell.Net.Sending.{IsStream, IsReliable, Sends-IsReliable}
use daobell.Message.{PeerMsg}
use daobell.Message.Send.{peer_msg_send}
use daobell.Message.Receive.{peer_msg_recv}
use daobell.Message.Wire.{wire, IsPlain}
use daobell.Message.Wire.Sent.{peer_msg_send-wire}
use daobell.Message.Wire.Received.{peer_msg_recv-wire, received, IsReceivable}

module _ {S S' : Socket} (I : IsStream S) (J : IsStream S') (R : IsReliable I)
    (R' : IsReliable J) where
  -- A run of the receiver that returns this message and leaves these bytes.
  abbrev pub Reads : Torrent → PeerMsg → Bytes → S'.State → Type 0
  Reads t msg rest r =
      (r' : S'.State) × (peer_msg_recv S' t r ≡ ok (some (msg, t), r')) × (J.pending r' ≡ rest)

  -- On reliable streams, peer_msg_send returns 0, and a receiver to which the bytes come that it
  -- sent gets the message, with zeros behind a bitfield to whole bytes, and takes no byte more. For every message but a
  -- piece and a cancel; a bitfield is for torrents that have pieces, as many on both sides.
  pub peer_msg_recv-peer_msg_send :
      (t t' : Torrent) (msg : PeerMsg) (s : S.State)
      → IsPlain t msg
      → IsPlain t' msg
      → IsReceivable msg
      → (bytes : Bytes) × (s' : S.State) × (peer_msg_send S t msg s ≡ ok (some tt, s'))
        × (I.sent s' ≡ I.sent s ++ bytes)
        × ((rest : Bytes) (r : S'.State)
            → J.pending r ≡ bytes ++ rest
            → Reads t' (received msg) rest r)
  peer_msg_recv-peer_msg_send t t' msg s h h' b =
      let (s', run, e, _) = Sends-IsReliable I (wire msg) s _ R (peer_msg_send-wire I t msg s h) in
      (wire msg, s', run, e, λ rest r p. peer_msg_recv-wire J R' t' msg rest r h' b p)

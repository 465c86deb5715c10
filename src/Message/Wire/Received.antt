-- ===== src/Message/Wire/Received.antt =====
-- peer_msg_recv reads the format.
use daobell.Prelude.{
  ℕ, ◌+◌, ◌*◌, ◌<◌, ◌^◌, Bytes, [], ◌∷◌, ◌++◌, length, ◌≡◌, ◌≢◌, ◌-◌, refl, some, ok, Outcome,
  Option, arith, ==_ne, ==_refl, Bool, true, List,
}
use daobell.Torrent.{Torrent, resize}
use daobell.Message.Bits.RoundTrip.{read_bits-bitfield_payload}
use daobell.Net.{Socket, htonl, ntohl, receive, and_then, Action}
use daobell.Net.Sending.{IsStream, IsReliable}
use daobell.Net.Receiving.{receive-IsReliable}
use daobell.Message.{
  PeerMsg, keepalive, choke, unchoke, interested, not_interested, cancel, have, bitfield, request,
  piece, port, msg_length, valid_len, type_of_byte, bitfield_num_bytes, MsgType, msg_choke,
  msg_unchoke, msg_interested, msg_not_interested, msg_have, msg_bitfield, msg_request, msg_port,
}
use daobell.Message.Bits.{bitfield_payload, read_bits}
use daobell.Message.Bits.Lengths.{num_bytes-bounds, length-bitfield_payload}
use daobell.Message.Receive.{peer_msg_recv, peer_msg_recv_pastlen, recv_typed, recv_payload}
use daobell.Message.Wire.{wire, IsPlain}

pub ntohl-htonl : (n : ℕ) (rest : Bytes) → n < 2 ^ 32 → ntohl (htonl n ++ rest) ≡ n
ntohl-htonl n rest h = omega arith

-- The run returned this, and these bytes are still to come.
unfoldable pub Yields :
    {S : Socket} {A : Type 0} → IsStream S → A → Bytes → Outcome (Option A × S.State) → Type 0
Yields {S = S} I a rest run = (s' : S.State) × (run ≡ ok (some a, s')) × (I.pending s' ≡ rest)

-- What comes out of the reader: a bitfield has zeros behind it, to whole bytes.
abbrev pub received : PeerMsg → PeerMsg
received (bitfield bits) = bitfield (resize (bitfield_num_bytes (length bits) * 8) bits)
received msg = msg

abbrev pub IsReceivable : PeerMsg → Type 0
IsReceivable (bitfield bits) = (0 < length bits) × (length bits < 2 ^ 32)
IsReceivable _ = Unit {0}

module _ {S : Socket} (I : IsStream S) (R : IsReliable I) where
  pub receive-Yields :
      {A : Type 0} (a : A) (bytes more rest : Bytes) (s : S.State) (f : Bytes → Action S A)
      → 0 < length bytes
      → length bytes < 2 ^ 32
      → I.pending s ≡ bytes ++ more
      → ((u : S.State) → I.pending u ≡ more → Yields I a rest (f bytes u))
      → Yields I a rest (and_then S (receive S (length bytes)) f s)
  unfolding Yields
  receive-Yields a bytes more rest s f h w p k =
      let (u, run, p', q) = receive-IsReliable I R bytes more s h w p in rw run (k u p')

  -- A message of this type and payload, after its length was read.
  pub typed-Yields :
      (t : Torrent) (msg : PeerMsg) (len byte : ℕ) (type : MsgType) (payload rest : Bytes)
      (s : S.State)
      → len ≢ 0
      → type_of_byte byte ≡ some type
      → valid_len type t len ≡ true
      → I.pending s ≡ (byte ∷ payload) ++ rest
      → ((u : S.State)
          → I.pending u ≡ payload ++ rest
          → Yields I (msg, t) rest (recv_payload S t type (len - 1) u))
      → Yields I (msg, t) rest (peer_msg_recv_pastlen S t len s)
  unfolding Yields peer_msg_recv_pastlen recv_typed
  typed-Yields t msg len byte type payload rest s ne b v p k = rw (==_ne len 0 ne) (
      receive-Yields (msg, t) (byte ∷ []) (payload ++ rest) rest s _ (omega arith) (omega arith) p
        (λ u q. rw (b, v) (k u q)))

  pub recv-Yields :
      (t : Torrent) (msg : PeerMsg) (len : ℕ) (body rest : Bytes) (s : S.State)
      → len < 2 ^ 32
      → I.pending s ≡ (htonl len ++ body) ++ rest
      → ((u : S.State)
          → I.pending u ≡ body ++ rest
          → Yields I (msg, t) rest (peer_msg_recv_pastlen S t len u))
      → Yields I (msg, t) rest (peer_msg_recv S t s)
  unfolding peer_msg_recv
  recv-Yields t msg len body rest s h p k =
      receive-Yields (msg, t) (htonl len) (body ++ rest) rest s _ (omega arith) (omega arith) p
        (λ u q. rw (ntohl-htonl len [] h) (k u q))

  -- A message with a type and no payload.
  plain-Yields :
      (t : Torrent) (msg : PeerMsg) (byte : ℕ) (type : MsgType) (rest : Bytes) (s : S.State)
      → type_of_byte byte ≡ some type
      → valid_len type t 1 ≡ true
      → I.pending s ≡ (htonl 1 ++ byte ∷ []) ++ rest
      → ((u : S.State) → I.pending u ≡ rest → Yields I (msg, t) rest (recv_payload S t type 0 u))
      → Yields I (msg, t) rest (peer_msg_recv S t s)
  plain-Yields t msg byte type rest s b v p k =
      recv-Yields t msg 1 (byte ∷ []) rest s (omega arith) p
        (λ u q. typed-Yields t msg 1 byte type [] rest u (omega arith) b v q k)

  -- The payload of one word.
  word-Yields :
      (msg : ℕ → PeerMsg) (t : Torrent) (n : ℕ) (rest : Bytes) (s : S.State)
      → n < 2 ^ 32
      → I.pending s ≡ htonl n ++ rest
      → Yields {A = PeerMsg × Torrent} I
          (msg n, t)
          rest
          (and_then S (receive S 4) (λ buff u. ok (some (msg (ntohl buff), t), u)) s)
  unfolding Yields
  word-Yields msg t n rest s h p =
      receive-Yields (msg n, t) (htonl n) rest rest s _ (omega arith) (omega arith) p
        (λ u q. (u, rw (ntohl-htonl n [] h) refl, q))

  request-Yields :
      (t : Torrent) (i b l : ℕ) (rest : Bytes) (s : S.State)
      → i < 2 ^ 32
      → b < 2 ^ 32
      → l < 2 ^ 32
      → I.pending s ≡ (htonl i ++ (htonl b ++ htonl l)) ++ rest
      → Yields I (request i b l, t) rest (recv_payload S t msg_request 12 s)
  unfolding Yields recv_payload
  request-Yields t i b l rest s hi hb hl p =
      receive-Yields (request i b l, t) (htonl i ++ (htonl b ++ htonl l)) rest rest s _
        (omega arith) (omega arith) p
        (λ u q. (
          u,
          rw
              (
                ntohl-htonl i (htonl b ++ htonl l) hi,
                ntohl-htonl b (htonl l) hb,
                ntohl-htonl l [] hl,
              )
              refl,
          q,
        ))

  bitfield-Yields :
      (t : Torrent) (bits : List Bool) (rest : Bytes) (s : S.State)
      → length bits ≡ length t.pieces
      → 0 < length bits
      → length bits < 2 ^ 32
      → I.pending s ≡ wire (bitfield bits) ++ rest
      → Yields I
          (bitfield (read_bits (bitfield_num_bytes (length bits) * 8) 0 (bitfield_payload bits)), t)
          rest
          (peer_msg_recv S t s)
  unfolding Yields wire valid_len msg_length recv_payload
  bitfield-Yields t bits rest s e h h' p =
      let n = bitfield_num_bytes (length bits) in
      let msg = bitfield (read_bits (n * 8) 0 (bitfield_payload bits)) in
      let msg' : PeerMsg × Torrent = (msg, t) in
      let len = length-bitfield_payload bits in
      let some_bytes : (0 < n) × (1 + n < 2 ^ 32) = num_bytes-bounds (length bits) h h' in
      recv-Yields t msg (1 + n) (5 ∷ bitfield_payload bits) rest s (some_bytes.1) p (λ u q.
        typed-Yields t msg (1 + n) 5 msg_bitfield (bitfield_payload bits) rest u (omega arith)
          (unfold type_of_byte in refl) (rw (← e) (==_refl (1 + n))) q
          (λ v q'.
            let same : 1 + n - 1 ≡ length (bitfield_payload bits) = omega (arith, len) in
            rw same (
              receive-Yields msg' (bitfield_payload bits) rest rest v _ (omega (arith, len))
                (omega (arith, len, some_bytes.1)) q' (λ w r. (w, rw len refl, r)))))

  -- On a reliable stream peer_msg_recv returns the message whose format comes next, and takes no
  -- byte more; a bitfield comes with zeros behind it, to whole bytes. For every message but a
  -- piece and a cancel; a bitfield is for a torrent that has pieces.
  pub peer_msg_recv-wire :
      (t : Torrent) (msg : PeerMsg) (rest : Bytes) (s : S.State)
      → IsPlain t msg
      → IsReceivable msg
      → I.pending s ≡ wire msg ++ rest
      → (s' : S.State) × (peer_msg_recv S t s ≡ ok (some (received msg, t), s'))
        × (I.pending s' ≡ rest)
  unfolding Yields wire recv_payload peer_msg_recv_pastlen valid_len msg_length
  peer_msg_recv-wire t keepalive rest s h b p =
      recv-Yields t keepalive 0 [] rest s (omega arith) p (λ u q. (u, refl, q))
  peer_msg_recv-wire t choke rest s h b p =
      plain-Yields t choke 0 msg_choke rest s (unfold type_of_byte in refl) refl p
        (λ u q. (u, refl, q))
  peer_msg_recv-wire t unchoke rest s h b p =
      plain-Yields t unchoke 1 msg_unchoke rest s (unfold type_of_byte in refl) refl p
        (λ u q. (u, refl, q))
  peer_msg_recv-wire t interested rest s h b p =
      plain-Yields t interested 2 msg_interested rest s (unfold type_of_byte in refl) refl p
        (λ u q. (u, refl, q))
  peer_msg_recv-wire t not_interested rest s h b p =
      plain-Yields t not_interested 3 msg_not_interested rest s (unfold type_of_byte in refl) refl p
        (λ u q. (u, refl, q))
  peer_msg_recv-wire t cancel rest s h b p = elim h [ ]
  peer_msg_recv-wire t (piece _ _ _) rest s h b p = elim h [ ]
  peer_msg_recv-wire t (have i) rest s h b p =
      recv-Yields t (have i) 5 (4 ∷ htonl i) rest s (omega arith) p (λ u q.
        typed-Yields t (have i) 5 4 msg_have (htonl i) rest u (omega arith)
          (unfold type_of_byte in refl) refl q (λ v. word-Yields have t i rest v h))
  peer_msg_recv-wire t (port i) rest s h b p =
      recv-Yields t (port i) 5 (9 ∷ htonl i) rest s (omega arith) p (λ u q.
        typed-Yields t (port i) 5 9 msg_port (htonl i) rest u (omega arith)
          (unfold type_of_byte in refl) refl q (λ v. word-Yields port t i rest v h))
  peer_msg_recv-wire t (request i b l) rest s h _ p =
      recv-Yields t (request i b l) 13 (6 ∷ (htonl i ++ (htonl b ++ htonl l))) rest s (omega arith)
        p
        (λ u q.
          typed-Yields t (request i b l) 13 6 msg_request (htonl i ++ (htonl b ++ htonl l)) rest u
            (omega arith) (unfold type_of_byte in refl) refl q
            (λ v. request-Yields t i b l rest v h.0 h.1 h.2))
  peer_msg_recv-wire t (bitfield bits) rest s h b p =
      rw (← read_bits-bitfield_payload bits) (bitfield-Yields t bits rest s h.0 b.0 b.1 p)

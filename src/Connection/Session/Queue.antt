-- ===== src/Connection/Session/Queue.antt =====
-- process_queued_msgs takes every message that has come, in its order.
use daobell.Prelude.{
  ℕ, suc, ◌+◌, ◌^◌, ◌<◌, le→leb, true, false, Bytes, List, [], ◌∷◌, ◌++◌, length, length-append,
  take, Option, some, All, Outcome, ok, ◌≡◌, refl, ◌∙◌, ap, arith,
}
use daobell.Torrent.{Torrent}
use daobell.Net.{Socket, htonl, ntohl}
use daobell.Net.Sending.{IsStream, IsReliable}
use daobell.Message.{
  PeerMsg, keepalive, choke, unchoke, interested, not_interested, cancel, bitfield, request, piece,
  port, bitfield_num_bytes,
}
use daobell.Message.Bits.{bitfield_payload}
use daobell.Message.Bits.Lengths.{num_bytes-bounds, length-bitfield_payload}
use daobell.Message.Wire.{wire, IsPlain}
use daobell.Message.Wire.Received.{ntohl-htonl, received, IsReceivable, peer_msg_recv-wire}
use daobell.Connection.{ConnState}
use daobell.Connection.Incoming.Interest.{IsConnected}
use daobell.Connection.Incoming.{process_msg}
use daobell.Connection.Incoming.Safety.{IsAcceptable, IsPending, process_msg-IsConnected}
use daobell.Connection.Session.{Poll, peer_msg_buff_nonempty, process_queued_msgs}

-- The messages that are waiting, in their format.
unfoldable pub wire_all : List PeerMsg → Bytes
wire_all [] = []
wire_all (msg ∷ msgs) = wire msg ++ wire_all msgs

-- All that the peer will send has arrived, and can be peeked at.
pub record IsArrived {S : Socket} (I : IsStream S) (P : Poll S) : Type 0 where
  pub peeks : (n : ℕ) (s : S.State) → P.peek n s ≡ some (take n (I.pending s))
  pub counts : (s : S.State) → P.available s ≡ some (length (I.pending s))

-- A message whose format the program reads, and which names pieces of the torrent.
abbrev pub IsWelcome : Torrent → PeerMsg → Type 0
IsWelcome t msg = IsPlain t msg × IsReceivable msg × IsAcceptable t (received msg)

-- The format begins with the number of the bytes that follow.
wire-length :
    (t : Torrent) (msg : PeerMsg)
    → IsPlain t msg
    → IsReceivable msg
    → (n : ℕ) × (body : Bytes) × (wire msg ≡ htonl n ++ body) × (n < 2 ^ 32) × (length body ≡ n)
unfolding wire
wire-length t keepalive h r = (0, [], refl, omega arith, refl)
wire-length t choke h r = (1, 0 ∷ [], refl, omega arith, refl)
wire-length t unchoke h r = (1, 1 ∷ [], refl, omega arith, refl)
wire-length t interested h r = (1, 2 ∷ [], refl, omega arith, refl)
wire-length t not_interested h r = (1, 3 ∷ [], refl, omega arith, refl)
wire-length t cancel h r = elim h [ ]
wire-length t (piece _ _ _) h r = elim h [ ]
wire-length t (PeerMsg.have i) h r = (5, 4 ∷ htonl i, refl, omega arith, refl)
wire-length t (port i) h r = (5, 9 ∷ htonl i, refl, omega arith, refl)
wire-length t (request i b l) h r =
    (13, 6 ∷ (htonl i ++ (htonl b ++ htonl l)), refl, omega arith, refl)
wire-length t (bitfield bits) h r =
    let n = bitfield_num_bytes (length bits) in
    let (_, small) = num_bytes-bounds (length bits) r.0 r.1 in
    (1 + n, 5 ∷ bitfield_payload bits, refl, small, omega (arith, length-bitfield_payload bits))

module _ {S : Socket} (I : IsStream S) (P : Poll S) (A : IsArrived I P) where
  nonempty-message :
      (n : ℕ) (body rest : Bytes) (s : S.State)
      → I.pending s ≡ (htonl n ++ body) ++ rest
      → n < 2 ^ 32
      → length body ≡ n
      → peer_msg_buff_nonempty P s ≡ true
  unfolding peer_msg_buff_nonempty
  nonempty-message n body rest s p h l =
      let more = length-append body rest in
      let len : ntohl (htonl n) ≡ n = ntohl-htonl n [] h in
      rw (A.peeks 4 s, A.counts s, p) (rw len (le→leb (n + 2) _ (omega (arith, more))))

  nonempty-none : (s : S.State) → I.pending s ≡ [] → peer_msg_buff_nonempty P s ≡ false
  unfolding peer_msg_buff_nonempty
  nonempty-none s p = rw (A.peeks 4 s, A.counts s, p) refl

-- Only the number of the pieces matters.
IsPlain-pieces :
    (t u : Torrent) (msg : PeerMsg) → u.pieces ≡ t.pieces → IsPlain t msg → IsPlain u msg
IsPlain-pieces t u keepalive e h = tt
IsPlain-pieces t u choke e h = tt
IsPlain-pieces t u unchoke e h = tt
IsPlain-pieces t u interested e h = tt
IsPlain-pieces t u not_interested e h = tt
IsPlain-pieces t u cancel e h = elim h [ ]
IsPlain-pieces t u (piece _ _ _) e h = elim h [ ]
IsPlain-pieces t u (PeerMsg.have i) e h = h
IsPlain-pieces t u (port i) e h = h
IsPlain-pieces t u (request i b l) e h = h
IsPlain-pieces t u (bitfield bits) e h = (rw e h.0, h.1)

IsAcceptable-pieces :
    (t u : Torrent) (msg : PeerMsg) → u.pieces ≡ t.pieces → IsAcceptable t msg → IsAcceptable u msg
IsAcceptable-pieces t u keepalive e h = tt
IsAcceptable-pieces t u choke e h = tt
IsAcceptable-pieces t u unchoke e h = tt
IsAcceptable-pieces t u interested e h = tt
IsAcceptable-pieces t u not_interested e h = tt
IsAcceptable-pieces t u cancel e h = tt
IsAcceptable-pieces t u (piece _ _ _) e h = tt
IsAcceptable-pieces t u (PeerMsg.have i) e h = rw e h
IsAcceptable-pieces t u (port i) e h = tt
IsAcceptable-pieces t u (request i b l) e h = tt
IsAcceptable-pieces t u (bitfield bits) e h = rw e h

All-IsWelcome :
    (t u : Torrent) (msgs : List PeerMsg)
    → u.pieces ≡ t.pieces
    → All (IsWelcome t) msgs
    → All (IsWelcome u) msgs
All-IsWelcome t u [] e h = tt
All-IsWelcome t u (msg ∷ msgs) e ((p, r, a), h) = (
  (IsPlain-pieces t u msg e p, r, IsAcceptable-pieces t u (received msg) e a),
  All-IsWelcome t u msgs e h,
)

plain-IsPending :
    (t : Torrent) (c : ConnState) (msg : PeerMsg) → IsPlain t msg → IsPending c (received msg)
plain-IsPending t c keepalive h = tt
plain-IsPending t c choke h = tt
plain-IsPending t c unchoke h = tt
plain-IsPending t c interested h = tt
plain-IsPending t c not_interested h = tt
plain-IsPending t c cancel h = elim h [ ]
plain-IsPending t c (piece _ _ _) h = elim h [ ]
plain-IsPending t c (PeerMsg.have i) h = tt
plain-IsPending t c (port i) h = tt
plain-IsPending t c (request i b l) h = tt
plain-IsPending t c (bitfield bits) h = tt

module _ {S : Socket} (I : IsStream S) (P : Poll S) (garbage : Bytes) where
  -- Each message was handled, one after another.
  pub data Served (t' : Torrent) (c' : ConnState)
      : List PeerMsg → Torrent → ConnState → Type 0 where
    all_served : Served t' c' [] t' c'
    serve :
        {msgs : List PeerMsg} {t u : Torrent} {c d : ConnState} (msg : PeerMsg) (s s' : S.State)
        → process_msg S garbage (received msg) t c s ≡ ok ((u, d), s')
        → Served t' c' msgs u d
        → Served t' c' (msg ∷ msgs) t c

  -- The queue was emptied.
  pub record Empties (msgs : List PeerMsg) (t : Torrent) (c : ConnState)
      (run : Outcome ((Option (Unit {0}) × (Torrent × ConnState)) × S.State)) : Type 0 where
    pub torrent : Torrent
    pub state : ConnState
    pub socket : S.State
    pub gives : run ≡ ok ((some tt, (torrent, state)), socket)
    pub served : Served torrent state msgs t c
    pub connected : IsConnected torrent state
    pub empty : I.pending socket ≡ []

  -- On a reliable stream on which all has arrived, and a connection with IsConnected,
  -- process_queued_msgs returns 0 after it has handled each message once, in the order they came in;
  -- the queue is empty, and the connection still has IsConnected. For every message but a piece and a
  -- cancel, where a bitfield has a bit for each piece, of which there is one or more, and a have names
  -- a piece of the torrent, with a unit of fuel for each message and one more.
  pub process_queued_msgs-Empties :
      IsArrived I P
      → IsReliable I
      → (msgs : List PeerMsg) (t : Torrent) (c : ConnState) (s : S.State) → IsConnected t c
      → All (IsWelcome t) msgs
      → I.pending s ≡ wire_all msgs
      → Empties msgs t c (process_queued_msgs S P garbage (suc (length msgs)) t c s)
  unfolding process_queued_msgs wire_all
  process_queued_msgs-Empties A R [] t c s w h p = rw (nonempty-none I P A s p) (record {
    torrent = t;
    state = c;
    socket = s;
    gives = refl;
    served = all_served;
    connected = w;
    empty = p;
  })
  process_queued_msgs-Empties A R (msg ∷ msgs) t c s w ((plain, r, a), h) p =
      let (n, body, framed, small, len) = wire-length t msg plain r in
      let here =
        nonempty-message I P A n body (wire_all msgs) s (p ∙ ap (λ x. x ++ wire_all msgs) framed)
          small len in
      let (u, run, rest) = peer_msg_recv-wire I R t msg (wire_all msgs) s plain r p in
      let m =
        process_msg-IsConnected I garbage t c (received msg) u w a
          (plain-IsPending t c msg plain) in
      let more =
        process_queued_msgs-Empties A R msgs m.torrent m.state m.socket m.connected
          (All-IsWelcome t m.torrent msgs m.same_pieces h) (m.quiet ∙ rest) in
      record {
        torrent = more.torrent;
        state = more.state;
        socket = more.socket;
        gives = rw (here, run, m.gives) more.gives;
        served = serve msg u m.socket m.gives more.served;
        connected = more.connected;
        empty = more.empty;
      }

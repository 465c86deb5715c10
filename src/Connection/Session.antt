-- ===== src/Connection/Session.antt =====
-- src/peer_connection.cpp: the thread of a connection, from the handshake to the end of its loop.
-- The waits, the cancellation points and the message queue, which nothing is read from, are left out.
pub mod Start
pub mod Queue
pub mod Round
use daobell.Prelude.{
  ℕ, zero, suc, ◌+◌, ltb, leb, ◌==◌, if◌then◌else◌, Bool, true, false, not, ◌&&◌, Bytes, List, [],
  ◌∷◌, length, replicate, Option, none, some, Outcome, ok, fault, out_of_fuel, ◌>>=◌,
}
use daobell.Torrent.{Torrent}
use daobell.Net.{Socket, Action, and_then, ntohl}
use daobell.Message.{PeerMsg, bitfield}
use daobell.Message.Handshake.{peer_send_handshake, peer_recv_handshake}
use daobell.Message.Send.{peer_msg_send}
use daobell.Message.Receive.{peer_msg_recv}
use daobell.Connection.{ConnState, RequestMsg, conn_state_init, unchoke_peer}
use daobell.Connection.Incoming.{process_msg}
use daobell.Connection.Outgoing.{send_requests}

-- recv with MSG_PEEK | MSG_DONTWAIT, and FIONREAD; `none` is -1. They take nothing from the socket.
pub record Poll (S : Socket) : Type 0 where
  pub peek : ℕ → S.State → Option Bytes
  pub available : S.State → Option ℕ

module _ {S : Socket} (P : Poll S) where
  abbrev length_peeked : Bytes → Option ℕ → Bool
  length_peeked bytes none = false
  length_peeked bytes (some available) =
      if ltb (length bytes) 4 then false else leb (ntohl bytes + 2) available

  abbrev peeked : Option Bytes → Option ℕ → Bool
  peeked none available = false
  peeked (some bytes) available = length_peeked bytes available

  -- The constant is sizeof(uint16_t), where the length itself has four bytes.
  unfoldable pub peer_msg_buff_nonempty : S.State → Bool
  peer_msg_buff_nonempty s = peeked (P.peek 4 s) (P.available s)

module _ (S : Socket) where
  -- `handshake`, for a connection with a torrent: out_info_hash and out_peer_id.
  unfoldable pub handshake : Torrent → (local_id : Bytes) → Action S (Bytes × Bytes)
  handshake t local_id =
      and_then S (peer_send_handshake S t.info_hash local_id) (λ _. peer_recv_handshake S true)

  abbrev pub start_told :
      Torrent → ConnState → Option (Unit {0}) × S.State → Outcome (Option ConnState × S.State)
  start_told t c (none, s) = ok (none, s)
  start_told t c (some _, s) = unchoke_peer S t c s >>= λ (c', s'). ok (some c', s')

  -- From the handshake to the loop: the state, a bitfield in which no bit is set, and the unchoke.
  unfoldable pub start_connection : Torrent → S.State → Outcome (Option ConnState × S.State)
  start_connection t s = conn_state_init t >>= λ c.
      peer_msg_send S t (bitfield (replicate (length t.pieces) false)) s >>= start_told t c

abbrev no_requests : List RequestMsg → Bool
no_requests [] = true
no_requests (_ ∷ _) = false

-- The tests before send_requests in the loop.
abbrev pub may_ask : ConnState → Bool
may_ask c = no_requests c.peer_requests && (not c.local.choked && c.local.interested)

module _ (S : Socket) (P : Poll S) (garbage : Bytes) where
  -- What a function of the loop returns: `none` is -1.
  abbrev pub Turn : Type 0
  Turn = Outcome ((Option (Unit {0}) × (Torrent × ConnState)) × S.State)

  abbrev pub after_recv :
      (Torrent → ConnState → S.State → Turn)
      → Torrent
      → ConnState
      → Option (PeerMsg × Torrent) × S.State
      → Turn
  after_recv next t c (none, s) = ok ((none, (t, c)), s)
  after_recv next t c (some (msg, t'), s) =
      process_msg S garbage msg t' c s >>= λ ((t'', c'), s'). next t'' c' s'

  -- Each message takes a unit of fuel.
  unfoldable pub process_queued_msgs : ℕ → Torrent → ConnState → S.State → Turn
  process_queued_msgs zero t c s = out_of_fuel
  process_queued_msgs (suc fuel) t c s =
      let more = peer_msg_recv S t s >>= after_recv (process_queued_msgs fuel) t c in
      if peer_msg_buff_nonempty P s then more else ok ((some tt, (t, c)), s)

  abbrev pub ask_if_idle : Option (Unit {0}) × (Torrent × ConnState) → S.State → Turn
  ask_if_idle (none, (t, c)) s = ok ((none, (t, c)), s)
  ask_if_idle (some _, (t, c)) s =
      if may_ask c then send_requests S t c s else ok ((some tt, (t, c)), s)

  -- One round of the while loop.
  unfoldable pub connection_round : ℕ → Torrent → ConnState → S.State → Turn
  unfolding process_queued_msgs
  connection_round fuel t c s = process_queued_msgs fuel t c s >>= λ (r, s'). ask_if_idle r s'

  -- The loop: `none` is pthread_exit after a failure, and it is left when the torrent is complete.
  unfoldable pub connection_loop : ℕ → ℕ → Torrent → ConnState → S.State → Turn
  unfolding connection_round
  connection_loop zero fuel t c s = out_of_fuel
  connection_loop (suc rounds) fuel t c s = connection_round fuel t c s >>= λ ((r, (t', c')), s').
      let next = connection_loop rounds fuel t' c' s' in
      elim r [
        | none ↦ ok ((none, (t', c')), s')
        | some _ ↦ if t'.sh.completed then ok ((some tt, (t', c')), s') else next
      ]

  -- The thread; `none` is a handshake or a bitfield that failed.
  unfoldable pub peer_connection :
      ℕ
      → ℕ
      → (local_id : Bytes) → Torrent
      → S.State
      → Outcome (Option (Option (Unit {0}) × (Torrent × ConnState)) × S.State)
  unfolding handshake start_connection connection_loop
  peer_connection rounds fuel local_id t = and_then S (handshake S t local_id) (λ _.
      and_then S (start_connection S t)
        (λ c s. connection_loop rounds fuel t c s >>= λ (r, s'). ok (some r, s')))

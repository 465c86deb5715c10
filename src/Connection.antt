-- ===== src/Connection.antt =====
-- src/peer_connection.cpp: the state of a connection, and what its thread tells the peer. A handler
-- here runs without another thread in between; each access to the shared part is under its mutex.
pub mod Completion
pub mod Rejection
pub mod Incoming
pub mod Outgoing
pub mod Session
use daobell.Prelude.{
  ℕ, ◌+◌, ◌-◌, ◌%◌, ◌^◌, set, ltb, ◌==◌, ◌&&◌, if◌then◌else◌, Bool, true, false, List, [], ◌∷◌,
  length, map, get_elem?, replicate, Option, none, some, Outcome, ok, fault, ◌>>=◌,
}
use daobell.Torrent.{
  Torrent, PieceState, have, is_have, torrent_make_bitfield, resize, set_state, not_requested,
}
use daobell.Files.{complete}
use daobell.Pieces.{PieceRequest}
use daobell.Net.{Socket}
use daobell.Message.{PeerMsg, unchoke, interested, not_interested}
use daobell.Message.Send.{peer_msg_send}

pub record PeerState : Type 0 where
  pub choked : Bool
  pub interested : Bool

pub record RequestMsg : Type 0 where
  pub index : ℕ
  pub begin : ℕ
  pub len : ℕ

-- struct conn_state. A queue is a list, the oldest first.
pub record ConnState : Type 0 where
  pub local : PeerState
  pub remote : PeerState
  pub peer_have : List Bool
  pub peer_wants : List Bool
  pub local_have : List Bool
  pub bitlen : ℕ
  pub blocks_sent : ℕ
  pub blocks_recvd : ℕ
  pub peer_requests : List RequestMsg
  pub local_requests : List PieceRequest

abbrev pub initial_state : Torrent → List Bool → ConnState
initial_state t local_have = record {
  local = record { choked = true; interested = false };
  remote = record { choked = true; interested = false };
  peer_have = resize (length t.pieces) [];
  peer_wants = resize (length t.pieces) [];
  local_have = local_have;
  bitlen = length t.pieces;
  blocks_sent = 0;
  blocks_recvd = 0;
  peer_requests = [];
  local_requests = [];
}

unfoldable pub conn_state_init : Torrent → Outcome ConnState
conn_state_init t = torrent_make_bitfield t [] >>= λ local_have. ok (initial_state t local_have)

-- pieces_left-- and the new state of the piece.
unfoldable pub count_piece : Torrent → ℕ → Torrent
count_piece t index = record t {
  sh = record t.sh {
    pieces_state = set t.sh.pieces_state index have;
    pieces_left = (t.sh.pieces_left + (2 ^ 32 - 1)) % 2 ^ 32;
  };
}

unfoldable pub set_completed : Torrent → Torrent
set_completed t = record t { sh = record t.sh { completed = true } }

-- The locked part of handle_piece_dnld_completion, with the state of the piece: the torrent, and
-- whether this completed it. The assert is on the count after it.
unfoldable pub mark_piece : Torrent → ℕ → Option PieceState → Outcome (Torrent × Bool)
unfolding count_piece set_completed
mark_piece t index none = fault
mark_piece t index (some state) =
    let counted = count_piece t index in
    let marked =
      if counted.sh.pieces_left == 0 then (set_completed counted, true) else (counted, false) in
    if is_have state
    then ok (t, false)
    else if ltb counted.sh.pieces_left (length t.pieces)
    then ok marked
    else fault

-- What process_piece_msg does to a piece whose bytes do not have its hash.
unfoldable pub reject_piece : Torrent → ℕ → Torrent
reject_piece t index = set_state t index not_requested

unfoldable pub torrent_complete : Torrent → Torrent
unfolding set_completed
torrent_complete t = record (set_completed t) { files = map complete t.files }

module _ (S : Socket) where
  -- The new state where the message was sent, the old one where it was not.
  abbrev pub told :
      ConnState → ConnState → Option (Unit {0}) × S.State → Outcome (ConnState × S.State)
  told after before (none, s) = ok (before, s)
  told after before (some _, s) = ok (after, s)

  abbrev pub tell :
      Torrent → PeerMsg → ConnState → ConnState → S.State → Outcome (ConnState × S.State)
  tell t msg after before s = peer_msg_send S t msg s >>= told after before

  unfoldable pub unchoke_peer : Torrent → ConnState → S.State → Outcome (ConnState × S.State)
  unchoke_peer t c = tell t unchoke (record c { remote = record c.remote { choked = false } }) c

  unfoldable pub show_interested : Torrent → ConnState → S.State → Outcome (ConnState × S.State)
  show_interested t c =
      tell t interested (record c { local = record c.local { interested = true } }) c

  unfoldable pub show_not_interested : Torrent → ConnState → S.State → Outcome (ConnState × S.State)
  show_not_interested t c =
      tell t not_interested (record c { local = record c.local { interested = false } }) c

  -- The peer is told of the piece; a failure to send is passed over.
  unfoldable pub handle_piece_dnld_completion : Torrent → ℕ → S.State → Outcome (Torrent × S.State)
  unfolding mark_piece torrent_complete
  handle_piece_dnld_completion t index s =
      if ltb index (length t.pieces)
      then (mark_piece t index (get_elem? t.sh.pieces_state index) >>= λ (t', completed).
          let t'' = if completed then torrent_complete t' else t' in
          peer_msg_send S t'' (PeerMsg.have index) s >>= λ (_, s'). ok (t'', s'))
      else fault

-- ===== src/Connection/Incoming/Safety.antt =====
-- process_msg returns, and keeps what the other functions of the connection rely on.
use daobell.Prelude.{
  ℕ, ◌+◌, ◌%◌, ◌^◌, ◌≤◌, ◌<◌, Bool-cases, inl, inr, length, Bytes, fault, ◌≡◌, refl, arith, All, [],
  ◌∷◌, subst,
}
use daobell.Torrent.{Torrent}
use daobell.Pieces.{PieceRequest}
use daobell.Net.{Socket}
use daobell.Net.Sending.{IsStream}
use daobell.Message.{
  PeerMsg, keepalive, choke, unchoke, interested, not_interested, cancel, bitfield, request, piece,
  port,
}
use daobell.Connection.{ConnState}
use daobell.Connection.Incoming.{count_block, process_piece_msg, process_have, process_msg}
use daobell.Connection.Incoming.Interest.{
  IsAsked, IsConnected, IsConnected-fields, bit_at-fault, Handles, Handles-state,
  process_have-Handles, process_bitfield-Handles,
}
use daobell.Connection.Incoming.Finished.{
  LeavesOpen, process_requests-Advances, process_requests-finished,
}

-- The pieces that a message names are the torrent's; a bitfield has a bit for each of them.
abbrev pub IsAcceptable : Torrent → PeerMsg → Type 0
IsAcceptable t (PeerMsg.have index) = index < length t.pieces
IsAcceptable t (bitfield bits) = length t.pieces ≤ length bits
IsAcceptable t _ = Unit {0}

-- A block leaves the requests of the connection open.
abbrev pub IsPending : ConnState → PeerMsg → Type 0
IsPending c (piece index begin block_len) = All (LeavesOpen index begin block_len) c.local_requests
IsPending c _ = Unit {0}

module _ {S : Socket} (I : IsStream S) (garbage : Bytes) where
  process_piece_msg-Handles :
      (t : Torrent) (c : ConnState) (index begin block_len : ℕ) (s : S.State)
      → IsConnected t c
      → All (LeavesOpen index begin block_len) c.local_requests
      → Handles I garbage t s (process_msg S garbage (piece index begin block_len) t c s)
  unfolding process_msg process_piece_msg
  process_piece_msg-Handles t c index begin block_len s w o =
      let a =
        process_requests-Advances I garbage t c.local_requests s index begin block_len w.asked w.few
          o in
      record {
        torrent = t;
        state = record c {
          local_requests = a.requests;
          blocks_recvd = (c.blocks_recvd + 1) % 2 ^ 32;
        };
        socket = s;
        gives = rw a.gives refl;
        connected = record {
          counted = w.counted;
          sound = w.sound;
          peer_bits = w.peer_bits;
          local_bits = w.local_bits;
          few = a.few;
          asked = a.asked;
        };
        same_pieces = refl;
        quiet = refl;
      }

  -- On a connection with IsConnected, process_msg returns for every message that names pieces of the
  -- torrent, if it is not a block that completes a request of the connection, and keeps IsConnected:
  -- the count of the missing pieces stays right, there is at most one request and its piece is not the
  -- torrent's yet, and the bitfields keep their length; no byte is taken from the peer.
  pub process_msg-IsConnected :
      (t : Torrent) (c : ConnState) (msg : PeerMsg) (s : S.State)
      → IsConnected t c
      → IsAcceptable t msg
      → IsPending c msg
      → Handles I garbage t s (process_msg S garbage msg t c s)
  unfolding process_msg
  process_msg-IsConnected t c keepalive s w h o = Handles-state I garbage t c s w
  process_msg-IsConnected t c choke s w h o =
      Handles-state I garbage t _ s (IsConnected-fields _ _ _ w)
  process_msg-IsConnected t c unchoke s w h o =
      Handles-state I garbage t _ s (IsConnected-fields _ _ _ w)
  process_msg-IsConnected t c interested s w h o =
      Handles-state I garbage t _ s (IsConnected-fields _ _ _ w)
  process_msg-IsConnected t c not_interested s w h o =
      Handles-state I garbage t _ s (IsConnected-fields _ _ _ w)
  process_msg-IsConnected t c (request index begin len) s w h o =
      Handles-state I garbage t _ s (IsConnected-fields _ _ _ w)
  process_msg-IsConnected t c cancel s w h o = Handles-state I garbage t c s w
  process_msg-IsConnected t c (port listen_port) s w h o = Handles-state I garbage t c s w
  process_msg-IsConnected t c (PeerMsg.have index) s w h o =
      process_have-Handles I garbage t c index s w h
  process_msg-IsConnected t c (bitfield bits) s w h o =
      process_bitfield-Handles I garbage t c bits s w h
  process_msg-IsConnected t c (piece index begin block_len) s w h o =
      process_piece_msg-Handles t c index begin block_len s w o

  -- On a connection with IsConnected, a peer that says it has a piece which is not in the metainfo
  -- makes process_msg fail.
  pub process_msg_outside :
      (t : Torrent) (c : ConnState) (index : ℕ) (s : S.State)
      → IsConnected t c
      → length t.pieces ≤ index
      → process_msg S garbage (PeerMsg.have index) t c s ≡ fault
  unfolding process_msg process_have
  process_msg_outside t c index s w h =
      let ours = bit_at-fault c.local_have index (omega (arith, w.local_bits)) in
      let theirs = bit_at-fault c.peer_have index (omega (arith, w.peer_bits)) in
      elim (Bool-cases c.local.interested) [
        | inl before ↦ rw (before, theirs) refl
        | inr now ↦ rw (now, ours) refl
      ]

  -- On a connection with IsConnected, at the block that completes its request process_msg comes to
  -- undefined behaviour, whether the piece is valid or not: the iterator is moved on from the end of
  -- the list. Where a SHA-1 buffer has 64 bytes.
  pub process_msg_completing :
      (t : Torrent) (c : ConnState) (r : PieceRequest) (begin block_len : ℕ) (s : S.State)
      → length garbage ≡ 64
      → IsConnected t c
      → c.local_requests ≡ r ∷ []
      → (count_block r begin block_len).blocks_left ≡ 0
      → process_msg S garbage (piece r.piece_index begin block_len) t c s ≡ fault
  unfolding process_msg process_piece_msg
  process_msg_completing t c r begin block_len s g w one z =
      let (a, _) : All (IsAsked t) (r ∷ []) = subst (All (IsAsked t)) one w.asked in
      rw (one, process_requests-finished I garbage t r s begin block_len g w.counted w.sound a z)
        refl

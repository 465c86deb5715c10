-- ===== src/Connection/Outgoing.antt =====
-- send_requests of src/peer_connection.cpp: what the peer is asked for.
pub mod Asking
use daobell.Prelude.{
  ℕ, zero, suc, ◌-◌, ◌==◌, if◌then◌else◌, Bool, true, false, ◌&&◌, List, [], ◌∷◌, ◌++◌, length,
  Option, none, some, Outcome, ok, ◌>>=◌,
}
use daobell.Torrent.{Torrent, torrent_next_request}
use daobell.Pieces.{BlockRequest, PieceRequest, piece_request_create}
use daobell.Net.{Socket, Action, and_then}
use daobell.Message.{request}
use daobell.Message.Send.{peer_msg_send}
use daobell.Connection.{ConnState, show_not_interested}

-- PEER_NUM_OUTSTANDING_REQUESTS
abbrev pub peer_num_outstanding_requests : ℕ
peer_num_outstanding_requests = 1

module _ (S : Socket) where
  -- A request for each block of a piece.
  unfoldable pub request_blocks : Torrent → ℕ → List BlockRequest → Action S (Unit {0})
  request_blocks t index [] s = ok (some tt, s)
  request_blocks t index (b ∷ blocks) s =
      and_then S (peer_msg_send S t (request index b.begin b.len))
        (λ _. request_blocks t index blocks) s

  -- What the loop leaves: whether the function returns -1, whether no piece was found, and the state.
  pub record Requested : Type 0 where
    pub failed : Bool
    pub not_interested : Bool
    pub torrent : Torrent
    pub state : ConnState

  -- After the requests for a piece: the return of -1, or the next round.
  abbrev pub after_sent :
      Torrent
      → ConnState
      → (S.State → Outcome (Requested × S.State))
      → Option (Unit {0}) × S.State
      → Outcome (Requested × S.State)
  after_sent t c next (none, s) =
      ok (record { failed = true; not_interested = false; torrent = t; state = c }, s)
  after_sent t c next (some _, s) = next s

  abbrev pub after_found :
      Torrent
      → ConnState
      → S.State
      → (ℕ → Torrent → Outcome (Requested × S.State))
      → Option (ℕ × Torrent)
      → Outcome (Requested × S.State)
  after_found t c s ask none =
      ok (record { failed = false; not_interested = true; torrent = t; state = c }, s)
  after_found t c s ask (some (index, t')) = ask index t'

  abbrev pub add_request : ConnState → PieceRequest → ConnState
  add_request c r = record c { local_requests = c.local_requests ++ r ∷ [] }

  -- The rounds of the loop that are left.
  unfoldable pub request_pieces : ℕ → Torrent → ConnState → S.State → Outcome (Requested × S.State)
  unfolding request_blocks
  request_pieces zero t c s =
      ok (record { failed = false; not_interested = false; torrent = t; state = c }, s)
  request_pieces (suc n) t c s =
      torrent_next_request t c.peer_have
      >>= after_found t c s (λ index t'. piece_request_create t' index >>= λ r.
          request_blocks t' r.piece_index r.block_requests s
          >>= after_sent t' (add_request c r) (request_pieces n t' (add_request c r)))

  -- The end of send_requests; `none` is -1.
  unfoldable pub finish_requests :
      Requested × S.State → Outcome ((Option (Unit {0}) × (Torrent × ConnState)) × S.State)
  finish_requests (g, s) =
      let t = g.torrent in
      let c = g.state in
      let shown = show_not_interested S t c s >>= λ (c', s'). ok ((some tt, (t, c')), s') in
      if g.failed
      then ok ((none, (t, c)), s)
      else if c.local.interested && g.not_interested
      then shown
      else ok ((some tt, (t, c)), s)

  -- The int n is not positive from one request on.
  unfoldable pub send_requests :
      Torrent
      → ConnState
      → S.State
      → Outcome ((Option (Unit {0}) × (Torrent × ConnState)) × S.State)
  unfolding request_pieces finish_requests
  send_requests t c s =
      let n = peer_num_outstanding_requests - length c.local_requests in
      let asked = request_pieces n t c s >>= finish_requests in
      if n == 0 then ok ((some tt, (t, c)), s) else asked

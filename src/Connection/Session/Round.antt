-- ===== src/Connection/Session/Round.antt =====
-- One round of the loop of a connection.
use daobell.Prelude.{Bytes, List, [], Option, Outcome, ok, ◌≡◌}
use daobell.Torrent.{Torrent}
use daobell.Net.{Socket}
use daobell.Net.Sending.{IsStream}
use daobell.Message.{PeerMsg}
use daobell.Connection.{ConnState}
use daobell.Connection.Incoming.Interest.{IsConnected}
use daobell.Connection.Session.{Poll}
use daobell.Connection.Session.Queue.{Served}

module _ {S : Socket} (I : IsStream S) (P : Poll S) (garbage : Bytes) where
  -- A round returned: the messages `msgs` were served, one after another, and what came next kept the
  -- connection.
  pub record Turns (msgs : List PeerMsg) (t : Torrent) (c : ConnState)
      (run : Outcome ((Option (Unit {0}) × (Torrent × ConnState)) × S.State)) : Type 0 where
    pub served_torrent : Torrent
    pub served_state : ConnState
    pub served : Served I P garbage served_torrent served_state msgs t c
    pub answer : Option (Unit {0})
    pub torrent : Torrent
    pub state : ConnState
    pub socket : S.State
    pub gives : run ≡ ok ((answer, (torrent, state)), socket)
    pub connected : IsConnected torrent state
    pub empty : I.pending socket ≡ []

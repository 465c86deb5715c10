-- ===== src/Downloader.antt =====
-- src/bt_downloader.cpp: what the tracker is told, and when.
pub mod Events
use daobell.Prelude.{
  ℕ, zero, suc, ◌+◌, ◌-◌, ◌%◌, ◌^◌, if◌then◌else◌, Bool, true, false, not, ◌&&◌, Bytes, List, [],
  ◌∷◌, Option, none, some,
}
use daobell.Torrent.{Torrent}
use daobell.Tracker.Response.{PeerInfo, TrackerAnnounceResp, set_has}
use daobell.Tracker.Announce.{TrackerAnnounceReq, TorrentEvent, started, completed}

abbrev pub request_has_numwant : ℕ
request_has_numwant = 2

abbrev pub request_has_compact : ℕ
request_has_compact = 8

abbrev pub request_has_event : ℕ
request_has_event = 64

-- The fields that are not set are the zeros of make_shared.
unfoldable pub create_tracker_request :
    (peer_id : Bytes) → (port : ℕ) → Torrent → TrackerAnnounceReq
unfolding set_has
create_tracker_request peer_id port t = record {
  has = set_has (set_has 0 request_has_compact) request_has_numwant;
  info_hash = t.info_hash;
  peer_id = peer_id;
  port = port;
  uploaded = t.sh.uploaded;
  downloaded = t.sh.downloaded;
  left = 0;
  compact = true;
  event = started;
  numwant = (t.max_peers + 2 ^ 32 - t.sh.peer_connections % 2 ^ 32) % 2 ^ 32;
  key = [];
  trackerid = [];
}

abbrev pub set_event : Bool → TorrentEvent → TrackerAnnounceReq → TrackerAnnounceReq
set_event true event req = record req { event = event; has = set_has req.has request_has_event }
set_event false event req = req

-- The request of a round: `before` and `now` are `completed` of the torrent at the last round and at
-- this one.
unfoldable pub round_request :
    (peer_id : Bytes) (port : ℕ) (was_started before now : Bool) → Torrent → TrackerAnnounceReq
unfolding create_tracker_request
round_request peer_id port was_started before now t =
    set_event (not before && now) completed
      (set_event (not was_started) started (create_tracker_request peer_id port t))

-- `tracker_announce` is a round trip to the tracker, `none` its NULL; `create_peer_connection` runs
-- the connection to a peer to its end, as peer_connection_create joins the thread that it makes.
module _ {World : Type 0}
    (tracker_announce : Bytes → TrackerAnnounceReq → World → Option TrackerAnnounceResp × World)
    (create_peer_connection : PeerInfo → Torrent → World → Torrent × World) where
  -- The loop over the peers of an answer.
  unfoldable pub connect_peers : List PeerInfo → Torrent → World → Torrent × World
  connect_peers [] t w = (t, w)
  connect_peers (p ∷ peers) t w =
      let (t', w') = create_peer_connection p t w in connect_peers peers t' w'

  -- Without an answer the tracker is asked again.
  unfoldable pub after_announce : Torrent → Option TrackerAnnounceResp × World → Torrent × World
  unfolding connect_peers
  after_announce t (none, w) = (t, w)
  after_announce t (some resp, w) = connect_peers resp.peers t w

  -- What the first rounds of the loop of periodic_announce ask the tracker, and what they leave. The
  -- sleep between two rounds is left out.
  unfoldable pub announce_rounds :
      ℕ
      → (peer_id : Bytes) (port : ℕ) (was_started before : Bool) → Torrent
      → World
      → List TrackerAnnounceReq × (Torrent × World)
  unfolding round_request after_announce
  announce_rounds zero peer_id port was_started before t w = ([], (t, w))
  announce_rounds (suc rounds) peer_id port was_started before t w =
      let now = t.sh.completed in
      let req = round_request peer_id port was_started before now t in
      let (t', w') = after_announce t (tracker_announce t.announce req w) in
      let (reqs, left) = announce_rounds rounds peer_id port true now t' w' in
      if t'.sh.completed then (req ∷ [], (t', w')) else (req ∷ reqs, left)

  unfoldable pub periodic_announce :
      ℕ
      → (peer_id : Bytes) (port : ℕ) → Torrent
      → World
      → List TrackerAnnounceReq × (Torrent × World)
  unfolding announce_rounds
  periodic_announce rounds peer_id port t w =
      announce_rounds rounds peer_id port false t.sh.completed t w

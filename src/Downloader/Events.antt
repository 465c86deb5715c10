-- ===== src/Downloader/Events.antt =====
-- The events that the tracker is told.
use daobell.Prelude.{
  ℕ, zero, suc, Bool, true, false, Bool-cases, inl, inr, Bytes, List, [], ◌∷◌, Option, All, ◌≡◌,
  refl, subst, sym,
}
use daobell.Torrent.{Torrent}
use daobell.Tracker.Response.{PeerInfo, TrackerAnnounceResp, set_has}
use daobell.Tracker.Announce.{TrackerAnnounceReq, started, has_flag}
use daobell.Downloader.{
  create_tracker_request, round_request, announce_rounds, periodic_announce, request_has_event,
  after_announce,
}

abbrev pub TellsNothing : TrackerAnnounceReq → Type 0
TellsNothing req = has_flag req.has request_has_event ≡ false

-- The first request tells of the start, the others of nothing.
abbrev pub TellsStart : List TrackerAnnounceReq → Type 0
TellsStart [] = ⊥
TellsStart (req ∷ reqs) =
    (has_flag req.has request_has_event ≡ true) × (req.event ≡ started) × All TellsNothing reqs

round_request-nothing :
    (peer_id : Bytes) (port : ℕ) (before : Bool) (t : Torrent)
    → TellsNothing (round_request peer_id port true before false t)
unfolding round_request set_has create_tracker_request
round_request-nothing peer_id port true t = refl
round_request-nothing peer_id port false t = refl

round_request-start :
    (peer_id : Bytes) (port : ℕ) (now : Bool) (t : Torrent)
    → (has_flag (round_request peer_id port false now now t).has request_has_event ≡ true)
      × ((round_request peer_id port false now now t).event ≡ started)
unfolding round_request set_has create_tracker_request
round_request-start peer_id port true t = (refl, refl)
round_request-start peer_id port false t = (refl, refl)

module _ {World : Type 0}
    (tracker_announce : Bytes → TrackerAnnounceReq → World → Option TrackerAnnounceResp × World)
    (create_peer_connection : PeerInfo → Torrent → World → Torrent × World) where
  announce_rounds-nothing :
      (rounds : ℕ) (peer_id : Bytes) (port : ℕ) (before : Bool) (t : Torrent) (w : World)
      → t.sh.completed ≡ false
      → All TellsNothing
          (announce_rounds tracker_announce create_peer_connection rounds peer_id port true before t
            w).0
  unfolding announce_rounds
  announce_rounds-nothing zero peer_id port before t w h = tt
  announce_rounds-nothing (suc rounds) peer_id port before t w h =
      let req = round_request peer_id port true before t.sh.completed t in
      let next =
        after_announce tracker_announce create_peer_connection t
          (tracker_announce t.announce req w) in
      let quiet : TellsNothing req =
        subst (λ now. TellsNothing (round_request peer_id port true before now t)) (sym h)
          (round_request-nothing peer_id port before t) in
      elim (Bool-cases next.0.sh.completed) [
        | inl done ↦ rw done (quiet, tt)
        | inr more ↦
            rw more
              (quiet, announce_rounds-nothing rounds peer_id port t.sh.completed next.0 next.1 more)
      ]

  -- However many rounds periodic_announce makes, the first request has the event `started`, and no
  -- other has an event: `completed` is never told, since the loop ends where the torrent is complete.
  -- Whatever the tracker answers, and whatever the connections do to the torrent.
  pub periodic_announce-TellsStart :
      (rounds : ℕ) (peer_id : Bytes) (port : ℕ) (t : Torrent) (w : World)
      → TellsStart
          (periodic_announce tracker_announce create_peer_connection
            (suc rounds)
            peer_id
            port
            t
            w).0
  unfolding periodic_announce announce_rounds
  periodic_announce-TellsStart rounds peer_id port t w =
      let req = round_request peer_id port false t.sh.completed t.sh.completed t in
      let next =
        after_announce tracker_announce create_peer_connection t
          (tracker_announce t.announce req w) in
      let (flag, event) = round_request-start peer_id port t.sh.completed t in
      elim (Bool-cases next.0.sh.completed) [
        | inl done ↦ rw done (flag, event, tt)
        | inr more ↦ rw more (
          flag,
          event,
          announce_rounds-nothing rounds peer_id port t.sh.completed next.0 next.1 more,
        )
      ]

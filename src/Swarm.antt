-- ===== src/Swarm.antt =====
-- The connections of src/peer_connection.cpp on one torrent. Each step is what one of them does to
-- it, and to its shared part under sh_mutex; a run is any order of such steps, so that the order in
-- which the program runs its connections, one joined after another, is among them.
pub mod Steps
pub mod Counting
pub mod Race
use daobell.Prelude.{
  ℕ, ◌+◌, Bytes, false, Bool, true, List, [], ◌∷◌, ◌++◌, length, get_elem?, Option, none, some, ok,
  ◌≡◌,
}
use daobell.Files.{DnldFile}
use daobell.Torrent.Verify.{torrent_sha1_verify}
use daobell.Torrent.{Torrent, PieceState, is_have, torrent_next_request}
use daobell.Connection.{mark_piece, reject_piece, torrent_complete}

-- The torrent, and the pieces of the requests of all connections: one that two ask for is there twice.
pub record Swarm : Type 0 where
  pub torrent : Torrent
  pub asked : List ℕ

-- Whether a rejection takes a piece from the torrent.
unfoldable pub one_if_had : Option PieceState → ℕ
unfolding is_have
one_if_had none = 0
one_if_had (some s) = elim (is_have s) [ true ↦ 1 | _ ↦ 0 ]

unfoldable pub lost_piece : Torrent → ℕ → ℕ
unfolding one_if_had
lost_piece t p = one_if_had (get_elem? t.sh.pieces_state p)

-- A step, and how many pieces the torrent loses by it. `garbage` is what malloc leaves in a SHA-1
-- context.
pub data Move (garbage : Bytes) (w : Swarm) : Swarm → ℕ → Type 0 where
  -- send_requests asks for a piece.
  asks :
      (peer_have : List Bool) (p : ℕ) (t : Torrent)
      → torrent_next_request w.torrent peer_have ≡ ok (some (p, t))
      → Move garbage w (record { torrent = t; asked = w.asked ++ p ∷ [] }) 0
  -- peer_msg_recv_piece: a block changes what the files hold, to whatever comes.
  writes :
      (files : List DnldFile)
      → Move garbage w (record w { torrent = record w.torrent { files = files } }) 0
  -- handle_piece_dnld_completion.
  downloads :
      (front back : List ℕ) (p : ℕ) (t : Torrent) (completed : Bool)
      → w.asked ≡ front ++ p ∷ back
      → mark_piece w.torrent p (get_elem? w.torrent.sh.pieces_state p) ≡ ok (t, completed)
      → Move garbage w (record { torrent = t; asked = front ++ back }) 0
  -- process_piece_msg, for a piece that fails its check.
  rejects :
      (front back : List ℕ) (p : ℕ)
      → w.asked ≡ front ++ p ∷ back
      → torrent_sha1_verify garbage w.torrent p ≡ ok false
      → Move garbage w
          (record { torrent = reject_piece w.torrent p; asked = front ++ back })
          (lost_piece w.torrent p)
  -- After the last piece was downloaded.
  completes :
      w.torrent.sh.completed ≡ true
      → Move garbage w (record w { torrent = torrent_complete w.torrent }) 0
  -- A connection ends, and its requests with it.
  leaves :
      (front requests back : List ℕ)
      → w.asked ≡ front ++ (requests ++ back)
      → Move garbage w (record w { asked = front ++ back }) 0

-- Any number of steps of any of the connections, and the pieces lost by all of them.
pub data Runs (garbage : Bytes) (w : Swarm) : Swarm → ℕ → Type 0 where
  rests : Runs garbage w w 0
  goes_on :
      (v u : Swarm) (m n : ℕ) → Runs garbage w v m → Move garbage v u n → Runs garbage w u (m + n)

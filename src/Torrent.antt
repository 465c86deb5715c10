-- ===== src/Torrent.antt =====
-- src/torrent_info.h and src/torrent_info.cpp: what a torrent is, with the part that the connections
-- share, and the choice of the next piece. A mutex is held around each access to `sh`, so that an
-- operation on it is one step.
pub mod Bitfield
pub mod Requests
pub mod Verify
pub mod Counting
pub mod Sound
use daobell.Prelude.{
  ℕ, ◌+◌, ◌-◌, Bytes, Bool, true, false, ◌&&◌, ◌||◌, ◌==◌, if◌then◌else◌, List, [], ◌∷◌, ◌++◌,
  length, take, set, replicate, Option, none, some, Outcome, ok, fault, ◌>>=◌,
}
use daobell.Files.{DnldFile}

-- The states of a piece, an enum of ints.
pub data PieceState : Type 0 where
  not_requested requested have : PieceState

-- torrent_info::sh, guarded by sh_mutex.
pub record Shared : Type 0 where
  pub pieces_state : List PieceState
  pub peer_connections : ℕ
  pub pieces_left : ℕ
  pub uploaded : ℕ
  pub downloaded : ℕ
  pub completed : Bool

pub record Torrent : Type 0 where
  pub announce : Bytes
  pub creation_date : ℕ
  pub piece_length : ℕ
  pub files : List DnldFile
  pub info_hash : Bytes
  pub max_peers : ℕ
  pub pieces : List Bytes
  pub sh : Shared

unfoldable pub is_not_requested : PieceState → Bool
is_not_requested not_requested = true
is_not_requested _ = false

unfoldable pub is_requested : PieceState → Bool
is_requested requested = true
is_requested _ = false

unfoldable pub is_have : PieceState → Bool
is_have have = true
is_have _ = false

-- out->resize(n, false)
unfoldable pub resize : ℕ → List Bool → List Bool
resize n bits = take n bits ++ replicate (n - length bits) false

-- The loop of torrent_make_bitfield; `at` throws past the end of pieces_state.
unfoldable pub mark_have : List PieceState → List Bool → Outcome (List Bool)
mark_have states [] = ok []
mark_have [] (b ∷ bits) = fault
mark_have (s ∷ states) (b ∷ bits) =
    mark_have states bits >>= λ rest. ok ((if is_have s then true else b) ∷ rest)

unfoldable pub torrent_make_bitfield : Torrent → List Bool → Outcome (List Bool)
torrent_make_bitfield t out = mark_have t.sh.pieces_state (resize (length t.pieces) out)

-- The loop of torrent_next_request from piece i on: `request` is the last piece seen that was
-- requested already, and a piece that was not ends the loop.
unfoldable pub search_request : List PieceState → List Bool → ℕ → Option ℕ → Option ℕ
search_request [] peer_have i request = request
search_request states [] i request = request
search_request (s ∷ states) (p ∷ peer_have) i request =
    let rest =
      search_request states peer_have (i + 1) (if is_requested s && p then some i else request) in
    if is_not_requested s && p then some i else rest

unfoldable pub set_state : Torrent → ℕ → PieceState → Torrent
set_state t index s = record t { sh = record t.sh { pieces_state = set t.sh.pieces_state index s } }

-- The piece to ask for and the torrent after; `none` is the return of -1.
unfoldable pub torrent_next_request : Torrent → List Bool → Outcome (Option (ℕ × Torrent))
torrent_next_request t peer_have =
    if length t.pieces == length t.sh.pieces_state && length t.pieces == length peer_have
    then ok (elim (search_request t.sh.pieces_state peer_have 0 none) [
      | none ↦ none
      | some index ↦ some (index, set_state t index requested)
    ])
    else fault

-- ===== src/Connection/Incoming/Finished.antt =====
-- process_requests, over the one request that a connection has: what a block does that completes it,
-- and one that does not.
use daobell.Prelude.{
  ℕ, ◌≤◌, ◌<◌, ◌==◌, Bool, true, false, Bool-cases, inl, inr, if◌then◌else◌, List, [], ◌∷◌, length,
  get_elem?-lt, get_elem?-some, Option, none, some, Bytes, All, Outcome, ok, ◌≡◌, refl, arith,
  fault, ◌≢◌, ==_iff, ==_ne,
}
use daobell.Torrent.{Torrent}
use daobell.Torrent.Counting.{IsCounted}
use daobell.Torrent.Sound.{IsSound}
use daobell.Torrent.Verify.Hash.{torrent_sha1_verify-reference}
use daobell.Pieces.{PieceRequest, BlockRequest}
use daobell.Net.{Socket}
use daobell.Net.Sending.{IsStream}
use daobell.Connection.{reject_piece, handle_piece_dnld_completion}
use daobell.Connection.Completion.{handle_piece_dnld_completion-Completes}
use daobell.Connection.Incoming.{with_blocks, count_block, finish_piece, process_requests}
use daobell.Connection.Incoming.Interest.{IsAsked}

with_blocks-piece_index :
    (r : PieceRequest) (blocks : Option (List BlockRequest))
    → (with_blocks r blocks).piece_index ≡ r.piece_index
with_blocks-piece_index r none = refl
with_blocks-piece_index r (some blocks) = refl

-- The block leaves its request open.
abbrev pub LeavesOpen : (index begin block_len : ℕ) → PieceRequest → Type 0
LeavesOpen index begin block_len r =
    r.piece_index ≡ index → (count_block r begin block_len).blocks_left ≢ 0

module _ {S : Socket} (I : IsStream S) (garbage : Bytes) where
  -- The end of a piece is reached, whether the piece is valid or not.
  finish_valid :
      (t : Torrent) (index : ℕ) (s : S.State) (valid : Bool)
      → IsCounted t
      → index < length t.pieces
      → (t' : Torrent) × (s' : S.State) × ((if valid
            then handle_piece_dnld_completion S t index s
            else ok (reject_piece t index, s))
          ≡ ok (t', s'))
  finish_valid t index s true w h =
      let c = handle_piece_dnld_completion-Completes I t index s w h in
      (c.torrent, c.socket, c.gives)
  finish_valid t index s false w h = (reject_piece t index, s, refl)

  finish_piece-ends :
      (t : Torrent) (r : PieceRequest) (s : S.State)
      → length garbage ≡ 64
      → IsCounted t
      → IsSound t
      → IsAsked t r
      → (t' : Torrent) × (s' : S.State) × (finish_piece S garbage t r.piece_index s ≡ ok (t', s'))
  unfolding finish_piece
  finish_piece-ends t r s g w k (state, e, ne) =
      let h = get_elem?-lt t.sh.pieces_state r.piece_index state e in
      let inside : r.piece_index < length t.pieces = omega (arith, w.sized) in
      let (hash, found) = get_elem?-some t.pieces r.piece_index inside in
      let d =
        torrent_sha1_verify-reference garbage hash t r.piece_index k.blocks g k.mapped k.whole
          k.word (k.begins r.piece_index inside) found (k.hashed r.piece_index hash found) in
      rw d.gives (finish_valid t r.piece_index s d.answer w inside)

  pub process_requests-finished :
      (t : Torrent) (r : PieceRequest) (s : S.State) (begin block_len : ℕ)
      → length garbage ≡ 64
      → IsCounted t
      → IsSound t
      → IsAsked t r
      → (count_block r begin block_len).blocks_left ≡ 0
      → process_requests S garbage r.piece_index begin block_len [] (r ∷ []) t s ≡ fault
  unfolding process_requests
  process_requests-finished t r s begin block_len g w k a z =
      let (t', s', run) = finish_piece-ends t r s g w k a in
      let this = (==_iff r.piece_index r.piece_index).1 refl in
      let last = (==_iff (count_block r begin block_len).blocks_left 0).1 z in
      rw (this, last, run) refl

  -- The requests after a block that leaves them open.
  pub record Advances (t : Torrent) (s : S.State)
      (run : Outcome ((Torrent × List PieceRequest) × S.State)) : Type 0 where
    pub requests : List PieceRequest
    pub gives : run ≡ ok ((t, requests), s)
    pub few : length requests ≤ 1
    pub asked : All (IsAsked t) requests

  pub process_requests-Advances :
      (t : Torrent) (requests : List PieceRequest) (s : S.State) (index begin block_len : ℕ)
      → All (IsAsked t) requests
      → length requests ≤ 1
      → All (LeavesOpen index begin block_len) requests
      → Advances t s (process_requests S garbage index begin block_len [] requests t s)
  unfolding process_requests
  process_requests-Advances t [] s index begin block_len a h o = record {
    requests = [];
    gives = refl;
    few = omega arith;
    asked = tt;
  }
  process_requests-Advances t (q ∷ r ∷ rest) s index begin block_len a h o = absurd (omega arith)
  process_requests-Advances t (r ∷ []) s index begin block_len a h o =
      let r' = count_block r begin block_len in
      let same : r'.piece_index ≡ r.piece_index =
        unfold count_block in with_blocks-piece_index r _ in
      elim (Bool-cases (r.piece_index == index)) [
        | inr other ↦
            rw other
              (record { requests = r ∷ []; gives = refl; few = omega arith; asked = (a.0, tt) })
        | inl this ↦
            let open_still = ==_ne r'.blocks_left 0 (o.0 ((==_iff r.piece_index index).0 this)) in
            rw (this, open_still)
              (record {
                requests = r' ∷ [];
                gives = refl;
                few = omega arith;
                asked = (rw same a.0, tt);
              })
      ]

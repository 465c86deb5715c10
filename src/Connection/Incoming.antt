-- ===== src/Connection/Incoming.antt =====
-- process_piece_msg and process_msg of src/peer_connection.cpp: what a message changes.
pub mod Blocks
pub mod Interest
pub mod Finished
pub mod Safety
use daobell.Prelude.{
  ℕ, zero, suc, ◌+◌, ◌-◌, ◌%◌, ◌^◌, set, ltb, ◌==◌, ◌&&◌, if◌then◌else◌, Bool, true, false, not,
  List, [], ◌∷◌, ◌++◌, length, get_elem?, Option, none, some, Bytes, Outcome, ok, fault, ◌>>=◌,
}
use daobell.Torrent.{Torrent, PieceState, is_have}
use daobell.Torrent.Verify.{torrent_sha1_verify}
use daobell.Pieces.{BlockRequest, PieceRequest}
use daobell.Net.{Socket}
use daobell.Message.{
  PeerMsg, keepalive, choke, unchoke, interested, not_interested, cancel, have, bitfield, request,
  piece, port,
}
use daobell.Connection.{
  ConnState, PeerState, RequestMsg, reject_piece, show_interested, handle_piece_dnld_completion,
}

-- blocks_left--
abbrev pub dec32 : ℕ → ℕ
dec32 n = (n + (2 ^ 32 - 1)) % 2 ^ 32

abbrev keep_block : BlockRequest → Option (List BlockRequest) → Option (List BlockRequest)
keep_block b none = none
keep_block b (some blocks) = some (b ∷ blocks)

-- The inner loop: the first block of this place and length is completed; `none` without one. A
-- block that was completed before is taken once more.
unfoldable pub complete_block :
    List BlockRequest → (begin block_len : ℕ) → Option (List BlockRequest)
complete_block [] begin block_len = none
complete_block (b ∷ blocks) begin block_len =
    let rest = keep_block b (complete_block blocks begin block_len) in
    if b.len == block_len && b.begin == begin
    then some (record b { completed = true } ∷ blocks)
    else rest

abbrev pub with_blocks : PieceRequest → Option (List BlockRequest) → PieceRequest
with_blocks r none = r
with_blocks r (some blocks) = record r {
  block_requests = blocks;
  blocks_left = dec32 r.blocks_left;
}

-- A request after a block of its piece.
unfoldable pub count_block : PieceRequest → (begin block_len : ℕ) → PieceRequest
unfolding complete_block
count_block r begin block_len = with_blocks r (complete_block r.block_requests begin block_len)

-- dynamic_bitset's operator[], which requires that the index is below the size.
unfoldable pub bit_at : List Bool → ℕ → Outcome Bool
bit_at [] i = fault
bit_at (b ∷ bits) zero = ok b
bit_at (b ∷ bits) (suc i) = bit_at bits i

-- peer_have[i] = bits[i], for each i.
unfoldable pub copy_bits : List Bool → List Bool → Outcome (List Bool)
copy_bits [] bits = ok []
copy_bits (p ∷ peer_have) [] = fault
copy_bits (p ∷ peer_have) (b ∷ bits) = copy_bits peer_have bits >>= λ rest. ok (b ∷ rest)

-- The loop that looks for a piece that the torrent does not have and the peer has; `at` throws.
unfoldable pub finds_wanted : List Bytes → List PieceState → List Bool → Outcome Bool
finds_wanted [] states peer_have = ok false
finds_wanted (_ ∷ pieces) [] peer_have = fault
finds_wanted (_ ∷ pieces) (s ∷ states) [] = fault
finds_wanted (_ ∷ pieces) (s ∷ states) (p ∷ peer_have) =
    let rest = finds_wanted pieces states peer_have in
    if not (is_have s) && p then ok true else rest

-- `garbage` is what malloc leaves in a SHA-1 context.
module _ (S : Socket) (garbage : Bytes) where
  -- A whole piece has come: it is the torrent's, or has to be requested again.
  unfoldable pub finish_piece : Torrent → ℕ → S.State → Outcome (Torrent × S.State)
  finish_piece t index s = torrent_sha1_verify garbage t index >>= λ valid.
      if valid then handle_piece_dnld_completion S t index s else ok (reject_piece t index, s)

  -- The loop over the requests, `before` those that it has passed. `remove(*piece_it++)` and the ++ of
  -- the loop take the iterator past one request more; from the last request that is to move it on from
  -- end(), which is undefined.
  unfoldable pub process_requests :
      (index begin block_len : ℕ)
      → List PieceRequest
      → List PieceRequest
      → Torrent
      → S.State
      → Outcome ((Torrent × List PieceRequest) × S.State)
  unfolding count_block finish_piece
  process_requests index begin block_len before [] t s = ok ((t, before), s)
  process_requests index begin block_len before (r ∷ []) t s =
      let r' = count_block r begin block_len in
      let finished = finish_piece t r.piece_index s >>= λ _. fault in
      if r.piece_index == index
      then if r'.blocks_left == 0 then finished else ok ((t, before ++ r' ∷ []), s)
      else ok ((t, before ++ r ∷ []), s)
  process_requests index begin block_len before (r ∷ q ∷ rest) t s =
      let r' = count_block r begin block_len in
      let finished = finish_piece t r.piece_index s >>= λ (t', s').
      process_requests index begin block_len (before ++ q ∷ []) rest t' s' in
      let counted = process_requests index begin block_len (before ++ r' ∷ []) (q ∷ rest) t s in
      let other = process_requests index begin block_len (before ++ r ∷ []) (q ∷ rest) t s in
      if r.piece_index == index then if r'.blocks_left == 0 then finished else counted else other

  -- State, torrent and socket after a handler.
  abbrev pub After : Type 0
  After = Outcome ((Torrent × ConnState) × S.State)

  unfoldable pub process_piece_msg :
      (index begin block_len : ℕ) → Torrent → ConnState → S.State → After
  unfolding process_requests
  process_piece_msg index begin block_len t c s =
      process_requests index begin block_len [] c.local_requests t s >>= λ ((t', requests), s').
      ok ((t', record c { local_requests = requests }), s')

  -- MSG_HAVE. The test of local_have is as in the source, where its negation is meant.
  unfoldable pub process_have : ℕ → Torrent → ConnState → S.State → After
  unfolding bit_at
  process_have index t c s =
      let shown =
        bit_at c.local_have index >>= λ ours. if ours then show_interested S t c s else ok (c, s) in
      (if c.local.interested then ok (c, s) else shown) >>= λ (c', s').
      bit_at c'.peer_have index >>= λ _.
      ok ((t, record c' { peer_have = set c'.peer_have index true }), s')

  -- MSG_BITFIELD
  unfoldable pub process_bitfield : List Bool → Torrent → ConnState → S.State → After
  unfolding copy_bits finds_wanted
  process_bitfield bits t c s = copy_bits c.peer_have bits >>= λ peer_have.
      let c' = record c { peer_have = peer_have } in
      finds_wanted t.pieces t.sh.pieces_state peer_have >>= λ interested.
      (if interested then show_interested S t c' s else ok (c', s)) >>= λ (c'', s').
      ok ((t, c''), s')

  unfoldable pub process_msg : PeerMsg → Torrent → ConnState → S.State → After
  unfolding process_piece_msg process_have process_bitfield
  process_msg keepalive t c s = ok ((t, c), s)
  process_msg choke t c s = ok ((t, record c { local = record c.local { choked = true } }), s)
  process_msg unchoke t c s = ok ((t, record c { local = record c.local { choked = false } }), s)
  process_msg interested t c s =
      ok ((t, record c { remote = record c.remote { interested = true } }), s)
  process_msg not_interested t c s =
      ok ((t, record c { remote = record c.remote { interested = false } }), s)
  process_msg (have index) t c s = process_have index t c s
  process_msg (bitfield bits) t c s = process_bitfield bits t c s
  process_msg (request index begin len) t c s = ok (
    (
      t,
      record c {
        peer_requests = c.peer_requests ++ record { index = index; begin = begin; len = len } ∷ [];
      },
    ),
    s,
  )
  process_msg (piece index begin block_len) t c s =
      process_piece_msg index begin block_len t c s >>= λ ((t', c'), s').
      ok ((t', record c' { blocks_recvd = (c'.blocks_recvd + 1) % 2 ^ 32 }), s')
  process_msg cancel t c s = ok ((t, c), s)
  process_msg (port listen_port) t c s = ok ((t, c), s)

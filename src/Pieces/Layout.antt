-- ===== src/Pieces/Layout.antt =====
-- piece_request_create gives the blocks of the piece, and piece_request_block_at finds them.
use daobell.Prelude.{
  ℕ, zero, suc, ◌+◌, ◌*◌, ◌%◌, ◌<◌, ◌≤◌, Bytes, List, [], ◌∷◌, length, take, drop, get_elem?,
  length-drop, drop-ne-nil, List-cases, inl, inr, arith, ◌≡◌, ◌≢◌, refl, ok, length-append, ==_ne,
  ==_refl,
}
use daobell.Files.{DnldFile, AreMapped, content}
use daobell.Torrent.{Torrent}
use daobell.Pieces.{
  BlockRequest, Cursor, PieceRequest, skip_until_index, create_blocks, create_fuel, total_size,
  piece_request_create, block_at, u32_mod, peer_request_size,
}
use daobell.Pieces.Create.{IsEnough, IsLayout, IsReady, Creates, create_blocks-Creates, read_blocks}
use daobell.Pieces.Skip.{skip_until_index-IsAt}

-- The blocks of a request are those of these bytes, 16 KB apart.
pub record IsRequest (t : Torrent) (index : ℕ) (bytes : Bytes) (r : PieceRequest) : Type 0 where
  pub index_set : r.piece_index ≡ index
  pub counted : r.blocks_left ≡ length r.block_requests
  pub reads : read_blocks t.files r.block_requests ≡ bytes
  pub layout : IsLayout t.files 0 r.block_requests

length-content :
    (files : List DnldFile) → AreMapped files → length (content files) ≡ total_size files
unfolding content total_size
length-content [] m = refl
length-content (f ∷ fs) m =
    omega (arith, length-append f.contents (content fs), length-content fs m.1, m.0.0)

content-drop-le :
    (files : List DnldFile) (i : ℕ) → length (content (drop i files)) ≤ length (content files)
unfolding content
content-drop-le files zero = omega arith
content-drop-le [] (suc i) = omega arith
content-drop-le (f ∷ fs) (suc i) =
    omega (arith, content-drop-le fs i, length-append f.contents (content fs))

create_fuel-IsEnough : (t : Torrent) (c : Cursor) → AreMapped t.files → IsEnough (create_fuel t) t c
unfolding create_fuel
create_fuel-IsEnough t c m = elim (List-cases (drop c.files_vec_index t.files)) [
  | inl e ↦ inl (e, omega arith)
  | inr e ↦ inr (
      omega (
        arith,
        length-drop c.offset (content (drop c.files_vec_index t.files)),
        content-drop-le t.files c.files_vec_index,
        length-content t.files m,
        drop-ne-nil c.files_vec_index t.files e,
      ))
]

-- The cursor at which piece_request_create starts.
unfoldable pub start_cursor : Torrent → ℕ → Cursor
start_cursor t index = record {
  offset = (skip_until_index t index).0;
  left = t.piece_length;
  files_vec_index = (skip_until_index t index).1;
}

pub start_cursor-IsReady :
    (t : Torrent) (index k : ℕ)
    → AreMapped t.files
    → t.piece_length ≡ k * peer_request_size
    → t.piece_length < u32_mod
    → IsReady t (start_cursor t index) k
unfolding start_cursor
start_cursor-IsReady t index k m e lt = record {
  mapped = m;
  place = (skip_until_index-IsAt t index m).0;
  whole = e;
  within = omega arith;
  word = lt;
}

pub create_run :
    (t : Torrent) (index k : ℕ)
    → AreMapped t.files
    → t.piece_length ≡ k * peer_request_size
    → t.piece_length < u32_mod
    → Creates t.files 0
        (take t.piece_length (drop ((t.piece_length * index) % u32_mod) (content t.files)))
        (create_blocks (create_fuel t) t (start_cursor t index))
unfolding start_cursor
create_run t index k m e lt =
    let ready = start_cursor-IsReady t index k m e lt in
    rw (skip_until_index-IsAt t index m).1 at (
      create_blocks-Creates (create_fuel t) t (start_cursor t index) k 0 ready (omega arith)
        (create_fuel-IsEnough t (start_cursor t index) m))

-- Whatever the index, the request is made, and its blocks spell the bytes of the files from the
-- product of piece length and index on, reduced modulo 2 ^ 32. Where the piece length is a multiple of
-- 16 KB below 4 GiB, and the files are mapped and as long.
pub piece_request_create_wrapped :
    (t : Torrent) (index k : ℕ)
    → AreMapped t.files
    → t.piece_length ≡ k * peer_request_size
    → t.piece_length < u32_mod
    → (r : PieceRequest) × (piece_request_create t index ≡ ok r)
      × IsRequest t index
          (take t.piece_length (drop ((t.piece_length * index) % u32_mod) (content t.files)))
          r
unfolding piece_request_create start_cursor
piece_request_create_wrapped t index k m e lt =
    let run = create_run t index k m e lt in
    (
      record { piece_index = index; block_requests = run.blocks; blocks_left = length run.blocks },
      rw run.gives,
      record { index_set = refl; counted = refl; reads = run.reads; layout = run.layout },
    )

-- The request for a piece is made, and its blocks are the piece: the bytes of the files, end to
-- end, from `piece_length * index` on. Where the piece length is a multiple of 16 KB and the piece
-- begins below 4 GiB.
pub piece_request_create_lem :
    (t : Torrent) (index k : ℕ)
    → AreMapped t.files
    → t.piece_length ≡ k * peer_request_size
    → t.piece_length < u32_mod
    → t.piece_length * index < u32_mod
    → (r : PieceRequest) × (piece_request_create t index ≡ ok r)
      × IsRequest t index (take t.piece_length (drop (t.piece_length * index) (content t.files))) r
piece_request_create_lem t index k m e lt small =
    let start : (t.piece_length * index) % u32_mod ≡ t.piece_length * index = omega arith in
    rw start at (piece_request_create_wrapped t index k m e lt)

-- Offset 16 KB * j finds block number j, and no other block; past the last there is none.
pub block_at-layout :
    (files : List DnldFile) (start j : ℕ) (bs : List BlockRequest)
    → IsLayout files start bs
    → block_at bs (start + j * peer_request_size) ≡ get_elem? bs j
unfolding block_at
block_at-layout files start j [] l = refl
block_at-layout files start zero (b ∷ bs) l =
    let e : b.begin ≡ start + zero * peer_request_size = omega (arith, l.0) in
    rw (e, ==_refl (start + zero * peer_request_size))
block_at-layout files start (suc j) (b ∷ bs) l =
    let e : start + suc j * peer_request_size ≡ start + peer_request_size + j * peer_request_size =
      omega arith in
    let differ : b.begin ≢ start + peer_request_size + j * peer_request_size = omega (arith, l.0) in
    rw (e, ==_ne b.begin _ differ) (block_at-layout files (start + peer_request_size) j bs l.3)

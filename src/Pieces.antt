-- ===== src/Pieces.antt =====
-- src/piece_request.cpp: the blocks of a piece, as stretches of the mapped files.
pub mod Gather
pub mod Block
pub mod Create
pub mod Skip
pub mod Layout
pub mod Spans
pub mod Tiles
pub mod Place
use daobell.Prelude.{
  ℕ, zero, suc, ◌+◌, ◌-◌, ◌*◌, ◌%◌, ◌^◌, Bool, false, ◌||◌, ltb, leb, ◌==◌, if◌then◌else◌, List, [],
  ◌∷◌, ◌++◌, length, drop, Option, none, some, Outcome, ok, out_of_fuel, ◌>>=◌,
}
use daobell.Files.{DnldFile, FileMem}
use daobell.Torrent.{Torrent}

-- PEER_REQUEST_SIZE
abbrev pub peer_request_size : ℕ
peer_request_size = 16384

abbrev pub u32_mod : ℕ
u32_mod = 2 ^ 32

abbrev pub u64_mod : ℕ
u64_mod = 2 ^ 64

-- a - b in size_t.
abbrev pub sub64 : ℕ → ℕ → ℕ
sub64 a b = (a + u64_mod - b) % u64_mod

pub record BlockRequest : Type 0 where
  pub file_mems : List FileMem
  pub begin : ℕ
  pub len : ℕ
  pub completed : Bool

pub record PieceRequest : Type 0 where
  pub piece_index : ℕ
  pub block_requests : List BlockRequest
  pub blocks_left : ℕ

-- The variables that skip_until_index and next_block_request change through their pointers.
pub record Cursor : Type 0 where
  pub offset : ℕ
  pub left : ℕ
  pub files_vec_index : ℕ

-- The loop of skip_until_index over the files from number i on.
unfoldable pub skip_files : List DnldFile → ℕ → ℕ → ℕ → ℕ × ℕ
skip_files [] i skip index = (0, index)
skip_files (f ∷ fs) i skip index =
    if skip == 0
    then (0, index)
    else if ltb skip f.size
    then (skip, i)
    else skip_files fs (i + 1) (skip - f.size) (index + 1)

-- The offset and the number of the file at which a piece begins; the product is an `unsigned`.
unfoldable pub skip_until_index : Torrent → ℕ → ℕ × ℕ
unfolding skip_files
skip_until_index t index = skip_files t.files 0 ((t.piece_length * index) % u32_mod) 0

-- The variables of the loop of next_block_request.
pub record Gathering : Type 0 where
  pub offset : ℕ
  pub left : ℕ
  pub files_vec_index : ℕ
  pub curr_size : ℕ
  pub file_mems : List FileMem

unfoldable pub gather_file : DnldFile → ℕ → Gathering → Gathering
gather_file f i g =
    let size = sub64 f.size g.offset in
    let room = peer_request_size - g.curr_size in
    if ltb room size
    then record {
      offset = g.offset + room;
      left = sub64 g.left room;
      files_vec_index = g.files_vec_index;
      curr_size = (g.curr_size + room) % u32_mod;
      file_mems = g.file_mems ++ record { file = i; mem = g.offset; size = room } ∷ [];
    }
    else record {
      offset = 0;
      left = sub64 g.left size;
      files_vec_index = g.files_vec_index + 1;
      curr_size = (g.curr_size + size) % u32_mod;
      file_mems = g.file_mems ++ record { file = i; mem = g.offset; size = size } ∷ [];
    }

unfoldable pub gather : List DnldFile → ℕ → Gathering → Gathering
gather [] i g = g
gather (f ∷ fs) i g =
    if ltb g.curr_size peer_request_size then gather fs (i + 1) (gather_file f i g) else g

unfoldable pub start_block : Cursor → Gathering
start_block c = record {
  offset = c.offset;
  left = c.left;
  files_vec_index = c.files_vec_index;
  curr_size = 0;
  file_mems = [];
}

-- NULL at the end of the piece or of the files; otherwise a block and the variables after it.
unfoldable pub next_block_request : Torrent → ℕ → Cursor → Option (BlockRequest × Cursor)
unfolding start_block
next_block_request t piece_len c =
    if c.left == 0 || leb (length t.files) c.files_vec_index
    then none
    else (let g = gather (drop c.files_vec_index t.files) c.files_vec_index (start_block c) in
        some (
          record {
            file_mems = g.file_mems;
            begin = sub64 piece_len c.left;
            len = g.curr_size;
            completed = false;
          },
          record { offset = g.offset; left = g.left; files_vec_index = g.files_vec_index },
        ))

-- The while loop of piece_request_create.
unfoldable pub create_blocks : ℕ → Torrent → Cursor → Outcome (List BlockRequest)
create_blocks zero t c = out_of_fuel
create_blocks (suc fuel) t c = elim (next_block_request t t.piece_length c) [
  | none ↦ ok []
  | some (block, c') ↦ create_blocks fuel t c' >>= λ blocks. ok (block ∷ blocks)
]

unfoldable pub total_size : List DnldFile → ℕ
total_size [] = 0
total_size (f ∷ fs) = f.size + total_size fs

-- Each round leaves a file behind, or takes a whole block from one.
unfoldable pub create_fuel : Torrent → ℕ
create_fuel t = total_size t.files + length t.files + 1

unfoldable pub piece_request_create : Torrent → ℕ → Outcome PieceRequest
piece_request_create t index =
    let (offset, file) = skip_until_index t index in
    create_blocks (create_fuel t) t
      (record { offset = offset; left = t.piece_length; files_vec_index = file })
    >>= λ blocks.
        ok (record { piece_index = index; block_requests = blocks; blocks_left = length blocks })

-- NULL where no block begins at the offset.
unfoldable pub block_at : List BlockRequest → ℕ → Option BlockRequest
block_at [] offset = none
block_at (b ∷ bs) offset = if b.begin == offset then some b else block_at bs offset

unfoldable pub piece_request_block_at : PieceRequest → ℕ → Option BlockRequest
unfolding block_at
piece_request_block_at r offset = block_at r.block_requests offset

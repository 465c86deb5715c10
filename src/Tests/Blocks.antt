-- ===== src/Tests/Blocks.antt =====
-- The blocks of a piece that spans two files.
use daobell.Prelude.{◌≡◌, ok, ◌∷◌, [], replicate, take, drop, arith, List, false, ◌*◌, ◌%◌, codes}
use daobell.Files.{DnldFile, content}
use daobell.Torrent.{Torrent, not_requested}
use daobell.Pieces.{PieceRequest, BlockRequest, piece_request_create, u32_mod}
use daobell.Pieces.Layout.{IsRequest, piece_request_create_lem, piece_request_create_wrapped}

abbrev two_files : List DnldFile
two_files =
    record { path = codes "a"; size = 5; contents = replicate 5 97 }
    ∷ record { path = codes "b"; size = 3; contents = replicate 3 98 }
    ∷ []

abbrev pub small : Torrent
small = record {
  announce = [];
  creation_date = 0;
  piece_length = 16384;
  files = two_files;
  info_hash = [];
  max_peers = 50;
  pieces = [] ∷ [];
  sh = record {
    pieces_state = not_requested ∷ [];
    peer_connections = 0;
    pieces_left = 1;
    uploaded = 0;
    downloaded = 0;
    completed = false;
  };
}

piece_request_create_lem_example :
    (r : PieceRequest) × (piece_request_create small 0 ≡ ok r)
    × IsRequest small 0 (take 16384 (drop (16384 * 0) (content two_files))) r
piece_request_create_lem_example =
    piece_request_create_lem small 0 1 (omega arith) (omega arith) (omega arith) (omega arith)

piece_request_create_wrapped_example :
    (r : PieceRequest) × (piece_request_create small 262144 ≡ ok r)
    × IsRequest small 262144 (take 16384 (drop ((16384 * 262144) % u32_mod) (content two_files))) r
piece_request_create_wrapped_example =
    piece_request_create_wrapped small 262144 1 (omega arith) (omega arith) (omega arith)

abbrev pub one_block : BlockRequest
one_block = record { file_mems = []; begin = 0; len = 0; completed = false }

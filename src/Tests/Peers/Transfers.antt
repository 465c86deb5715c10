-- ===== src/Tests/Peers/Transfers.antt =====
-- A block of two files goes from one peer to another.
use daobell.Prelude.{◌≡◌, refl, ok, some, ◌∷◌, [], ◌++◌, Bytes, replicate, arith, List, codes, ◌*◌}
use daobell.Files.{DnldFile, content}
use daobell.Torrent.{Torrent}
use daobell.Pieces.{peer_request_size}
use daobell.Message.{piece}
use daobell.Message.Send.{peer_msg_send}
use daobell.Message.Receive.{peer_msg_recv}
use daobell.Message.Piece.Transfer.{IsWritten, stretch, peer_msg_recv-peer_msg_send_piece}
use daobell.Message.{type_of_byte, valid_len}
use daobell.Pieces.{
  piece_request_create, skip_until_index, create_blocks, next_block_request, gather, gather_file,
  start_block, create_fuel, total_size, piece_request_block_at,
}
use daobell.Net.{peer_recv_buff}
use daobell.Message.Piece.{write_mapped, peer_msg_recv_piece}
use daobell.Message.Piece.Download.{piece_wire, Fetches, fetch, nothing, Fetches-content}
use daobell.Prelude.{inl, sym, append-nil}
use daobell.Tests.Blocks.{small}
use daobell.Tests.Peers.{Ends, byte_socket, byte_socket-IsStream, byte_socket-IsReliable}

abbrev empty_files : List DnldFile
empty_files =
    record { path = codes "a"; size = 5; contents = replicate 5 0 }
    ∷ record { path = codes "b"; size = 3; contents = replicate 3 0 }
    ∷ []

abbrev empty_handed : Torrent
empty_handed = record small { files = empty_files }

peer_msg_recv-peer_msg_send_piece_example :
    (bytes : Bytes) × (s' : Ends) × (peer_msg_send byte_socket small
        (piece 0 (0 * peer_request_size) 8)
        ([], [])
      ≡ ok (some tt, s'))
    × (s'.0 ≡ bytes)
    × ((rest : Bytes) (r : Ends)
        → r.1 ≡ bytes ++ rest
        → (t'' : Torrent) × (r' : Ends) × IsWritten empty_handed 0
            (0 * peer_request_size)
            (stretch small 0 (0 * peer_request_size) 8)
            t''
          × (peer_msg_recv byte_socket empty_handed r
              ≡ ok (some (piece 0 (0 * peer_request_size) peer_request_size, t''), r'))
          × (r'.1 ≡ rest))
unfolding byte_socket-IsStream content
peer_msg_recv-peer_msg_send_piece_example =
    peer_msg_recv-peer_msg_send_piece byte_socket-IsStream byte_socket-IsStream
      byte_socket-IsReliable byte_socket-IsReliable small empty_handed 0 1 0 8 ([], [])
      (omega arith) (omega arith) refl refl refl (omega arith) (omega arith) (omega arith)
      (omega arith) (omega arith) (omega arith)

-- The one block of the small torrent.
abbrev block_text : Bytes
block_text = piece_wire small (0, 0)

abbrev after_block : Torrent
after_block = record empty_handed { files = small.files }

block_received :
    peer_msg_recv byte_socket empty_handed ([], block_text)
    ≡ ok (some (piece 0 (0 * peer_request_size) peer_request_size, after_block), ([], []))
unfolding peer_msg_recv type_of_byte valid_len piece_request_create skip_until_index create_blocks
    next_block_request gather gather_file start_block create_fuel total_size piece_request_block_at
    write_mapped peer_recv_buff content peer_msg_recv_piece
block_received = refl

block_fetched : Fetches byte_socket-IsStream small 1 ((0, 0) ∷ []) empty_handed after_block
unfolding byte_socket-IsStream content
block_fetched =
    fetch 0 0 [] empty_handed after_block after_block ([], block_text) ([], []) []
      (record {
        in_piece = omega arith;
        in_files = omega arith;
        word = omega arith;
        begins = omega arith;
      })
      (sym (append-nil block_text)) block_received (nothing after_block)

Fetches-content_example : content after_block.files ≡ content small.files
unfolding content
Fetches-content_example =
    Fetches-content byte_socket-IsStream byte_socket-IsReliable small empty_handed after_block 1
      ((0, 0) ∷ []) refl (omega arith) refl refl (omega arith) block_fetched
      (λ x h. inl (omega arith, omega arith))

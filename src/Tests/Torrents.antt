-- ===== src/Tests/Torrents.antt =====
-- A torrent of three pieces that has one, and the small one of Blocks.
use daobell.Prelude.{
  ℕ, ◌*◌, ◌≡◌, refl, ok, some, none, [], ◌∷◌, replicate, take, drop, arith, true, Option,
}
use daobell.Files.{content}
use daobell.Torrent.{
  Torrent, not_requested, requested, have, set_state, torrent_next_request, search_request,
  is_requested, is_not_requested,
}
use daobell.Torrent.Requests.{Chosen, answer, torrent_next_request-Chosen}
use daobell.Torrent.Verify.{torrent_sha1_verify}
use daobell.Torrent.Verify.Hash.{Decides, torrent_sha1_verify-reference}
use daobell.Torrent.Counting.{missing, IsCounted}
use daobell.Connection.{handle_piece_dnld_completion}
use daobell.Connection.Completion.{handle_piece_dnld_completion-IsCounted}
use daobell.Sha1.Reference.{reference_sha1}
use daobell.Tests.Blocks.{small}
use daobell.Tests.Peers.{Ends, byte_socket, byte_socket-IsStream}

abbrev pub three : Torrent
three = record small {
  pieces = replicate 20 1 ∷ replicate 20 2 ∷ replicate 20 3 ∷ [];
  sh = record small.sh { pieces_state = have ∷ requested ∷ not_requested ∷ []; pieces_left = 2 };
}

pub three-IsCounted : IsCounted three
unfolding missing
three-IsCounted = record {
  sized = refl;
  counted = refl;
  flagged = (λ e. cc, λ e. absurd (omega arith));
  words = omega arith;
}

third_piece :
    torrent_next_request three (true ∷ true ∷ true ∷ [])
    ≡ ok (
        some (
          2,
          record three {
            sh = record three.sh { pieces_state = have ∷ requested ∷ requested ∷ [] };
          },
        ))
unfolding torrent_next_request search_request is_requested is_not_requested set_state
third_piece = refl

torrent_next_request-Chosen_example :
    (r : Option ℕ) × (torrent_next_request three (true ∷ true ∷ true ∷ []) ≡ ok (answer three r))
    × Chosen (have ∷ requested ∷ not_requested ∷ []) (true ∷ true ∷ true ∷ []) 0 none r
torrent_next_request-Chosen_example =
    torrent_next_request-Chosen three (true ∷ true ∷ true ∷ []) refl refl

torrent_sha1_verify-reference_example :
    Decides
      (replicate 20 2 ≡ reference_sha1 (take 16384 (drop (16384 * 1) (content small.files))))
      (torrent_sha1_verify (replicate 64 0) three 1)
torrent_sha1_verify-reference_example =
    torrent_sha1_verify-reference (replicate 64 0) (replicate 20 2) three 1 1 refl (omega arith)
      (omega arith) (omega arith) (omega arith) refl refl

handle_piece_dnld_completion-IsCounted_example :
    (t' : Torrent) × (s' : Ends) × (handle_piece_dnld_completion byte_socket three 2 ([], [])
      ≡ ok (t', s'))
    × (t'.sh.pieces_state ≡ have ∷ requested ∷ have ∷ [])
    × IsCounted t'
handle_piece_dnld_completion-IsCounted_example =
    handle_piece_dnld_completion-IsCounted byte_socket-IsStream three 2 ([], []) three-IsCounted
      (omega arith)

-- ===== src/Tests/Swarms.antt =====
-- Connections on a torrent of three pieces, of which it has the first.
use daobell.Prelude.{ℕ, Bytes, ◌+◌, ◌≡◌, ◌↔◌, refl, [], ◌∷◌, true, false, replicate, ok}
use daobell.Torrent.{is_have}
use daobell.Torrent.Counting.{missing, IsCounted}
use daobell.Torrent.Verify.{
  torrent_sha1_verify, verify_piece, verify_request, update_requests, update_mems, memcmp_equal,
}
use daobell.Pieces.{
  piece_request_create, skip_until_index, skip_files, create_blocks, create_fuel, total_size,
  next_block_request,
}
use daobell.Sha1.{
  sha1_finish, sha1_context_init, sha1_update, pad_zeros, final_count, digest_bytes, update_blocks,
}
use daobell.Sha1.Transform.{transform, rounds, load_words}
use daobell.Connection.{mark_piece, reject_piece, count_piece}
use daobell.Swarm.{Swarm, Runs, rests, goes_on, downloads, rejects, writes, lost_piece, one_if_had}
use daobell.Swarm.Counting.{Runs-IsCounted}
use daobell.Swarm.Race.{Has, Runs-Has}
use daobell.Tests.Torrents.{three, three-IsCounted}

abbrev garbage : Bytes
garbage = replicate 64 7

-- The second piece was asked for twice.
abbrev both_ask : Swarm
both_ask = record { torrent = three; asked = 1 ∷ 1 ∷ [] }

abbrev one_has : Swarm
one_has = record { torrent = count_piece three 1; asked = 1 ∷ [] }

-- What the files hold is changed, to nothing.
abbrev one_wrote : Swarm
one_wrote = record one_has { torrent = record one_has.torrent { files = [] } }

abbrev one_lost : Swarm
one_lost = record { torrent = reject_piece one_wrote.torrent 1; asked = [] }

abbrev one : ℕ
one = 1

first_step : Runs garbage both_ask one_has (0 + 0)
unfolding mark_piece count_piece is_have
first_step =
    goes_on both_ask one_has 0 0 rests
      (downloads [] (1 ∷ []) 1 (count_piece three 1) false refl refl)

-- The piece does not have its hash then.
one_wrong : torrent_sha1_verify garbage one_wrote.torrent 1 ≡ ok false
unfolding torrent_sha1_verify verify_piece verify_request update_requests update_mems memcmp_equal
    piece_request_create skip_until_index skip_files create_blocks create_fuel total_size
    next_block_request sha1_finish sha1_context_init sha1_update pad_zeros final_count digest_bytes
    update_blocks transform rounds load_words count_piece
one_wrong = refl

all_steps : Runs garbage both_ask one_lost (0 + 0 + 0 + 1)
unfolding lost_piece one_if_had count_piece
all_steps =
    goes_on one_wrote one_lost (0 + 0 + 0) 1
      (goes_on one_has one_wrote (0 + 0) 0 first_step (writes [])) (rejects [] [] 1 refl one_wrong)

Runs-IsCounted_example :
    (one_lost.torrent.sh.pieces_left + 1 ≡ missing one_lost.torrent.sh.pieces_state)
    × ((one_lost.torrent.sh.completed ≡ true) ↔ (missing one_lost.torrent.sh.pieces_state ≡ 1))
    × ((one ≡ 0) → IsCounted one_lost.torrent)
Runs-IsCounted_example = Runs-IsCounted garbage both_ask one_lost 1 three-IsCounted all_steps

Runs-Has_example : Has one_has.torrent 0
Runs-Has_example = Runs-Has garbage both_ask one_has 0 0 three-IsCounted refl refl first_step

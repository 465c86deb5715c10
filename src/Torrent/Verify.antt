-- ===== src/Torrent/Verify.antt =====
-- torrent_sha1_verify: the mapped bytes of a piece against its SHA-1 in the metainfo.
pub mod Hash
use daobell.Prelude.{
  ℕ, zero, suc, ◌+◌, ◌*◌, ◌≤◌, ◌<◌, ◌^◌, Bytes, Bool, true, false, ◌&&◌, ltb, ◌==◌, if◌then◌else◌,
  List, [], ◌∷◌, ◌++◌, length, take, drop, get_elem?, Option, none, some, Outcome, ok, fault, ◌>>=◌,
}
use daobell.Files.{DnldFile, FileMem, AreMapped, content, read_mem, read_mems}
use daobell.Torrent.{Torrent}
use daobell.Pieces.{BlockRequest, PieceRequest, piece_request_create}
use daobell.Sha1.{Context, sha1_context_init, sha1_update, sha1_finish}

-- 0 == memcmp(a, b, n); to read past either is a fault.
unfoldable pub memcmp_equal : ℕ → Bytes → Bytes → Outcome Bool
memcmp_equal zero a b = ok true
memcmp_equal (suc n) (x ∷ a) (y ∷ b) = memcmp_equal n a b >>= λ rest. ok (x == y && rest)
memcmp_equal (suc n) _ _ = fault

-- The two loops, over the blocks and over the file_mems of each.
unfoldable pub update_mems : List DnldFile → Context → List FileMem → Context
update_mems files ctx [] = ctx
update_mems files ctx (m ∷ mems) = update_mems files (sha1_update ctx (read_mem files m)) mems

unfoldable pub update_requests : List DnldFile → Context → List BlockRequest → Context
unfolding update_mems
update_requests files ctx [] = ctx
update_requests files ctx (b ∷ blocks) =
    update_requests files (update_mems files ctx b.file_mems) blocks

-- The digest of the request's bytes against the hash, whose text ends with a NUL.
unfoldable pub verify_request : Bytes → Torrent → Bytes → PieceRequest → Outcome Bool
unfolding update_requests
verify_request garbage t hash r =
    sha1_finish (update_requests t.files (sha1_context_init garbage) r.block_requests) >>= λ digest.
    memcmp_equal 20 (hash ++ 0 ∷ []) digest

-- With the hash of the piece, which the assert takes to be there.
unfoldable pub verify_piece : Bytes → Torrent → ℕ → Option Bytes → Outcome Bool
verify_piece garbage t index none = fault
verify_piece garbage t index (some hash) =
    piece_request_create t index >>= λ r. verify_request garbage t hash r

-- `garbage` is what malloc left in the context's buffer.
unfoldable pub torrent_sha1_verify : Bytes → Torrent → ℕ → Outcome Bool
torrent_sha1_verify garbage t index = verify_piece garbage t index (get_elem? t.pieces index)

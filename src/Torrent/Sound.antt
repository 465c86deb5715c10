-- ===== src/Torrent/Sound.antt =====
-- A torrent whose pieces can be cut into blocks and verified.
use daobell.Prelude.{ℕ, ◌*◌, ◌<◌, Bytes, length, get_elem?, some, ◌≡◌}
use daobell.Files.{AreMapped}
use daobell.Torrent.{Torrent, Shared}
use daobell.Pieces.{peer_request_size, u32_mod}

-- The files are mapped, the piece length is a multiple of 16 KB, each piece begins below 4 GiB and
-- has a hash of 20 bytes.
pub record IsSound (t : Torrent) : Type 0 where
  pub blocks : ℕ
  pub mapped : AreMapped t.files
  pub whole : t.piece_length ≡ blocks * peer_request_size
  pub word : t.piece_length < u32_mod
  pub begins : (index : ℕ) → index < length t.pieces → t.piece_length * index < u32_mod
  pub hashed : (index : ℕ) (hash : Bytes) → get_elem? t.pieces index ≡ some hash → length hash ≡ 20

pub IsSound-sh : {t : Torrent} (sh : Shared) → IsSound t → IsSound (record t { sh = sh })
IsSound-sh sh w = record {
  blocks = w.blocks;
  mapped = w.mapped;
  whole = w.whole;
  word = w.word;
  begins = w.begins;
  hashed = w.hashed;
}

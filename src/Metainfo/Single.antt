-- ===== src/Metainfo/Single.antt =====
-- populate_info_from_dict on the dictionary "info" of a single file.
use daobell.Prelude.{
  ℕ, zero, suc, ◌*◌, ◌/◌, ◌%◌, ◌^◌, ◌<◌, ◌≤◌, Bytes, codes, [], ◌∷◌, ◌++◌, length, take, drop,
  length-take, length-drop, take-append-drop, get_elem?, Option, some, Outcome, ok, pos, ◌≡◌, refl,
  sym, ap, arith, lt→ltb,
}
use mathlib.Core.List.{flatten}
use native.Mathlib.Nat.{mul-le-mul_left}
use daobell.Bencode.Value.{Entries, entry, end, string, int, down_cast_string, down_cast_int}
use daobell.Files.{DnldFile}
use daobell.Torrent.{Torrent}
use daobell.Torrent.Sound.{IsSound}
use daobell.Pieces.{peer_request_size}
use daobell.Metainfo.{
  same_string, as_unsigned, split_pieces, create_pieces_vector, create_and_open, find_name,
  populate_key, populate_keys, populate_info_from_dict,
}

-- The dictionary "info" of a single file, with its keys in order.
abbrev pub single_info : (len : ℕ) (name : Bytes) (piece_length : ℕ) (pieces : Bytes) → Entries
single_info len name piece_length pieces = entry (codes "length") (int (pos len)) (
    entry (codes "name") (string name) (
      entry (codes "piece length") (int (pos piece_length))
        (entry (codes "pieces") (string pieces) end)))

create_pieces_vector-split :
    (s : Bytes) (n : ℕ)
    → length s ≡ 20 * suc n
    → create_pieces_vector s [] ≡ ok (split_pieces (suc n) s)
unfolding create_pieces_vector split_pieces
create_pieces_vector-split s n h =
    let whole : length s % 20 ≡ 0 = omega arith in
    let many : length s / 20 ≡ suc n = omega arith in
    rw (whole, many, lt→ltb 0 (length (split_pieces (suc n) s)) (omega arith)) refl

create_and_open-some :
    (map_file : Bytes → ℕ → Option Bytes) (path : Bytes) (size : ℕ) (contents : Bytes)
    → map_file path size ≡ some contents
    → create_and_open map_file path size
      ≡ some (record { path = path ++ codes ".incomplete"; size = size; contents = contents })
unfolding create_and_open
create_and_open-some map_file path size contents h = rw h refl

pub as_unsigned-small : (n : ℕ) → n < 2 ^ 32 → as_unsigned (pos n) ≡ n
unfolding as_unsigned
as_unsigned-small n h = omega arith

abbrev pub single_file : (destdir name : Bytes) → ℕ → Bytes → DnldFile
single_file destdir name len contents = record {
  path = (destdir ++ (b'/' ∷ name)) ++ codes ".incomplete";
  size = len;
  contents = contents;
}

populate_info-single :
    (map_file : Bytes → ℕ → Option Bytes) (destdir : Bytes) (t : Torrent) (len : ℕ) (name : Bytes)
    (piece_length : ℕ) (pieces contents : Bytes) (n : ℕ)
    → t.pieces ≡ []
    → t.files ≡ []
    → len < 2 ^ 32
    → piece_length < 2 ^ 32
    → length pieces ≡ 20 * suc n
    → map_file (destdir ++ (b'/' ∷ name)) len ≡ some contents
    → populate_info_from_dict map_file (single_info len name piece_length pieces) destdir t
      ≡ ok (record t {
        pieces = split_pieces (suc n) pieces;
        piece_length = piece_length;
        files = single_file destdir name len contents ∷ [];
      })
unfolding populate_info_from_dict find_name populate_keys populate_key same_string down_cast_string
    down_cast_int
populate_info-single map_file destdir t len name piece_length pieces contents n p f l w h m =
    rw
      (
        p,
        f,
        as_unsigned-small len l,
        as_unsigned-small piece_length w,
        create_pieces_vector-split pieces n h,
        create_and_open-some map_file (destdir ++ (b'/' ∷ name)) len contents m,
      )
      refl

-- The pieces are the string cut up, 20 bytes each.
split_pieces-flatten : (n : ℕ) (s : Bytes) → length s ≡ 20 * n → flatten (split_pieces n s) ≡ s
unfolding split_pieces flatten
split_pieces-flatten zero [] h = refl
split_pieces-flatten zero (c ∷ s) h = absurd (omega arith)
split_pieces-flatten (suc n) s h =
    rw (split_pieces-flatten n (drop 20 s) (omega (arith, length-drop 20 s)))
      (take-append-drop 20 s)

split_pieces-length : (n : ℕ) (s : Bytes) → length (split_pieces n s) ≡ n
unfolding split_pieces
split_pieces-length zero s = refl
split_pieces-length (suc n) s = ap suc (split_pieces-length n (drop 20 s))

split_pieces-hashes :
    (n : ℕ) (s : Bytes) (index : ℕ) (hash : Bytes)
    → length s ≡ 20 * n
    → get_elem? (split_pieces n s) index ≡ some hash
    → length hash ≡ 20
unfolding split_pieces
split_pieces-hashes zero s index hash h e = absurd (cc)
split_pieces-hashes (suc n) s zero hash h e =
    let same : take 20 s ≡ hash = cc in rw (sym same) (omega (arith, length-take 20 s))
split_pieces-hashes (suc n) s (suc index) hash h e =
    split_pieces-hashes n (drop 20 s) index hash (omega (arith, length-drop 20 s)) e

-- What populate_info_from_dict makes of a torrent.
pub record Populates (t : Torrent) (pieces : Bytes) (n piece_length : ℕ) (file : DnldFile)
    (run : Outcome Torrent) : Type 0 where
  pub torrent : Torrent
  pub gives : run ≡ ok torrent
  pub hashes : flatten torrent.pieces ≡ pieces
  pub many : length torrent.pieces ≡ n
  pub cut : torrent.piece_length ≡ piece_length
  pub single : torrent.files ≡ file ∷ []
  pub info_hash : torrent.info_hash ≡ t.info_hash
  pub sound : IsSound torrent

-- populate_info_from_dict, for a torrent without pieces and files and the dictionary "info" of a single
-- file that has the keys length, name, "piece length" and pieces and no other: the hashes are the
-- string "pieces" cut into 20 bytes each, the one file is the name under destdir with ".incomplete"
-- behind, and pieces can be cut into blocks and verified. Where the file could be mapped, with the
-- size it has; the string "pieces" is not empty and a multiple of 20 bytes; the piece length is a
-- multiple of 16 KB; numbers and offsets of pieces are below 2 ^ 32.
pub populate_info_from_dict-Populates :
    (map_file : Bytes → ℕ → Option Bytes) (t : Torrent) (destdir : Bytes) (len : ℕ) (name : Bytes)
    (blocks n : ℕ) (pieces contents : Bytes)
    → t.pieces ≡ []
    → t.files ≡ []
    → len < 2 ^ 32
    → blocks * peer_request_size < 2 ^ 32
    → (blocks * peer_request_size) * suc n < 2 ^ 32
    → length pieces ≡ 20 * suc n
    → map_file (destdir ++ (b'/' ∷ name)) len ≡ some contents
    → length contents ≡ len
    → Populates t pieces
        (suc n)
        (blocks * peer_request_size)
        (single_file destdir name len contents)
        (populate_info_from_dict map_file
          (single_info len name (blocks * peer_request_size) pieces)
          destdir
          t)
populate_info_from_dict-Populates map_file t destdir len name blocks n pieces contents p f l w o h m
      e =
    let count = split_pieces-length (suc n) pieces in
    record {
      torrent = record t {
        pieces = split_pieces (suc n) pieces;
        piece_length = blocks * peer_request_size;
        files = single_file destdir name len contents ∷ [];
      };
      gives =
          populate_info-single map_file destdir t len name (blocks * peer_request_size) pieces
            contents n p f l w h m;
      hashes = split_pieces-flatten (suc n) pieces h;
      many = count;
      cut = refl;
      single = refl;
      info_hash = refl;
      sound = record {
        blocks = blocks;
        mapped = ((e, l), tt);
        whole = refl;
        word = w;
        begins = λ index i.
            let below : index ≤ suc n = omega (arith, count) in
            omega (arith, mul-le-mul_left (blocks * peer_request_size) below);
        hashed = λ index hash at. split_pieces-hashes (suc n) pieces index hash h at;
      };
    }

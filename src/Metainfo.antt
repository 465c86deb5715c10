-- ===== src/Metainfo.antt =====
-- src/torrent_info.cpp, torrent_init and what it calls: a torrent from the value of a .torrent file.
-- The tests of a key exclude one another, so that they stand as a chain.
pub mod Single
pub mod Folder
pub mod Hashed
use daobell.Prelude.{
  ℕ, zero, suc, ◌-◌, ◌/◌, ◌%◌, ◌^◌, ltb, ◌==◌, ◌&&◌, if◌then◌else◌, Bool, true, false, Bytes, codes,
  List, [], ◌∷◌, ◌++◌, length, take, drop, replicate, Option, none, some, Outcome, ok, fault, ◌>>=◌,
  ℤ, pos, negsuc,
}
use daobell.Bencode.Value.{
  Value, Values, Entries, nil, cons, end, entry, down_cast_string, down_cast_int, down_cast_list,
  down_cast_dict,
}
use daobell.Bencode.Encoder.{encode}
use daobell.Files.{DnldFile}
use daobell.Sha1.{sha1_compute}
use daobell.Torrent.{Torrent, Shared, PieceState, not_requested}

-- operator== of std::string.
unfoldable pub same_string : Bytes → Bytes → Bool
same_string [] [] = true
same_string (c ∷ s) (d ∷ t) = c == d && same_string s t
same_string _ _ = false

-- A long long as an `unsigned`.
unfoldable pub as_unsigned : ℤ → ℕ
as_unsigned (pos n) = n % 2 ^ 32
as_unsigned (negsuc n) = 2 ^ 32 - 1 - n % 2 ^ 32

-- The loop of create_pieces_vector: substr(i, 20), in steps of 20.
unfoldable pub split_pieces : ℕ → Bytes → List Bytes
split_pieces zero s = []
split_pieces (suc n) s = take 20 s ∷ split_pieces n (drop 20 s)

-- The vector grows from `pieces`; its last element, which `at` takes, has 20 bytes.
unfoldable pub create_pieces_vector : Bytes → List Bytes → Outcome (List Bytes)
unfolding split_pieces
create_pieces_vector s pieces =
    let pieces' = pieces ++ split_pieces (length s / 20) s in
    if length s % 20 == 0 && ltb 0 (length pieces') then ok pieces' else fault

-- What `new torrent_info` leaves unset.
pub record Unset : Type 0 where
  pub creation_date : ℕ
  pub piece_length : ℕ
  pub info_hash : Bytes

-- The file that create_and_open leaves with its mapping.
abbrev pub mapped_file : Bytes → ℕ → Option Bytes → Option DnldFile
mapped_file path size none = none
mapped_file path size (some contents) =
    some (record { path = path ++ codes ".incomplete"; size = size; contents = contents })

-- The file at the end of torrent->files, where it was opened.
abbrev pub push_file : List DnldFile → Option DnldFile → List DnldFile
push_file files none = files
push_file files (some file) = files ++ file ∷ []

-- A '/' stands between two elements.
abbrev pub with_slash : Bytes → Values → Bytes
with_slash path nil = path
with_slash path (cons v vs) = path ++ b'/' ∷ []

-- The loop over the elements of "path"; one that is no string is a fault.
unfoldable pub append_path : Bytes → Values → Outcome Bytes
append_path path nil = ok path
append_path path (cons v vs) = elim (down_cast_string v) [
  | none ↦ fault
  | some s ↦ append_path (with_slash (path ++ s) vs) vs
]

-- The loop over the entries of a file: its length and its path.
unfoldable pub read_file_entries : Entries → ℕ → Bytes → Outcome (ℕ × Bytes)
unfolding append_path same_string as_unsigned
read_file_entries end len path = ok (len, path)
read_file_entries (entry k v es) len path =
    let of_length : Outcome (ℕ × Bytes) = elim (down_cast_int v) [
      | none ↦ fault
      | some n ↦ read_file_entries es (as_unsigned n) path
    ] in
    let of_path : Outcome (ℕ × Bytes) = elim (down_cast_list v) [
      | none ↦ fault
      | some vs ↦ append_path path vs >>= λ path'. read_file_entries es len path'
    ] in
    let other : Outcome (ℕ × Bytes) = read_file_entries es len path in
    if same_string k (codes "length")
    then of_length
    else if same_string k (codes "path")
    then of_path
    else other

-- The first loop of populate_info_from_dict: the last string under "name".
unfoldable pub find_name : Entries → Bytes → Bytes
unfolding same_string
find_name end name = name
find_name (entry k v es) name = find_name es (
    if same_string k (codes "name")
    then elim (down_cast_string v) [ none ↦ name | some s ↦ s ]
    else name)

-- The variables of the second loop.
pub record Populated : Type 0 where
  pub pieces : List Bytes
  pub piece_length : ℕ
  pub files : List DnldFile
  pub len : ℕ
  pub multifile : Bool

-- `map_file` is what the system does with a path and a size: open, ftruncate and mmap give the bytes of
-- the mapping, or one of them fails.
module _ (map_file : Bytes → ℕ → Option Bytes) where
  -- dnld_file::create_and_open; `none` is -1.
  unfoldable pub create_and_open : Bytes → ℕ → Option DnldFile
  create_and_open path size = mapped_file path size (map_file path size)

  -- An element of "files", below destdir/name/; one that is no dictionary is an empty file there.
  unfoldable pub populate_file : Value → Bytes → List DnldFile → Outcome (List DnldFile)
  unfolding read_file_entries create_and_open
  populate_file v folder files = elim (down_cast_dict v) [
    | none ↦ ok (push_file files (create_and_open folder 0))
    | some es ↦ read_file_entries es 0 folder >>= λ (len, path).
        ok (push_file files (create_and_open path len))
  ]

  unfoldable pub populate_files_from_list :
      Values → (destdir name : Bytes) → List DnldFile → Outcome (List DnldFile)
  unfolding populate_file
  populate_files_from_list nil destdir name files = ok files
  populate_files_from_list (cons v vs) destdir name files =
      populate_file v (destdir ++ (b'/' ∷ (name ++ b'/' ∷ []))) files >>= λ files'.
      populate_files_from_list vs destdir name files'

  unfoldable pub populate_key :
      Bytes → Value → (destdir name : Bytes) → Populated → Outcome Populated
  unfolding same_string create_pieces_vector as_unsigned populate_files_from_list
  populate_key k v destdir name g =
      if same_string k (codes "pieces")
      then elim (down_cast_string v) [
        | none ↦ ok g
        | some s ↦ create_pieces_vector s g.pieces >>= λ pieces. ok (record g { pieces = pieces })
      ]
      else if same_string k (codes "piece length")
      then ok
          (elim (down_cast_int v) [ none ↦ g | some n ↦ record g { piece_length = as_unsigned n } ])
      else if same_string k (codes "length")
      then ok (elim (down_cast_int v) [ none ↦ g | some n ↦ record g { len = as_unsigned n } ])
      else if same_string k (codes "files")
      then elim (down_cast_list v) [
        | none ↦ ok (record g { multifile = true })
        | some vs ↦ populate_files_from_list vs destdir name g.files >>= λ files.
            ok (record g { multifile = true; files = files })
      ]
      else ok g

  unfoldable pub populate_keys : Entries → (destdir name : Bytes) → Populated → Outcome Populated
  unfolding populate_key
  populate_keys end destdir name g = ok g
  populate_keys (entry k v es) destdir name g =
      populate_key k v destdir name g >>= λ g'. populate_keys es destdir name g'

  -- The return value is not looked at: without a file the torrent has none.
  unfoldable pub populate_info_from_dict : Entries → (destdir : Bytes) → Torrent → Outcome Torrent
  unfolding find_name populate_keys create_and_open
  populate_info_from_dict es destdir t =
      let name = find_name es [] in
      populate_keys es destdir name (record {
        pieces = t.pieces;
        piece_length = t.piece_length;
        files = t.files;
        len = 0;
        multifile = false;
      })
      >>= λ g.
          let single = create_and_open (destdir ++ (b'/' ∷ name)) g.len in
          ok (record t {
            pieces = g.pieces;
            piece_length = g.piece_length;
            files = if g.multifile then g.files else push_file g.files single;
          })

  -- What torrent_init does with the value of "info"; `garbage` is what malloc leaves in a SHA-1 context;
  -- sha1_result has 20 bytes.
  unfoldable pub init_info :
      (garbage : Bytes) → Value → (destdir : Bytes) → Torrent → Outcome Torrent
  unfolding populate_info_from_dict
  init_info garbage v destdir t = encode v >>= λ encoded.
      sha1_compute 20 garbage encoded >>= λ hash.
      let t' = record t { info_hash = hash } in
      elim (down_cast_dict v) [ none ↦ ok t' | some es ↦ populate_info_from_dict es destdir t' ]

  -- One entry of the metainfo.
  unfoldable pub init_key :
      (garbage : Bytes) → Bytes → Value → (destdir : Bytes) → Torrent → Outcome Torrent
  unfolding same_string as_unsigned init_info
  init_key garbage k v destdir t =
      if same_string k (codes "announce")
      then ok (elim (down_cast_string v) [ none ↦ t | some s ↦ record t { announce = s } ])
      else if same_string k (codes "creation date")
      then ok (elim (down_cast_int v) [
        | none ↦ t
        | some n ↦ record t { creation_date = as_unsigned n }
      ])
      else if same_string k (codes "info")
      then init_info garbage v destdir t
      else ok t

  unfoldable pub init_keys :
      (garbage : Bytes) → Entries → (destdir : Bytes) → Torrent → Outcome Torrent
  unfolding init_key
  init_keys garbage end destdir t = ok t
  init_keys garbage (entry k v es) destdir t =
      init_key garbage k v destdir t >>= λ t'. init_keys garbage es destdir t'

-- The fields that are set last; resize fills pieces_state with zeros, PIECE_STATE_NOT_REQUESTED.
abbrev pub shared_init : ℕ → Shared
shared_init pieces = record {
  pieces_state = replicate pieces not_requested;
  peer_connections = 0;
  pieces_left = pieces % 2 ^ 32;
  uploaded = 0;
  downloaded = 0;
  completed = false;
}

abbrev pub new_torrent : Unset → Torrent
new_torrent unset = record {
  announce = [];
  creation_date = unset.creation_date;
  piece_length = unset.piece_length;
  files = [];
  info_hash = unset.info_hash;
  max_peers = 50;
  pieces = [];
  sh = shared_init 0;
}

unfoldable pub torrent_init :
    (Bytes → ℕ → Option Bytes)
    → (garbage : Bytes) → Unset
    → Value
    → (destdir : Bytes) → Outcome Torrent
unfolding init_keys
torrent_init map_file garbage unset meta destdir = elim (down_cast_dict meta) [
  | none ↦ fault
  | some es ↦ init_keys map_file garbage es destdir (new_torrent unset) >>= λ t.
      ok (record t { sh = shared_init (length t.pieces) })
]

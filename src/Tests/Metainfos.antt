-- ===== src/Tests/Metainfos.antt =====
-- The metainfo of one small file, and of a folder of three files of which one cannot be opened.
use daobell.Prelude.{
  ℕ, ltb, if◌then◌else◌, Bytes, codes, List, [], ◌∷◌, replicate, Option, none, some, ok, fault,
  refl, ◌≡◌, arith,
}
use daobell.Bencode.Value.{Value, Entries, entry, end, string, dict, lt_string}
use daobell.Bencode.Grammar.{IsWellFormed}
use daobell.Torrent.{Torrent}
use daobell.Metainfo.Hashed.{with_info, torrent_init-fault}
use daobell.Metainfo.{
  Unset, new_torrent, torrent_init, populate_info_from_dict, populate_files_from_list,
  create_and_open,
}
use daobell.Metainfo.Single.{single_info, single_file, Populates, populate_info_from_dict-Populates}
use daobell.Metainfo.Folder.{
  Listed, listed_values, opened, join_path, populate_files_from_list-opened,
}

abbrev map_file : Bytes → ℕ → Option Bytes
map_file path size = if ltb 8 size then none else some (replicate size 0)

abbrev unset : Unset
unset = record { creation_date = 5; piece_length = 5; info_hash = [] }

-- A torrent that was announced, before its dictionary "info" is read.
abbrev announced : Torrent
announced = record (new_torrent unset) { announce = codes "t" }

populate_info_from_dict-Populates_example :
    Populates announced
      (replicate 20 9)
      1
      16384
      (single_file (codes "d") (codes "f") 3 (replicate 3 0))
      (populate_info_from_dict map_file
        (single_info 3 (codes "f") 16384 (replicate 20 9))
        (codes "d")
        announced)
populate_info_from_dict-Populates_example =
    populate_info_from_dict-Populates map_file announced (codes "d") 3 (codes "f") 1 0
      (replicate 20 9) (replicate 3 0) refl refl (omega arith) (omega arith) (omega arith) refl refl
      refl

abbrev before_info : Entries
before_info = entry (codes "announce") (string (codes "t")) end

abbrev one_info : Value
one_info = dict (single_info 3 (codes "f") 16384 (replicate 20 9))

one_meta-IsWellFormed : IsWellFormed (dict (with_info before_info one_info end))
unfolding lt_string with_info
one_meta-IsWellFormed = ground arith

torrent_init-fault_example :
    torrent_init map_file
      (replicate 64 7)
      unset
      (dict (with_info before_info one_info end))
      (codes "d")
    ≡ fault
torrent_init-fault_example =
    torrent_init-fault map_file (replicate 64 7) unset before_info one_info end (codes "d") refl
      one_meta-IsWellFormed

abbrev three_files : List Listed
three_files =
    record { len = 3; path = codes "x" ∷ [] }
    ∷ record { len = 9; path = codes "y" ∷ [] }
    ∷ record { len = 4; path = codes "u" ∷ codes "v" ∷ [] }
    ∷ []

populate_files_from_list-opened_example :
    populate_files_from_list map_file (listed_values three_files) (codes "d") (codes "n") []
    ≡ ok (
        record { path = codes "d/n/x.incomplete"; size = 3; contents = replicate 3 0 }
        ∷ record { path = codes "d/n/u/v.incomplete"; size = 4; contents = replicate 4 0 }
        ∷ [])
unfolding opened join_path create_and_open
populate_files_from_list-opened_example =
    populate_files_from_list-opened map_file (codes "d") (codes "n") three_files []
      (omega arith, (omega arith, (omega arith, tt)))

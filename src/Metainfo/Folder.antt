-- ===== src/Metainfo/Folder.antt =====
-- The files of a torrent that has several.
use daobell.Prelude.{
  ℕ, ◌%◌, ◌^◌, ◌<◌, Bytes, codes, List, [], ◌∷◌, ◌++◌, Option, none, some, All, ok, pos, ◌≡◌, refl,
  ap, arith, append_assoc, append-nil,
}
use daobell.Bencode.Value.{
  Values, nil, cons, entry, end, string, int, list, dict, down_cast_string, down_cast_int,
  down_cast_list, down_cast_dict,
}
use daobell.Files.{DnldFile}
use daobell.Metainfo.{
  same_string, as_unsigned, create_and_open, push_file, append_path, read_file_entries,
  populate_file, populate_files_from_list,
}

-- A file of the metainfo: its length and the elements of its path.
pub record Listed : Type 0 where
  pub len : ℕ
  pub path : List Bytes

unfoldable pub path_values : List Bytes → Values
path_values [] = nil
path_values (p ∷ ps) = cons (string p) (path_values ps)

-- The list "files".
unfoldable pub listed_values : List Listed → Values
listed_values [] = nil
listed_values (f ∷ fs) =
    cons
      (dict (
        entry (codes "length") (int (pos f.len))
          (entry (codes "path") (list (path_values f.path)) end)))
      (listed_values fs)

-- The elements with a '/' between them.
unfoldable pub join_path : List Bytes → Bytes
join_path [] = []
join_path (p ∷ []) = p
join_path (p ∷ q ∷ ps) = p ++ b'/' ∷ join_path (q ∷ ps)

-- The files that could be opened below a folder, in their order.
unfoldable pub opened : (Bytes → ℕ → Option Bytes) → (folder : Bytes) → List Listed → List DnldFile
opened map_file folder [] = []
opened map_file folder (f ∷ fs) =
    push_file [] (create_and_open map_file (folder ++ join_path f.path) f.len)
    ++ opened map_file folder fs

append_path-join :
    (path : Bytes) (ps : List Bytes) → append_path path (path_values ps) ≡ ok (path ++ join_path ps)
unfolding append_path path_values join_path down_cast_string
append_path-join path [] = rw append-nil refl
append_path-join path (p ∷ []) = refl
append_path-join path (p ∷ q ∷ ps) =
    rw (append_path-join ((path ++ p) ++ b'/' ∷ []) (q ∷ ps)) (simp append_assoc)

push_file-append :
    (files : List DnldFile) (file : Option DnldFile)
    → push_file files file ≡ files ++ push_file [] file
push_file-append files none = rw append-nil refl
push_file-append files (some file) = refl

module _ (map_file : Bytes → ℕ → Option Bytes) (destdir name : Bytes) where
  abbrev folder : Bytes
  folder = destdir ++ (b'/' ∷ (name ++ b'/' ∷ []))

  populate_file-listed :
      (f : Listed) (files : List DnldFile)
      → f.len < 2 ^ 32
      → populate_file map_file
          (dict (
            entry
              (codes "length")
              (int (pos f.len))
              (entry (codes "path") (list (path_values f.path)) end)))
          folder
          files
        ≡ ok (files ++ push_file [] (create_and_open map_file (folder ++ join_path f.path) f.len))
  unfolding populate_file read_file_entries same_string as_unsigned down_cast_dict down_cast_int
      down_cast_list
  populate_file-listed f files h =
      let whole : f.len % 2 ^ 32 ≡ f.len = omega arith in
      rw (append_path-join folder f.path, whole) (ap ok (push_file-append files _))

  -- The files of a torrent are those of the list "files" that could be opened, in its order, each at
  -- destdir/name/ and the elements of its path, with the length it has; one that cannot be opened is
  -- left out, and those behind it take its place. Where no length reaches 2 ^ 32.
  pub populate_files_from_list-opened :
      (fs : List Listed) (files : List DnldFile)
      → All (λ f. f.len < 2 ^ 32) fs
      → populate_files_from_list map_file (listed_values fs) destdir name files
        ≡ ok (files ++ opened map_file folder fs)
  unfolding populate_files_from_list listed_values opened
  populate_files_from_list-opened [] files h = rw append-nil refl
  populate_files_from_list-opened (f ∷ fs) files (h, hs) =
      rw (populate_file-listed f files h, populate_files_from_list-opened fs _ hs)
        (ap ok (append_assoc files _ _))

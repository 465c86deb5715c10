-- ===== src/Files.antt =====
-- src/dnld_file.h: a file of the download and its mapping into memory. What open, ftruncate, fstat
-- and mmap do is the system's; a mapped file is its path, its size and the bytes of the mapping.
pub mod Splice
pub mod Bytewise
use daobell.Prelude.{
  ℕ, ◌<◌, ◌^◌, ◌≡◌, Bytes, List, [], ◌∷◌, ◌++◌, length, get_elem?, take, drop, Option, none, some,
  All, Bool, true, false, ◌&&◌, ◌==◌, if◌then◌else◌, codes,
}

pub record DnldFile : Type 0 where
  pub path : Bytes
  pub size : ℕ
  pub contents : Bytes

-- struct file_mem: `mem` is an offset into the mapping of the file at `file` in torrent->files.
pub record FileMem : Type 0 where
  pub file : ℕ
  pub mem : ℕ
  pub size : ℕ

-- The mapping has the file's size, which is an `unsigned`.
abbrev pub IsMapped : DnldFile → Type 0
IsMapped f = (length f.contents ≡ f.size) × (f.size < 2 ^ 32)

abbrev pub AreMapped : List DnldFile → Type 0
AreMapped = All IsMapped

-- The files of a torrent, end to end.
unfoldable pub content : List DnldFile → Bytes
content [] = []
content (f ∷ fs) = f.contents ++ content fs

unfoldable pub contents_at : List DnldFile → ℕ → Bytes
contents_at fs i = elim (get_elem? fs i) [ none ↦ [] | some f ↦ f.contents ]

-- The bytes that a file_mem stands for, and those of a list of them.
unfoldable pub read_mem : List DnldFile → FileMem → Bytes
unfolding contents_at
read_mem fs m = take m.size (drop m.mem (contents_at fs m.file))

unfoldable pub read_mems : List DnldFile → List FileMem → Bytes
read_mems fs [] = []
read_mems fs (m ∷ ms) = read_mem fs m ++ read_mems fs ms

unfoldable pub starts_with : Bytes → Bytes → Bool
starts_with [] s = true
starts_with (c ∷ prefix) [] = false
starts_with (c ∷ prefix) (d ∷ s) = c == d && starts_with prefix s

abbrev cons_some : ℕ → Option Bytes → Option Bytes
cons_some c none = none
cons_some c (some s) = some (c ∷ s)

-- s.substr(0, s.find(needle)), or `none` for npos.
unfoldable pub cut_before : Bytes → Bytes → Option Bytes
unfolding starts_with
cut_before needle [] = if starts_with needle [] then some [] else none
cut_before needle (c ∷ s) =
    let rest = cons_some c (cut_before needle s) in
    if starts_with needle (c ∷ s) then some [] else rest

abbrev with_path : DnldFile → Option Bytes → DnldFile
with_path f none = f
with_path f (some path) = record f { path = path; contents = [] }

-- dnld_file::complete, without what the system does: a file that is not complete yet is renamed, and
-- its mapping is gone.
unfoldable pub complete : DnldFile → DnldFile
unfolding cut_before
complete f = with_path f (cut_before (codes ".incomplete") f.path)

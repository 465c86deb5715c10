-- ===== src/Pieces/Gather.antt =====
-- One block: the loop of next_block_request takes the next bytes of the files, in order.
use daobell.Prelude.{
  ℕ, zero, suc, ◌+◌, ◌-◌, ◌≤◌, ◌<◌, Bytes, List, [], ◌∷◌, ◌++◌, length, take, drop, length-drop,
  drop-append_le, take-append_le, drop-drop, take-take-drop, append_assoc, append-nil, arith, ◌≡◌,
  refl, ap, sym, drop-append, lt→ltb, ge→ltb,
}
use daobell.Files.{DnldFile, FileMem, IsMapped, content, contents_at, read_mem, read_mems}
use daobell.Pieces.{Gathering, gather_file, gather, sub64, u64_mod, peer_request_size}

-- What the files hold from a position on.
abbrev pub remaining : List DnldFile → ℕ → Bytes
remaining fs offset = drop offset (content fs)

pub drop_file :
    (files fs : List DnldFile) (f : DnldFile) (i : ℕ)
    → drop i files ≡ f ∷ fs
    → (contents_at files i ≡ f.contents) × (drop (suc i) files ≡ fs)
unfolding contents_at
drop_file [] fs f zero e = cc
drop_file [] fs f (suc i) e = cc
drop_file (g ∷ files) fs f zero e = (cc, cc)
drop_file (g ∷ files) fs f (suc i) e = drop_file files fs f i e

read_mems-append :
    (files : List DnldFile) (ms ns : List FileMem)
    → read_mems files (ms ++ ns) ≡ read_mems files ms ++ read_mems files ns
unfolding read_mems
read_mems-append files [] ns = refl
read_mems-append files (m ∷ ms) ns = simp (read_mems-append files ms ns, append_assoc)

-- The next n bytes were taken: the memories spell them, and the place is behind them.
pub record Takes (files : List DnldFile) (n : ℕ) (g h : Gathering) : Type 0 where
  pub bytes :
      read_mems files h.file_mems
      ≡ read_mems files g.file_mems ++ take n (remaining (drop g.files_vec_index files) g.offset)
  pub after :
      remaining (drop h.files_vec_index files) h.offset
      ≡ drop n (remaining (drop g.files_vec_index files) g.offset)
  pub size : h.curr_size ≡ g.curr_size + n
  pub left : h.left ≡ sub64 g.left n

pub Takes-zero :
    (files : List DnldFile) (g : Gathering) (n : ℕ) → g.left < u64_mod → n ≡ 0 → Takes files n g g
Takes-zero files g n h e =
    rw e
      (record { bytes = sym (append-nil _); after = refl; size = omega arith; left = omega arith })

pub Takes-trans :
    (files : List DnldFile) (m n : ℕ) (g h k : Gathering)
    → m + n ≤ peer_request_size
    → g.left < u64_mod
    → Takes files m g h
    → Takes files n h k
    → Takes files (m + n) g k
Takes-trans files m n g h k le lt s t = record {
  bytes =
      rw (t.bytes, s.bytes, s.after, append_assoc)
        (ap (◌++◌ (read_mems files g.file_mems)) (take-take-drop m n (m + n) _ refl));
  after = rw (t.after, s.after) (drop-drop m n (m + n) _ refl);
  size = omega (arith, s.size, t.size);
  left = rw (t.left, s.left) (omega arith);
}

module _ (files fs : List DnldFile) (f : DnldFile) (g : Gathering)
    (here : drop g.files_vec_index files ≡ f ∷ fs) (mapped : IsMapped f) (place : g.offset ≤ f.size)
    (short : g.curr_size < peer_request_size) where
  -- what the file has left
  tail_size : ℕ
  tail_size = f.size - g.offset

  pub remaining_here :
      remaining (drop g.files_vec_index files) g.offset ≡ drop g.offset f.contents ++ content fs
  unfolding content
  remaining_here =
      rw here (drop-append_le g.offset f.contents (content fs) (omega (arith, mapped.0)))

  -- a stretch of this file reads as the bytes that come next
  read_here :
      (n : ℕ)
      → n ≤ f.size - g.offset
      → read_mems files
          (g.file_mems ++ record { file = g.files_vec_index; mem = g.offset; size = n } ∷ [])
        ≡ read_mems files g.file_mems ++ take n (remaining (drop g.files_vec_index files) g.offset)
  unfolding read_mems read_mem
  read_here n h = rw (
    read_mems-append files g.file_mems _,
    remaining_here,
    take-append_le n (drop g.offset f.contents) (content fs)
        (omega (arith, length-drop g.offset f.contents, mapped.0)),
    (drop_file files fs f g.files_vec_index here).0,
    append-nil (take n (drop g.offset f.contents)),
  )

  pub gather_file_part :
      peer_request_size - g.curr_size < f.size - g.offset
      → Takes files (peer_request_size - g.curr_size) g (gather_file f g.files_vec_index g)
  unfolding gather_file
  gather_file_part h =
      let room = peer_request_size - g.curr_size in
      let e : sub64 f.size g.offset ≡ f.size - g.offset = omega (arith, mapped.1) in
      rw (gather_file, e, lt→ltb _ _ h)
        (record {
          bytes = read_here room (omega arith);
          after = sym (drop-drop g.offset room (g.offset + room) _ refl);
          size = omega arith;
          left = refl;
        })

  pub gather_file_whole :
      f.size - g.offset ≤ peer_request_size - g.curr_size
      → Takes files (f.size - g.offset) g (gather_file f g.files_vec_index g)
  unfolding gather_file
  gather_file_whole h =
      let size = f.size - g.offset in
      let e : sub64 f.size g.offset ≡ f.size - g.offset = omega (arith, mapped.1) in
      rw (gather_file, e, ge→ltb _ _ h)
        (record {
          bytes = read_here size (omega arith);
          after =
              let e : size ≡ length (drop g.offset f.contents) =
                omega (arith, length-drop g.offset f.contents, mapped.0) in
              rw (
                let i : g.files_vec_index + 1 ≡ suc g.files_vec_index = omega arith in i,
                (drop_file files fs f g.files_vec_index here).1,
                remaining_here,
                e,
                drop-append (drop g.offset f.contents) (content fs),
              );
          size = omega arith;
          left = refl;
        })

  pub place_part :
      peer_request_size - g.curr_size < f.size - g.offset
      → let h = gather_file f g.files_vec_index g in
        (h.files_vec_index ≡ g.files_vec_index)
        × (h.offset ≤ f.size)
        × (h.curr_size ≡ peer_request_size)
  unfolding gather_file
  place_part h = ground (arith, mapped.1)

  pub place_whole :
      f.size - g.offset ≤ peer_request_size - g.curr_size
      → let h = gather_file f g.files_vec_index g in
        (h.files_vec_index ≡ g.files_vec_index + 1) × (h.offset ≡ 0)
  unfolding gather_file
  place_whole h = ground (arith, mapped.1)

-- The offset lies in the file that is next, if there is one.
abbrev pub IsPlaced : List DnldFile → ℕ → Type 0
IsPlaced [] offset = offset ≡ 0
IsPlaced (f ∷ fs) offset = offset ≤ f.size

pub IsPlaced-zero : (fs : List DnldFile) (offset : ℕ) → offset ≡ 0 → IsPlaced fs offset
IsPlaced-zero [] offset e = e
IsPlaced-zero (f ∷ fs) offset e = omega arith

pub gather_full :
    (fs : List DnldFile) (i : ℕ) (g : Gathering)
    → g.curr_size ≡ peer_request_size
    → gather fs i g ≡ g
unfolding gather
gather_full [] i g e = refl
gather_full (f ∷ fs) i g e = rw (ge→ltb g.curr_size peer_request_size (omega arith))

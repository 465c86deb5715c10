-- ===== src/Pieces/Block.antt =====
-- A whole block: the next bytes of the files up to 16 KB, or all that is left.
use daobell.Prelude.{
  ℕ, suc, ◌+◌, ◌-◌, ◌≤◌, ◌<◌, min, ltb, List, [], ◌∷◌, ◌++◌, length, drop, length-append,
  length-drop, Bool-cases, inl, inr, ◌⊎◌, arith, ◌≡◌, ap, subst, ltb→lt, ltb→ge,
}
use daobell.Files.{DnldFile, IsMapped, AreMapped, content}
use daobell.Pieces.{Gathering, gather_file, gather, u64_mod, peer_request_size}
use daobell.Pieces.Gather.{
  remaining, drop_file, Takes, Takes-zero, Takes-trans, gather_full, gather_file_part,
  gather_file_whole, place_part, place_whole, IsPlaced, IsPlaced-zero,
}

-- The block took the next n bytes, and ended full or with the files.
pub record Block (files : List DnldFile) (n : ℕ) (g h : Gathering) : Type 0 where
  pub takes : Takes files n g h
  pub place : IsPlaced (drop h.files_vec_index files) h.offset
  pub ends : (h.curr_size ≡ peer_request_size) ⊎ (drop h.files_vec_index files ≡ [])

pub remaining-nil : (offset : ℕ) → offset ≡ 0 → remaining [] offset ≡ []
unfolding content
remaining-nil offset e = rw e

length-remaining :
    (f : DnldFile) (fs : List DnldFile) (offset : ℕ)
    → IsMapped f
    → offset ≤ f.size
    → length (remaining (f ∷ fs) offset) ≡ f.size - offset + length (content fs)
unfolding content
length-remaining f fs offset mapped le = omega (
  arith,
  length-drop offset (f.contents ++ content fs),
  length-append f.contents (content fs),
  mapped.0,
)

module _ (files fs : List DnldFile) (f : DnldFile) (g : Gathering)
    (here : drop g.files_vec_index files ≡ f ∷ fs) (mapped : IsMapped f) (place : g.offset ≤ f.size)
    (short : g.curr_size < peer_request_size) where
  next : Gathering
  next = gather_file f g.files_vec_index g

  -- The file holds more than the block takes.
  Block-part :
      (j : ℕ)
      → peer_request_size - g.curr_size < f.size - g.offset
      → Block files (peer_request_size - g.curr_size) g (gather fs j next)
  unfolding next
  Block-part j h =
      let (index, offset, full) = place_part files fs f g here mapped place short h in
      rw (gather_full fs j (gather_file f g.files_vec_index g) full) (record {
        takes = gather_file_part files fs f g here mapped place short h;
        place = rw (index, here) offset;
        ends = inl full;
      })

  -- The file is used up, and the block goes on with the files behind it.
  Block-whole :
      (m : ℕ) (h : Gathering)
      → f.size - g.offset ≤ peer_request_size - g.curr_size
      → f.size - g.offset + m ≤ peer_request_size
      → g.left < u64_mod
      → Block files m next h
      → Block files (f.size - g.offset + m) g h
  unfolding next
  Block-whole m h le bound lt b = record {
    takes =
        Takes-trans files _ m g _ h bound lt
          (gather_file_whole files fs f g here mapped place short le) b.takes;
    place = b.place;
    ends = b.ends;
  }

  -- Either way, given what the files behind this one add.
  Block-more :
      (n j : ℕ)
      → n ≡ min (peer_request_size - g.curr_size) (f.size - g.offset + length (content fs))
      → g.left < u64_mod
      → (f.size - g.offset ≤ peer_request_size - g.curr_size
          → Block files (n - (f.size - g.offset)) next (gather fs j next))
      → Block files n g (gather fs j next)
  unfolding next
  Block-more n j size lt rest =
      elim (Bool-cases (ltb (peer_request_size - g.curr_size) (f.size - g.offset))) [
        | inl part ↦
            let h = ltb→lt _ _ part in
            subst (λ k. Block files k g (gather fs j next)) (omega arith) (Block-part j h)
        | inr whole ↦
            let h = ltb→ge _ _ whole in
            subst (λ k. Block files k g (gather fs j next)) (omega arith)
              (Block-whole (n - (f.size - g.offset)) _ h (omega arith) lt (rest h))
      ]

pub Block-gather :
    (files fs : List DnldFile) (i n : ℕ) (g : Gathering)
    → drop i files ≡ fs
    → g.files_vec_index ≡ i
    → AreMapped fs
    → IsPlaced fs g.offset
    → g.curr_size ≤ peer_request_size
    → g.left < u64_mod
    → n ≡ min (peer_request_size - g.curr_size) (length (remaining fs g.offset))
    → Block files n g (gather fs i g)
unfolding gather next
Block-gather files [] i n g e fvi mapped place le lt size =
    let done : drop g.files_vec_index files ≡ [] = rw fvi e in
    record {
      takes =
          Takes-zero files g n lt (omega (arith, size, ap length (remaining-nil g.offset place)));
      place = rw done place;
      ends = inr done;
    }
Block-gather files (f ∷ fs) i n g e fvi mapped place le lt size =
    let here : drop g.files_vec_index files ≡ f ∷ fs = rw fvi e in
    elim (Bool-cases (ltb g.curr_size peer_request_size)) [
      | inr full ↦ rw full (record {
        takes = Takes-zero files g n lt (omega (arith, ltb→ge _ _ full));
        place = rw here place;
        ends = inl (omega (arith, ltb→ge _ _ full));
      })
      | inl more ↦
          let short = ltb→lt g.curr_size peer_request_size more in
          let taken = length-remaining f fs g.offset mapped.0 place in
          rw (more, ← fvi)
            (Block-more files fs f g here mapped.0 place short n (g.files_vec_index + 1)
              (omega arith) lt
              λ h.
                let (index, offset) = place_whole files fs f g here mapped.0 place short h in
                let t = gather_file_whole files fs f g here mapped.0 place short h in
                let k : g.files_vec_index + 1 ≡ suc g.files_vec_index = omega arith in
                Block-gather files fs (g.files_vec_index + 1) (n - (f.size - g.offset))
                  (gather_file f g.files_vec_index g)
                  (rw k (drop_file files fs f g.files_vec_index here).1) index mapped.1
                  (IsPlaced-zero fs _ offset) (omega (arith, t.size)) (omega (arith, t.left))
                  (rw offset (omega (arith, t.size))))
    ]

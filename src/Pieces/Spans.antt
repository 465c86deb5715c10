-- ===== src/Pieces/Spans.antt =====
-- The memories of a block are one stretch of the files, laid end to end.
use daobell.Prelude.{
  ℕ, zero, suc, ◌+◌, ◌-◌, ◌≤◌, ◌<◌, ltb, ltb→lt, ltb→ge, Bool-cases, inl, inr, List, [], ◌∷◌, ◌++◌,
  drop, arith, ◌≡◌, refl, sym, subst,
}
use daobell.Files.{DnldFile, FileMem, IsMapped, AreMapped}
use daobell.Pieces.{Gathering, gather_file, gather, sub64, peer_request_size}
use daobell.Pieces.Gather.{drop_file, IsPlaced, gather_full, place_part, place_whole, IsPlaced-zero}

-- Where a file begins, and its size.
unfoldable pub start_of : List DnldFile → ℕ → ℕ
start_of [] i = 0
start_of (f ∷ files) zero = 0
start_of (f ∷ files) (suc i) = f.size + start_of files i

unfoldable pub size_of : List DnldFile → ℕ → ℕ
size_of [] i = 0
size_of (f ∷ files) zero = f.size
size_of (f ∷ files) (suc i) = size_of files i

-- A memory that lies in its file, and stands for the bytes from number p on.
abbrev pub IsInside : List DnldFile → ℕ → FileMem → Type 0
IsInside files p m = (start_of files m.file + m.mem ≡ p) × (m.mem + m.size ≤ size_of files m.file)

-- The memories stand for the bytes from number p to number q.
abbrev pub Spans : List DnldFile → ℕ → List FileMem → ℕ → Type 0
Spans files p [] q = p ≡ q
Spans files p (m ∷ ms) q = IsInside files p m × Spans files (p + m.size) ms q

Spans-append :
    (files : List DnldFile) (p q : ℕ) (ms : List FileMem) (m : FileMem)
    → Spans files p ms q
    → IsInside files q m
    → Spans files p (ms ++ m ∷ []) (q + m.size)
Spans-append files p q [] m s i =
    subst (λ k. IsInside files k m × (k + m.size ≡ q + m.size)) (sym s) (i, refl)
Spans-append files p q (n ∷ ms) m (j, s) i = (j, Spans-append files (p + n.size) q ms m s i)

start_of-zero : (files : List DnldFile) → start_of files 0 ≡ 0
unfolding start_of
start_of-zero [] = refl
start_of-zero (f ∷ files) = refl

pub start_of-suc :
    (files fs : List DnldFile) (f : DnldFile) (i : ℕ)
    → drop i files ≡ f ∷ fs
    → (start_of files (i + 1) ≡ start_of files i + f.size) × (size_of files i ≡ f.size)
unfolding start_of size_of
start_of-suc [] fs f zero e = cc
start_of-suc [] fs f (suc i) e = cc
start_of-suc (g ∷ files) fs f zero e =
    let same : g ≡ f = cc in rw same (omega (arith, start_of-zero files), refl)
start_of-suc (g ∷ files) fs f (suc i) e =
    let (s, z) = start_of-suc files fs f i e in
    let k : suc i + 1 ≡ suc (i + 1) = omega arith in rw k (omega (arith, s), z)

-- The place that the gathering has come to.
abbrev pub place : List DnldFile → Gathering → ℕ
place files g = start_of files g.files_vec_index + g.offset

-- The memories span what was gathered from p on.
abbrev pub Reached : List DnldFile → ℕ → Gathering → Type 0
Reached files p g = Spans files p g.file_mems (place files g) × (place files g ≡ p + g.curr_size)

module _ (files fs : List DnldFile) (f : DnldFile) (g : Gathering) (p : ℕ)
    (here : drop g.files_vec_index files ≡ f ∷ fs) (mapped : IsMapped f)
    (within : g.offset ≤ f.size) (spans : Reached files p g) where
  Reached-gather_file :
      g.curr_size < peer_request_size → Reached files p (gather_file f g.files_vec_index g)
  unfolding gather_file
  Reached-gather_file short =
      let (next, size) = start_of-suc files fs f g.files_vec_index here in
      let tail : sub64 f.size g.offset ≡ f.size - g.offset = omega (arith, mapped.1) in
      let room = peer_request_size - g.curr_size in
      elim (Bool-cases (ltb room (f.size - g.offset))) [
        | inl part ↦
            let h = ltb→lt room (f.size - g.offset) part in
            rw (gather_file, tail, part)
              (
                subst (Spans files p _) (omega arith) (
                    Spans-append files p (place files g) g.file_mems
                      (record { file = g.files_vec_index; mem = g.offset; size = room }) spans.0
                      (refl, omega arith)),
                omega (arith, spans.1),
              )
        | inr whole ↦
            let h = ltb→ge room (f.size - g.offset) whole in
            rw (gather_file, tail, whole)
              (
                subst (Spans files p _) (omega arith) (
                    Spans-append files p (place files g) g.file_mems
                      (record {
                        file = g.files_vec_index;
                        mem = g.offset;
                        size = f.size - g.offset;
                      })
                      spans.0 (refl, omega arith)),
                omega (arith, spans.1),
              )
      ]

pub Reached-gather :
    (files fs : List DnldFile) (i p : ℕ) (g : Gathering)
    → drop i files ≡ fs
    → g.files_vec_index ≡ i
    → AreMapped fs
    → IsPlaced fs g.offset
    → Reached files p g
    → Reached files p (gather fs i g)
unfolding gather
Reached-gather files [] i p g e fvi m w s = s
Reached-gather files (f ∷ fs) i p g e fvi m w s =
    let here : drop g.files_vec_index files ≡ f ∷ fs = rw fvi e in
    elim (Bool-cases (ltb g.curr_size peer_request_size)) [
      | inr full ↦ rw full s
      | inl more ↦
          let short = ltb→lt g.curr_size peer_request_size more in
          let g' = gather_file f g.files_vec_index g in
          let s' = Reached-gather_file files fs f g p here m.0 w s short in
          rw (more, ← fvi)
            (elim (Bool-cases (ltb (peer_request_size - g.curr_size) (f.size - g.offset))) [
              | inl part ↦
                  let (_, _, full) = place_part files fs f g here m.0 w short (ltb→lt _ _ part) in
                  rw (gather_full fs (g.files_vec_index + 1) g' full) s'
              | inr whole ↦
                  let (index, offset) =
                    place_whole files fs f g here m.0 w short (ltb→ge _ _ whole) in
                  let k : g.files_vec_index + 1 ≡ suc g.files_vec_index = omega arith in
                  Reached-gather files fs (g.files_vec_index + 1) p g'
                    (rw k (drop_file files fs f g.files_vec_index here).1) index m.1
                    (IsPlaced-zero fs g'.offset offset) s'
            ])
    ]

-- ===== src/Pieces/Create.antt =====
-- The loop of piece_request_create: blocks of 16 KB until the piece or the files end.
use daobell.Prelude.{
  ℕ, zero, suc, ◌+◌, ◌*◌, ◌≤◌, ◌<◌, min, Bytes, List, [], ◌∷◌, ◌++◌, length, take, drop,
  length-drop, length-take, take-take-drop, take_all, false, inl, inr, ◌⊎◌, arith, ◌≡◌, ◌≢◌, refl,
  sym, ap, subst, append-nil, List-cases, Outcome, ok, ◌>>=◌, drop-ne-nil,
}
use daobell.Files.{DnldFile, AreMapped, read_mems}
use daobell.Torrent.{Torrent}
use daobell.Pieces.{
  BlockRequest, Cursor, Gathering, gather, start_block, next_block_request, create_blocks, sub64,
  u32_mod, peer_request_size,
}
use daobell.Pieces.Gather.{remaining, IsPlaced}
use daobell.Pieces.Block.{Block, Block-gather, remaining-nil}

-- The bytes of the blocks, in order.
unfoldable pub read_blocks : List DnldFile → List BlockRequest → Bytes
read_blocks files [] = []
read_blocks files (b ∷ bs) = read_mems files b.file_mems ++ read_blocks files bs

-- Each block begins 16 KB behind the one before, has its length, and is not completed.
abbrev pub IsLayout : List DnldFile → ℕ → List BlockRequest → Type 0
IsLayout files start [] = Unit {0}
IsLayout files start (b ∷ bs) =
    (b.begin ≡ start)
    × (b.len ≡ length (read_mems files b.file_mems))
    × (b.completed ≡ false)
    × IsLayout files (start + peer_request_size) bs

abbrev pub rest_of : Torrent → Cursor → Bytes
rest_of t c = remaining (drop c.files_vec_index t.files) c.offset

-- A run that gave the blocks of these bytes.
pub record Creates (files : List DnldFile) (start : ℕ) (bytes : Bytes)
    (run : Outcome (List BlockRequest)) : Type 0 where
  pub blocks : List BlockRequest
  pub gives : run ≡ ok blocks
  pub reads : read_blocks files blocks ≡ bytes
  pub layout : IsLayout files start blocks

-- A cursor in the files, with whole blocks left to the end of the piece.
pub record IsReady (t : Torrent) (c : Cursor) (k : ℕ) : Type 0 where
  pub mapped : AreMapped t.files
  pub place : IsPlaced (drop c.files_vec_index t.files) c.offset
  pub whole : c.left ≡ k * peer_request_size
  pub within : c.left ≤ t.piece_length
  pub word : t.piece_length < u32_mod

pub AreMapped-drop : (files : List DnldFile) (i : ℕ) → AreMapped files → AreMapped (drop i files)
AreMapped-drop files zero h = h
AreMapped-drop [] (suc i) h = h
AreMapped-drop (f ∷ files) (suc i) h = AreMapped-drop files i h.1

pub create_blocks_done :
    (fuel : ℕ) (t : Torrent) (c : Cursor)
    → (c.left ≡ 0) ⊎ (drop c.files_vec_index t.files ≡ [])
    → create_blocks (suc fuel) t c ≡ ok []
unfolding create_blocks next_block_request
create_blocks_done fuel t c (inl e) = ground arith
create_blocks_done fuel t c (inr e) =
    let h : length t.files ≤ c.files_vec_index =
      omega (arith, ap length e, length-drop c.files_vec_index t.files) in
    ground arith

unfoldable pub gathered : Torrent → Cursor → Gathering
gathered t c = gather (drop c.files_vec_index t.files) c.files_vec_index (start_block c)

unfoldable pub after_block : Torrent → Cursor → Cursor
after_block t c =
    let g = gathered t c in
    record { offset = g.offset; left = g.left; files_vec_index = g.files_vec_index }

unfoldable pub made_block : Torrent → Cursor → BlockRequest
made_block t c =
    let g = gathered t c in
    record {
      file_mems = g.file_mems;
      begin = sub64 t.piece_length c.left;
      len = g.curr_size;
      completed = false;
    }

pub create_blocks_more :
    (fuel : ℕ) (t : Torrent) (c : Cursor)
    → c.left ≢ 0
    → drop c.files_vec_index t.files ≢ []
    → create_blocks (suc fuel) t c
      ≡ (create_blocks fuel t (after_block t c) >>= λ blocks. ok (made_block t c ∷ blocks))
unfolding create_blocks next_block_request after_block made_block gathered
create_blocks_more fuel t c h e = ground (arith, drop-ne-nil c.files_vec_index t.files e)

-- What one round has done.
start_block-Block :
    (t : Torrent) (c : Cursor) (k : ℕ)
    → IsReady t c k
    → Block t.files (min peer_request_size (length (rest_of t c))) (start_block c) (gathered t c)
unfolding gathered start_block
start_block-Block t c k r =
    Block-gather t.files (drop c.files_vec_index t.files) c.files_vec_index _ (start_block c) refl
      refl (AreMapped-drop t.files c.files_vec_index r.mapped) r.place (omega arith)
      (omega (arith, r.within, r.word)) (omega arith)

made_block-reads :
    (t : Torrent) (c : Cursor) (k : ℕ)
    → IsReady t c k
    → read_mems t.files (made_block t c).file_mems
      ≡ take (min peer_request_size (length (rest_of t c))) (rest_of t c)
unfolding made_block start_block read_mems
made_block-reads t c k r = (start_block-Block t c k r).takes.bytes

-- What is left to read behind the block, and the bytes left of the piece.
pub after_block_lem :
    (t : Torrent) (c : Cursor) (k n : ℕ)
    → IsReady t c k
    → n ≡ min peer_request_size (length (rest_of t c))
    → (rest_of t (after_block t c) ≡ drop n (rest_of t c))
      × ((after_block t c).left ≡ sub64 c.left n)
      × IsPlaced (drop (after_block t c).files_vec_index t.files) (after_block t c).offset
      × ((n ≡ peer_request_size) ⊎ (drop (after_block t c).files_vec_index t.files ≡ []))
unfolding after_block start_block
after_block_lem t c k n r e =
    let b = start_block-Block t c k r in
    rw e (b.takes.after, b.takes.left, b.place, ground (arith, b.ends, b.takes.size))

take_nil : (n : ℕ) → take {A = ℕ} n [] ≡ []
take_nil zero = refl
take_nil (suc n) = refl

Creates-nil :
    (fuel : ℕ) (t : Torrent) (c : Cursor) (start : ℕ) (bytes : Bytes)
    → (c.left ≡ 0) ⊎ (drop c.files_vec_index t.files ≡ [])
    → bytes ≡ []
    → Creates t.files start bytes (create_blocks (suc fuel) t c)
Creates-nil fuel t c start bytes e h = record {
  blocks = [];
  gives = create_blocks_done fuel t c e;
  reads = unfold read_blocks in sym h;
  layout = tt;
}

pub block_len :
    (t : Torrent) (c : Cursor) (k : ℕ)
    → IsReady t c k
    → (made_block t c).len
      ≡ length (take (min peer_request_size (length (rest_of t c))) (rest_of t c))
unfolding made_block start_block
block_len t c k r = omega (
  arith,
  (start_block-Block t c k r).takes.size,
  length-take (min peer_request_size (length (rest_of t c))) (rest_of t c),
)

Creates-cons :
    (fuel : ℕ) (t : Torrent) (c : Cursor) (k start : ℕ) (rest : Bytes)
    → IsReady t c k
    → c.left ≢ 0
    → drop c.files_vec_index t.files ≢ []
    → start + c.left ≡ t.piece_length
    → Creates t.files (start + peer_request_size) rest (create_blocks fuel t (after_block t c))
    → Creates t.files start
        (take (min peer_request_size (length (rest_of t c))) (rest_of t c) ++ rest)
        (create_blocks (suc fuel) t c)
Creates-cons fuel t c k start rest r left files e rec = record {
  blocks = made_block t c ∷ rec.blocks;
  gives = rw (create_blocks_more fuel t c left files, rec.gives);
  reads = unfold read_blocks in rw (made_block-reads t c k r, rec.reads);
  layout = (
    unfold made_block in omega (arith, r.within, r.word),
    rw (made_block-reads t c k r) (block_len t c k r),
    unfold made_block in refl,
    rec.layout,
  );
}

-- The files ended with the block: what was left is all in it.
Creates-last :
    (fuel : ℕ) (t : Torrent) (c : Cursor) (k start : ℕ)
    → IsReady t c (suc k)
    → c.left ≢ 0
    → drop c.files_vec_index t.files ≢ []
    → start + c.left ≡ t.piece_length
    → 0 < fuel
    → drop (after_block t c).files_vec_index t.files ≡ []
    → Creates t.files start (take c.left (rest_of t c)) (create_blocks (suc fuel) t c)
Creates-last zero t c k start r left files e h done = elim h [ ]
Creates-last (suc fuel) t c k start r left files e h done =
    let n = min peer_request_size (length (rest_of t c)) in
    let a = after_block_lem t c (suc k) n r refl in
    let none_left : rest_of t (after_block t c) ≡ [] =
      rw done (remaining-nil _ (let p = a.2 in rw done at p)) in
    let short : length (rest_of t c) ≤ n =
      omega (arith, ap length none_left, ap length a.0, length-drop n (rest_of t c)) in
    let same : take n (rest_of t c) ++ [] ≡ take c.left (rest_of t c) = rw (
      append-nil (take n (rest_of t c)),
      take_all n (rest_of t c) short,
      take_all c.left (rest_of t c) (omega (arith, r.whole)),
    ) in
    subst (λ bs. Creates t.files start bs (create_blocks (suc (suc fuel)) t c)) same
      (Creates-cons (suc fuel) t c (suc k) start [] r left files e
        (Creates-nil fuel t (after_block t c) _ [] (inr done) refl))

Creates-full :
    (fuel : ℕ) (t : Torrent) (c : Cursor) (k start : ℕ)
    → IsReady t c (suc k)
    → c.left ≢ 0
    → drop c.files_vec_index t.files ≢ []
    → start + c.left ≡ t.piece_length
    → peer_request_size ≤ length (rest_of t c)
    → (IsReady t (after_block t c) k
        → start + peer_request_size + (after_block t c).left ≡ t.piece_length
        → length (rest_of t (after_block t c)) + peer_request_size ≡ length (rest_of t c)
        → Creates t.files
            (start + peer_request_size)
            (take (after_block t c).left (rest_of t (after_block t c)))
            (create_blocks fuel t (after_block t c)))
    → Creates t.files start (take c.left (rest_of t c)) (create_blocks (suc fuel) t c)
Creates-full fuel t c k start r left files e h rec =
    let a = after_block_lem t c (suc k) peer_request_size r (omega arith) in
    let n : min peer_request_size (length (rest_of t c)) ≡ peer_request_size = omega arith in
    let left' : (after_block t c).left + peer_request_size ≡ c.left =
      omega (arith, a.1, r.whole, r.within, r.word) in
    let ready : IsReady t (after_block t c) k = record {
      mapped = r.mapped;
      place = a.2;
      whole = omega (arith, r.whole);
      within = omega (arith, r.within);
      word = r.word;
    } in
    let rest' = take (after_block t c).left (rest_of t (after_block t c)) in
    let same : take (min peer_request_size (length (rest_of t c))) (rest_of t c) ++ rest'
        ≡ take c.left (rest_of t c) =
      rw (n, a.0)
        (take-take-drop peer_request_size (after_block t c).left c.left (rest_of t c)
          (omega arith)) in
    let fewer : length (rest_of t (after_block t c)) + peer_request_size ≡ length (rest_of t c) =
      omega (arith, ap length a.0, length-drop peer_request_size (rest_of t c)) in
    subst (λ bs. Creates t.files start bs (create_blocks (suc fuel) t c)) same
      (Creates-cons fuel t c (suc k) start rest' r left files e (rec ready (omega arith) fewer))

no_rest :
    (t : Torrent) (c : Cursor) (k : ℕ)
    → IsReady t c k
    → drop c.files_vec_index t.files ≡ []
    → take c.left (rest_of t c) ≡ []
no_rest t c k r e =
    let gone : rest_of t c ≡ [] = rw e (remaining-nil _ (let p = r.place in rw e at p)) in
    rw gone (take_nil c.left)

-- Enough fuel: a round and one more for the end, however many bytes are left.
abbrev pub IsEnough : ℕ → Torrent → Cursor → Type 0
IsEnough fuel t c =
    ((drop c.files_vec_index t.files ≡ []) × (0 < fuel)) ⊎ (length (rest_of t c) + 1 < fuel)

pub create_blocks-Creates :
    (fuel : ℕ) (t : Torrent) (c : Cursor) (k start : ℕ)
    → IsReady t c k
    → start + c.left ≡ t.piece_length
    → IsEnough fuel t c
    → Creates t.files start (take c.left (rest_of t c)) (create_blocks fuel t c)
create_blocks-Creates zero t c k start r e h = absurd (omega arith)
create_blocks-Creates (suc fuel) t c zero start r e h =
    Creates-nil fuel t c start _ (inl r.whole) (rw r.whole)
create_blocks-Creates (suc fuel) t c (suc k) start r e h =
    let left : c.left ≢ 0 = omega (arith, r.whole) in
    elim (List-cases (drop c.files_vec_index t.files)) [
      | inl none_left ↦
          Creates-nil fuel t c start _ (inr none_left) (no_rest t c (suc k) r none_left)
      | inr files ↦
          let rounds : length (rest_of t c) + 1 < suc fuel = elim h [
            | inl p ↦ absurd (files p.0)
            | inr q ↦ q
          ] in
          let a =
            after_block_lem t c (suc k) (min peer_request_size (length (rest_of t c))) r refl in
          elim a.3 [
            | inl full ↦
                Creates-full fuel t c k start r left files e (omega arith) λ ready e' fewer.
                  create_blocks-Creates fuel t (after_block t c) k (start + peer_request_size) ready
                    e' (inr (omega arith))
            | inr done ↦ Creates-last fuel t c k start r left files e (omega arith) done
          ]
    ]

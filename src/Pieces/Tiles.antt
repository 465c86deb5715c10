-- ===== src/Pieces/Tiles.antt =====
-- The blocks of a request are consecutive stretches of the files.
use daobell.Prelude.{
  ℕ, zero, suc, ◌+◌, ◌-◌, ◌*◌, ◌≤◌, ◌<◌, min, List, [], ◌∷◌, length, drop, List-cases, length-take,
  length-append, get_elem?, inl, inr, ◌⊎◌, arith, ◌≡◌, ◌≢◌, refl, sym, ◌∙◌, subst, ok, Outcome,
  ◌>>=◌, some,
}
use daobell.Files.{DnldFile, read_mems}
use daobell.Torrent.{Torrent}
use daobell.Pieces.{BlockRequest, Cursor, create_blocks, start_block, peer_request_size}
use daobell.Pieces.Create.{
  IsReady, IsLayout, create_blocks_done, create_blocks_more, after_block, made_block, gathered,
  after_block_lem, block_len, AreMapped-drop, rest_of, read_blocks,
}
use daobell.Pieces.Spans.{Spans, Reached, Reached-gather, start_of}

-- The blocks stand for consecutive bytes from number p on; only the last may be shorter than 16 KB.
abbrev pub IsTiled : List DnldFile → ℕ → List BlockRequest → Type 0
IsTiled files p [] = Unit {0}
IsTiled files p (b ∷ bs) =
    Spans files p b.file_mems (p + b.len)
    × ((b.len ≡ peer_request_size) ⊎ ((b.len ≤ peer_request_size) × (bs ≡ [])))
    × IsTiled files (p + b.len) bs

-- The place of a cursor.
abbrev pub cursor_place : List DnldFile → Cursor → ℕ
cursor_place files c = start_of files c.files_vec_index + c.offset

gathered-Reached :
    (t : Torrent) (c : Cursor) (k : ℕ)
    → IsReady t c k
    → Reached t.files (cursor_place t.files c) (gathered t c)
unfolding gathered start_block
gathered-Reached t c k r =
    Reached-gather t.files (drop c.files_vec_index t.files) c.files_vec_index _ (start_block c) refl
      refl (AreMapped-drop t.files c.files_vec_index r.mapped) r.place (refl, omega arith)

made_block-Spans :
    (t : Torrent) (c : Cursor) (k : ℕ)
    → IsReady t c k
    → let p = cursor_place t.files c in
      Spans t.files p (made_block t c).file_mems (p + (made_block t c).len)
      × (cursor_place t.files (after_block t c) ≡ p + (made_block t c).len)
unfolding made_block after_block
made_block-Spans t c k r =
    let (s, e) = gathered-Reached t c k r in (subst (Spans t.files _ _) e s, e)

-- The blocks behind the first of a run that came to an end.
blocks_behind :
    (run : Outcome (List BlockRequest)) (first : BlockRequest) (blocks : List BlockRequest)
    → (run >>= λ bs. ok (first ∷ bs)) ≡ ok blocks
    → (bs : List BlockRequest) × (run ≡ ok bs) × (first ∷ bs ≡ blocks)
blocks_behind Outcome.fault first blocks h = cc
blocks_behind Outcome.out_of_fuel first blocks h = cc
blocks_behind (ok bs) first blocks h = let same : first ∷ bs ≡ blocks = cc in (bs, refl, same)

create_blocks_ended :
    (fuel : ℕ) (t : Torrent) (c : Cursor) (blocks : List BlockRequest)
    → (c.left ≡ 0) ⊎ (drop c.files_vec_index t.files ≡ [])
    → create_blocks fuel t c ≡ ok blocks
    → blocks ≡ []
unfolding create_blocks
create_blocks_ended zero t c blocks e run = cc
create_blocks_ended (suc fuel) t c blocks e run =
    let same = sym (create_blocks_done fuel t c e) ∙ run in cc

-- A whole block leaves the cursor ready for the blocks behind it.
IsReady-after_block :
    (t : Torrent) (c : Cursor) (k : ℕ)
    → IsReady t c (suc k)
    → min peer_request_size (length (rest_of t c)) ≡ peer_request_size
    → IsReady t (after_block t c) k
IsReady-after_block t c k r full =
    let a = after_block_lem t c (suc k) peer_request_size r (sym full) in
    let left : (after_block t c).left + peer_request_size ≡ c.left =
      omega (arith, a.1, r.whole, r.within, r.word) in
    record {
      mapped = r.mapped;
      place = a.2;
      whole = omega (arith, r.whole);
      within = omega (arith, r.within);
      word = r.word;
    }

-- The blocks that create_blocks makes from a cursor on.
pub create_blocks-IsTiled :
    (fuel : ℕ) (t : Torrent) (c : Cursor) (k : ℕ) (blocks : List BlockRequest)
    → IsReady t c k
    → create_blocks fuel t c ≡ ok blocks
    → IsTiled t.files (cursor_place t.files c) blocks
unfolding create_blocks
create_blocks-IsTiled zero t c k blocks r run = absurd (cc)
create_blocks-IsTiled (suc fuel) t c zero blocks r run =
    let none_left = create_blocks_ended (suc fuel) t c blocks (inl r.whole) run in
    subst (IsTiled t.files (cursor_place t.files c)) (sym none_left) tt
create_blocks-IsTiled (suc fuel) t c (suc k) blocks r run =
    let left : c.left ≢ 0 = omega (arith, r.whole) in
    elim (List-cases (drop c.files_vec_index t.files)) [
      | inl ended ↦
          let none_left = create_blocks_ended (suc fuel) t c blocks (inr ended) run in
          subst (IsTiled t.files (cursor_place t.files c)) (sym none_left) tt
      | inr more ↦
          let b = made_block t c in
          let (spans, next) = made_block-Spans t c (suc k) r in
          let n = min peer_request_size (length (rest_of t c)) in
          let len : b.len ≡ n =
            omega (arith, block_len t c (suc k) r, length-take n (rest_of t c)) in
          let a = after_block_lem t c (suc k) n r refl in
          let short : b.len ≤ peer_request_size = omega (arith, len) in
          let (bs, rest, same) =
            blocks_behind _ b blocks (sym (create_blocks_more fuel t c left more) ∙ run) in
          subst (IsTiled t.files (cursor_place t.files c)) same (elim a.3 [
            | inl full ↦ (
              spans,
              inl (len ∙ full),
              subst (λ q. IsTiled t.files q bs) next
                  (create_blocks-IsTiled fuel t (after_block t c) k bs
                    (IsReady-after_block t c k r full) rest),
            )
            | inr ended ↦
                let none_left = create_blocks_ended fuel t (after_block t c) bs (inr ended) rest in
                (spans, inr (short, none_left), subst (IsTiled t.files _) (sym none_left) tt)
          ])
    ]

-- Block number j is there where the blocks have more than j * 16 KB bytes, and begins as far behind p.
pub get_elem?-IsTiled :
    (files : List DnldFile) (p start j : ℕ) (bs : List BlockRequest)
    → IsLayout files start bs
    → IsTiled files p bs
    → j * peer_request_size < length (read_blocks files bs)
    → (b : BlockRequest) × (get_elem? bs j ≡ some b)
      × (b.len ≡ min peer_request_size (length (read_blocks files bs) - j * peer_request_size))
      × Spans files (p + j * peer_request_size) b.file_mems (p + j * peer_request_size + b.len)
unfolding read_blocks
get_elem?-IsTiled files p start j [] l t h = absurd (omega arith)
get_elem?-IsTiled files p start zero (b ∷ bs) l t h =
    let n = length-append (read_mems files b.file_mems) (read_blocks files bs) in
    let none_behind : (bs ≡ []) → length (read_blocks files bs) ≡ 0 = λ e. rw e refl in
    (
      b,
      refl,
      elim t.1 [
        | inl full ↦ omega (arith, l.1, n)
        | inr (short, last) ↦ omega (arith, l.1, n, none_behind last)
      ],
      subst (λ q. Spans files q b.file_mems (q + b.len)) (omega arith) t.0,
    )
get_elem?-IsTiled files p start (suc j) (b ∷ bs) l t h =
    let n = length-append (read_mems files b.file_mems) (read_blocks files bs) in
    let none_behind : (bs ≡ []) → length (read_blocks files bs) ≡ 0 = λ e. rw e refl in
    elim t.1 [
      | inr (short, last) ↦ absurd (omega (arith, l.1, n, none_behind last))
      | inl full ↦
          let (c, e, size, spans) =
            get_elem?-IsTiled files (p + b.len) (start + peer_request_size) j bs l.3 t.2
              (omega (arith, l.1, n)) in
          (
            c,
            e,
            omega (arith, size, l.1, n),
            subst (λ q. Spans files q c.file_mems (q + c.len)) (omega arith) spans,
          )
    ]

unfoldable pub total_len : List BlockRequest → ℕ
total_len [] = 0
total_len (b ∷ bs) = b.len + total_len bs

pub total_len-read_blocks :
    (files : List DnldFile) (start : ℕ) (bs : List BlockRequest)
    → IsLayout files start bs
    → total_len bs ≡ length (read_blocks files bs)
unfolding total_len read_blocks
total_len-read_blocks files start [] l = refl
total_len-read_blocks files start (b ∷ bs) l =
    let n = length-append (read_mems files b.file_mems) (read_blocks files bs) in
    omega (arith, l.1, n, total_len-read_blocks files (start + peer_request_size) bs l.3)

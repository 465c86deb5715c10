-- ===== src/Pieces/Place.antt =====
-- The place in the files of each block of a piece.
use daobell.Prelude.{
  ℕ, zero, suc, ◌+◌, ◌-◌, ◌*◌, ◌%◌, ◌<◌, ◌≤◌, min, ltb, ltb→ge, ◌==◌, ==_iff, Bool-cases, List, [],
  ◌∷◌, length, drop, length-take, length-drop, length-append, inl, inr, arith, ◌≡◌, refl, ◌∙◌, ap,
  subst, ok, some,
}
use daobell.Files.{DnldFile, AreMapped, content}
use daobell.Torrent.{Torrent}
use daobell.Pieces.{
  BlockRequest, PieceRequest, skip_files, skip_until_index, create_fuel, piece_request_create,
  piece_request_block_at, block_at, u32_mod, peer_request_size,
}
use daobell.Pieces.Gather.{drop_file}
use daobell.Pieces.Create.{IsLayout, read_blocks}
use daobell.Pieces.Layout.{start_cursor, start_cursor-IsReady, create_run, block_at-layout}
use daobell.Pieces.Spans.{Spans, start_of, start_of-suc}
use daobell.Pieces.Tiles.{IsTiled, cursor_place, create_blocks-IsTiled, get_elem?-IsTiled}

start_of-length :
    (files : List DnldFile) (i : ℕ)
    → AreMapped files
    → drop i files ≡ []
    → start_of files i ≡ length (content files)
unfolding start_of content
start_of-length [] i m e = refl
start_of-length (f ∷ files) zero m e = cc
start_of-length (f ∷ files) (suc i) m e =
    omega (arith, m.0.0, start_of-length files i m.1 e, length-append f.contents (content files))

-- The place that skip_until_index finds is that many bytes behind the place where it begins.
skip_files-place :
    (files fs : List DnldFile) (i skip : ℕ)
    → drop i files ≡ fs
    → AreMapped fs
    → skip ≤ length (content fs)
    → start_of files (skip_files fs i skip i).1 + (skip_files fs i skip i).0
      ≡ start_of files i + skip
unfolding skip_files content
skip_files-place files [] i skip e m h = omega arith
skip_files-place files (f ∷ fs) i skip e m h = elim (Bool-cases (skip == 0)) [
  | inl none ↦ rw none (omega (arith, (==_iff skip 0).0 none))
  | inr more ↦ rw more (elim (Bool-cases (ltb skip f.size)) [
    | inl inside ↦ rw inside refl
    | inr behind ↦
        let k : i + 1 ≡ suc i = omega arith in
        let le = ltb→ge skip f.size behind in
        let next = (start_of-suc files fs f i e).0 in
        let far : skip - f.size ≤ length (content fs) =
          omega (arith, m.0.0, length-append f.contents (content fs)) in
        rw behind (
          skip_files-place files fs (i + 1) (skip - f.size) (rw k (drop_file files fs f i e).1) m.1
            far
          ∙ omega (arith, next))
  ])
]

start_of-zero : (files : List DnldFile) → start_of files 0 ≡ 0
unfolding start_of
start_of-zero [] = refl
start_of-zero (f ∷ files) = refl

start_cursor-place :
    (t : Torrent) (index : ℕ)
    → AreMapped t.files
    → t.piece_length * index < u32_mod
    → t.piece_length * index ≤ length (content t.files)
    → cursor_place t.files (start_cursor t index) ≡ t.piece_length * index
unfolding start_cursor skip_until_index
start_cursor-place t index m small h =
    let same : (t.piece_length * index) % u32_mod ≡ t.piece_length * index = omega arith in
    rw same (
      skip_files-place t.files t.files 0 (t.piece_length * index) refl m h
      ∙ omega (arith, start_of-zero t.files))

-- The request for a piece, whose blocks stand for the bytes of the piece, 16 KB apart.
pub record IsCut (t : Torrent) (index : ℕ) (r : PieceRequest) : Type 0 where
  pub made : piece_request_create t index ≡ ok r
  pub layout : IsLayout t.files 0 r.block_requests
  pub tiled : IsTiled t.files (t.piece_length * index) r.block_requests
  pub size :
      length (read_blocks t.files r.block_requests)
      ≡ min t.piece_length (length (content t.files) - t.piece_length * index)

-- Block number j of a piece is the 16 KB from `piece_length * index + j * 16 KB` on, or what the
-- files have of them.
pub record Locates (t : Torrent) (index begin : ℕ) (r : PieceRequest) (b : BlockRequest)
    : Type 0 where
  pub made : piece_request_create t index ≡ ok r
  pub found : piece_request_block_at r begin ≡ some b
  pub size :
      b.len ≡ min peer_request_size (length (content t.files) - (t.piece_length * index + begin))
  pub spans :
      Spans t.files
        (t.piece_length * index + begin)
        b.file_mems
        (t.piece_length * index + begin + b.len)

module _ (t : Torrent) (index k : ℕ) (m : AreMapped t.files)
    (e : t.piece_length ≡ k * peer_request_size) (lt : t.piece_length < u32_mod)
    (small : t.piece_length * index < u32_mod) where
  pub piece_request_create-IsCut :
      t.piece_length * index ≤ length (content t.files) → (r : PieceRequest) × IsCut t index r
  unfolding piece_request_create start_cursor
  piece_request_create-IsCut h =
      let same : (t.piece_length * index) % u32_mod ≡ t.piece_length * index = omega arith in
      let run = create_run t index k m e lt in
      let ready = start_cursor-IsReady t index k m e lt in
      let tiled =
        create_blocks-IsTiled (create_fuel t) t (start_cursor t index) k run.blocks ready
          run.gives in
      (
        record {
          piece_index = index;
          block_requests = run.blocks;
          blocks_left = length run.blocks;
        },
        record {
          made = rw run.gives refl;
          layout = run.layout;
          tiled =
              subst (λ q. IsTiled t.files q run.blocks) (start_cursor-place t index m small h)
                tiled;
          size =
              ap length run.reads
              ∙ (length-take t.piece_length _
                  ∙ ap (min t.piece_length) (
                      length-drop ((t.piece_length * index) % u32_mod) (content t.files)
                      ∙ ap (λ n. length (content t.files) - n) same));
        },
      )

  pub piece_request_block_at-Locates :
      (j : ℕ)
      → j < k
      → t.piece_length * index + j * peer_request_size < length (content t.files)
      → (r : PieceRequest) × (b : BlockRequest) × Locates t index (j * peer_request_size) r b
  unfolding piece_request_block_at
  piece_request_block_at-Locates j inside h =
      let zero_on : j * peer_request_size ≡ 0 + j * peer_request_size = omega arith in
      let (r, cut) = piece_request_create-IsCut (omega arith) in
      let (b, found, size, spans) =
        get_elem?-IsTiled t.files (t.piece_length * index) 0 j r.block_requests cut.layout cut.tiled
          (omega (arith, cut.size)) in
      (
        r,
        b,
        record {
          made = cut.made;
          found =
              ap (block_at r.block_requests) zero_on
              ∙ (block_at-layout t.files 0 j r.block_requests cut.layout ∙ found);
          size = omega (arith, size, cut.size);
          spans = spans;
        },
      )

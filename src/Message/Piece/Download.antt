-- ===== src/Message/Piece/Download.antt =====
-- The blocks of a download, one after another.
use daobell.Prelude.{
  ℕ, suc, ◌+◌, ◌-◌, ◌*◌, ◌≤◌, ◌<◌, min, ltb, ltb→lt, ltb→ge, Bool-cases, Bytes, List, [], ◌∷◌,
  length, drop, length-take, length-drop, get_elem?, inl, inr, ◌⊎◌, arith, ◌≡◌, refl, sym, ◌∙◌, ap,
  some, ok, ◌++◌, ◌^◌, subst,
}
use daobell.Files.{AreMapped, content}
use daobell.Files.Splice.{splice, length-splice}
use daobell.Files.Bytewise.{
  get_elem?-take, get_elem?-drop, get_elem?-splice_inside, get_elem?-splice_before,
  get_elem?-splice_behind,
}
use daobell.Pieces.{peer_request_size, u32_mod}
use daobell.Torrent.{Torrent}
use daobell.Net.{Socket, htonl}
use daobell.Net.Sending.{IsStream, IsReliable}
use daobell.Message.{piece}
use daobell.Message.Receive.{peer_msg_recv}
use daobell.Message.Wire.Received.{Yields}
use daobell.Message.Piece.Transfer.{IsWritten, stretch, recv_piece-IsWritten}

abbrev pub PieceBlock : Type 0
PieceBlock = ℕ × ℕ

-- The piece, and the block in it.
abbrev pub begin_of : Torrent → PieceBlock → ℕ
begin_of t (index, j) = t.piece_length * index + j * peer_request_size

abbrev block_bytes : Torrent → PieceBlock → Bytes
block_bytes t (index, j) = stretch t index (j * peer_request_size) (
    min peer_request_size
      (length (content t.files) - (t.piece_length * index + j * peer_request_size)))

length-block_bytes_of :
    (t : Torrent) (index j : ℕ)
    → length (block_bytes t (index, j))
      ≡ min peer_request_size
          (length (content t.files) - (t.piece_length * index + j * peer_request_size))
length-block_bytes_of t index j =
    let p = t.piece_length * index + j * peer_request_size in
    omega (
      arith,
      length-take (min peer_request_size (length (content t.files) - p)) (drop p (content t.files)),
      length-drop p (content t.files),
    )

-- The message with the block of the sender.
abbrev pub piece_wire : Torrent → PieceBlock → Bytes
piece_wire t (index, j) =
    htonl (9 + peer_request_size)
    ++ (7 ∷ (htonl index ++ (htonl (j * peer_request_size) ++ block_bytes t (index, j))))

-- A block of the sender's files, the numbers of which are words.
pub record IsBlockOf (t : Torrent) (k : ℕ) (b : PieceBlock) : Type 0 where
  pub in_piece : b.1 < k
  pub in_files : begin_of t b < length (content t.files)
  pub word : b.0 < 2 ^ 32
  pub begins : t.piece_length * b.0 < u32_mod

-- These blocks of the sender's files came to a receiver in this order, from any peers, and
-- peer_msg_recv took each of them.
pub data Fetches {S : Socket} (I : IsStream S) (t : Torrent) (k : ℕ)
    : List PieceBlock → Torrent → Torrent → Type 0 where
  nothing : (u : Torrent) → Fetches I t k [] u u
  fetch :
      (index j : ℕ) (blocks : List PieceBlock) (u v w : Torrent) (r r' : S.State) (rest : Bytes)
      → IsBlockOf t k (index, j)
      → I.pending r ≡ piece_wire t (index, j) ++ rest
      → peer_msg_recv S u r
        ≡ ok (some (piece index (j * peer_request_size) peer_request_size, v), r')
      → Fetches I t k blocks v w
      → Fetches I t k ((index, j) ∷ blocks) u w

-- The byte at x is one of a block.
abbrev pub IsWithin : Torrent → PieceBlock → ℕ → Type 0
IsWithin t b x = (begin_of t b ≤ x) × (x < begin_of t b + peer_request_size)

abbrev pub AreCovered : Torrent → List PieceBlock → ℕ → Type 0
AreCovered t [] x = ⊥
AreCovered t (b ∷ bs) x = IsWithin t b x ⊎ AreCovered t bs x

abbrev Agrees : Torrent → Torrent → ℕ → Type 0
Agrees t u x = get_elem? (content u.files) x ≡ get_elem? (content t.files) x

-- As long and cut as the sender's, and mapped.
abbrev pub IsLike : Torrent → Torrent → Type 0
IsLike t u =
    (u.piece_length ≡ t.piece_length)
    × (length (content u.files) ≡ length (content t.files))
    × AreMapped u.files

module _ (t u v : Torrent) (index j : ℕ) (like : IsLike t u)
    (begins : begin_of t (index, j) < length (content t.files))
    (written : IsWritten u index (j * peer_request_size) (block_bytes t (index, j)) v) where
  start : ℕ
  start = t.piece_length * index + j * peer_request_size

  length-block_bytes :
      length (block_bytes t (index, j)) ≡ min peer_request_size (length (content t.files) - start)
  unfolding start
  length-block_bytes = length-block_bytes_of t index j

  after : content v.files ≡ splice start (block_bytes t (index, j)) (content u.files)
  unfolding start
  after =
      let files = ap (λ r. content r.files) written.only_files in
      files
      ∙ (written.spliced
          ∙ ap
              (λ l.
                splice (l * index + j * peer_request_size) (block_bytes t (index, j))
                  (content u.files))
              like.0)

  fits : start + length (block_bytes t (index, j)) ≤ length (content u.files)
  unfolding start
  fits = omega (arith, length-block_bytes, like.1)

  written-IsLike : IsLike t v
  written-IsLike = (
    ap (λ r. r.piece_length) written.only_files ∙ like.0,
    ap length after
        ∙ (length-splice start (block_bytes t (index, j)) (content u.files) fits ∙ like.1),
    subst AreMapped (sym (ap (λ r. r.files) written.only_files)) written.mapped,
  )

  written-Agrees :
      (x : ℕ) → x < length (content t.files) → IsWithin t (index, j) x ⊎ Agrees t u x → Agrees t v x
  unfolding start
  written-Agrees x inside c =
      let bytes = block_bytes t (index, j) in
      let n = min peer_request_size (length (content t.files) - start) in
      let size = length-block_bytes in
      let at_x = ap (λ s. get_elem? s x) after in
      elim (Bool-cases (ltb x start)) [
        | inl early ↦
            let h = ltb→lt x start early in
            at_x
            ∙ (get_elem?-splice_before start bytes (content u.files) fits x h
                ∙ elim c [ inl within ↦ absurd (omega (arith, within.0)) | inr agrees ↦ agrees ])
        | inr not_early ↦
            let from = ltb→ge x start not_early in
            elim (Bool-cases (ltb x (start + length bytes))) [
              | inl here ↦
                  let h = ltb→lt x (start + length bytes) here in
                  at_x
                  ∙ (get_elem?-splice_inside start bytes (content u.files) fits x (x - start)
                        (omega arith) (omega arith)
                      ∙ (get_elem?-take (drop start (content t.files)) n (x - start)
                            (omega (arith, size))
                          ∙ get_elem?-drop (content t.files) start (x - start) x (omega arith)))
              | inr late ↦
                  let h = ltb→ge x (start + length bytes) late in
                  at_x
                  ∙ (get_elem?-splice_behind start bytes (content u.files) fits x h ∙ elim c [
                    | inl within ↦ absurd (omega (arith, within.1, size))
                    | inr agrees ↦ agrees
                  ])
            ]
      ]

module _ {S : Socket} (I : IsStream S) (R : IsReliable I) (t : Torrent) (k : ℕ)
    (cut : t.piece_length ≡ k * peer_request_size) (short : t.piece_length < u32_mod) where
  -- What peer_msg_recv took is written.
  fetched-IsWritten :
      (u v : Torrent) (index j : ℕ) (r r' : S.State) (rest : Bytes)
      → IsLike t u
      → IsBlockOf t k (index, j)
      → I.pending r ≡ piece_wire t (index, j) ++ rest
      → peer_msg_recv S u r
        ≡ ok (some (piece index (j * peer_request_size) peer_request_size, v), r')
      → IsWritten u index (j * peer_request_size) (block_bytes t (index, j)) v
  unfolding Yields
  fetched-IsWritten u v index j r r' rest like b e run =
      let (v', written, (r'', run', q)) =
        recv_piece-IsWritten I R u index k like.2 (like.0 ∙ cut) (rw like.0 short)
          (rw like.0 b.begins) b.word j (block_bytes t (index, j)) rest r b.in_piece
          (rw (like.0, like.1) b.in_files) (rw (like.0, like.1) (length-block_bytes_of t index j))
          e in
      let both : ok (some (piece index (j * peer_request_size) peer_request_size, v'), r'')
          ≡ ok (some (piece index (j * peer_request_size) peer_request_size, v), r') =
        sym run' ∙ run in
      let same : v' ≡ v = cc in
      subst (IsWritten u index (j * peer_request_size) (block_bytes t (index, j))) same written

  Fetches-Agrees :
      (u w : Torrent) (blocks : List PieceBlock)
      → IsLike t u
      → Fetches I t k blocks u w
      → IsLike t w
        × ((x : ℕ)
            → x < length (content t.files)
            → AreCovered t blocks x ⊎ Agrees t u x
            → Agrees t w x)
  Fetches-Agrees u w blocks like (nothing u') =
      (like, λ x h c. elim c [ inl none_covers ↦ elim none_covers [ ] | inr agrees ↦ agrees ])
  Fetches-Agrees u w blocks like (fetch index j bs u' v w' r r' rest b e run more) =
      let written = fetched-IsWritten u' v index j r r' rest like b e run in
      let step = written-Agrees t u' v index j like b.in_files written in
      let (like', later) =
        Fetches-Agrees v w' bs (written-IsLike t u' v index j like b.in_files written) more in
      (
        like',
        λ x h c. later x h (elim c [
          | inl covers ↦ elim covers [ inl now ↦ inr (step x h (inl now)) | inr after ↦ inl after ]
          | inr agrees ↦ inr (step x h (inr agrees))
        ]),
      )

get_elem?-same :
    (a b : Bytes)
    → length a ≡ length b
    → ((i : ℕ) → i < length b → get_elem? a i ≡ get_elem? b i)
    → a ≡ b
get_elem?-same [] [] h e = refl
get_elem?-same [] (y ∷ b) h e = absurd (omega arith)
get_elem?-same (x ∷ a) [] h e = absurd (omega arith)
get_elem?-same (x ∷ a) (y ∷ b) h e =
    let head : some x ≡ some y = e 0 (omega arith) in
    let first : x ≡ y = cc in
    let rest = get_elem?-same a b (omega arith) (λ i k. e (suc i) (omega arith)) in
    rw (first, rest) refl

-- After the blocks of a sender were received on reliable streams, in any order and any of them more
-- than once, the files have the sender's bytes. Where each byte of these lies in one of the blocks,
-- the receiver's files are mapped and as long, and its pieces as large, a multiple of 16 KB below
-- 4 GiB.
pub Fetches-content :
    {S : Socket} (I : IsStream S) (R : IsReliable I) (t u w : Torrent) (k : ℕ)
    (blocks : List PieceBlock)
    → t.piece_length ≡ k * peer_request_size
    → t.piece_length < u32_mod
    → u.piece_length ≡ t.piece_length
    → length (content u.files) ≡ length (content t.files)
    → AreMapped u.files
    → Fetches I t k blocks u w
    → ((x : ℕ) → x < length (content t.files) → AreCovered t blocks x)
    → content w.files ≡ content t.files
Fetches-content I R t u w k blocks cut short same_cut long mapped fetched covered =
    let (like, same) =
      Fetches-Agrees I R t k cut short u w blocks (same_cut, long, mapped) fetched in
    get_elem?-same (content w.files) (content t.files) like.1 (λ x h. same x h (inl (covered x h)))

-- ===== src/Message/Piece/Sends.antt =====
-- The loops of peer_msg_send_piece: which bytes of the piece they have sent.
use daobell.Prelude.{
  length-take, ℕ, suc, ◌+◌, ◌-◌, ◌*◌, ◌^◌, ◌≤◌, ◌<◌, min, ltb, ltb→lt, ltb→ge, ◌==◌, ==_iff,
  ==_false, true, false, Bytes, List, [], ◌∷◌, ◌++◌, take, drop, take-take-drop, append-nil,
  append_assoc, drop-drop, inl, inr, ◌⊎◌, arith, ◌≡◌, refl, sym, ◌∙◌, ap, subst, some, ok, Option,
  Outcome, ◌>>=◌, if◌then◌else◌, Bool-cases,
}
use daobell.Files.{DnldFile, FileMem, AreMapped, content}
use daobell.Pieces.{BlockRequest, sub64, peer_request_size}
use daobell.Pieces.Spans.{IsInside, Spans}
use daobell.Pieces.Tiles.{IsTiled, total_len}
use daobell.Torrent.{Torrent}
use daobell.Net.{Socket, Action, go_on}
use daobell.Net.Sending.{IsStream, IsReliable, Sends-IsReliable, peer_send_buff-Sends}
use daobell.Message.Piece.{Progress, send_mem, send_mems, send_blocks}
use daobell.Message.Piece.Writes.{Spans-le}
use daobell.Message.Piece.Reads.{size_of-word, read_mapped-content, Leaves, Leaves-done}

-- The progress at offset o of a piece, with B as the begin of the request and L as its length.
pub data IsSending (begin block_len o : ℕ) (g : Progress) : Type 0 where
  under_way :
      g.over ≡ false
      → g.offset ≡ o
      → g.written ≡ o - begin
      → g.written < block_len
      → IsSending begin block_len o g
  finished : g.over ≡ true → block_len ≤ o - begin → IsSending begin block_len o g

IsSending-made :
    (begin block_len o written offset : ℕ)
    → written ≡ min block_len (o - begin)
    → offset ≡ o
    → IsSending begin block_len o
        (record { written = written; offset = offset; over = written == block_len })
IsSending-made begin block_len o written offset e f = elim (Bool-cases (written == block_len)) [
  | inl all ↦ finished all (let z = (==_iff written block_len).0 all in omega arith)
  | inr some_left ↦
      let z = ==_false written block_len some_left in
      under_way some_left f (omega arith) (omega arith)
]

-- The bytes of the request up to offset o.
abbrev pub sent_by : (place begin block_len o : ℕ) → List DnldFile → Bytes
sent_by place begin block_len o files =
    take (min block_len (o - begin)) (drop (place + begin) (content files))

sent_by-later :
    (place begin block_len o n : ℕ) (files : List DnldFile)
    → begin ≤ o
    → o - begin < block_len
    → sent_by place begin block_len o files
        ++ take (min n (block_len - (o - begin))) (drop (place + o) (content files))
      ≡ sent_by place begin block_len (o + n) files
sent_by-later place begin block_len o n files h lt =
    let a : min block_len (o - begin) ≡ o - begin = omega arith in
    let e : place + begin + (o - begin) ≡ place + o = omega arith in
    let b : min block_len (o + n - begin) ≡ o - begin + min n (block_len - (o - begin)) =
      omega arith in
    let rest = drop (place + begin) (content files) in
    let d : drop (o - begin) rest ≡ drop (place + o) (content files) =
      drop-drop (place + begin) (o - begin) (place + o) (content files) e in
    rw (a, b, ← d) (take-take-drop (o - begin) (min n (block_len - (o - begin))) _ rest refl)

mem_beg_zero : (begin o : ℕ) → begin ≤ o → (if ltb begin o then 0 else sub64 o begin) ≡ 0
mem_beg_zero begin o h = elim (Bool-cases (ltb begin o)) [
  | inl before ↦ rw before refl
  | inr here ↦
      let same : o ≡ begin = omega (arith, ltb→ge begin o here) in rw (here, same) (omega arith)
]

module _ {S : Socket} (I : IsStream S) (R : IsReliable I) (t : Torrent) (mapped : AreMapped t.files)
    (place begin block_len : ℕ) (some_asked : 0 < block_len) (word : block_len < 2 ^ 32) where
  -- A run that goes on from offset o to offset o'.
  abbrev Continues : (o o' : ℕ) → S.State → Outcome (Option Progress × S.State) → Type 0
  Continues o o' s run =
      (g : Progress) × (bytes : Bytes) × IsSending begin block_len o' g
      × (sent_by place begin block_len o t.files ++ bytes
          ≡ sent_by place begin block_len o' t.files)
      × Leaves I g bytes s run

  send_mem-Continues :
      (o : ℕ) (m : FileMem) (g : Progress) (s : S.State)
      → (o + m.size ≤ begin) ⊎ (begin ≤ o)
      → IsInside t.files (place + o) m
      → g.over ≡ false
      → g.offset ≡ o
      → g.written ≡ o - begin
      → g.written < block_len
      → Continues o (o + m.size) s (send_mem S t begin block_len m g s)
  unfolding send_mem
  send_mem-Continues o m g s c i f e w lt = elim (Bool-cases (ltb begin (g.offset + m.size))) [
    | inr before ↦
        let le = ltb→ge begin (g.offset + m.size) before in
        let none : g.written ≡ 0 = omega arith in
        let here : min block_len (o - begin) ≡ min block_len (o + m.size - begin) = omega arith in
        rw before (
          _,
          [],
          IsSending-made begin block_len _ g.written _ (omega arith) (omega arith),
          append-nil _ ∙ ap (λ k. take k (drop (place + begin) (content t.files))) here,
          Leaves-done I _ s,
        )
    | inl within ↦
        let lt' = ltb→lt begin (g.offset + m.size) within in
        let le : begin ≤ o = elim c [ inl p ↦ absurd (omega arith) | inr q ↦ q ] in
        let beg = mem_beg_zero begin g.offset (omega arith) in
        let size : sub64 m.size 0 ≡ m.size =
          omega (arith, i.1, size_of-word t.files m.file mapped) in
        let left : sub64 block_len g.written ≡ block_len - (o - begin) = omega arith in
        let n = min m.size (block_len - (o - begin)) in
        let bytes = take n (drop (place + o) (content t.files)) in
        let read = read_mapped-content t.files (place + o) n m mapped i (omega arith) in
        let word = size_of-word t.files m.file mapped in
        let cut = length-take n (drop (place + o) (content t.files)) in
        let (u, run, grows, same) =
          Sends-IsReliable I bytes s _ R
            (peer_send_buff-Sends I bytes s (omega (arith, i.1, word, cut))) in
        rw (within, beg, size, left, read, run)
          (
            _,
            bytes,
            IsSending-made begin block_len _ _ _ (omega arith) (omega arith),
            sent_by-later place begin block_len o m.size t.files le (omega arith),
            (u, refl, grows, same),
          )
  ]

  Continues-go_on :
      (o m o' : ℕ) (s : S.State) (run : Outcome (Option Progress × S.State))
      (next : Progress → Action S Progress)
      → Continues o m s run
      → ((g : Progress) (u : S.State) → IsSending begin block_len m g → Continues m o' u (next g u))
      → Continues o o' s (run >>= go_on S next)
  Continues-go_on o m o' s run next (g, x, is, ex, (u, e, grows, same)) k =
      let (h, y, is', ey, (v, e', grows', same')) = k g u is in
      rw e (
        h,
        x ++ y,
        is',
        sym (append_assoc _ x y) ∙ (ap (λ z. z ++ y) ex ∙ ey),
        (v, e', grows' ∙ (ap (λ z. z ++ y) grows ∙ append_assoc (I.sent s) x y), same' ∙ same),
      )

  send_mems-Continues :
      (o o' : ℕ) (ms : List FileMem) (g : Progress) (s : S.State)
      → (o' ≤ begin) ⊎ (begin ≤ o)
      → Spans t.files (place + o) ms (place + o')
      → IsSending begin block_len o g
      → Continues o o' s (send_mems S t begin block_len ms g s)
  unfolding send_mems
  send_mems-Continues o o' [] g s c sp i =
      let same : o ≡ o' = omega (arith, sp) in
      subst (λ k. Continues o k s (ok (some g, s))) same (g, [], i, append-nil _, Leaves-done I g s)
  send_mems-Continues o o' (m ∷ ms) g s c sp (finished e le) =
      let long = Spans-le t.files (place + o + m.size) (place + o') ms sp.1 in
      let same : min block_len (o - begin) ≡ min block_len (o' - begin) = omega arith in
      rw e (
        _,
        [],
        finished refl (omega arith),
        append-nil _ ∙ ap (λ k. take k (drop (place + begin) (content t.files))) same,
        Leaves-done I _ s,
      )
  send_mems-Continues o o' (m ∷ ms) g s c sp (under_way e f w lt) =
      let long = Spans-le t.files (place + o + m.size) (place + o') ms sp.1 in
      let c' : (o + m.size ≤ begin) ⊎ (begin ≤ o) = elim c [
        | inl p ↦ inl (omega arith)
        | inr q ↦ inr q
      ] in
      let c'' : (o' ≤ begin) ⊎ (begin ≤ o + m.size) = elim c [
        | inl p ↦ inl p
        | inr q ↦ inr (omega arith)
      ] in
      let (h, x, ih, ex, (u, run, grows, same)) = send_mem-Continues o m g s c' sp.0 e f w lt in
      let next : place + o + m.size ≡ place + (o + m.size) = omega arith in
      let sp' : Spans t.files (place + (o + m.size)) ms (place + o') =
        subst (λ q. Spans t.files q ms (place + o')) next sp.1 in
      rw e (
        Continues-go_on o (o + m.size) o' s _ _ (send_mem-Continues o m g s c' sp.0 e f w lt)
          λ h u ih. send_mems-Continues (o + m.size) o' ms h u c'' sp' ih)

  -- The blocks from number i on, to the end of the piece at offset o'.
  pub send_blocks-Continues :
      (i j o' : ℕ) (bs : List BlockRequest) (g : Progress) (s : S.State)
      → begin ≡ j * peer_request_size
      → IsTiled t.files (place + i * peer_request_size) bs
      → place + i * peer_request_size + total_len bs ≡ place + o'
      → IsSending begin block_len (i * peer_request_size) g
      → Continues (i * peer_request_size) o' s (send_blocks S t begin block_len bs g s)
  unfolding send_blocks total_len
  send_blocks-Continues i j o' [] g s eq tiled end is =
      let same : i * peer_request_size ≡ o' = omega arith in
      subst (λ k. Continues (i * peer_request_size) k s (ok (some g, s))) same
        (g, [], is, append-nil _, Leaves-done I g s)
  send_blocks-Continues i j o' (b ∷ bs) g s eq tiled end is =
      let o = i * peer_request_size in
      let next : place + o + b.len ≡ place + (o + b.len) = omega arith in
      let spans = subst (Spans t.files (place + o) b.file_mems) next tiled.0 in
      let short : b.len ≤ peer_request_size = elim tiled.1 [
        | inl full ↦ omega arith
        | inr last ↦ last.0
      ] in
      let c : (o + b.len ≤ begin) ⊎ (begin ≤ o) = elim (Bool-cases (ltb i j)) [
        | inl lt ↦ inl (let h = ltb→lt i j lt in omega arith)
        | inr ge ↦ inr (let h = ltb→ge i j ge in omega arith)
      ] in
      let first = send_mems-Continues o (o + b.len) b.file_mems g s c spans is in
      Continues-go_on o (o + b.len) o' s _ _ first λ h u ih. elim tiled.1 [
        | inl full ↦
            let k : o + b.len ≡ suc i * peer_request_size = omega arith in
            let k' : place + o + b.len ≡ place + suc i * peer_request_size = omega arith in
            let tiled' = subst (λ q. IsTiled t.files q bs) k' tiled.2 in
            subst (λ q. Continues q o' u (send_blocks S t begin block_len bs h u)) (sym k)
              (send_blocks-Continues (suc i) j o' bs h u eq tiled' (omega arith)
                (subst (λ q. IsSending begin block_len q h) k ih))
        | inr last ↦
            let none_left : total_len bs ≡ 0 = rw last.1 refl in
            let k : o + b.len ≡ o' = omega arith in
            rw (last.1, ← k) (h, [], ih, append-nil _, Leaves-done I h u)
      ]

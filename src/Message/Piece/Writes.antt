-- ===== src/Message/Piece/Writes.antt =====
-- What peer_msg_recv_piece writes to the mapped files, seen as one string of bytes.
use daobell.Prelude.{
  ℕ, zero, suc, ◌+◌, ◌≤◌, Bytes, List, [], ◌∷◌, ◌++◌, length, take, drop, length-append,
  length-take, length-drop, take-append-drop, append_assoc, arith, ◌≡◌, refl, sym, ◌∙◌, ap, subst,
  some, ok,
}
use daobell.Files.{DnldFile, FileMem, AreMapped, content}
use daobell.Files.Splice.{
  splice, splice-nil, splice-splice, splice-append_le, splice-append_ge, length-splice,
}
use daobell.Pieces.Spans.{start_of, size_of, Spans}
use daobell.Torrent.{Torrent}
use daobell.Message.Piece.Reads.{size_of-word}
use daobell.Net.{Socket, peer_recv_buff}
use daobell.Net.Sending.{IsStream, IsReliable}
use daobell.Net.Receiving.{peer_recv_buff-IsReliable}
use daobell.Message.Piece.{write_mapped, recv_mems}

-- A write inside a file keeps every size.
pub start_of-write_mapped :
    (files : List DnldFile) (file at i : ℕ) (bytes : Bytes)
    → (start_of (write_mapped files file at bytes) i ≡ start_of files i)
      × (size_of (write_mapped files file at bytes) i ≡ size_of files i)
unfolding write_mapped start_of size_of
start_of-write_mapped [] file at i bytes = (refl, refl)
start_of-write_mapped (f ∷ files) zero at zero bytes = (refl, refl)
start_of-write_mapped (f ∷ files) zero at (suc i) bytes = (refl, refl)
start_of-write_mapped (f ∷ files) (suc file) at zero bytes = (refl, refl)
start_of-write_mapped (f ∷ files) (suc file) at (suc i) bytes =
    let (a, b) = start_of-write_mapped files file at i bytes in (rw a, b)

pub AreMapped-write_mapped :
    (files : List DnldFile) (file at : ℕ) (bytes : Bytes)
    → AreMapped files
    → at + length bytes ≤ size_of files file
    → AreMapped (write_mapped files file at bytes)
unfolding write_mapped size_of splice
AreMapped-write_mapped [] file at bytes m h = m
AreMapped-write_mapped (f ∷ files) zero at bytes m h =
    ((length-splice at bytes f.contents (omega (arith, m.0.0)) ∙ m.0.0, m.0.1), m.1)
AreMapped-write_mapped (f ∷ files) (suc file) at bytes m h =
    (m.0, AreMapped-write_mapped files file at bytes m.1 h)

pub content-write_mapped :
    (files : List DnldFile) (file at : ℕ) (bytes : Bytes)
    → AreMapped files
    → at + length bytes ≤ size_of files file
    → content (write_mapped files file at bytes)
      ≡ splice (start_of files file + at) bytes (content files)
unfolding write_mapped size_of start_of content splice
content-write_mapped [] file at [] m h = sym (splice-nil (0 + at) [])
content-write_mapped [] file at (c ∷ bytes) m h = absurd (omega arith)
content-write_mapped (f ∷ files) zero at bytes m h =
    let zero_at : at ≡ 0 + at = omega arith in
    sym (splice-append_le at bytes f.contents (content files) (omega (arith, m.0.0)))
    ∙ ap (λ k. splice k bytes (f.contents ++ content files)) zero_at
content-write_mapped (f ∷ files) (suc file) at bytes m h =
    let k : f.size + start_of files file + at ≡ f.size + (start_of files file + at) = omega arith in
    rw (content-write_mapped files file at bytes m.1 h, k)
      (sym
        (splice-append_ge (start_of files file + at) f.size bytes f.contents (content files) m.0.0))

start_of-content :
    (files : List DnldFile) (i : ℕ)
    → AreMapped files
    → start_of files i + size_of files i ≤ length (content files)
unfolding start_of size_of content
start_of-content [] i m = omega arith
start_of-content (f ∷ files) zero m = omega (arith, m.0.0, length-append f.contents (content files))
start_of-content (f ∷ files) (suc i) m =
    omega (arith, m.0.0, length-append f.contents (content files), start_of-content files i m.1)

pub Spans-le : (files : List DnldFile) (p q : ℕ) (ms : List FileMem) → Spans files p ms q → p ≤ q
Spans-le files p q [] s = omega arith
Spans-le files p q (m ∷ ms) s = omega (arith, Spans-le files (p + m.size) q ms s.1)

Spans-end :
    (files : List DnldFile) (p q : ℕ) (ms : List FileMem)
    → AreMapped files
    → p ≤ length (content files)
    → Spans files p ms q
    → q ≤ length (content files)
Spans-end files p q [] m h s = omega arith
Spans-end files p q (n ∷ ms) m h s =
    Spans-end files (p + n.size) q ms m
      (omega (arith, s.0.0, s.0.1, start_of-content files n.file m)) s.1

Spans-write_mapped :
    (files : List DnldFile) (file at p q : ℕ) (bytes : Bytes) (ms : List FileMem)
    → Spans files p ms q
    → Spans (write_mapped files file at bytes) p ms q
Spans-write_mapped files file at p q bytes [] s = s
Spans-write_mapped files file at p q bytes (m ∷ ms) s =
    let (a, b) = start_of-write_mapped files file at m.file bytes in
    (rw (a, b) s.0, Spans-write_mapped files file at (p + m.size) q bytes ms s.1)

module _ {S : Socket} (I : IsStream S) (R : IsReliable I) (t : Torrent) where
  -- The bytes that come next are put over those that the memories stand for.
  pub recv_mems_lem :
      (files : List DnldFile) (p : ℕ) (ms : List FileMem) (bytes rest : Bytes) (s : S.State)
      → AreMapped files
      → p ≤ length (content files)
      → Spans files p ms (p + length bytes)
      → I.pending s ≡ bytes ++ rest
      → (files' : List DnldFile) × (s' : S.State) × (recv_mems S t ms files s
          ≡ ok (some files', s'))
        × (content files' ≡ splice p bytes (content files))
        × AreMapped files'
        × (I.pending s' ≡ rest)
        × (I.sent s' ≡ I.sent s)
  unfolding recv_mems
  recv_mems_lem files p [] [] rest s m h sp e =
      (files, s, refl, sym (splice-nil p (content files)), m, e, refl)
  recv_mems_lem files p [] (c ∷ bytes) rest s m h sp e = absurd (omega (arith, sp))
  recv_mems_lem files p (n ∷ ms) bytes rest s m h sp e =
      let now = take n.size bytes in
      let later = drop n.size bytes in
      let long = Spans-le files (p + n.size) (p + length bytes) ms sp.1 in
      let end = Spans-end files p (p + length bytes) (n ∷ ms) m h sp in
      let size : length now ≡ n.size = omega (arith, length-take n.size bytes) in
      let size' = length-drop n.size bytes in
      let e' : I.pending s ≡ now ++ (later ++ rest) =
        e
        ∙ (ap (λ b. b ++ rest) (sym (take-append-drop n.size bytes))
            ∙ append_assoc now later rest) in
      let inside : n.mem + length now ≤ size_of files n.file = omega (arith, sp.0.1) in
      let word = size_of-word files n.file m in
      let (w, u, run, pu, qu) =
        peer_recv_buff-IsReliable I R now (later ++ rest) s (omega (arith, inside, word)) e' in
      let run' : peer_recv_buff S n.size s ≡ ok ((w, now), u) =
        ap (λ k. peer_recv_buff S k s) (sym size) ∙ run in
      let next = write_mapped files n.file n.mem now in
      let wrote : content next ≡ splice p now (content files) =
        content-write_mapped files n.file n.mem now m inside
        ∙ ap (λ k. splice k now (content files)) sp.0.0 in
      let len = length-splice p now (content files) (omega arith) in
      let spans : Spans next (p + n.size) ms (p + n.size + length later) =
        subst (Spans next (p + n.size) ms) (omega arith)
          (Spans-write_mapped files n.file n.mem (p + n.size) (p + length bytes) now ms sp.1) in
      let (files', s', run'', c, m', p', q) =
        recv_mems_lem next (p + n.size) ms later rest u
          (AreMapped-write_mapped files n.file n.mem now m inside) (rw wrote (omega arith)) spans
          pu in
      let joined : splice (p + n.size) later (splice p now (content files))
          ≡ splice p bytes (content files) =
        ap (λ k. splice (p + k) later (splice p now (content files))) (sym size)
        ∙ (splice-splice p now later (content files) (omega arith)
            ∙ ap (λ b. splice p b (content files)) (take-append-drop n.size bytes)) in
      (
        files',
        s',
        rw run' run'',
        c ∙ (ap (splice (p + n.size) later) wrote ∙ joined),
        m',
        p',
        q ∙ qu,
      )

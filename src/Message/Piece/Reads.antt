-- ===== src/Message/Piece/Reads.antt =====
-- What peer_msg_send_piece sends of the mapped files, seen as one string of bytes.
use daobell.Prelude.{
  ℕ, zero, suc, ◌+◌, ◌-◌, ◌^◌, ◌%◌, ◌≤◌, ◌<◌, le→leb, Bytes, List, [], ◌∷◌, ◌++◌, length, take,
  drop, length-drop, append-nil, append_assoc, drop-append_ge, drop-append_le, take-append_le,
  arith, ◌≡◌, refl, sym, ◌∙◌, ap, some, ok, Option, Outcome, ◌>>=◌,
}
use daobell.Files.{DnldFile, FileMem, AreMapped, content, contents_at}
use daobell.Pieces.{u64_mod}
use daobell.Pieces.Spans.{start_of, size_of, IsInside}
use daobell.Net.{Socket, Action, go_on}
use daobell.Net.Sending.{IsStream}
use daobell.Message.Piece.{read_mapped}

pub size_of-word : (files : List DnldFile) (i : ℕ) → AreMapped files → size_of files i < 2 ^ 32
unfolding size_of
size_of-word [] i m = omega arith
size_of-word (f ∷ files) zero m = m.0.1
size_of-word (f ∷ files) (suc i) m = size_of-word files i m.1

-- A stretch of a file is one of the content.
contents_at-content :
    (files : List DnldFile) (file at n : ℕ)
    → AreMapped files
    → at + n ≤ size_of files file
    → (take n (drop at (contents_at files file))
        ≡ take n (drop (start_of files file + at) (content files)))
      × (at + n ≤ length (contents_at files file))
unfolding contents_at size_of start_of content
contents_at-content [] file at n m h =
    let none : n ≡ 0 = omega arith in
    let none' : at ≡ 0 = omega arith in rw (none, none') (refl, omega arith)
contents_at-content (f ∷ files) zero at n m h =
    let zero_at : at ≡ 0 + at = omega arith in
    let size : at + n ≤ length f.contents = omega (arith, m.0.0) in
    (
      sym (
            ap (take n) (drop-append_le at f.contents (content files) (omega arith))
            ∙ take-append_le n (drop at f.contents) (content files)
                (omega (arith, length-drop at f.contents)))
          ∙ ap (λ k. take n (drop k (f.contents ++ content files))) zero_at,
      size,
    )
contents_at-content (f ∷ files) (suc file) at n m h =
    let (same, le) = contents_at-content files file at n m.1 h in
    let behind : f.size + start_of files file + at - length f.contents ≡ start_of files file + at =
      omega (arith, m.0.0) in
    (
      same
          ∙ ap (take n) (
              ap (λ k. drop k (content files)) (sym behind)
              ∙ sym (
                  drop-append_ge (f.size + start_of files file + at) f.contents (content files)
                    (omega (arith, m.0.0)))),
      le,
    )

pub read_mapped-content :
    (files : List DnldFile) (p n : ℕ) (m : FileMem)
    → AreMapped files
    → IsInside files p m
    → n ≤ m.size
    → read_mapped files m.file (m.mem + 0) n ≡ ok (take n (drop p (content files)))
unfolding read_mapped
read_mapped-content files p n m a i h =
    let word = size_of-word files m.file a in
    let at : (m.mem + 0) % u64_mod ≡ m.mem = omega (arith, i.1) in
    let (same, le) = contents_at-content files m.file m.mem n a (omega (arith, i.1)) in
    rw (at, le→leb _ _ le, same) (ap (λ k. ok (take n (drop k (content files)))) i.0)

module _ {S : Socket} (I : IsStream S) where
  -- The run returned this, and sent these bytes.
  abbrev pub Leaves {ℓ} : {A : Type ℓ} → A → Bytes → S.State → Outcome (Option A × S.State) → Type ℓ
  Leaves a bytes s run =
      (s' : S.State) × (run ≡ ok (some a, s'))
      × (I.sent s' ≡ I.sent s ++ bytes)
      × (I.pending s' ≡ I.pending s)

  pub Leaves-go_on {ℓ κ} :
      {A : Type ℓ} {B : Type κ} (a : A) (b : B) (x y : Bytes) (s : S.State)
      (run : Outcome (Option A × S.State)) (next : A → Action S B)
      → Leaves a x s run
      → ((u : S.State) → Leaves b y u (next a u))
      → Leaves b (x ++ y) s (run >>= go_on S next)
  Leaves-go_on a b x y s run next (u, e, g, p) h =
      let (v, e', g', p') = h u in
      (v, rw e e', g' ∙ (ap (λ z. z ++ y) g ∙ append_assoc (I.sent s) x y), p' ∙ p)

  pub Leaves-done {ℓ} : {A : Type ℓ} (a : A) (s : S.State) → Leaves a [] s (ok (some a, s))
  Leaves-done a s = (s, refl, sym (append-nil (I.sent s)), refl)

  pub Leaves-same {ℓ} :
      {A : Type ℓ} (a : A) (x y : Bytes) (s : S.State) (run : Outcome (Option A × S.State))
      → x ≡ y
      → Leaves a x s run
      → Leaves a y s run
  Leaves-same a x y s run e (u, r, g, p) = (u, r, g ∙ ap (λ z. I.sent s ++ z) e, p)

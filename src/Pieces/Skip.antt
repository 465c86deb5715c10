-- ===== src/Pieces/Skip.antt =====
-- skip_until_index finds the place of a byte in the files.
use daobell.Prelude.{
  ℕ, suc, ◌+◌, ◌-◌, ◌*◌, ◌%◌, ltb, ◌==◌, List, [], ◌∷◌, ◌++◌, drop, drop-append_ge, Bool-cases, inl,
  inr, arith, ◌≡◌, refl, sym, ◌∙◌, ltb→lt, ltb→ge, ap, ==_iff,
}
use daobell.Files.{DnldFile, AreMapped, content}
use daobell.Torrent.{Torrent}
use daobell.Pieces.{skip_files, skip_until_index, u32_mod}
use daobell.Pieces.Gather.{remaining, drop_file, IsPlaced}

-- A place in the files, behind which stand the bytes from number `skip` of `fs` on.
abbrev pub IsAt : List DnldFile → List DnldFile → ℕ → ℕ × ℕ → Type 0
IsAt files fs skip (offset, index) =
    IsPlaced (drop index files) offset
    × (remaining (drop index files) offset ≡ drop skip (content fs))

drop_nil : (n : ℕ) → drop {A = ℕ} n [] ≡ []
drop_nil ℕ.zero = refl
drop_nil (suc n) = refl

skip_files-IsAt :
    (files fs : List DnldFile) (i skip : ℕ)
    → drop i files ≡ fs
    → AreMapped fs
    → IsAt files fs skip (skip_files fs i skip i)
unfolding skip_files content
skip_files-IsAt files [] i skip e m = rw e (refl, sym (drop_nil skip))
skip_files-IsAt files (f ∷ fs) i skip e m = elim (Bool-cases (skip == 0)) [
  | inl zero_skip ↦
      rw (zero_skip, e)
        (
          omega arith,
          ap (λ k. drop k (f.contents ++ content fs)) (sym ((==_iff skip 0).0 zero_skip)),
        )
  | inr some_skip ↦ rw some_skip (elim (Bool-cases (ltb skip f.size)) [
    | inl inside ↦ rw (inside, e) (omega (arith, ltb→lt skip f.size inside), refl)
    | inr behind ↦
        let k : i + 1 ≡ suc i = omega arith in
        let le = ltb→ge skip f.size behind in
        let (place, at) =
          skip_files-IsAt files fs (i + 1) (skip - f.size) (rw k (drop_file files fs f i e).1)
            m.1 in
        rw behind (
          place,
          at
              ∙ (rw (← m.0.0)
                  (sym (drop-append_ge skip f.contents (content fs) (omega (arith, m.0.0))))),
        )
  ])
]

-- The place of the byte `piece_length * index`, computed in 32 bits.
pub skip_until_index-IsAt :
    (t : Torrent) (index : ℕ)
    → AreMapped t.files
    → IsAt t.files t.files ((t.piece_length * index) % u32_mod) (skip_until_index t index)
unfolding skip_until_index
skip_until_index-IsAt t index m = skip_files-IsAt t.files t.files 0 _ refl m

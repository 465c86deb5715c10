-- ===== src/FtpUrl/Find.antt =====
-- What the searches of parse find.
use daobell.Prelude.{
  ℕ, suc, ◌+◌, ◌≤◌, ltb, ge→ltb, ◌==◌, ==_ne, ==_refl, ◌&&◌, ◌||◌, if◌then◌else◌, Bool, true, false,
  Bytes, [], ◌∷◌, ◌++◌, length, none, some, All, ◌≡◌, ◌≢◌, refl, arith,
}
use daobell.FtpUrl.{find_first, find_last, slash_before}

pub find_first-append :
    (test : ℕ → Bool) (s rest : Bytes) (c : ℕ)
    → All (λ x. test x ≡ false) s
    → test c ≡ true
    → find_first test (s ++ c ∷ rest) ≡ some (length s)
unfolding find_first
find_first-append test [] rest c h t = rw t refl
find_first-append test (x ∷ s) rest c (n, h) t = rw (n, find_first-append test s rest c h t) refl

find_first-none :
    (test : ℕ → Bool) (s : Bytes) → All (λ x. test x ≡ false) s → find_first test s ≡ none
unfolding find_first
find_first-none test [] h = refl
find_first-none test (x ∷ s) (n, h) = rw (n, find_first-none test s h) refl

find_last-none : (c : ℕ) (s : Bytes) → All (λ x. (x == c) ≡ false) s → find_last c s ≡ none
unfolding find_last
find_last-none c [] h = refl
find_last-none c (x ∷ s) (n, h) = rw (n, find_last-none c s h) refl

pub find_last-append :
    (c : ℕ) (s rest : Bytes)
    → All (λ x. (x == c) ≡ false) rest
    → find_last c (s ++ c ∷ rest) ≡ some (length s)
unfolding find_last
find_last-append c [] rest h = rw (find_last-none c rest h, ==_refl c) refl
find_last-append c (x ∷ s) rest h = rw (find_last-append c s rest h) refl

past_false : (z b l : Bool) → (if z then false else (b && (l && false)) || false) ≡ false
past_false true b l = refl
past_false false false l = refl
past_false false true false = refl
past_false false true true = refl

slash_before-past : (at i : ℕ) (s : Bytes) → at ≤ i → slash_before at i s ≡ false
unfolding slash_before
slash_before-past at i [] h = refl
slash_before-past at i (c ∷ s) h =
    rw (slash_before-past at (suc i) s (omega arith), ge→ltb i at h)
      (past_false (c == 0) (c == b'/') (ltb 6 i))

pub slash_before-free :
    (at i : ℕ) (s rest : Bytes)
    → All (λ x. (x ≢ 0) × (x ≢ b'/')) s
    → at ≤ length s + i
    → slash_before at i (s ++ rest) ≡ false
unfolding slash_before
slash_before-free at i [] rest h e = slash_before-past at i rest (omega arith)
slash_before-free at i (x ∷ s) rest ((z, n), h) e =
    rw (==_ne x 0 z, ==_ne x b'/' n, slash_before-free at (suc i) s rest h (omega arith)) refl

pub All-append : (P : ℕ → Type 0) (xs ys : Bytes) → All P xs → All P ys → All P (xs ++ ys)
All-append P [] ys h k = k
All-append P (x ∷ xs) ys (p, h) k = (p, All-append P xs ys h k)

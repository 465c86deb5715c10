-- ===== src/Files/Bytewise.antt =====
-- What bytes put over others leave at each place.
use daobell.Prelude.{
  ℕ, zero, suc, ◌+◌, ◌-◌, ◌≤◌, ◌<◌, Bytes, [], ◌∷◌, ◌++◌, length, take, drop, length-take,
  get_elem?, arith, ◌≡◌, refl, ◌∙◌,
}
use daobell.Files.Splice.{splice}

get_elem?-append_lt : (a b : Bytes) (i : ℕ) → i < length a → get_elem? (a ++ b) i ≡ get_elem? a i
get_elem?-append_lt [] b i h = absurd (omega arith)
get_elem?-append_lt (x ∷ a) b zero h = refl
get_elem?-append_lt (x ∷ a) b (suc i) h = get_elem?-append_lt a b i (omega arith)

get_elem?-append_ge :
    (a b : Bytes) (i n : ℕ) → i ≡ length a + n → get_elem? (a ++ b) i ≡ get_elem? b n
get_elem?-append_ge [] b i n h = let e : i ≡ n = omega arith in rw e refl
get_elem?-append_ge (x ∷ a) b zero n h = absurd (omega arith)
get_elem?-append_ge (x ∷ a) b (suc i) n h = get_elem?-append_ge a b i n (omega arith)

pub get_elem?-take : (s : Bytes) (n i : ℕ) → i < n → get_elem? (take n s) i ≡ get_elem? s i
get_elem?-take s zero i h = absurd (omega arith)
get_elem?-take [] (suc n) i h = refl
get_elem?-take (x ∷ s) (suc n) zero h = refl
get_elem?-take (x ∷ s) (suc n) (suc i) h = get_elem?-take s n i (omega arith)

pub get_elem?-drop : (s : Bytes) (n i k : ℕ) → k ≡ n + i → get_elem? (drop n s) i ≡ get_elem? s k
get_elem?-drop s zero i k h = let e : k ≡ i = omega arith in rw e refl
get_elem?-drop [] (suc n) i k h = refl
get_elem?-drop (x ∷ s) (suc n) i zero h = absurd (omega arith)
get_elem?-drop (x ∷ s) (suc n) i (suc k) h = get_elem?-drop s n i k (omega arith)

module _ (p : ℕ) (bytes s : Bytes) (fits : p + length bytes ≤ length s) where
  front : length (take p s) ≡ p
  front = omega (arith, length-take p s)

  -- Within the bytes.
  pub get_elem?-splice_inside :
      (i n : ℕ) → i ≡ p + n → n < length bytes → get_elem? (splice p bytes s) i ≡ get_elem? bytes n
  unfolding splice
  get_elem?-splice_inside i n e h =
      get_elem?-append_ge (take p s) _ i n (omega (arith, front)) ∙ get_elem?-append_lt bytes _ n h

  pub get_elem?-splice_before : (i : ℕ) → i < p → get_elem? (splice p bytes s) i ≡ get_elem? s i
  unfolding splice
  get_elem?-splice_before i h =
      get_elem?-append_lt (take p s) _ i (omega (arith, front)) ∙ get_elem?-take s p i h

  pub get_elem?-splice_behind :
      (i : ℕ) → p + length bytes ≤ i → get_elem? (splice p bytes s) i ≡ get_elem? s i
  unfolding splice
  get_elem?-splice_behind i h =
      let n = i - (p + length bytes) in
      get_elem?-append_ge (take p s) _ i (length bytes + n) (omega (arith, front))
      ∙ (get_elem?-append_ge bytes _ (length bytes + n) n refl
          ∙ get_elem?-drop s (p + length bytes) n i (omega arith))

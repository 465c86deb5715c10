-- ===== src/Files/Splice.antt =====
-- Bytes put over others of the same number.
use daobell.Prelude.{
  ℕ, ◌+◌, ◌-◌, ◌≤◌, Bytes, [], ◌++◌, length, length-append, length-take, length-drop, take, drop,
  take-append_eq, drop-append_eq, drop-drop, take-append-drop, take-append_le, take-append_ge,
  drop-append_le, drop-append_ge, append_assoc, arith, ◌≡◌, refl, sym, ◌∙◌, ap,
}

-- The bytes of s, with those from number p on replaced.
unfoldable pub splice : ℕ → Bytes → Bytes → Bytes
splice p bytes s = take p s ++ (bytes ++ drop (p + length bytes) s)

pub splice-nil : (p : ℕ) (s : Bytes) → splice p [] s ≡ s
unfolding splice
splice-nil p s = let e : p + 0 ≡ p = omega arith in rw e (take-append-drop p s)

pub splice-append :
    (p : ℕ) (x y z bytes : Bytes)
    → length x ≡ p
    → length y ≡ length bytes
    → splice p bytes (x ++ (y ++ z)) ≡ x ++ (bytes ++ z)
unfolding splice
splice-append p x y z bytes h k =
    let behind : drop (p + length bytes) (x ++ (y ++ z)) ≡ z =
      sym (drop-drop p (length bytes) (p + length bytes) (x ++ (y ++ z)) refl)
      ∙ (ap (drop (length bytes)) (drop-append_eq p x (y ++ z) h)
          ∙ drop-append_eq (length bytes) y z k) in
    rw (take-append_eq p x (y ++ z) h, behind) refl

pub length-splice :
    (p : ℕ) (bytes s : Bytes) → p + length bytes ≤ length s → length (splice p bytes s) ≡ length s
unfolding splice
length-splice p bytes s h = omega (
  arith,
  length-append (take p s) (bytes ++ drop (p + length bytes) s),
  length-append bytes (drop (p + length bytes) s),
  length-take p s,
  length-drop (p + length bytes) s,
)

-- A string in four parts.
parts :
    (p m n : ℕ) (s : Bytes)
    → s ≡ take p s ++ (take m (drop p s) ++ (take n (drop (p + m) s) ++ drop (p + m + n) s))
parts p m n s =
    let e = drop-drop p m (p + m) s refl in
    let e' = drop-drop (p + m) n (p + m + n) s refl in
    sym (take-append-drop p s)
    ∙ ap (λ r. take p s ++ r)
        (sym (take-append-drop m (drop p s))
          ∙ ap (λ r. take m (drop p s) ++ r)
              (e
                ∙ (sym (take-append-drop n (drop (p + m) s))
                    ∙ ap (λ r. take n (drop (p + m) s) ++ r) e')))

-- Two replacements, one behind the other, are one.
pub splice-splice :
    (p : ℕ) (a b s : Bytes)
    → p + length a + length b ≤ length s
    → splice (p + length a) b (splice p a s) ≡ splice p (a ++ b) s
splice-splice p a b s h =
    let x = take p s in
    let y = take (length a) (drop p s) in
    let z = take (length b) (drop (p + length a) s) in
    let w = drop (p + length a + length b) s in
    let lx : length x ≡ p = omega (arith, length-take p s) in
    let ly : length y ≡ length a =
      omega (arith, length-take (length a) (drop p s), length-drop p s) in
    let lz : length z ≡ length b =
      omega (arith, length-take (length b) (drop (p + length a) s), length-drop (p + length a) s) in
    let whole = parts p (length a) (length b) s in
    let first : splice p a s ≡ (x ++ a) ++ (z ++ w) =
      ap (splice p a) whole
      ∙ (splice-append p x y (z ++ w) a lx ly ∙ sym (append_assoc x a (z ++ w))) in
    let second : splice (p + length a) b (splice p a s) ≡ (x ++ a) ++ (b ++ w) =
      ap (splice (p + length a) b) first
      ∙ splice-append (p + length a) (x ++ a) z w b (omega (arith, length-append x a)) lz in
    let both : splice p (a ++ b) s ≡ x ++ ((a ++ b) ++ w) =
      ap (splice p (a ++ b)) (whole ∙ ap (λ r. x ++ r) (sym (append_assoc y z w)))
      ∙ splice-append p x (y ++ z) w (a ++ b) lx
          (omega (arith, length-append y z, length-append a b)) in
    let join : (x ++ a) ++ (b ++ w) ≡ x ++ ((a ++ b) ++ w) = simp append_assoc in
    second ∙ (join ∙ sym both)

-- A replacement in the first or in the second of two strings.
pub splice-append_le :
    (p : ℕ) (bytes x y : Bytes)
    → p + length bytes ≤ length x
    → splice p bytes (x ++ y) ≡ splice p bytes x ++ y
unfolding splice
splice-append_le p bytes x y h =
    rw (take-append_le p x y (omega arith), drop-append_le (p + length bytes) x y h)
      (simp append_assoc)

pub splice-append_ge :
    (p n : ℕ) (bytes x y : Bytes)
    → length x ≡ n
    → splice (n + p) bytes (x ++ y) ≡ x ++ splice p bytes y
unfolding splice
splice-append_ge p n bytes x y h =
    let e : n + p - length x ≡ p = omega arith in
    let e' : n + p + length bytes - length x ≡ p + length bytes = omega arith in
    rw
      (
        take-append_ge (n + p) x y (omega arith),
        drop-append_ge (n + p + length bytes) x y (omega arith),
        e,
        e',
      )
      (simp append_assoc)

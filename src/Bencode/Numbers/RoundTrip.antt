-- ===== src/Bencode/Numbers/RoundTrip.antt =====
-- strtol reads back what std::to_string writes.
use daobell.Prelude.{
  ℕ, zero, suc, ◌+◌, ◌/◌, ◌%◌, ◌≤◌, ◌<◌, Bytes, ltb, Bool, true, false, [], ◌∷◌, ◌++◌, Outcome, ok,
  ◌>>=◌, ℤ, pos, negsuc, arith, ◌≡◌, refl, Bool-cases, inl, inr, ◌∙◌,
}
use daobell.Bencode.Grammar.{FitsLong}
use daobell.Bencode.Numbers.{
  is_digit, is_space, skip_space, print_digits, to_string, to_string_int, scan_digits, clamp_long,
  strtol, long_max, minus, as_size_t, as_long_long,
}

scan_digits-print_digits :
    (f n : ℕ) (out : Bytes) → n < f → scan_digits (print_digits f n out) 0 ≡ scan_digits out n
unfolding scan_digits print_digits is_digit
scan_digits-print_digits zero n out h = absurd (omega arith)
scan_digits-print_digits (suc f) n out h =
    ground (arith, scan_digits-print_digits f (n / 10) ((b'0' + n % 10) ∷ out))

pub print_digits-append :
    (f n : ℕ) (out s : Bytes) → print_digits f n out ++ s ≡ print_digits f n (out ++ s)
unfolding print_digits
print_digits-append zero n out s = refl
print_digits-append (suc f) n out s =
    ground (arith, print_digits-append f (n / 10) ((b'0' + n % 10) ∷ out) s)

abbrev pub StartsWithDigit : Bytes → Type 0
StartsWithDigit [] = ⊥
StartsWithDigit (c ∷ s) = is_digit c ≡ true

print_digits-StartsWithDigit :
    (f n : ℕ) (out : Bytes) → StartsWithDigit out → StartsWithDigit (print_digits f n out)
unfolding print_digits is_digit
print_digits-StartsWithDigit zero n out h = h
print_digits-StartsWithDigit (suc f) n out h = elim (Bool-cases (ltb n 10)) [
  | inl e ↦ rw e (ground arith)
  | inr e ↦ rw e (print_digits-StartsWithDigit f (n / 10) ((b'0' + n % 10) ∷ out) (ground arith))
]

print_digits-suc-StartsWithDigit :
    (f n : ℕ) (out : Bytes) → StartsWithDigit (print_digits (suc f) n out)
unfolding print_digits is_digit
print_digits-suc-StartsWithDigit f n out = elim (Bool-cases (ltb n 10)) [
  | inl e ↦ rw e (ground arith)
  | inr e ↦ rw e (print_digits-StartsWithDigit f (n / 10) ((b'0' + n % 10) ∷ out) (ground arith))
]

pub to_string-StartsWithDigit : (n : ℕ) (s : Bytes) → StartsWithDigit (to_string n ++ s)
unfolding to_string
to_string-StartsWithDigit n s = rw print_digits-append (print_digits-suc-StartsWithDigit n n s)

scan_digits-to_string :
    (n c : ℕ) (s : Bytes)
    → is_digit c ≡ false
    → scan_digits (to_string n ++ c ∷ s) 0 ≡ ok (n, c ∷ s)
unfolding to_string
scan_digits-to_string n c s h =
    rw (print_digits-append (suc n) n [] (c ∷ s))
      (scan_digits-print_digits (suc n) n (c ∷ s) (omega arith) ∙ (unfold scan_digits in (rw h)))

abbrev clamped : Bool → Outcome (ℕ × Bytes) → Outcome (ℤ × Bytes)
clamped neg r = r >>= λ (n, rest). ok (clamp_long neg n, rest)

strtol_digit : (s : Bytes) → StartsWithDigit s → strtol s ≡ clamped false (scan_digits s 0)
unfolding strtol skip_space is_digit is_space
strtol_digit [] h = elim h [ ]
strtol_digit (c ∷ s) h = ground arith

strtol-minus : (s : Bytes) → StartsWithDigit s → strtol (minus ∷ s) ≡ clamped true (scan_digits s 0)
unfolding strtol skip_space is_digit is_space
strtol-minus [] h = elim h [ ]
strtol-minus (c ∷ s) h = ground arith

-- strtol reads any long back from its decimal text, up to a character that is no digit.
pub strtol-to_string_int :
    (n : ℤ) (c : ℕ) (s : Bytes)
    → FitsLong n
    → is_digit c ≡ false
    → strtol (to_string_int n ++ c ∷ s) ≡ ok (n, c ∷ s)
unfolding to_string_int clamp_long
strtol-to_string_int (pos n) c s h d =
    rw (strtol_digit _ (to_string-StartsWithDigit n _), scan_digits-to_string n c s d)
      (ground arith)
strtol-to_string_int (negsuc n) c s h d =
    rw (strtol-minus _ (to_string-StartsWithDigit (suc n) _), scan_digits-to_string (suc n) c s d)
      (ground arith)

pub as_long_long-as_size_t : (n : ℤ) → FitsLong n → as_long_long (as_size_t n) ≡ n
unfolding as_long_long as_size_t
as_long_long-as_size_t (pos n) h = ground arith
as_long_long-as_size_t (negsuc n) h = ground arith

pub strtol-to_string :
    (n c : ℕ) (s : Bytes)
    → n ≤ long_max
    → is_digit c ≡ false
    → strtol (to_string n ++ c ∷ s) ≡ ok (pos n, c ∷ s)
strtol-to_string n c s h d = unfold to_string_int in strtol-to_string_int (pos n) c s h d

pub as_size_t-pos : (n : ℕ) → n ≤ long_max → as_size_t (pos n) ≡ n
unfolding as_size_t
as_size_t-pos n h = omega arith

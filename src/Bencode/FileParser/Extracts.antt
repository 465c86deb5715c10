-- ===== src/Bencode/FileParser/Extracts.antt =====
-- The operations of the stream on printed text.
use daobell.Prelude.{
  ℕ, zero, suc, ◌+◌, ◌-◌, ◌/◌, ◌%◌, ◌≤◌, ◌<◌, Bytes, ltb, false, [], ◌∷◌, ◌++◌, length,
  length-append, take-append_eq, drop-append_eq, ℤ, pos, negsuc, some, arith, ◌≡◌, refl, ◌∙◌,
  ge→ltb,
}
use daobell.Bencode.Grammar.{FitsLong}
use daobell.Bencode.Numbers.{
  is_digit, is_space, skip_space, print_digits, to_string, to_string_int, clamp_long, long_max,
  minus, size_mod,
}
use daobell.Bencode.Numbers.RoundTrip.{
  StartsWithDigit, to_string-StartsWithDigit, print_digits-append,
}
use daobell.Bencode.Ifstream.{
  good, take_digits, take_sign, extract_size, extract_long_long, read_chars,
}

take_digits-print_digits :
    (f n : ℕ) (out : Bytes) → n < f → take_digits (print_digits f n out) 0 ≡ take_digits out n
unfolding take_digits print_digits is_digit
take_digits-print_digits zero n out h = absurd (omega arith)
take_digits-print_digits (suc f) n out h =
    ground (arith, take_digits-print_digits f (n / 10) ((b'0' + n % 10) ∷ out))

pub take_digits-to_string :
    (n c : ℕ) (s : Bytes) → is_digit c ≡ false → take_digits (to_string n ++ c ∷ s) 0 ≡ (n, c ∷ s)
unfolding to_string
take_digits-to_string n c s h =
    rw (print_digits-append (suc n) n [] (c ∷ s))
      (take_digits-print_digits (suc n) n (c ∷ s) (omega arith) ∙ (unfold take_digits in (rw h)))

pub take_digits-to_string_end : (n : ℕ) → take_digits (to_string n) 0 ≡ (n, [])
unfolding to_string
take_digits-to_string_end n =
    take_digits-print_digits (suc n) n [] (omega arith) ∙ (unfold take_digits in refl)

pub extract_size-to_string :
    (n c : ℕ) (s : Bytes)
    → n ≤ long_max
    → is_digit c ≡ false
    → extract_size (good (to_string n ++ c ∷ s)) ≡ (n, good (c ∷ s))
unfolding extract_size
extract_size-to_string n c s h d =
    let small : ltb (size_mod - 1) n ≡ false = ge→ltb (size_mod - 1) n (omega arith) in
    rw (take_digits-to_string n c s d, small) refl

pub skip_space-digit : (s : Bytes) → StartsWithDigit s → skip_space s ≡ s
unfolding skip_space is_digit is_space
skip_space-digit [] h = elim h [ ]
skip_space-digit (c ∷ s) h = ground arith

pub take_sign-digit : (s : Bytes) → StartsWithDigit s → take_sign s ≡ (false, s)
unfolding take_sign is_digit
take_sign-digit [] h = elim h [ ]
take_sign-digit (c ∷ s) h = ground arith

extract_digits :
    (t : Bytes) (n c : ℕ) (s : Bytes)
    → StartsWithDigit t
    → take_digits t 0 ≡ (n, c ∷ s)
    → n ≤ long_max
    → extract_long_long (good t) ≡ (some (pos n), good (c ∷ s))
unfolding extract_long_long clamp_long
extract_digits [] n c s h e le = elim h [ ]
extract_digits (x ∷ t) n c s h e le =
    let small : ltb long_max n ≡ false = ge→ltb long_max n le in
    rw (skip_space-digit (x ∷ t) h, take_sign-digit (x ∷ t) h, e, h, small) refl

extract_minus :
    (t : Bytes) (n c : ℕ) (s : Bytes)
    → StartsWithDigit t
    → take_digits t 0 ≡ (suc n, c ∷ s)
    → n ≤ long_max
    → extract_long_long (good (minus ∷ t)) ≡ (some (negsuc n), good (c ∷ s))
unfolding extract_long_long clamp_long skip_space is_space take_sign
extract_minus [] n c s h e le = elim h [ ]
extract_minus (x ∷ t) n c s h e le =
    let small : ltb (long_max + 1) (suc n) ≡ false = ge→ltb (long_max + 1) (suc n) (omega arith) in
    rw (e, h, small) (ground arith)

pub extract_long_long-to_string_int :
    (n : ℤ) (c : ℕ) (s : Bytes)
    → FitsLong n
    → is_digit c ≡ false
    → extract_long_long (good (to_string_int n ++ c ∷ s)) ≡ (some n, good (c ∷ s))
unfolding to_string_int
extract_long_long-to_string_int (pos n) c s h d =
    extract_digits _ n c s (to_string-StartsWithDigit n _) (take_digits-to_string n c s d) h
extract_long_long-to_string_int (negsuc n) c s h d =
    extract_minus _ n c s (to_string-StartsWithDigit (suc n) _)
      (take_digits-to_string (suc n) c s d) h

pub read_chars-append : (s rest : Bytes) → read_chars (length s) (good (s ++ rest)) ≡ (s, good rest)
unfolding read_chars
read_chars-append s rest =
    let long : ltb (length (s ++ rest)) (length s) ≡ false =
      ge→ltb (length (s ++ rest)) (length s) (omega (arith, length-append s rest)) in
    rw (long, take-append_eq (length s) s rest refl, drop-append_eq (length s) s rest refl) refl

-- ===== src/Bencode/Parser/Steps.antt =====
-- One step of the parser on printed text.
use daobell.Prelude.{
  ℕ, suc, ◌≤◌, ◌<◌, Bytes, length, length-append, ◌==◌, true, false, [], ◌∷◌, ◌++◌, ok, ◌>>=◌, ℤ,
  arith, ◌≡◌, refl, append_assoc,
}
use daobell.Bencode.Value.{
  Value, Values, Entries, null, string, int, list, dict, insert_to_list, insert_to_dict,
}
use daobell.Bencode.Numbers.{is_digit, to_string, to_string_int, long_max}
use daobell.Bencode.Numbers.RoundTrip.{
  StartsWithDigit, to_string-StartsWithDigit, strtol-to_string_int, as_long_long-as_size_t,
  strtol-to_string, as_size_t-pos,
}
use daobell.Bencode.Grammar.{print, print_string, IsWellFormed, FitsLong}
use daobell.Bencode.Parser.{
  read_bytes, parse_string, parse_int, label, digit, key_of, parse, parse_list, parse_dict,
}

read_bytes-append : (s rest : Bytes) → read_bytes (length s) (s ++ rest) ≡ ok (s, rest)
unfolding read_bytes
read_bytes-append [] rest = refl
read_bytes-append (c ∷ s) rest = rw (read_bytes-append s rest)

pub parse_string-print :
    (s rest : Bytes) → length s ≤ long_max → parse_string (print_string s ++ rest) ≡ ok (s, rest)
unfolding parse_string
parse_string-print s rest h = rw (
  append_assoc (to_string (length s)) (b':' ∷ s) rest,
  strtol-to_string (length s) b':' (s ++ rest) h (unfold is_digit in refl),
  as_size_t-pos (length s) h,
  read_bytes-append s rest,
)

pub parse_int-print :
    (n : ℤ) (rest : Bytes)
    → FitsLong n
    → parse_int (to_string_int n ++ b'e' ∷ rest) ≡ ok (int n, rest)
unfolding parse_int
parse_int-print n rest h =
    rw (strtol-to_string_int n b'e' rest h (unfold is_digit in refl), as_long_long-as_size_t n h)

-- A printed string is met with the label of a digit.
pub label-digit : (c : ℕ) → is_digit c ≡ true → label c ≡ digit
unfolding label
label-digit c h = rw h

pub parse_digit :
    (f : ℕ) (s : Bytes)
    → StartsWithDigit s
    → parse (suc f) s ≡ (parse_string s >>= λ (t, rest). ok (string t, rest))
unfolding parse
parse_digit f [] h = elim h [ ]
parse_digit f (c ∷ s) h = rw (label-digit c h, parse)

-- What a loop meets first: not its closing letter.
abbrev pub StartsValue : Bytes → Type 0
StartsValue [] = ⊥
StartsValue (c ∷ s) = (c == b'e') ≡ false

StartsWithDigit-StartsValue : (s : Bytes) → StartsWithDigit s → StartsValue s
unfolding is_digit
StartsWithDigit-StartsValue [] h = h
StartsWithDigit-StartsValue (c ∷ s) h = ground arith

pub print_string-StartsWithDigit : (k rest : Bytes) → StartsWithDigit (print_string k ++ rest)
print_string-StartsWithDigit k rest =
    rw (append_assoc (to_string (length k)) (b':' ∷ k) rest)
      (to_string-StartsWithDigit (length k) _)

pub print_string-StartsValue : (k rest : Bytes) → StartsValue (print_string k ++ rest)
print_string-StartsValue k rest =
    StartsWithDigit-StartsValue _ (print_string-StartsWithDigit k rest)

pub print-StartsValue : (v : Value) (rest : Bytes) → IsWellFormed v → StartsValue (print v ++ rest)
unfolding print
print-StartsValue null rest h = elim h [ ]
print-StartsValue (string s) rest h = print_string-StartsValue s rest
print-StartsValue (int n) rest h = refl
print-StartsValue (list vs) rest h = refl
print-StartsValue (dict es) rest h = refl

pub length-print_pos : (v : Value) → IsWellFormed v → 0 < length (print v)
unfolding print
length-print_pos null h = elim h [ ]
length-print_pos (string s) h = omega (arith, length-append (to_string (length s)) (b':' ∷ s))
length-print_pos (int n) h = omega arith
length-print_pos (list vs) h = omega arith
length-print_pos (dict es) h = omega arith

-- A round of each loop.
pub parse_list_more :
    (f : ℕ) (s : Bytes) (vs : Values)
    → StartsValue s
    → parse_list (suc f) s vs ≡ (parse f s >>= λ (v, rest). parse_list f rest (insert_to_list v vs))
unfolding parse
parse_list_more f [] vs h = elim h [ ]
parse_list_more f (c ∷ s) vs h = rw h

pub parse_dict_more :
    (f : ℕ) (s : Bytes) (es : Entries)
    → StartsValue s
    → parse_dict (suc f) s es ≡ (
        parse f s >>= λ (k, q).
        key_of k >>= λ key. parse f q >>= λ (v, rest). parse_dict f rest (insert_to_dict key v es))
unfolding parse
parse_dict_more f [] es h = elim h [ ]
parse_dict_more f (c ∷ s) es h = rw h

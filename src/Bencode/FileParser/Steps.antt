-- ===== src/Bencode/FileParser/Steps.antt =====
-- One step of the parser of a file.
use daobell.Prelude.{
  ℕ, suc, ◌≤◌, Bytes, length, false, [], ◌∷◌, ◌++◌, ok, ◌>>=◌, ℤ, ltb, ge→ltb, ◌≡◌, refl, ap,
  append_assoc,
}
use daobell.Bencode.Value.{Values, Entries, string, int, insert_to_list, insert_to_dict}
use daobell.Bencode.Numbers.{is_digit, to_string, to_string_int, long_max}
use daobell.Bencode.Numbers.RoundTrip.{StartsWithDigit, to_string-StartsWithDigit}
use daobell.Bencode.Grammar.{print_string, FitsLong}
use daobell.Bencode.Ifstream.{good, get_char, peek_char, put_back, extract_long_long}
use daobell.Bencode.FileParser.{file_string, file_int, meets_end, parse_file, file_list, file_dict}
use daobell.Bencode.FileParser.Extracts.{
  extract_size-to_string, extract_long_long-to_string_int, read_chars-append,
}
use daobell.Bencode.Parser.{key_of}
use daobell.Bencode.Parser.Steps.{StartsValue, label-digit}

-- A string, whose first digit was taken.
file_string-print :
    (ch : ℕ) (t s rest : Bytes)
    → ch ∷ t ≡ to_string (length s) ++ b':' ∷ (s ++ rest)
    → length s ≤ long_max
    → file_string ch (good t) ≡ ok (string s, good rest)
unfolding file_string put_back get_char
file_string-print ch t s rest e h =
    let small : ltb long_max (length s) ≡ false = ge→ltb long_max (length s) h in
    rw
      (
        e,
        extract_size-to_string (length s) b':' (s ++ rest) h (unfold is_digit in refl),
        small,
        read_chars-append s rest,
      )
      refl

parse_file_digit :
    (f : ℕ) (t s rest : Bytes)
    → StartsWithDigit t
    → t ≡ to_string (length s) ++ b':' ∷ (s ++ rest)
    → length s ≤ long_max
    → parse_file (suc f) (good t) ≡ ok (string s, good rest)
unfolding parse_file get_char
parse_file_digit f [] s rest d e h = elim d [ ]
parse_file_digit f (c ∷ t) s rest d e h =
    rw (label-digit c d, parse_file) (file_string-print c t s rest e h)

pub parse_file-print_string :
    (f : ℕ) (s rest : Bytes)
    → length s ≤ long_max
    → parse_file (suc f) (good (print_string s ++ rest)) ≡ ok (string s, good rest)
parse_file-print_string f s rest h =
    rw (append_assoc (to_string (length s)) (b':' ∷ s) rest)
      (parse_file_digit f _ s rest (to_string-StartsWithDigit (length s) _) refl h)

pub file_int-print :
    (n : ℤ) (rest : Bytes)
    → FitsLong n
    → file_int (good (to_string_int n ++ b'e' ∷ rest)) ≡ ok (int n, good rest)
unfolding file_int get_char
file_int-print n rest h =
    let run = extract_long_long-to_string_int n b'e' rest h (unfold is_digit in refl) in
    rw (file_int, ap (λ r. r.0) run)
      (let after : (get_char (extract_long_long (good (to_string_int n ++ b'e' ∷ rest))).1).1
            ≡ good rest =
          ap (λ r. (get_char r.1).1) run in
        ap (λ q. ok (int n, q)) after)

-- A round of each loop, and its end.
pub file_list_more :
    (f : ℕ) (s : Bytes) (vs : Values)
    → StartsValue s
    → file_list (suc f) (good s) vs
      ≡ (parse_file f (good s) >>= λ (v, rest). file_list f rest (insert_to_list v vs))
unfolding parse_file meets_end peek_char
file_list_more f [] vs h = elim h [ ]
file_list_more f (c ∷ s) vs h = rw h

pub file_dict_more :
    (f : ℕ) (s : Bytes) (es : Entries)
    → StartsValue s
    → file_dict (suc f) (good s) es ≡ (
        parse_file f (good s) >>= λ (k, q). key_of k >>= λ key.
        parse_file f q >>= λ (v, rest). file_dict f rest (insert_to_dict key v es))
unfolding parse_file meets_end peek_char
file_dict_more f [] es h = elim h [ ]
file_dict_more f (c ∷ s) es h = rw h

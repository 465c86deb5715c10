-- ===== src/Tests/Bencoding.antt =====
-- Bencoding at the inputs of test/bencode_encoder_test.cpp and others.
use daobell.Prelude.{◌≡◌, refl, ok, out_of_fuel, codes, ◌∷◌, [], ◌++◌, pos, negsuc, arith}
use daobell.Bencode.Value.{
  Value, Entries, null, string, int, list, dict, nil, cons, end, entry, insert_to_dict,
  insert_to_list, lt_string,
}
use daobell.Bencode.Numbers.{
  is_digit, strtol, to_string_int, to_string, print_digits, skip_space, scan_digits, clamp_long,
  is_space, as_size_t, as_long_long,
}
use daobell.Bencode.Grammar.{IsWellFormed, print, print_values}
use daobell.Bencode.Encoder.{encode, crawl, c_str}
use daobell.Bencode.Parser.{parse, label, parse_string, parse_int, read_bytes, key_of}
use daobell.Bencode.Parser.RoundTrip.{parse-encode}
use daobell.Bencode.Parser.Malformed.{parse_list_diverges}
use daobell.Bencode.Ifstream.{
  good, get_char, peek_char, put_back, read_chars, extract_size, extract_long_long, take_digits,
  take_sign,
}
use daobell.Bencode.FileParser.{parse_file, file_string, file_int, meets_end, file_value}
use daobell.Bencode.FileParser.RoundTrip.{parse_file-encode}
use daobell.Bencode.FileParser.Truncated.{parse_file-truncated}

abbrev counts : Value
counts = list (cons (int (pos 7)) (cons (int (negsuc 41)) nil))

abbrev info_entries : Entries
info_entries = entry (codes "list") counts (entry (codes "name") (string (codes "a:b")) end)

abbrev info : Value
info = dict info_entries

encode-info : encode info ≡ ok (codes "d4:listli7ei-42ee4:name3:a:be")
unfolding encode crawl c_str to_string to_string_int print_digits
encode-info = refl

parse-info : parse 30 (codes "d4:listli7ei-42ee4:name3:a:be" ++ 0 ∷ []) ≡ ok (info, 0 ∷ [])
unfolding parse label parse_string parse_int read_bytes key_of is_digit strtol skip_space is_space
    scan_digits clamp_long as_size_t as_long_long insert_to_list insert_to_dict lt_string
parse-info = refl

info-IsWellFormed : IsWellFormed info
unfolding lt_string
info-IsWellFormed = ground arith

parse-encode_example :
    (encode info ≡ ok (print info)) × (parse 40 (print info ++ 0 ∷ []) ≡ ok (info, 0 ∷ []))
parse-encode_example =
    parse-encode info (0 ∷ []) 40 info-IsWellFormed
      (unfold print to_string to_string_int print_digits in omega arith)

file-info : file_value 30 (good (codes "d4:listli7ei-42ee4:name3:a:be")) ≡ ok info
unfolding file_value parse_file label file_string file_int meets_end get_char peek_char put_back
    read_chars extract_size extract_long_long take_digits take_sign key_of is_digit skip_space
    is_space clamp_long insert_to_list insert_to_dict lt_string
file-info = refl

-- A character that starts no value is taken, and stands for a null pointer.
file-unknown : file_value 30 (good (codes "lxe")) ≡ ok (list (cons null nil))
unfolding file_value parse_file label meets_end get_char peek_char is_digit insert_to_list
file-unknown = refl

-- A string that the file ends in is filled up with zeros.
file-short : file_value 30 (good (codes "4:ab")) ≡ ok (string (codes "ab" ++ 0 ∷ 0 ∷ []))
unfolding file_value parse_file label file_string get_char put_back read_chars extract_size
    take_digits is_digit
file-short = refl

parse_file-encode_example :
    (encode info ≡ ok (print info))
    × (parse_file 40 (good (print info ++ [])) ≡ ok (info, good []))
    × (parse 40 (print info ++ []) ≡ ok (info, []))
parse_file-encode_example =
    parse_file-encode info [] 40 info-IsWellFormed
      (unfold print to_string to_string_int print_digits in omega arith)

parse_file-truncated_example :
    parse_file 1000 (good (b'l' ∷ print_values (cons (int (pos 7)) nil))) ≡ out_of_fuel
parse_file-truncated_example =
    parse_file-truncated (cons (int (pos 7)) nil) 1000 (omega arith, tt)
      (unfold print to_string to_string_int print_digits in omega arith)

parse_list_diverges_example : parse 1000 (codes "lxe") ≡ out_of_fuel
unfolding label is_digit
parse_list_diverges_example = parse_list_diverges 1000 b'x' (codes "e") refl (omega arith)

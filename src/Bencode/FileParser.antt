-- ===== src/Bencode/FileParser.antt =====
-- src/bencode_parser.cpp, the parser of a std::ifstream, with which bt_downloader reads the metainfo.
pub mod Extracts
pub mod Steps
pub mod RoundTrip
pub mod Truncated
use daobell.Prelude.{
  ℕ, zero, suc, ltb, ◌==◌, if◌then◌else◌, Option, none, some, Bool, true, false, Outcome, ok, fault,
  out_of_fuel, ◌>>=◌, Bytes,
}
use daobell.Bencode.Value.{
  Value, Values, Entries, null, string, int, list, dict, nil, end, insert_to_list, insert_to_dict,
}
use daobell.Bencode.Numbers.{long_max}
use daobell.Bencode.Ifstream.{
  Ifstream, get_char, peek_char, put_back, read_chars, extract_size, extract_long_long,
}
use daobell.Bencode.Parser.{label, digit, letter_i, letter_l, letter_d, other, key_of}

-- A vector cannot have more than PTRDIFF_MAX characters: the exception is not caught.
unfoldable pub file_string : ℕ → Ifstream → Outcome (Value × Ifstream)
file_string ch ifs =
    let (len, counted) = extract_size (put_back ch ifs) in
    let (bytes, after) = read_chars len (get_char counted).1 in
    if ltb long_max len then fault else ok (string bytes, after)

-- To read a number that was not set is undefined.
unfoldable pub file_int : Ifstream → Outcome (Value × Ifstream)
file_int ifs =
    let (number, after) = extract_long_long ifs in
    elim number [ none ↦ fault | some n ↦ ok (int n, (get_char after).1) ]

-- ifs.peek() != 'e'
unfoldable pub meets_end : Ifstream → Bool × Ifstream
meets_end ifs =
    let (c, after) = peek_char ifs in
    elim c [ none ↦ (false, after) | some ch ↦ (ch == b'e', after) ]

-- The character of the default label is taken, and value_ is a null pointer until the parser is
-- constructed. Each call and each round of a loop takes a unit of fuel.
unfoldable mutual
  pub parse_file : ℕ → Ifstream → Outcome (Value × Ifstream)
  parse_file zero ifs = out_of_fuel
  parse_file (suc f) ifs =
      let (c, after) = get_char ifs in
      elim c [
        | none ↦ ok (null, after)
        | some ch ↦ elim (label ch) [
          | digit ↦ file_string ch after
          | letter_i ↦ file_int after
          | letter_l ↦ file_list f after nil
          | letter_d ↦ file_dict f after end
          | other ↦ ok (null, after)
        ]
      ]

  pub file_list : ℕ → Ifstream → Values → Outcome (Value × Ifstream)
  file_list zero ifs vs = out_of_fuel
  file_list (suc f) ifs vs =
      let (ended, peeked) = meets_end ifs in
      let more = parse_file f peeked >>= λ (v, rest). file_list f rest (insert_to_list v vs) in
      if ended then ok (list vs, (get_char peeked).1) else more

  pub file_dict : ℕ → Ifstream → Entries → Outcome (Value × Ifstream)
  file_dict zero ifs es = out_of_fuel
  file_dict (suc f) ifs es =
      let (ended, peeked) = meets_end ifs in
      let more = parse_file f peeked >>= λ (k, q). key_of k >>= λ key.
      parse_file f q >>= λ (v, rest). file_dict f rest (insert_to_dict key v es) in
      if ended then ok (dict es, (get_char peeked).1) else more

-- bencode_parser(std::ifstream &), and what get_value gives of it.
unfoldable pub file_value : ℕ → Ifstream → Outcome Value
file_value f ifs = parse_file f ifs >>= λ (v, rest). ok v

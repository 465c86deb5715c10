-- ===== src/Bencode/Parser.antt =====
-- src/bencode_parser.cpp, the parser of a `const char *`. A pointer is what the buffer holds from it
-- on, the closing NUL included; to read past that is a fault.
pub mod Steps
pub mod RoundTrip
pub mod Malformed
use daobell.Prelude.{
  ℕ, zero, suc, Bytes, ◌==◌, if◌then◌else◌, [], ◌∷◌, Outcome, ok, fault, out_of_fuel, ◌>>=◌,
}
use daobell.Bencode.Value.{
  Value, Values, Entries, null, string, int, list, dict, nil, end, insert_to_list, insert_to_dict,
}
use daobell.Bencode.Numbers.{is_digit, strtol, as_size_t, as_long_long}

-- (*end_p)++
unfoldable pub skip : Bytes → Outcome Bytes
skip [] = fault
skip (c ∷ s) = ok s

-- std::vector<char>(p, p + n), and p + n.
unfoldable pub read_bytes : ℕ → Bytes → Outcome (Bytes × Bytes)
read_bytes zero p = ok ([], p)
read_bytes (suc n) [] = fault
read_bytes (suc n) (c ∷ p) = read_bytes n p >>= λ (s, rest). ok (c ∷ s, rest)

unfoldable pub parse_string : Bytes → Outcome (Bytes × Bytes)
unfolding skip
parse_string p = strtol p >>= λ (n, q). skip q >>= λ q'. read_bytes (as_size_t n) q'

unfoldable pub parse_int : Bytes → Outcome (Value × Bytes)
unfolding skip
parse_int p = strtol p >>= λ (n, q). skip q >>= λ q'. ok (int (as_long_long (as_size_t n)), q')

-- The case labels of the switch on the first character.
pub data Label : Type 0 where
  digit letter_i letter_l letter_d other : Label

unfoldable pub label : ℕ → Label
label c =
    if is_digit c
    then digit
    else if c == b'i'
    then letter_i
    else if c == b'l'
    then letter_l
    else if c == b'd'
    then letter_d
    else other

-- dynamic_cast<bencode_string *>(key)->get_value(): a null pointer for any other class.
unfoldable pub key_of : Value → Outcome Bytes
key_of (string s) = ok s
key_of _ = fault

-- `parse` gives the value and what *end_p points to. The default label leaves *end_p where it was,
-- which is `p` in every recursive call. Each call and each round of a loop takes a unit of fuel.
unfoldable mutual
  pub parse : ℕ → Bytes → Outcome (Value × Bytes)
  parse zero p = out_of_fuel
  parse (suc f) [] = fault
  parse (suc f) (c ∷ p) = elim (label c) [
    | digit ↦ parse_string (c ∷ p) >>= λ (s, rest). ok (string s, rest)
    | letter_i ↦ parse_int p
    | letter_l ↦ parse_list f p nil
    | letter_d ↦ parse_dict f p end
    | other ↦ ok (null, c ∷ p)
  ]

  pub parse_list : ℕ → Bytes → Values → Outcome (Value × Bytes)
  parse_list zero p vs = out_of_fuel
  parse_list (suc f) [] vs = fault
  parse_list (suc f) (c ∷ p) vs =
      let more = parse f (c ∷ p) >>= λ (v, rest). parse_list f rest (insert_to_list v vs) in
      if c == b'e' then ok (list vs, p) else more

  pub parse_dict : ℕ → Bytes → Entries → Outcome (Value × Bytes)
  parse_dict zero p es = out_of_fuel
  parse_dict (suc f) [] es = fault
  parse_dict (suc f) (c ∷ p) es =
      let more = parse f (c ∷ p) >>= λ (k, q).
      key_of k >>= λ key. parse f q >>= λ (v, rest). parse_dict f rest (insert_to_dict key v es) in
      if c == b'e' then ok (dict es, p) else more

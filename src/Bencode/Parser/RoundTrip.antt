-- ===== src/Bencode/Parser/RoundTrip.antt =====
-- The parser reads back what was printed.
use daobell.Prelude.{
  ℕ, zero, suc, ◌+◌, ◌<◌, Bytes, length, length-append, [], ◌∷◌, ◌++◌, ok, arith, ◌≡◌, append_assoc,
}
use daobell.Bencode.Value.{
  Value, Values, Entries, null, string, int, list, dict, nil, cons, end, entry, insert_to_list,
  insert_to_dict,
}
use daobell.Bencode.Value.Appends.{
  append_values, append_values-nil, append_values-insert_to_list, append_entries,
  append_entries-end, append_entries-insert_to_dict, Follows, Follows-insert_to_dict, Follows-end,
}
use daobell.Bencode.Numbers.{is_digit, to_string_int}
use daobell.Bencode.Grammar.{
  print, print_values, print_entries, print_string, IsWellFormed, AreWellFormed, EntriesWellFormed,
  IsOrdered,
}
use daobell.Bencode.Encoder.{encode}
use daobell.Bencode.Encoder.Laws.{encode-print}
use daobell.Bencode.Parser.{key_of, label, parse, parse_list, parse_dict}
use daobell.Bencode.Parser.Steps.{
  parse_string-print, parse_int-print, parse_digit, print_string-StartsWithDigit,
  print_string-StartsValue, print-StartsValue, length-print_pos, parse_list_more, parse_dict_more,
}

length-append_bytes : (s t : Bytes) → length (s ++ t) ≡ length s + length t
length-append_bytes = length-append

ruleset sizes = (arith, length-append_bytes)

-- A printed string, with the label of a digit.
parse-print_string :
    (f : ℕ) (s rest : Bytes)
    → IsWellFormed (string s)
    → 0 < f
    → parse f (print_string s ++ rest) ≡ ok (string s, rest)
parse-print_string zero s rest h p = elim p [ ]
parse-print_string (suc f) s rest h p =
    rw (parse_digit f _ (print_string-StartsWithDigit s rest), parse_string-print s rest h)

mutual
  unfolding print parse label is_digit append_values append_entries key_of

  parse-print_lem :
      (v : Value) (rest : Bytes) (f : ℕ)
      → IsWellFormed v
      → length (print v) < f
      → parse f (print v ++ rest) ≡ ok (v, rest)
  parse-print_lem v rest zero h b = elim b [ ]
  parse-print_lem null rest (suc f) h b = elim h [ ]
  parse-print_lem (string s) rest (suc f) h b = parse-print_string (suc f) s rest h (omega arith)
  parse-print_lem (int n) rest (suc f) h b =
      rw (append_assoc (to_string_int n) (b'e' ∷ []) rest) (parse_int-print n rest h)
  parse-print_lem (list vs) rest (suc f) h b =
      rw (append_assoc (print_values vs) (b'e' ∷ []) rest) (
        parse_list-print vs rest nil f h
          (omega (arith, length-append (print_values vs) (b'e' ∷ []))))
  parse-print_lem (dict es) rest (suc f) h b =
      rw (append_assoc (print_entries es) (b'e' ∷ []) rest) (
        parse_dict-print es rest end f h.0 h.1 (Follows-end es)
          (omega (arith, length-append (print_entries es) (b'e' ∷ []))))

  parse_list-print :
      (vs : Values) (rest : Bytes) (acc : Values) (f : ℕ)
      → AreWellFormed vs
      → length (print_values vs) + 1 < f
      → parse_list f (print_values vs ++ b'e' ∷ rest) acc ≡ ok (list (append_values acc vs), rest)
  parse_list-print vs rest acc zero h b = elim b [ ]
  parse_list-print nil rest acc (suc f) h b = rw (append_values-nil acc)
  parse_list-print (cons v vs) rest acc (suc f) h b = rw (
    append_assoc (print v) (print_values vs) (b'e' ∷ rest),
    parse_list_more f _ acc (print-StartsValue v _ h.0),
    parse-print_lem v (print_values vs ++ b'e' ∷ rest) f h.0
        (omega (sizes, length-print_pos v h.0)),
    parse_list-print vs rest (insert_to_list v acc) f h.1 (omega (sizes, length-print_pos v h.0)),
    append_values-insert_to_list v acc vs,
  )

  parse_dict-print :
      (es : Entries) (rest : Bytes) (acc : Entries) (f : ℕ)
      → IsOrdered es
      → EntriesWellFormed es
      → Follows acc es
      → length (print_entries es) + 1 < f
      → parse_dict f (print_entries es ++ b'e' ∷ rest) acc ≡ ok (dict (append_entries acc es), rest)
  parse_dict-print es rest acc zero o h w b = elim b [ ]
  parse_dict-print end rest acc (suc f) o h w b = rw (append_entries-end acc)
  parse_dict-print (entry k v es) rest acc (suc f) o h w b = rw (
    append_assoc (print_string k) (print v ++ print_entries es) (b'e' ∷ rest),
    append_assoc (print v) (print_entries es) (b'e' ∷ rest),
    parse_dict_more f _ acc (print_string-StartsValue k _),
    parse-print_string f k _ h.0 (omega arith),
    parse-print_lem v (print_entries es ++ b'e' ∷ rest) f h.2
        (omega (sizes, length-print_pos v h.2)),
    parse_dict-print es rest (insert_to_dict k v acc) f o.1 h.3
        (Follows-insert_to_dict k v acc es w.1 o.0) (omega (sizes, length-print_pos v h.2)),
    append_entries-insert_to_dict k v acc es w.0,
  )

-- What the encoder writes of a well-formed value, the parser reads back from the front of any
-- buffer, and it stops where the text ends. The length of the text is fuel enough.
pub parse-encode :
    (v : Value) (rest : Bytes) (f : ℕ)
    → IsWellFormed v
    → length (print v) < f
    → (encode v ≡ ok (print v)) × (parse f (print v ++ rest) ≡ ok (v, rest))
parse-encode v rest f h b = (encode-print v h, parse-print_lem v rest f h b)

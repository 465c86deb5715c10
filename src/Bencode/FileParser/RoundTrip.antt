-- ===== src/Bencode/FileParser/RoundTrip.antt =====
-- The parser of a file reads back what was printed.
use daobell.Prelude.{
  ℕ, zero, suc, ◌+◌, ◌<◌, Bytes, length, length-append, [], ◌∷◌, ◌++◌, ok, arith, ◌≡◌, refl, ◌∙◌,
  ap, append_assoc,
}
use daobell.Bencode.Value.{
  Value, Values, Entries, null, string, int, list, dict, nil, cons, end, entry, insert_to_list,
  insert_to_dict,
}
use daobell.Bencode.Value.Appends.{
  append_values, append_values-nil, append_values-insert_to_list, append_entries,
  append_entries-end, append_entries-insert_to_dict, Follows, Follows-insert_to_dict, Follows-end,
}
use daobell.Bencode.Numbers.{is_digit, to_string_int}
use daobell.Bencode.Grammar.{
  print, print_values, print_entries, print_string, IsWellFormed, AreWellFormed, EntriesWellFormed,
  IsOrdered,
}
use daobell.Bencode.Encoder.{encode}
use daobell.Bencode.Encoder.Laws.{encode-print}
use daobell.Bencode.Ifstream.{good, get_char, peek_char}
use daobell.Bencode.FileParser.{meets_end, parse_file, file_list, file_dict}
use daobell.Bencode.FileParser.Steps.{
  parse_file-print_string, file_int-print, file_list_more, file_dict_more,
}
use daobell.Bencode.Parser.{key_of, label, parse}
use daobell.Bencode.Parser.Steps.{print_string-StartsValue, print-StartsValue, length-print_pos}
use daobell.Bencode.Parser.RoundTrip.{parse-encode}

length-append_bytes : (s t : Bytes) → length (s ++ t) ≡ length s + length t
length-append_bytes = length-append

ruleset sizes = (arith, length-append_bytes)

mutual
  unfolding print parse_file label is_digit append_values append_entries key_of get_char peek_char
      meets_end

  pub parse_file-print_lem :
      (v : Value) (rest : Bytes) (f : ℕ)
      → IsWellFormed v
      → length (print v) < f
      → parse_file f (good (print v ++ rest)) ≡ ok (v, good rest)
  parse_file-print_lem v rest zero h b = elim b [ ]
  parse_file-print_lem null rest (suc f) h b = elim h [ ]
  parse_file-print_lem (string s) rest (suc f) h b = parse_file-print_string f s rest h
  parse_file-print_lem (int n) rest (suc f) h b =
      rw (append_assoc (to_string_int n) (b'e' ∷ []) rest) (file_int-print n rest h)
  parse_file-print_lem (list vs) rest (suc f) h b =
      rw (append_assoc (print_values vs) (b'e' ∷ []) rest) (
        file_list-print vs rest nil f h
          (omega (arith, length-append (print_values vs) (b'e' ∷ []))))
  parse_file-print_lem (dict es) rest (suc f) h b =
      rw (append_assoc (print_entries es) (b'e' ∷ []) rest) (
        file_dict-print es rest end f h.0 h.1 (Follows-end es)
          (omega (arith, length-append (print_entries es) (b'e' ∷ []))))

  file_list-print :
      (vs : Values) (rest : Bytes) (acc : Values) (f : ℕ)
      → AreWellFormed vs
      → length (print_values vs) + 1 < f
      → file_list f (good (print_values vs ++ b'e' ∷ rest)) acc
        ≡ ok (list (append_values acc vs), good rest)
  file_list-print vs rest acc zero h b = elim b [ ]
  file_list-print nil rest acc (suc f) h b = rw (append_values-nil acc) refl
  file_list-print (cons v vs) rest acc (suc f) h b =
      ap (λ s. file_list (suc f) (good s) acc)
        (append_assoc (print v) (print_values vs) (b'e' ∷ rest))
      ∙ (file_list_more f (print v ++ (print_values vs ++ b'e' ∷ rest)) acc
            (print-StartsValue v _ h.0)
          ∙ rw
              (
                parse_file-print_lem v (print_values vs ++ b'e' ∷ rest) f h.0
                    (omega (sizes, length-print_pos v h.0)),
                file_list-print vs rest (insert_to_list v acc) f h.1
                    (omega (sizes, length-print_pos v h.0)),
                append_values-insert_to_list v acc vs,
              )
              refl)

  file_dict-print :
      (es : Entries) (rest : Bytes) (acc : Entries) (f : ℕ)
      → IsOrdered es
      → EntriesWellFormed es
      → Follows acc es
      → length (print_entries es) + 1 < f
      → file_dict f (good (print_entries es ++ b'e' ∷ rest)) acc
        ≡ ok (dict (append_entries acc es), good rest)
  file_dict-print es rest acc zero o h w b = elim b [ ]
  file_dict-print end rest acc (suc f) o h w b = rw (append_entries-end acc) refl
  file_dict-print (entry k v es) rest acc (suc zero) o h w b = absurd (omega arith)
  file_dict-print (entry k v es) rest acc (suc (suc f)) o h w b =
      let behind = print_entries es ++ b'e' ∷ rest in
      ap (λ s. file_dict (suc (suc f)) (good s) acc)
        (append_assoc (print_string k) (print v ++ print_entries es) (b'e' ∷ rest)
          ∙ ap (λ s. print_string k ++ s) (append_assoc (print v) (print_entries es) (b'e' ∷ rest)))
      ∙ (file_dict_more (suc f) (print_string k ++ (print v ++ behind)) acc
            (print_string-StartsValue k _)
          ∙ rw
              (
                parse_file-print_string f k (print v ++ behind) h.0,
                parse_file-print_lem v behind (suc f) h.2 (omega (sizes, length-print_pos v h.2)),
                file_dict-print es rest (insert_to_dict k v acc) (suc f) o.1 h.3
                    (Follows-insert_to_dict k v acc es w.1 o.0)
                    (omega (sizes, length-print_pos v h.2)),
                append_entries-insert_to_dict k v acc es w.0,
              )
              refl)

-- A file that begins with what the encoder writes of a well-formed value is read as that value, as
-- the parser of a buffer reads it, and the stream is good and stands where the text ends. The length
-- of the text is fuel enough.
pub parse_file-encode :
    (v : Value) (rest : Bytes) (f : ℕ)
    → IsWellFormed v
    → length (print v) < f
    → (encode v ≡ ok (print v))
      × (parse_file f (good (print v ++ rest)) ≡ ok (v, good rest))
      × (parse f (print v ++ rest) ≡ ok (v, rest))
parse_file-encode v rest f h b =
    (encode-print v h, parse_file-print_lem v rest f h b, (parse-encode v rest f h b).1)

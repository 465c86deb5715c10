-- ===== src/Bencode/FileParser/Truncated.antt =====
-- What the parser of a file makes of one that ends too early.
use daobell.Prelude.{
  ℕ, zero, suc, ◌+◌, ◌<◌, length, length-append, arith, [], ◌∷◌, ◌++◌, true, out_of_fuel, ◌≡◌, refl,
  ◌∙◌,
}
use daobell.Bencode.Numbers.{is_digit}
use daobell.Bencode.Ifstream.{Ifstream, good, get_char, peek_char}
use daobell.Bencode.FileParser.{meets_end, parse_file, file_list}
use daobell.Bencode.FileParser.Steps.{file_list_more}
use daobell.Bencode.FileParser.RoundTrip.{parse_file-print_lem}
use daobell.Bencode.Parser.{label}
use daobell.Bencode.Parser.Steps.{print-StartsValue, length-print_pos}
use daobell.Bencode.Value.{Values, nil, cons, null, insert_to_list}
use daobell.Bencode.Grammar.{print, print_values, AreWellFormed}

-- A stream that has come to its end.
abbrev HasEnded : Ifstream → Type 0
HasEnded s = s.eof ≡ true

file_list-HasEnded :
    (f : ℕ) (s : Ifstream) (vs : Values) → HasEnded s → file_list f s vs ≡ out_of_fuel
unfolding parse_file meets_end peek_char get_char
file_list-HasEnded zero s vs e = refl
file_list-HasEnded (suc zero) s vs e = rw e refl
file_list-HasEnded (suc (suc f)) s vs e = rw e (
    file_list-HasEnded (suc f) (record { rest = s.rest; eof = true; fail = true })
      (insert_to_list null vs) refl)

file_list_stops : (f : ℕ) (vs : Values) → file_list f (good []) vs ≡ out_of_fuel
unfolding parse_file meets_end peek_char get_char
file_list_stops zero vs = refl
file_list_stops (suc zero) vs = refl
file_list_stops (suc (suc f)) vs =
    file_list-HasEnded (suc f) (record { rest = []; eof = true; fail = true })
      (insert_to_list null vs) refl

file_list-print_values :
    (vs acc : Values) (f : ℕ)
    → AreWellFormed vs
    → length (print_values vs) + 1 < f
    → file_list f (good (print_values vs)) acc ≡ out_of_fuel
unfolding print parse_file
file_list-print_values vs acc zero h b = refl
file_list-print_values nil acc (suc f) h b = file_list_stops (suc f) acc
file_list-print_values (cons v vs) acc (suc f) h b =
    let n = length-append (print v) (print_values vs) in
    let some_printed = length-print_pos v h.0 in
    file_list_more f (print v ++ print_values vs) acc (print-StartsValue v _ h.0)
    ∙ rw (parse_file-print_lem v (print_values vs) f h.0 (omega (arith, n)))
        (file_list-print_values vs (insert_to_list v acc) f h.1 (omega (arith, n)))

-- A file that ends within a list, behind any number of its values: the list is never left, however
-- large the number of rounds is.
pub parse_file-truncated :
    (vs : Values) (f : ℕ)
    → AreWellFormed vs
    → length (print_values vs) + 2 < f
    → parse_file f (good (b'l' ∷ print_values vs)) ≡ out_of_fuel
unfolding parse_file get_char label is_digit
parse_file-truncated vs zero h b = refl
parse_file-truncated vs (suc f) h b = file_list-print_values vs nil f h (omega arith)

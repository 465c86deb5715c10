-- ===== src/Tests/Headers.antt =====
-- The header of an HTTP answer.
use daobell.Prelude.{
  Bytes, codes, List, [], ◌∷◌, ◌++◌, Bool, true, false, ◌&&◌, if◌then◌else◌, length, ok, ◌>>=◌,
  arith, ◌≡◌, refl,
}
use daobell.Bencode.Numbers.{is_space, skip_space, to_string, print_digits}
use daobell.Bencode.Value.{lt_string}
use daobell.FtpUrl.{find_first, find_last, contains}
use daobell.HttpHeader.{
  HeaderMap, parse_header, get_status, get_content_length, get_content_length_number_count,
}
use daobell.HttpHeader.ContentLength.{content_length_key}
use daobell.HttpHeader.Parsed.{text, get_content_length-parse_header}

abbrev is_nil : Bytes → Bool
is_nil [] = true
is_nil (c ∷ s) = false

unfoldable strip_end : Bytes → Bytes
strip_end [] = []
strip_end (c ∷ s) = let rest = strip_end s in if is_space c && is_nil rest then [] else c ∷ rest

-- White space off both ends.
unfoldable strip : Bytes → Bytes
unfolding strip_end
strip s = strip_end (skip_space s)

abbrev first_lines : List Bytes
first_lines = (codes "HTTP/1.1 200 OK" ++ 13 ∷ []) ∷ (codes "Server: x" ++ 13 ∷ []) ∷ []

abbrev value : Bytes
value = codes " 42" ++ 13 ∷ []

-- The status is taken with the '\r' of its line.
status_ok :
    (parse_header strip (codes "HTTP/1.1 200 OK" ++ 13 ∷ 10 ∷ 13 ∷ 10 ∷ []) >>= get_status)
    ≡ ok (codes "200 OK" ++ 13 ∷ [])
unfolding parse_header get_status strip is_space skip_space find_first find_last contains lt_string
status_ok = refl

get_content_length-parse_header_example :
    (m : HeaderMap) × (parse_header strip (
        text first_lines
        ++ ((content_length_key ++ b':' ∷ value) ++ b'\n' ∷ (text [] ++ (13 ∷ b'\n' ∷ codes "hi"))))
      ≡ ok m)
    × (get_content_length m ≡ 42)
    × (get_content_length_number_count m ≡ ok (length (to_string 42)))
unfolding strip is_space skip_space find_first contains to_string print_digits
get_content_length-parse_header_example =
    get_content_length-parse_header strip first_lines [] value (codes "hi") 42 (ground arith) tt
      (ground arith) refl refl (omega arith) (omega arith)

-- ===== src/HttpHeader.antt =====
-- src/http_header_parser.cpp: the header of an HTTP answer. boost::algorithm::trim_copy is a parameter.
pub mod ContentLength
pub mod Parsed
use daobell.Prelude.{
  ℕ, zero, suc, ◌+◌, ◌-◌, ◌/◌, ◌%◌, ltb, ◌==◌, ◌&&◌, if◌then◌else◌, Bool, true, false, Bytes, codes,
  List, [], ◌∷◌, ◌++◌, length, take, drop, Option, none, some, Outcome, ok, fault, out_of_fuel,
  ◌>>=◌,
}
use daobell.Bencode.Value.{lt_string}
use daobell.Bencode.Numbers.{skip_space, size_mod, is_digit}
use daobell.Bencode.Ifstream.{take_sign, take_digits}
use daobell.FtpUrl.{find_first, find_last, contains, substr}
use daobell.Pieces.{sub64, u64_mod}

abbrev put_on_line : ℕ → List Bytes → List Bytes
put_on_line c [] = (c ∷ []) ∷ []
put_on_line c (l ∷ ls) = (c ∷ l) ∷ ls

-- What std::getline gives, call by call.
unfoldable pub header_lines : Bytes → List Bytes
header_lines [] = []
header_lines (c ∷ s) = if c == b'\n' then [] ∷ header_lines s else put_on_line c (header_lines s)

-- std::map<std::string, std::string> in its order; insert leaves an entry of that key as it is.
abbrev pub HeaderMap : Type 0
HeaderMap = List (Bytes × Bytes)

unfoldable pub insert : Bytes → Bytes → HeaderMap → HeaderMap
insert key value [] = (key, value) ∷ []
insert key value ((k, v) ∷ m) =
    let rest = insert key value m in
    if lt_string key k
    then (key, value) ∷ (k, v) ∷ m
    else if lt_string k key
    then (k, v) ∷ rest
    else (k, v) ∷ m

-- header.find_first_of(' ') + 1 and header.find_last_of(' ') - 1; npos is the largest size_t.
abbrev pub place_behind : Option ℕ → ℕ
place_behind none = 0
place_behind (some i) = i + 1

abbrev pub place_before : Option ℕ → ℕ
place_before none = u64_mod - 2
place_before (some i) = sub64 i 1

-- The status, from the line that has "HTTP/1.".
unfoldable pub insert_status : Bytes → HeaderMap → Outcome HeaderMap
unfolding contains insert
insert_status line m =
    let status =
      substr line (place_behind (find_first (λ c. c == b' ') line))
        (place_before (find_last b' ' line)) in
    if contains (codes "HTTP/1.") line
    then (status >>= λ value. ok (insert (codes "Status") value m))
    else ok m

abbrev pub is_cr : Bytes → Bool
is_cr (c ∷ []) = c == 13
is_cr _ = false

module _ (trim : Bytes → Bytes) where
  -- A field, where the line has a ':'.
  unfoldable pub insert_field : Bytes → HeaderMap → HeaderMap
  unfolding insert
  insert_field line m = elim (find_first (λ c. c == b':') line) [
    | none ↦ m
    | some index ↦ insert (trim (take index line)) (trim (drop (index + 1) line)) m
  ]

  -- The loop, up to the line that holds nothing but '\r'.
  unfoldable pub parse_lines : List Bytes → HeaderMap → Outcome HeaderMap
  unfolding insert_status insert_field
  parse_lines [] m = ok m
  parse_lines (line ∷ rest) m =
      let more = insert_status line m >>= λ m'. parse_lines rest (insert_field line m') in
      if is_cr line then ok m else more

  -- The constructor.
  unfoldable pub parse_header : Bytes → Outcome HeaderMap
  unfolding header_lines parse_lines
  parse_header str = parse_lines (header_lines str) []

-- operator>>(size_t &) on a fresh stream of this text; the variable keeps what it had where there is
-- nothing to read.
unfoldable pub read_size : Bytes → ℕ → ℕ
read_size text size = elim (skip_space text) [
  | [] ↦ size
  | c ∷ s ↦
      let (neg, body) = take_sign (c ∷ s) in
      let (n, rest) = take_digits body 0 in
      if ltb (size_mod - 1) n then size_mod - 1 else if neg then (size_mod - n) % size_mod else n
]

-- The loop of get_content_length, with the value of file_size.
unfoldable pub content_length : HeaderMap → ℕ → ℕ
unfolding read_size contains
content_length [] file_size = file_size
content_length ((k, v) ∷ m) file_size =
    content_length m
      (if contains (codes "Content-Length") k then read_size v file_size else file_size)

unfoldable pub get_content_length : HeaderMap → ℕ
get_content_length m = content_length m 0

-- The while loop of get_content_length_number_count; each round leaves a smaller number.
unfoldable pub number_count : ℕ → ℕ → ℕ → Outcome ℕ
number_count zero count n = out_of_fuel
number_count (suc fuel) count n =
    let more = number_count fuel (count + 1) (n / 10) in if ltb 0 n then more else ok count

unfoldable pub get_content_length_number_count : HeaderMap → Outcome ℕ
unfolding number_count
get_content_length_number_count m = number_count (get_content_length m + 1) 0 (get_content_length m)

unfoldable pub same_bytes : Bytes → Bytes → Bool
same_bytes [] [] = true
same_bytes (c ∷ s) (d ∷ t) = c == d && same_bytes s t
same_bytes _ _ = false

-- get_status: `at` throws where there is none.
unfoldable pub get_status : HeaderMap → Outcome Bytes
unfolding same_bytes
get_status [] = fault
get_status ((k, v) ∷ m) = if same_bytes k (codes "Status") then ok v else get_status m

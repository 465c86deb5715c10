-- ===== src/PercentEncoding.antt =====
-- src/utils.cpp: the percent-encoding of the info hash and the peer id in a tracker's URL.
pub mod RoundTrip
use daobell.Prelude.{
  ℕ, ◌+◌, ◌-◌, ◌/◌, ◌%◌, ltb, leb, ◌==◌, ◌&&◌, ◌||◌, if◌then◌else◌, Bool, true, false, Bytes, [],
  ◌∷◌,
}
use daobell.Bencode.Numbers.{is_digit}

unfoldable pub is_alpha : ℕ → Bool
is_alpha c = (leb b'a' c && leb c b'z') || (leb b'A' c && leb c b'Z')

unfoldable pub is_rfc3986_unreserved_chars : ℕ → Bool
unfolding is_alpha is_digit
is_rfc3986_unreserved_chars c =
    is_alpha c || (is_digit c || (c == b'-' || (c == b'.' || (c == b'_' || c == b'~'))))

-- A digit of %X.
unfoldable pub hex_digit : ℕ → ℕ
hex_digit n = if ltb n 10 then b'0' + n else b'A' + n - 10

-- The bytes of the target; "%%%02X" gives two digits.
unfoldable pub percent_encode : Bytes → Bytes
unfolding is_rfc3986_unreserved_chars hex_digit
percent_encode [] = []
percent_encode (c ∷ target) =
    let rest = percent_encode target in
    if is_rfc3986_unreserved_chars c
    then c ∷ rest
    else b'%' ∷ hex_digit (c / 16) ∷ hex_digit (c % 16) ∷ rest

unfoldable pub all_unreserved : Bytes → Bool
unfolding is_rfc3986_unreserved_chars
all_unreserved [] = true
all_unreserved (c ∷ target) = is_rfc3986_unreserved_chars c && all_unreserved target

-- The overload for a std::string, which copies a target with nothing to escape.
unfoldable pub percent_encode_string : Bytes → Bytes
unfolding all_unreserved percent_encode
percent_encode_string target = if all_unreserved target then target else percent_encode target

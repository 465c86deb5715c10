-- ===== src/Bencode/Numbers.antt =====
-- Decimal text: std::to_string and strtol (base 10), as the encoder and the parser use them.
pub mod RoundTrip
use daobell.Prelude.{
  ℕ, zero, suc, ◌+◌, ◌-◌, ◌*◌, ◌/◌, ◌%◌, ◌^◌, Bytes, ltb, leb, ◌==◌, if◌then◌else◌, Bool, ◌&&◌,
  ◌||◌, [], ◌∷◌, Outcome, ok, fault, ◌>>=◌, ℤ, pos, negsuc, neg_ℕ,
}

abbrev pub zero_char : ℕ
zero_char = b'0'

abbrev pub minus : ℕ
minus = b'-'

-- LONG_MAX
abbrev pub long_max : ℕ
long_max = 2 ^ 63 - 1

abbrev pub size_mod : ℕ
size_mod = 2 ^ 64

unfoldable pub is_digit : ℕ → Bool
is_digit c = leb b'0' c && leb c b'9'

-- isspace of the C locale.
unfoldable pub is_space : ℕ → Bool
is_space c = c == 32 || (leb 9 c && leb c 13)

-- The digits of n in front of `out`; the fuel bounds their number.
unfoldable pub print_digits : ℕ → ℕ → Bytes → Bytes
print_digits zero n out = out
print_digits (suc f) n out =
    let more = print_digits f (n / 10) ((b'0' + n % 10) ∷ out) in
    if ltb n 10 then (b'0' + n) ∷ out else more

-- std::to_string of an unsigned number.
unfoldable pub to_string : ℕ → Bytes
to_string n = print_digits (suc n) n []

-- std::to_string of a long long.
unfoldable pub to_string_int : ℤ → Bytes
to_string_int (pos n) = to_string n
to_string_int (negsuc n) = minus ∷ to_string (suc n)

-- The number that digits spell behind `acc`, and what follows them.
unfoldable pub scan_digits : Bytes → ℕ → Outcome (ℕ × Bytes)
scan_digits [] acc = fault
scan_digits (c ∷ s) acc =
    if is_digit c then scan_digits s (acc * 10 + (c - b'0')) else ok (acc, c ∷ s)

-- strtol saturates at LONG_MAX and LONG_MIN.
unfoldable pub clamp_long : Bool → ℕ → ℤ
clamp_long neg n =
    if neg
    then (if ltb long_max n then negsuc long_max else neg_ℕ n)
    else (if ltb long_max n then pos long_max else pos n)

-- With no digit at its place strtol gives 0 and leaves the end pointer at the start.
unfoldable pub strtol_digits : Bytes → Bool → Bytes → Outcome (ℤ × Bytes)
strtol_digits start neg [] = fault
strtol_digits start neg (c ∷ s) =
    if is_digit c
    then (scan_digits (c ∷ s) 0 >>= λ (n, rest). ok (clamp_long neg n, rest))
    else ok (pos 0, start)

unfoldable pub strtol_sign : Bytes → Bytes → Outcome (ℤ × Bytes)
unfolding strtol_digits
strtol_sign start [] = fault
strtol_sign start (c ∷ s) =
    if c == minus
    then strtol_digits start Bool.true s
    else if c == b'+'
    then strtol_digits start Bool.false s
    else strtol_digits start Bool.false (c ∷ s)

unfoldable pub skip_space : Bytes → Bytes
skip_space [] = []
skip_space (c ∷ s) = if is_space c then skip_space s else c ∷ s

-- strtol(p, end, 10): the value, and the text at *end.
unfoldable pub strtol : Bytes → Outcome (ℤ × Bytes)
unfolding strtol_sign
strtol s = strtol_sign s (skip_space s)

-- Conversions of long to size_t, and of size_t to long long.
unfoldable pub as_size_t : ℤ → ℕ
as_size_t (pos n) = n % size_mod
as_size_t (negsuc n) = size_mod - 1 - n % size_mod

unfoldable pub as_long_long : ℕ → ℤ
as_long_long w = if leb w long_max then pos w else negsuc (size_mod - 1 - w)

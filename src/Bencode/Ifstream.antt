-- ===== src/Bencode/Ifstream.antt =====
-- std::ifstream, as src/bencode_parser.cpp uses it: the characters that are left of the file, and the
-- state bits. The standard library's operations are those of a file that can be read, in the C locale.
use daobell.Prelude.{
  ℕ, ◌+◌, ◌-◌, ◌*◌, Bytes, Bool, true, false, ◌||◌, ltb, ◌==◌, if◌then◌else◌, [], ◌∷◌, ◌++◌, length,
  take, drop, Option, none, some, ℤ, replicate,
}
use daobell.Bencode.Numbers.{is_digit, skip_space, clamp_long, long_max, size_mod, minus}

pub record Ifstream : Type 0 where
  pub rest : Bytes
  pub eof : Bool
  pub fail : Bool

-- A stream with no state bit set.
abbrev pub good : Bytes → Ifstream
good rest = record { rest = rest; eof = false; fail = false }

abbrev pub is_bad : Ifstream → Bool
is_bad s = s.eof || s.fail

abbrev failed : Ifstream → Ifstream
failed s = record s { fail = true }

-- get(): `none` is the end of the file, as it is where a state bit was set.
unfoldable pub get_char : Ifstream → Option ℕ × Ifstream
get_char s = if is_bad s then (none, failed s) else (elim s.rest [
  | [] ↦ (none, record { rest = []; eof = true; fail = true })
  | c ∷ rest ↦ (some c, good rest)
])

-- peek() takes nothing, and sets no failbit at the end.
unfoldable pub peek_char : Ifstream → Option ℕ × Ifstream
peek_char s =
    if is_bad s
    then (none, failed s)
    else (elim s.rest [ [] ↦ (none, record s { eof = true }) | c ∷ rest ↦ (some c, s) ])

-- putback(c) of the character that get() has given.
unfoldable pub put_back : ℕ → Ifstream → Ifstream
put_back c s = record s { rest = c ∷ s.rest }

-- read(p, n) into n zeros: a short file leaves the last of them, and sets both bits.
unfoldable pub read_chars : ℕ → Ifstream → Bytes × Ifstream
read_chars n s =
    if is_bad s
    then (replicate n 0, failed s)
    else if ltb (length s.rest) n
    then (s.rest ++ replicate (n - length s.rest) 0, record { rest = []; eof = true; fail = true })
    else (take n s.rest, good (drop n s.rest))

-- The number that digits spell behind `acc`, and what follows them.
unfoldable pub take_digits : Bytes → ℕ → ℕ × Bytes
take_digits [] acc = (acc, [])
take_digits (c ∷ s) acc = if is_digit c then take_digits s (acc * 10 + (c - b'0')) else (acc, c ∷ s)

abbrev is_empty : Bytes → Bool
is_empty [] = true
is_empty (c ∷ s) = false

abbrev starts_with_digit : Bytes → Bool
starts_with_digit [] = false
starts_with_digit (c ∷ s) = is_digit c

-- operator>>(size_t &) where a digit comes next: the largest number stands for one out of range.
unfoldable pub extract_size : Ifstream → ℕ × Ifstream
extract_size s =
    let (n, rest) = take_digits s.rest 0 in
    let big = ltb (size_mod - 1) n in
    (if big then size_mod - 1 else n, record { rest = rest; eof = is_empty rest; fail = big })

-- The sign, and the text behind it.
unfoldable pub take_sign : Bytes → Bool × Bytes
take_sign [] = (false, [])
take_sign (c ∷ s) =
    if c == minus then (true, s) else if c == b'+' then (false, s) else (false, c ∷ s)

-- operator>>(long long &): `none` where the stream has no character left to read a number from, and
-- the variable keeps what it had. Without a digit the number is 0, and out of range it is clamped.
unfoldable pub extract_long_long : Ifstream → Option ℤ × Ifstream
extract_long_long s = if is_bad s then (none, failed s) else (elim (skip_space s.rest) [
  | [] ↦ (none, record { rest = []; eof = true; fail = true })
  | c ∷ text ↦
      let (neg, body) = take_sign (c ∷ text) in
      let (n, rest) = take_digits body 0 in
      let most = if neg then long_max + 1 else long_max in
      let bad = if starts_with_digit body then ltb most n else true in
      (some (clamp_long neg n), record { rest = rest; eof = is_empty rest; fail = bad })
])

-- ===== src/Tracker/Tokens.antt =====
-- strtok_r and strtoul, as src/tracker_announce.cpp uses them.
use daobell.Prelude.{
  ℕ, ◌+◌, ◌-◌, ◌*◌, ◌%◌, ◌^◌, ltb, leb, ◌==◌, ◌&&◌, ◌||◌, if◌then◌else◌, Bytes, [], ◌∷◌, Option,
  none, some, Outcome, ok, fault, ◌>>=◌,
}
use daobell.Bencode.Numbers.{skip_space}

-- What strtok_r gives: the token, where the next call goes on, and what lies behind the NUL that ends
-- the token.
pub record Token : Type 0 where
  pub token : Bytes
  pub save : Bytes
  pub behind : Bytes

unfoldable pub skip_delims : ℕ → Bytes → Outcome Bytes
skip_delims d [] = fault
skip_delims d (c ∷ s) = if c == d then skip_delims d s else ok (c ∷ s)

abbrev pub cons_token : ℕ → Token → Token
cons_token c t = record t { token = c ∷ t.token }

unfoldable pub take_token : ℕ → Bytes → Outcome Token
take_token d [] = fault
take_token d (c ∷ s) =
    let more = take_token d s >>= λ t. ok (cons_token c t) in
    if c == d
    then ok (record { token = []; save = s; behind = s })
    else if c == 0
    then ok (record { token = []; save = c ∷ s; behind = s })
    else more

-- The token at the first character that is no delimiter; `none` is NULL.
unfoldable pub token_at : ℕ → Bytes → Outcome (Option Token)
unfolding take_token
token_at d [] = fault
token_at d (c ∷ s) =
    let found = take_token d (c ∷ s) >>= λ t. ok (some t) in if c == 0 then ok none else found

-- strtok_r with one delimiter.
unfoldable pub strtok_r : ℕ → Bytes → Outcome (Option Token)
unfolding skip_delims token_at
strtok_r d s = skip_delims d s >>= token_at d

-- A token that is not tested for NULL before it is read.
abbrev pub deref : Option Token → Outcome Token
deref none = fault
deref (some t) = ok t

-- The value of a digit in any base.
unfoldable pub base_digit : ℕ → ℕ
base_digit c =
    if leb b'0' c && leb c b'9'
    then c - b'0'
    else if leb b'a' c && leb c b'z'
    then c - b'a' + 10
    else if leb b'A' c && leb c b'Z'
    then c - b'A' + 10
    else 36

unfoldable pub scan_base : ℕ → Bytes → ℕ → ℕ
unfolding base_digit
scan_base base [] acc = acc
scan_base base (c ∷ s) acc =
    let more = scan_base base s (acc * base + base_digit c) in
    if ltb (base_digit c) base then more else acc

-- The base that strtoul finds when it is asked for base 0: 16 behind 0x, 8 behind 0.
unfoldable pub scan_auto : Bytes → ℕ
unfolding scan_base
scan_auto [] = 0
scan_auto (c ∷ []) = scan_base 10 (c ∷ []) 0
scan_auto (c ∷ d ∷ s) =
    if c == b'0'
    then (if d == b'x' || d == b'X' then scan_base 16 s 0 else scan_base 8 (d ∷ s) 0)
    else scan_base 10 (c ∷ d ∷ s) 0

-- Past ULONG_MAX the value is ULONG_MAX.
abbrev pub clamp_ulong : ℕ → ℕ
clamp_ulong n = if ltb n (2 ^ 64) then n else 2 ^ 64 - 1

unfoldable pub strtoul_sign : Bytes → ℕ
unfolding scan_auto
strtoul_sign [] = 0
strtoul_sign (c ∷ s) =
    if c == b'-'
    then (if ltb (scan_auto s) (2 ^ 64) then (2 ^ 64 - scan_auto s) % 2 ^ 64 else 2 ^ 64 - 1)
    else if c == b'+'
    then clamp_ulong (scan_auto s)
    else clamp_ulong (scan_auto (c ∷ s))

-- strtoul(token, NULL, 0)
unfoldable pub strtoul : Bytes → ℕ
unfolding strtoul_sign skip_space
strtoul s = strtoul_sign (skip_space s)

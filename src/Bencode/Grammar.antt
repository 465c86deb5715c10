-- ===== src/Bencode/Grammar.antt =====
-- The bencoding of a value, independently of the program: <length>:<bytes>, i<number>e, l…e, d…e.
use daobell.Prelude.{◌≤◌, Bytes, [], ◌∷◌, ◌++◌, length, ◌≡◌, ◌≢◌, false, ℤ, pos, negsuc, All}
use daobell.Bencode.Value.{
  Value, Values, Entries, null, string, int, list, dict, nil, cons, end, entry, lt_string,
}
use daobell.Bencode.Numbers.{to_string, to_string_int, long_max}

abbrev pub print_string : Bytes → Bytes
print_string s = to_string (length s) ++ b':' ∷ s

unfoldable mutual
  pub print : Value → Bytes
  print null = []
  print (string s) = print_string s
  print (int n) = b'i' ∷ (to_string_int n ++ b'e' ∷ [])
  print (list vs) = b'l' ∷ (print_values vs ++ b'e' ∷ [])
  print (dict es) = b'd' ∷ (print_entries es ++ b'e' ∷ [])

  pub print_values : Values → Bytes
  print_values nil = []
  print_values (cons v vs) = print v ++ print_values vs

  pub print_entries : Entries → Bytes
  print_entries end = []
  print_entries (entry k v es) = print_string k ++ (print v ++ print_entries es)

-- A value that fits a long long.
abbrev pub FitsLong : ℤ → Type 0
FitsLong (pos n) = n ≤ long_max
FitsLong (negsuc n) = n ≤ long_max

-- Each key of the entries comes at `k` or behind it.
abbrev pub KeysFrom : Bytes → Entries → Type 0
KeysFrom k end = Unit {0}
KeysFrom k (entry j v es) = (lt_string j k ≡ false) × KeysFrom k es

-- The keys stand in the order of the multimap.
abbrev pub IsOrdered : Entries → Type 0
IsOrdered end = Unit {0}
IsOrdered (entry k v es) = KeysFrom k es × IsOrdered es

abbrev pub HasNoNul : Bytes → Type 0
HasNoNul = All (λ c. c ≢ 0)

-- No null pointer, sizes and numbers within `long`, keys in order and with no NUL byte.
abbrev mutual
  pub IsWellFormed : Value → Type 0
  IsWellFormed null = ⊥
  IsWellFormed (string s) = length s ≤ long_max
  IsWellFormed (int n) = FitsLong n
  IsWellFormed (list vs) = AreWellFormed vs
  IsWellFormed (dict es) = IsOrdered es × EntriesWellFormed es

  pub AreWellFormed : Values → Type 0
  AreWellFormed nil = Unit {0}
  AreWellFormed (cons v vs) = IsWellFormed v × AreWellFormed vs

  pub EntriesWellFormed : Entries → Type 0
  EntriesWellFormed end = Unit {0}
  EntriesWellFormed (entry k v es) =
      (length k ≤ long_max) × HasNoNul k × IsWellFormed v × EntriesWellFormed es

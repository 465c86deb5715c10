-- ===== src/Bencode/Encoder.antt =====
-- src/bencode_encoder.cpp: the crawl over a value, which appends to encoded_str_.
use daobell.Prelude.{Bytes, [], ◌∷◌, ◌++◌, length, ◌==◌, Outcome, ok, fault, ◌>>=◌, if◌then◌else◌}
use daobell.Bencode.Value.{
  Value, Values, Entries, null, string, int, list, dict, nil, cons, end, entry,
}
use daobell.Bencode.Numbers.{to_string, to_string_int}
pub mod Laws

-- std::string::c_str as an argument of `+=`: what stands before the first NUL.
unfoldable pub c_str : Bytes → Bytes
c_str [] = []
c_str (c ∷ s) = if c == 0 then [] else c ∷ c_str s

-- The second argument is encoded_str_. A call through a null pointer is a fault.
unfoldable mutual
  pub crawl : Value → Bytes → Outcome Bytes
  crawl null out = fault
  crawl (string s) out = ok (((out ++ to_string (length s)) ++ b':' ∷ []) ++ s)
  crawl (int n) out = ok (((out ++ b'i' ∷ []) ++ to_string_int n) ++ b'e' ∷ [])
  crawl (list vs) out = do out' ← crawl_values vs (out ++ b'l' ∷ []); ok (out' ++ b'e' ∷ [])
  crawl (dict es) out = do out' ← crawl_entries es (out ++ b'd' ∷ []); ok (out' ++ b'e' ∷ [])

  pub crawl_values : Values → Bytes → Outcome Bytes
  crawl_values nil out = ok out
  crawl_values (cons v vs) out = do out' ← crawl v out; crawl_values vs out'

  pub crawl_entries : Entries → Bytes → Outcome Bytes
  crawl_entries end out = ok out
  crawl_entries (entry k v es) out = do
    out' ← crawl v (((out ++ to_string (length k)) ++ b':' ∷ []) ++ c_str k)
    crawl_entries es out'

-- bencode_encoder(v).encode(), and get_value().
unfoldable pub encode : Value → Outcome Bytes
encode v = crawl v []

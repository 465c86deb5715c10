-- ===== src/Bencode/Encoder/Laws.antt =====
-- The encoder writes the bencoding.
use daobell.Prelude.{Bytes, [], ◌∷◌, ◌++◌, length, ok, ◌≡◌, refl, append_assoc, append-nil, ==_ne}
use daobell.Bencode.Value.{
  Value, Values, Entries, null, string, int, list, dict, nil, cons, end, entry,
}
use daobell.Bencode.Numbers.{to_string}
use daobell.Bencode.Grammar.{
  print, print_values, print_entries, IsWellFormed, AreWellFormed, EntriesWellFormed, HasNoNul,
}
use daobell.Bencode.Encoder.{c_str, crawl, crawl_values, crawl_entries, encode}

-- A key without a NUL is appended whole.
pub c_str-HasNoNul : (s : Bytes) → HasNoNul s → c_str s ≡ s
unfolding c_str
c_str-HasNoNul [] h = refl
c_str-HasNoNul (c ∷ s) (h, hs) = rw (==_ne c 0 h, c_str-HasNoNul s hs)

mutual
  unfolding crawl print

  crawl-print : (v : Value) (out : Bytes) → IsWellFormed v → crawl v out ≡ ok (out ++ print v)
  crawl-print null out h = elim h [ ]
  crawl-print (string s) out h = simp append_assoc
  crawl-print (int n) out h = simp append_assoc
  crawl-print (list vs) out h = simp (crawl_values-print vs (out ++ b'l' ∷ []) h, append_assoc)
  crawl-print (dict es) out h = simp (crawl_entries-print es (out ++ b'd' ∷ []) h.1, append_assoc)

  crawl_values-print :
      (vs : Values) (out : Bytes)
      → AreWellFormed vs
      → crawl_values vs out ≡ ok (out ++ print_values vs)
  crawl_values-print nil out h = simp append-nil
  crawl_values-print (cons v vs) out h =
      simp (crawl-print v out h.0, crawl_values-print vs (out ++ print v) h.1, append_assoc)

  crawl_entries-print :
      (es : Entries) (out : Bytes)
      → EntriesWellFormed es
      → crawl_entries es out ≡ ok (out ++ print_entries es)
  crawl_entries-print end out h = simp append-nil
  crawl_entries-print (entry k v es) out h =
      rw
        (
          c_str-HasNoNul k h.1,
          crawl-print v (((out ++ to_string (length k)) ++ b':' ∷ []) ++ k) h.2,
          crawl_entries-print es ((((out ++ to_string (length k)) ++ b':' ∷ []) ++ k) ++ print v)
              h.3,
        )
        (simp append_assoc)

-- Encoding a well-formed value succeeds and gives its bencoding.
pub encode-print : (v : Value) → IsWellFormed v → encode v ≡ ok (print v)
unfolding encode
encode-print v h = crawl-print v [] h

-- ===== src/Bencode/Reader.antt =====
-- src/bencode_reader.cpp: the announce URL of the metainfo.
use daobell.Prelude.{Bytes, codes, Option, none, some, Outcome, ok, fault, ◌>>=◌, ◌≡◌, refl}
use daobell.Bencode.Value.{
  Value, Entries, entry, string, dict, get, lt_string, down_cast_string, down_cast_dict,
}

-- A cast or a search whose result is not tested.
abbrev untested {ℓ} : {A : Type ℓ} → Option A → Outcome A
untested none = fault
untested (some a) = ok a

-- bencode_reader::get_announce
unfoldable pub get_announce : Value → Outcome Bytes
get_announce v = untested (down_cast_dict v) >>= λ es.
    untested (get (codes "announce") es) >>= λ a. untested (down_cast_string a)

-- The URL of a dictionary that has it first, as the keys of the metainfo are ordered.
get_announce-first :
    (url : Bytes) (es : Entries)
    → get_announce (dict (entry (codes "announce") (string url) es)) ≡ ok url
unfolding get_announce get lt_string down_cast_dict down_cast_string
get_announce-first url es = refl

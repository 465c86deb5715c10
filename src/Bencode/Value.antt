-- ===== src/Bencode/Value.antt =====
-- src/bencode_string, bencode_int, bencode_list and bencode_dict: the values, and their containers.
-- A value is a shared_ptr<bencode_value_base>; the dictionary is a std::multimap, kept as the list
-- of its entries in the order of iteration.
pub mod Appends
use daobell.Prelude.{
  Bytes, ltb, ◌==◌, if◌then◌else◌, Bool, true, false, [], ◌∷◌, ℤ, Option, none, some,
}

mutual
  -- `null` is the empty shared_ptr.
  pub data Value : Type 0 where
    null : Value
    string : Bytes → Value
    int : ℤ → Value
    list : Values → Value
    dict : Entries → Value

  pub data Values : Type 0 where
    nil : Values
    cons : Value → Values → Values

  pub data Entries : Type 0 where
    end : Entries
    entry : Bytes → Value → Entries → Entries

-- operator< of std::string: by unsigned bytes, a prefix first.
unfoldable pub lt_string : Bytes → Bytes → Bool
lt_string [] [] = false
lt_string [] (y ∷ ys) = true
lt_string (x ∷ xs) [] = false
lt_string (x ∷ xs) (y ∷ ys) = if ltb x y then true else if x == y then lt_string xs ys else false

-- bencode_list::insert_to_list: push_back.
unfoldable pub insert_to_list : Value → Values → Values
insert_to_list v nil = cons v nil
insert_to_list v (cons w vs) = cons w (insert_to_list v vs)

-- bencode_dict::insert_to_dict: a multimap inserts behind the entries of an equal key.
unfoldable pub insert_to_dict : Bytes → Value → Entries → Entries
insert_to_dict k v end = entry k v end
insert_to_dict k v (entry j w es) =
    if lt_string k j then entry k v (entry j w es) else entry j w (insert_to_dict k v es)

-- bencode_dict::get: the entry that multimap::find gives, or NULL.
unfoldable pub get : Bytes → Entries → Option Value
get k end = none
get k (entry j w es) = if lt_string k j then none else if lt_string j k then get k es else some w

-- The cast of bencode_value_safe_cast.h: `down_cast<bencode_string>` gives NULL for another class.
unfoldable pub down_cast_string : Value → Option Bytes
down_cast_string (string s) = some s
down_cast_string _ = none

unfoldable pub down_cast_int : Value → Option ℤ
down_cast_int (int n) = some n
down_cast_int _ = none

unfoldable pub down_cast_list : Value → Option Values
down_cast_list (list vs) = some vs
down_cast_list _ = none

unfoldable pub down_cast_dict : Value → Option Entries
down_cast_dict (dict es) = some es
down_cast_dict _ = none

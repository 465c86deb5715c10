-- ===== src/Bencode/Value/Appends.antt =====
-- Lists and dictionaries put end to end, as the loops of the parser build them.
use daobell.Prelude.{Bytes, false, ◌≡◌, refl, arith}
use daobell.Bencode.Value.{
  Value, Values, Entries, nil, cons, end, entry, insert_to_list, insert_to_dict, lt_string,
}
use daobell.Bencode.Grammar.{KeysFrom}

unfoldable pub append_values : Values → Values → Values
append_values nil ws = ws
append_values (cons v vs) ws = cons v (append_values vs ws)

pub append_values-nil : (vs : Values) → append_values vs nil ≡ vs
unfolding append_values
append_values-nil nil = refl
append_values-nil (cons v vs) = rw (append_values-nil vs)

pub append_values-insert_to_list :
    (v : Value) (vs ws : Values)
    → append_values (insert_to_list v vs) ws ≡ append_values vs (cons v ws)
unfolding append_values insert_to_list
append_values-insert_to_list v nil ws = refl
append_values-insert_to_list v (cons u vs) ws = rw (append_values-insert_to_list v vs ws)

unfoldable pub append_entries : Entries → Entries → Entries
append_entries end fs = fs
append_entries (entry k v es) fs = entry k v (append_entries es fs)

pub append_entries-end : (es : Entries) → append_entries es end ≡ es
unfolding append_entries
append_entries-end end = refl
append_entries-end (entry k v es) = rw (append_entries-end es)

-- No key of the entries comes behind `k`.
abbrev pub KeysUpTo : Bytes → Entries → Type 0
KeysUpTo k end = Unit {0}
KeysUpTo k (entry j v es) = (lt_string k j ≡ false) × KeysUpTo k es

-- The entries of the second stand behind all of the first.
abbrev pub Follows : Entries → Entries → Type 0
Follows acc end = Unit {0}
Follows acc (entry k v es) = KeysUpTo k acc × Follows acc es

pub append_entries-insert_to_dict :
    (k : Bytes) (v : Value) (acc es : Entries)
    → KeysUpTo k acc
    → append_entries (insert_to_dict k v acc) es ≡ append_entries acc (entry k v es)
unfolding append_entries insert_to_dict
append_entries-insert_to_dict k v end es h = refl
append_entries-insert_to_dict k v (entry j w acc) es (h, hs) =
    rw (h, append_entries, append_entries-insert_to_dict k v acc es hs)

pub KeysUpTo-insert_to_dict :
    (j k : Bytes) (v : Value) (acc : Entries)
    → KeysUpTo j acc
    → lt_string j k ≡ false
    → KeysUpTo j (insert_to_dict k v acc)
unfolding insert_to_dict
KeysUpTo-insert_to_dict j k v end h e = (e, tt)
KeysUpTo-insert_to_dict j k v (entry i w acc) (h, hs) e =
    ground (arith, KeysUpTo-insert_to_dict j k v acc hs e)

pub Follows-insert_to_dict :
    (k : Bytes) (v : Value) (acc es : Entries)
    → Follows acc es
    → KeysFrom k es
    → Follows (insert_to_dict k v acc) es
Follows-insert_to_dict k v acc end f h = tt
Follows-insert_to_dict k v acc (entry j w es) f h =
    (KeysUpTo-insert_to_dict j k v acc f.0 h.0, Follows-insert_to_dict k v acc es f.1 h.1)

pub Follows-end : (es : Entries) → Follows end es
Follows-end end = tt
Follows-end (entry k v es) = (tt, Follows-end es)

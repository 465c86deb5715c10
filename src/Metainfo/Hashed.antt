-- ===== src/Metainfo/Hashed.antt =====
-- torrent_init and the digest of the dictionary "info".
use daobell.Prelude.{
  ℕ, Bytes, codes, Option, ok, fault, length, Bool-cases, inl, inr, ◌⊎◌, ◌≡◌, refl,
}
use daobell.Bencode.Value.{Value, Entries, entry, end, dict, down_cast_dict}
use daobell.Bencode.Grammar.{print, IsWellFormed, EntriesWellFormed}
use daobell.Bencode.Encoder.Laws.{encode-print}
use daobell.Sha1.Digest.{sha1_compute-fault}
use daobell.Torrent.{Torrent}
use daobell.Metainfo.{Unset, same_string, init_info, init_key, init_keys, new_torrent, torrent_init}

-- The entries of the metainfo, with an entry "info" between others.
unfoldable pub with_info : Entries → Value → Entries → Entries
with_info end info after = entry (codes "info") info after
with_info (entry k v es) info after = entry k v (with_info es info after)

module _ (map_file : Bytes → ℕ → Option Bytes) (garbage : Bytes) (g : length garbage ≡ 64) where
  init_info-fault :
      (info : Value) (destdir : Bytes) (t : Torrent)
      → IsWellFormed info
      → init_info map_file garbage info destdir t ≡ fault
  unfolding init_info
  init_info-fault info destdir t w =
      rw (encode-print info w, sha1_compute-fault garbage (print info) g) refl

  init_key-ends :
      (k : Bytes) (v : Value) (destdir : Bytes) (t : Torrent)
      → IsWellFormed v
      → (init_key map_file garbage k v destdir t ≡ fault)
        ⊎ ((t' : Torrent) × (init_key map_file garbage k v destdir t ≡ ok t'))
  unfolding init_key
  init_key-ends k v destdir t w = elim (Bool-cases (same_string k (codes "announce"))) [
    | inl a ↦ rw a (inr (_, refl))
    | inr a ↦ elim (Bool-cases (same_string k (codes "creation date"))) [
      | inl c ↦ rw (a, c) (inr (_, refl))
      | inr c ↦ elim (Bool-cases (same_string k (codes "info"))) [
        | inl i ↦ inl (rw (a, c, i) (init_info-fault v destdir t w))
        | inr i ↦ inr (t, rw (a, c, i) refl)
      ]
    ]
  ]

  info_key-fault :
      (info : Value) (destdir : Bytes) (t : Torrent)
      → IsWellFormed info
      → init_key map_file garbage (codes "info") info destdir t ≡ fault
  unfolding init_key same_string
  info_key-fault info destdir t w = init_info-fault info destdir t w

  init_keys-fault :
      (before : Entries) (info : Value) (after : Entries) (destdir : Bytes) (t : Torrent)
      → EntriesWellFormed (with_info before info after)
      → init_keys map_file garbage (with_info before info after) destdir t ≡ fault
  unfolding init_keys with_info
  init_keys-fault end info after destdir t (_, _, w, _) = rw (info_key-fault info destdir t w) refl
  init_keys-fault (entry k v es) info after destdir t (_, _, w, ws) =
      elim (init_key-ends k v destdir t w) [
        | inl stops ↦ rw stops refl
        | inr (t', goes) ↦ rw goes (init_keys-fault es info after destdir t' ws)
      ]

-- On well-formed metainfo with an entry "info", whatever the others are, torrent_init comes to
-- undefined behaviour: sha1_compute writes a NUL behind the 20 bytes of sha1_result. Where malloc gives
-- the SHA-1 context a buffer of 64 bytes.
pub torrent_init-fault :
    (map_file : Bytes → ℕ → Option Bytes) (garbage : Bytes) (unset : Unset) (before : Entries)
    (info : Value) (after : Entries) (destdir : Bytes)
    → length garbage ≡ 64
    → IsWellFormed (dict (with_info before info after))
    → torrent_init map_file garbage unset (dict (with_info before info after)) destdir ≡ fault
unfolding torrent_init down_cast_dict
torrent_init-fault map_file garbage unset before info after destdir g w =
    rw (init_keys-fault map_file garbage g before info after destdir (new_torrent unset) w.1) refl

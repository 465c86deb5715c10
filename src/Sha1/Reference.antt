-- ===== src/Sha1/Reference.antt =====
-- The digest of a whole message: pad it to a multiple of 64 bytes, as FIPS 180 says, then absorb each
-- block. How a block is compressed is the program's own (`transform`).
use daobell.Prelude.{
  ℕ, zero, suc, ◌-◌, ◌*◌, ◌/◌, ◌%◌, ◌^◌, Bytes, [], ◌∷◌, ◌++◌, length, take, drop, replicate,
}
use daobell.Sha1.{initial, word_bytes, digest_bytes}
use daobell.Sha1.Transform.{State, transform}

-- The state after the first n blocks of a message.
unfoldable pub absorb : ℕ → State → Bytes → State
absorb zero s m = s
absorb (suc n) s m = absorb n (transform s (take 64 m)) (drop 64 m)

-- How many zeros bring the message, the byte 0x80 and eight bytes more to whole blocks.
abbrev pub zeros : ℕ → ℕ
zeros len = (119 - len % 64) % 64

-- The length of the message in bits, as eight bytes.
abbrev pub length_bytes : ℕ → Bytes
length_bytes len = word_bytes (8 * len / 2 ^ 32 % 2 ^ 32) ++ word_bytes ((8 * len) % 2 ^ 32)

unfoldable pub padded : Bytes → Bytes
padded m = (m ++ 0x80 ∷ []) ++ replicate (zeros (length m)) 0 ++ length_bytes (length m)

unfoldable pub reference_sha1 : Bytes → Bytes
reference_sha1 m = digest_bytes (absorb (length (padded m) / 64) initial (padded m))

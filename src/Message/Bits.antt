-- ===== src/Message/Bits.antt =====
-- src/bitfield_macro.h: bits in a buffer of bytes, the most significant bit of a byte first. A
-- write or read outside the buffer is not looked at here: the callers stay inside.
pub mod Lengths
pub mod RoundTrip
use daobell.Prelude.{
  ℕ, zero, suc, ◌+◌, ◌-◌, ◌*◌, ◌/◌, ◌%◌, ◌^◌, Bool, true, false, ◌==◌, if◌then◌else◌, Bytes, [],
  ◌∷◌, List, length, get_or, set, replicate,
}
use daobell.Message.{bitfield_num_bytes}

-- 1 << (CHAR_BIT - index % CHAR_BIT - 1)
abbrev pub bit_value : ℕ → ℕ
bit_value index = 2 ^ (8 - index % 8 - 1)

-- BITFIELD_ISSET
unfoldable pub bitfield_isset : ℕ → Bytes → Bool
bitfield_isset index buff = get_or buff (index / 8) 0 / bit_value index % 2 == 1

-- BITFIELD_SET and BITFIELD_CLR: the bit is added where it is off, and taken off where it is on.
unfoldable pub bitfield_set : ℕ → Bytes → Bytes
unfolding bitfield_isset
bitfield_set index buff =
    if bitfield_isset index buff
    then buff
    else set buff (index / 8) (get_or buff (index / 8) 0 + bit_value index)

unfoldable pub bitfield_clr : ℕ → Bytes → Bytes
unfolding bitfield_isset
bitfield_clr index buff =
    if bitfield_isset index buff
    then set buff (index / 8) (get_or buff (index / 8) 0 - bit_value index)
    else buff

-- The loop of peer_msg_send over the bits from number i on.
unfoldable pub write_bits : List Bool → ℕ → Bytes → Bytes
unfolding bitfield_set bitfield_clr
write_bits [] i buff = buff
write_bits (b ∷ bits) i buff =
    write_bits bits (i + 1) (if b then bitfield_set i buff else bitfield_clr i buff)

-- The payload of MSG_BITFIELD.
unfoldable pub bitfield_payload : List Bool → Bytes
unfolding write_bits
bitfield_payload bits = write_bits bits 0 (replicate (bitfield_num_bytes (length bits)) 0)

-- The loop of peer_msg_recv_pastlen, over n bits from number i on.
unfoldable pub read_bits : ℕ → ℕ → Bytes → List Bool
unfolding bitfield_isset
read_bits zero i buff = []
read_bits (suc n) i buff = bitfield_isset i buff ∷ read_bits n (i + 1) buff

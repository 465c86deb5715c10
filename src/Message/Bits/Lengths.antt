-- ===== src/Message/Bits/Lengths.antt =====
-- How long a bitfield's payload is.
use daobell.Prelude.{
  ℕ, ◌+◌, ◌/◌, ◌^◌, ◌<◌, Bool, true, false, Bool-cases, inl, inr, Bytes, List, [], ◌∷◌, length,
  length-set, length-replicate, arith, ◌≡◌, refl, ◌∙◌,
}
use daobell.Message.{bitfield_num_bytes}
use daobell.Message.Bits.{bitfield_isset, bitfield_set, bitfield_clr, write_bits, bitfield_payload}

pub num_bytes-bounds :
    (n : ℕ) → 0 < n → n < 2 ^ 32 → (0 < bitfield_num_bytes n) × (1 + bitfield_num_bytes n < 2 ^ 32)
unfolding bitfield_num_bytes
num_bytes-bounds n h h' = ground arith

pub length-bitfield_set : (i : ℕ) (buff : Bytes) → length (bitfield_set i buff) ≡ length buff
unfolding bitfield_set
length-bitfield_set i buff = elim (Bool-cases (bitfield_isset i buff)) [
  | inl on ↦ rw (bitfield_set, on) refl
  | inr off ↦ rw (bitfield_set, off) (length-set buff (i / 8) _)
]

length-bitfield_clr : (i : ℕ) (buff : Bytes) → length (bitfield_clr i buff) ≡ length buff
unfolding bitfield_clr
length-bitfield_clr i buff = elim (Bool-cases (bitfield_isset i buff)) [
  | inl on ↦ rw (bitfield_clr, on) (length-set buff (i / 8) _)
  | inr off ↦ rw (bitfield_clr, off) refl
]

pub length-write_bits :
    (bits : List Bool) (i : ℕ) (buff : Bytes) → length (write_bits bits i buff) ≡ length buff
unfolding write_bits
length-write_bits [] i buff = refl
length-write_bits (true ∷ bits) i buff =
    length-write_bits bits (i + 1) (bitfield_set i buff) ∙ length-bitfield_set i buff
length-write_bits (false ∷ bits) i buff =
    length-write_bits bits (i + 1) (bitfield_clr i buff) ∙ length-bitfield_clr i buff

pub length-bitfield_payload :
    (bits : List Bool) → length (bitfield_payload bits) ≡ bitfield_num_bytes (length bits)
unfolding bitfield_payload
length-bitfield_payload bits =
    length-write_bits bits 0 _ ∙ length-replicate (bitfield_num_bytes (length bits)) 0

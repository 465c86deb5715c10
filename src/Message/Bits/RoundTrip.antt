-- ===== src/Message/Bits/RoundTrip.antt =====
-- A bit that was written is the bit that is read.
use daobell.Prelude.{
  ℕ, zero, suc, ◌+◌, ◌-◌, ◌*◌, ◌/◌, ◌%◌, ◌^◌, ◌<◌, ◌≤◌, ◌≡◌, ◌≢◌, ◌⊎◌, inl, inr, refl, ap, ◌∙◌, sym,
  arith, Bool, true, false, Bytes, List, [], ◌∷◌, length, set, get_or, get_or-set_self,
  get_or-set_ne, replicate, Bool-cases, ==_iff, ◌==◌, length-replicate,
}
use daobell.Torrent.{resize}
use daobell.Torrent.Bitfield.{resize-nil}
use daobell.Message.{bitfield_num_bytes}
use daobell.Message.Bits.{
  bit_value, bitfield_isset, bitfield_set, bitfield_clr, write_bits, bitfield_payload, read_bits,
}
use daobell.Message.Bits.Lengths.{length-bitfield_set}

below_8 :
    (k : ℕ)
    → k < 8
    → (k ≡ 0) ⊎ ((k ≡ 1) ⊎ ((k ≡ 2) ⊎ ((k ≡ 3) ⊎ ((k ≡ 4) ⊎ ((k ≡ 5) ⊎ ((k ≡ 6) ⊎ (k ≡ 7)))))))
below_8 k h = ground arith

-- A bit that is added to a byte is on, and changes no other bit.
bit_on : (b k : ℕ) → k < 8 → b / 2 ^ k % 2 ≢ 1 → (b + 2 ^ k) / 2 ^ k % 2 ≡ 1
bit_on b k l h = let c = below_8 k l in ground arith

bit_apart :
    (b k m : ℕ)
    → k < 8
    → m < 8
    → b / 2 ^ m % 2 ≢ 1
    → k ≢ m
    → (b + 2 ^ m) / 2 ^ k % 2 ≡ b / 2 ^ k % 2
bit_apart b k m l l' h n = let c = below_8 k l in let c' = below_8 m l' in ground arith

bit_place : (i j : ℕ) → i ≢ j → i / 8 ≡ j / 8 → 8 - j % 8 - 1 ≢ 8 - i % 8 - 1
bit_place i j n e = omega arith

isset-set_off :
    (i j : ℕ) (buff : Bytes)
    → i / 8 < length buff
    → bitfield_isset i buff ≡ false
    → i ≢ j
    → bitfield_isset j (set buff (i / 8) (get_or buff (i / 8) 0 + bit_value i))
      ≡ bitfield_isset j buff
unfolding bitfield_isset
isset-set_off i j buff h off n = elim (Bool-cases (i / 8 == j / 8)) [
  | inl e ↦
      let e' = (==_iff (i / 8) (j / 8)).0 e in
      let byte = get_or-set_self buff (i / 8) (get_or buff (i / 8) 0 + bit_value i) 0 h in
      let off' : get_or buff (i / 8) 0 / bit_value i % 2 ≢ 1 =
        λ x. absurd (let on = (==_iff (get_or buff (i / 8) 0 / bit_value i % 2) 1).1 x in cc) in
      rw (← e', byte)
        (ap (λ x. x == 1)
          (bit_apart (get_or buff (i / 8) 0) (8 - j % 8 - 1) (8 - i % 8 - 1) (omega arith)
            (omega arith) off' (bit_place i j n e')))
  | inr e ↦
      let ne : i / 8 ≢ j / 8 = λ x. absurd (let t = (==_iff (i / 8) (j / 8)).1 x in cc) in
      rw (get_or-set_ne buff (get_or buff (i / 8) 0 + bit_value i) 0 ne) refl
]

isset-bitfield_set_ne :
    (i j : ℕ) (buff : Bytes)
    → i / 8 < length buff
    → i ≢ j
    → bitfield_isset j (bitfield_set i buff) ≡ bitfield_isset j buff
unfolding bitfield_set
isset-bitfield_set_ne i j buff h n = elim (Bool-cases (bitfield_isset i buff)) [
  | inl on ↦ rw (bitfield_set, on) refl
  | inr off ↦ rw (bitfield_set, off) (isset-set_off i j buff h off n)
]

isset-bitfield_set :
    (i : ℕ) (buff : Bytes) → i / 8 < length buff → bitfield_isset i (bitfield_set i buff) ≡ true
unfolding bitfield_set
isset-bitfield_set i buff h = elim (Bool-cases (bitfield_isset i buff)) [
  | inl on ↦ rw (bitfield_set, on) on
  | inr off ↦
      rw (bitfield_set, off)
        (unfold bitfield_isset in
          let byte = get_or-set_self buff (i / 8) (get_or buff (i / 8) 0 + bit_value i) 0 h in
          let off' : get_or buff (i / 8) 0 / bit_value i % 2 ≢ 1 =
            λ x. absurd (let on = (==_iff (get_or buff (i / 8) 0 / bit_value i % 2) 1).1 x in cc) in
          rw byte
            ((==_iff _ 1).1 (bit_on (get_or buff (i / 8) 0) (8 - i % 8 - 1) (omega arith) off')))
]

bitfield_clr-off :
    (i : ℕ) (buff : Bytes) → bitfield_isset i buff ≡ false → bitfield_clr i buff ≡ buff
unfolding bitfield_clr
bitfield_clr-off i buff off = rw (bitfield_clr, off) refl

write_bits-before :
    (bits : List Bool) (i j : ℕ) (buff : Bytes)
    → i + length bits ≤ 8 * length buff
    → ((n : ℕ) → i ≤ n → bitfield_isset n buff ≡ false)
    → j < i
    → bitfield_isset j (write_bits bits i buff) ≡ bitfield_isset j buff
unfolding write_bits
write_bits-before [] i j buff fit off h = refl
write_bits-before (true ∷ bits) i j buff fit off h =
    let inside : i / 8 < length buff = omega arith in
    let same = length-bitfield_set i buff in
    write_bits-before bits (i + 1) j (bitfield_set i buff) (omega (arith, same))
      (λ n l. isset-bitfield_set_ne i n buff inside (omega arith) ∙ off n (omega arith))
      (omega arith)
    ∙ isset-bitfield_set_ne i j buff inside (omega arith)
write_bits-before (false ∷ bits) i j buff fit off h =
    rw (bitfield_clr-off i buff (off i (omega arith))) (
      write_bits-before bits (i + 1) j buff (omega arith) (λ n l. off n (omega arith))
        (omega arith))

write_bits-at :
    (bits : List Bool) (i k j : ℕ) (buff : Bytes)
    → i + length bits ≤ 8 * length buff
    → ((n : ℕ) → i ≤ n → bitfield_isset n buff ≡ false)
    → j ≡ i + k
    → bitfield_isset j (write_bits bits i buff) ≡ get_or bits k false
unfolding write_bits
write_bits-at [] i k j buff fit off e = off j (omega arith)
write_bits-at (true ∷ bits) i zero j buff fit off e =
    let inside : i / 8 < length buff = omega arith in
    let same = length-bitfield_set i buff in
    let here : j ≡ i = omega arith in
    rw here (
      write_bits-before bits (i + 1) i (bitfield_set i buff) (omega (arith, same))
        (λ n l. isset-bitfield_set_ne i n buff inside (omega arith) ∙ off n (omega arith))
        (omega arith)
      ∙ isset-bitfield_set i buff inside)
write_bits-at (true ∷ bits) i (suc k) j buff fit off e =
    let inside : i / 8 < length buff = omega arith in
    let same = length-bitfield_set i buff in
    write_bits-at bits (i + 1) k j (bitfield_set i buff) (omega (arith, same))
      (λ n l. isset-bitfield_set_ne i n buff inside (omega arith) ∙ off n (omega arith))
      (omega arith)
write_bits-at (false ∷ bits) i zero j buff fit off e =
    let here : j ≡ i = omega arith in
    rw (here, bitfield_clr-off i buff (off i (omega arith)))
      (write_bits-before bits (i + 1) i buff (omega arith) (λ n l. off n (omega arith))
          (omega arith)
        ∙ off i (omega arith))
write_bits-at (false ∷ bits) i (suc k) j buff fit off e =
    rw (bitfield_clr-off i buff (off i (omega arith)))
      (write_bits-at bits (i + 1) k j buff (omega arith) (λ n l. off n (omega arith)) (omega arith))

get_or-replicate : (n i : ℕ) → get_or (replicate n 0) i 0 ≡ zero
get_or-replicate zero i = refl
get_or-replicate (suc n) zero = refl
get_or-replicate (suc n) (suc i) = get_or-replicate n i

isset-replicate : (n i : ℕ) → bitfield_isset i (replicate n 0) ≡ false
unfolding bitfield_isset
isset-replicate n i =
    let c = below_8 (8 - i % 8 - 1) (omega arith) in
    let z : 0 / bit_value i % 2 ≡ 0 = ground arith in rw (get_or-replicate n (i / 8), z) refl

resize-zero : (bits : List Bool) → resize 0 bits ≡ []
unfolding resize
resize-zero bits = let e : 0 - length bits ≡ 0 = omega arith in rw e refl

resize-cons : (n : ℕ) (b : Bool) (bits : List Bool) → resize (suc n) (b ∷ bits) ≡ b ∷ resize n bits
unfolding resize
resize-cons n b bits =
    let e : suc n - suc (length bits) ≡ n - length bits = omega arith in rw e refl

cons_both : {x y : Bool} {xs ys : List Bool} → x ≡ y → xs ≡ ys → x ∷ xs ≡ y ∷ ys
cons_both e e' = cc

-- The bits that are read are those of the list, with zeros behind it.
read_bits-resize :
    (n i : ℕ) (bits : List Bool) (buff : Bytes)
    → ((k j : ℕ) → j ≡ i + k → bitfield_isset j buff ≡ get_or bits k false)
    → read_bits n i buff ≡ resize n bits
unfolding read_bits bitfield_isset
read_bits-resize zero i bits buff h = sym (resize-zero bits)
read_bits-resize (suc n) i [] buff h =
    cons_both (h 0 i (omega arith))
      (read_bits-resize n (i + 1) [] buff (λ k j e. h (suc k) j (omega arith)) ∙ resize-nil n)
    ∙ sym (resize-nil (suc n))
read_bits-resize (suc n) i (b ∷ bits) buff h =
    cons_both (h 0 i (omega arith))
      (read_bits-resize n (i + 1) bits buff (λ k j e. h (suc k) j (omega arith)))
    ∙ sym (resize-cons n b bits)

num_bytes-enough : (n : ℕ) → n ≤ 8 * bitfield_num_bytes n
unfolding bitfield_num_bytes
num_bytes-enough n = ground arith

-- The payload of a bitfield, read to its last bit, is the bits that were sent, with zeros up to
-- whole bytes.
pub read_bits-bitfield_payload :
    (bits : List Bool)
    → read_bits (bitfield_num_bytes (length bits) * 8) 0 (bitfield_payload bits)
      ≡ resize (bitfield_num_bytes (length bits) * 8) bits
unfolding bitfield_payload
read_bits-bitfield_payload bits =
    let bytes = bitfield_num_bytes (length bits) in
    read_bits-resize (bytes * 8) 0 bits (bitfield_payload bits) (λ k j e.
      write_bits-at bits 0 k j (replicate bytes 0)
        (omega (arith, num_bytes-enough (length bits), length-replicate {A = ℕ} bytes 0))
        (λ n l. isset-replicate bytes n) e)

-- ===== src/Sha1.antt =====
-- src/sha1.cpp: the SHA-1 of a stream of bytes. Words are 32 bits wide; the machine is
-- little-endian, and `SHA1HANDSOFF` is defined.
pub mod Transform
pub mod Reference
pub mod Absorb
pub mod Streaming
pub mod Digest
use daobell.Prelude.{
  ℕ, zero, suc, ◌+◌, ◌-◌, ◌*◌, ◌/◌, ◌%◌, ◌^◌, ltb, ◌==◌, if◌then◌else◌, Bytes, [], ◌∷◌, ◌++◌,
  length, take, drop, Outcome, ok, out_of_fuel, fault, ◌>>=◌,
}
use Transform.{State, transform}

-- struct sha1_context: the two words of `count` hold the number of bits, the low word first.
pub record Context : Type 0 where
  pub state : State
  pub count0 : ℕ
  pub count1 : ℕ
  pub buffer : Bytes

abbrev pub initial : State
initial = record { a = 0x67452301; b = 0xEFCDAB89; c = 0x98BADCFE; d = 0x10325476; e = 0xC3D2E1F0 }

-- malloc leaves the buffer as it is: its contents are an argument.
unfoldable pub sha1_context_init : Bytes → Context
sha1_context_init garbage = record { state = initial; count0 = 0; count1 = 0; buffer = garbage }

-- memcpy(&dest[j], src, n), for the n bytes of src.
unfoldable pub memcpy : Bytes → ℕ → Bytes → Bytes
memcpy dest j src = take j dest ++ (src ++ drop (j + length src) dest)

-- for (; i + 63 < len; i += 64) over what follows data[i]: the state, and the bytes left over.
unfoldable pub update_blocks : ℕ → State → Bytes → State × Bytes
update_blocks zero s rest = (s, rest)
update_blocks (suc fuel) s rest =
    let more = update_blocks fuel (transform s (take 64 rest)) (drop 64 rest) in
    if ltb 63 (length rest) then more else (s, rest)

-- The bit count with `len` bytes more: `<< 3` and `>> 29` split len * 8 into two words.
unfoldable pub count_bits : Context → ℕ → ℕ × ℕ
count_bits ctx len =
    let low = (ctx.count0 + (len * 8) % 2 ^ 32) % 2 ^ 32 in
    let carry : ℕ = if ltb low ctx.count0 then 1 else 0 in
    (low, ((ctx.count1 + carry) % 2 ^ 32 + len / 2 ^ 29) % 2 ^ 32)

-- `(j >> 3) & 63` is the number of bytes that wait in the buffer. The rounds of the loop are fewer
-- than the bytes.
unfoldable pub sha1_update : Context → Bytes → Context
unfolding memcpy count_bits
sha1_update ctx bytes =
    let len = length bytes in
    let j = ctx.count0 / 8 % 64 in
    if ltb 63 ((j + len) % 2 ^ 32)
    then (let buffer = memcpy ctx.buffer j (take (64 - j) bytes) in
        let looped = update_blocks len (transform ctx.state buffer) (drop (64 - j) bytes) in
        record {
          state = looped.0;
          count0 = (count_bits ctx len).0;
          count1 = (count_bits ctx len).1;
          buffer = memcpy buffer 0 looped.1;
        })
    else record {
      state = ctx.state;
      count0 = (count_bits ctx len).0;
      count1 = (count_bits ctx len).1;
      buffer = memcpy ctx.buffer j bytes;
    }

-- finalcount: the eight bytes of the count, the high word first.
abbrev pub word_bytes : ℕ → Bytes
word_bytes w = w / 2 ^ 24 % 256 ∷ w / 2 ^ 16 % 256 ∷ w / 2 ^ 8 % 256 ∷ w % 256 ∷ []

unfoldable pub final_count : Context → Bytes
final_count ctx = word_bytes ctx.count1 ++ word_bytes ctx.count0

-- while ((count[0] & 504) != 448): the mask keeps the bits 3 to 8.
unfoldable pub pad_zeros : ℕ → Context → Outcome Context
pad_zeros zero ctx = out_of_fuel
pad_zeros (suc fuel) ctx =
    let more = pad_zeros fuel (sha1_update ctx (0 ∷ [])) in
    if ctx.count0 / 8 % 64 * 8 == 448 then ok ctx else more

unfoldable pub digest_bytes : State → Bytes
digest_bytes s =
    word_bytes s.a ++ (word_bytes s.b ++ (word_bytes s.c ++ (word_bytes s.d ++ word_bytes s.e)))

-- The digest; the count is taken before the padding, which has fewer than 64 zeros.
unfoldable pub sha1_finish : Context → Outcome Bytes
sha1_finish ctx =
    let count = final_count ctx in
    pad_zeros 65 (sha1_update ctx (0x80 ∷ [])) >>= λ padded.
    ok (digest_bytes (sha1_update padded count).state)

-- The loop of sha1_compute passes one byte at a time.
unfoldable pub update_each : Context → Bytes → Context
update_each ctx [] = ctx
update_each ctx (c ∷ s) = update_each (sha1_update ctx (c ∷ [])) s

-- A size as the argument `int len`; the loop makes no round for a negative one.
abbrev pub int_size : ℕ → ℕ
int_size n = if ltb (n % 2 ^ 32) (2 ^ 31) then n % 2 ^ 32 else 0

-- With the size of the string, and an output array of `room` bytes; hash_out[20] is written too.
unfoldable pub sha1_compute : (room : ℕ) → (garbage s : Bytes) → Outcome Bytes
sha1_compute room garbage s =
    sha1_finish (update_each (sha1_context_init garbage) (take (int_size (length s)) s))
    >>= λ digest. if ltb 20 room then ok digest else fault

-- ===== src/Sha1/Transform.antt =====
-- sha1_transform: 80 rounds over one block of 64 bytes, with the macros rol, blk0, blk and R0 to R4.
use Prim.Native.Nat.{bit_and, bit_or, bit_xor}
use daobell.Prelude.{
  ℕ, zero, suc, ◌+◌, ◌-◌, ◌*◌, ◌/◌, ◌%◌, ◌^◌, ltb, if◌then◌else◌, Bytes, List, [], ◌∷◌, get_or, set,
}

-- uint32_t state[5]; also the working variables a to e.
pub record State : Type 0 where
  pub a : ℕ
  pub b : ℕ
  pub c : ℕ
  pub d : ℕ
  pub e : ℕ

abbrev pub rol : ℕ → ℕ → ℕ
rol value bits = bit_or ((value * 2 ^ bits) % 2 ^ 32) (value / 2 ^ (32 - bits))

-- block->l[i] of a little-endian machine: the words of the buffer.
unfoldable pub load_words : Bytes → List ℕ
load_words (p ∷ q ∷ r ∷ s ∷ rest) = (p + q * 2 ^ 8 + r * 2 ^ 16 + s * 2 ^ 24) ∷ load_words rest
load_words _ = []

-- blk0(i): the word in big-endian order.
unfoldable pub blk0 : List ℕ → ℕ → ℕ
blk0 l i =
    let w = get_or l i 0 in bit_or (bit_and (rol w 24) 0xFF00FF00) (bit_and (rol w 8) 0x00FF00FF)

unfoldable pub blk : List ℕ → ℕ → ℕ
blk l i =
    rol
      (bit_xor
        (bit_xor (bit_xor (get_or l ((i + 13) % 16) 0) (get_or l ((i + 8) % 16) 0))
          (get_or l ((i + 2) % 16) 0))
        (get_or l (i % 16) 0))
      1

-- The word of a round, which blk0 and blk also store.
unfoldable pub expand : List ℕ → ℕ → ℕ
unfolding blk0 blk
expand l i = if ltb i 16 then blk0 l i else blk l i

-- The function of w, x, y in the macros R0 and R1, R2, R3, R4.
unfoldable pub mix : ℕ → ℕ → ℕ → ℕ → ℕ
mix i w x y =
    if ltb i 20
    then bit_xor (bit_and w (bit_xor x y)) y
    else if ltb i 40
    then bit_xor (bit_xor w x) y
    else if ltb i 60
    then bit_or (bit_and (bit_or w x) y) (bit_and w x)
    else bit_xor (bit_xor w x) y

unfoldable pub constant : ℕ → ℕ
constant i =
    if ltb i 20
    then 0x5A827999
    else if ltb i 40
    then 0x6ED9EBA1
    else if ltb i 60
    then 0x8F1BBCDC
    else 0xCA62C1D6

-- R(v, w, x, y, z, i) sets z and w. The next round is R(z, v, w, x, y, i + 1), so the result names
-- its variables in that order; after 80 rounds they are back in place.
unfoldable pub round : State → List ℕ → ℕ → State
unfolding expand mix constant
round s l i = record {
  a = (s.e + (mix i s.b s.c s.d + expand l i + constant i + rol s.a 5)) % 2 ^ 32;
  b = s.a;
  c = rol s.b 30;
  d = s.c;
  e = s.d;
}

unfoldable pub rounds : ℕ → ℕ → State → List ℕ → State
unfolding round
rounds zero i s l = s
rounds (suc n) i s l = rounds n (i + 1) (round s l i) (set l (i % 16) (expand l i))

-- Add the working variables back into the state.
unfoldable pub add_back : State → State → State
add_back s t = record {
  a = (s.a + t.a) % 2 ^ 32;
  b = (s.b + t.b) % 2 ^ 32;
  c = (s.c + t.c) % 2 ^ 32;
  d = (s.d + t.d) % 2 ^ 32;
  e = (s.e + t.e) % 2 ^ 32;
}

unfoldable pub transform : State → Bytes → State
unfolding add_back
transform s buffer = add_back s (rounds 80 0 s (load_words buffer))

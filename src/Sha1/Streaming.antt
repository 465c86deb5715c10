-- ===== src/Sha1/Streaming.antt =====
-- sha1_update keeps a context that stands for the message so far, however the message is cut.
use daobell.Prelude.{
  ℕ, suc, ◌+◌, ◌-◌, ◌*◌, ◌/◌, ◌%◌, ◌^◌, ◌≤◌, ◌<◌, ltb, Bytes, [], ◌++◌, length, take, drop,
  length-append, length-take, length-drop, take-append, take_all, drop-append_le, drop-append_ge,
  take-append_ge, drop-drop, append_assoc, arith, ◌≡◌, refl, ◌∙◌, sym, Bool-cases, inl, inr, ltb→lt,
  ltb→ge,
}
use daobell.Sha1.{
  Context, initial, sha1_context_init, sha1_update, memcpy, count_bits, update_blocks,
}
use daobell.Sha1.Absorb.{absorb-append, absorb_next, absorb-absorb, update_blocks-absorb}
use daobell.Sha1.Reference.{absorb}
use daobell.Sha1.Transform.{State, transform}

-- The context of a message: its whole blocks are absorbed, the bytes behind them wait in the
-- buffer, and the two words hold its number of bits.
pub record Represents (m : Bytes) (ctx : Context) : Type 0 where
  pub state : ctx.state ≡ absorb (length m / 64) initial m
  pub pending : take (length m % 64) ctx.buffer ≡ drop (64 * (length m / 64)) m
  pub capacity : length ctx.buffer ≡ 64
  pub low : ctx.count0 ≡ (8 * length m) % 2 ^ 32
  pub high : ctx.count1 ≡ (8 * length m / 2 ^ 32) % 2 ^ 32

pub Represents-init :
    (garbage : Bytes) → length garbage ≡ 64 → Represents [] (sha1_context_init garbage)
unfolding sha1_context_init absorb
Represents-init garbage h = record {
  state = refl;
  pending = refl;
  capacity = h;
  low = refl;
  high = refl;
}

length-memcpy :
    (dest : Bytes) (j : ℕ) (src : Bytes)
    → j + length src ≤ length dest
    → length (memcpy dest j src) ≡ length dest
unfolding memcpy
length-memcpy dest j src h = omega (
  arith,
  length-append (take j dest) (src ++ drop (j + length src) dest),
  length-append src (drop (j + length src) dest),
  length-take j dest,
  length-drop (j + length src) dest,
)

-- The first bytes of a copy: those before it, and it.
take-memcpy :
    (dest : Bytes) (j k : ℕ) (src : Bytes)
    → k ≡ j + length src
    → k ≤ length dest
    → take k (memcpy dest j src) ≡ take j dest ++ src
unfolding memcpy
take-memcpy dest j k src e h =
    let n : k ≡ length (take j dest ++ src) =
      omega (arith, length-append (take j dest) src, length-take j dest) in
    rw (← append_assoc (take j dest) src (drop (j + length src) dest), n)
      (take-append (take j dest ++ src) (drop (j + length src) dest))

-- The two words of the count are the bits of the longer message.
count_bits_lem :
    (m bytes : Bytes) (ctx : Context)
    → Represents m ctx
    → length bytes < 2 ^ 32
    → (((count_bits ctx (length bytes)).0 ≡ (8 * length (m ++ bytes)) % 2 ^ 32)
        × ((count_bits ctx (length bytes)).1 ≡ (8 * length (m ++ bytes) / 2 ^ 32) % 2 ^ 32))
unfolding count_bits
count_bits_lem m bytes ctx r h =
    let n = length-append m bytes in (omega (arith, n, r.low), ground (arith, n, r.low, r.high))

-- The bytes fit behind those that wait.
update_short :
    (m bytes : Bytes) (ctx : Context)
    → Represents m ctx
    → length m % 64 + length bytes < 64
    → Represents (m ++ bytes) (record {
      state = ctx.state;
      count0 = (count_bits ctx (length bytes)).0;
      count1 = (count_bits ctx (length bytes)).1;
      buffer = memcpy ctx.buffer (length m % 64) bytes;
    })
update_short m bytes ctx r h =
    let n = length-append m bytes in
    let bits = count_bits_lem m bytes ctx r (omega arith) in
    let q : length (m ++ bytes) / 64 ≡ length m / 64 = omega arith in
    record {
      state = rw q (r.state ∙ sym (absorb-append (length m / 64) initial m bytes (omega arith)));
      pending = rw (
        q,
        take-memcpy ctx.buffer (length m % 64) (length (m ++ bytes) % 64) bytes (omega arith)
            (omega (arith, r.capacity)),
        r.pending,
        drop-append_le (64 * (length m / 64)) m bytes (omega arith),
      );
      capacity =
          length-memcpy ctx.buffer (length m % 64) bytes (omega (arith, r.capacity)) ∙ r.capacity;
      low = bits.0;
      high = bits.1;
    }

module _ (m bytes : Bytes) (ctx : Context) (r : Represents m ctx)
    (full : 64 ≤ length m % 64 + length bytes) (small : length bytes < 2 ^ 32) where
  -- the number of blocks before, and of those in what is left behind the first
  before : ℕ
  before = length m / 64

  room : ℕ
  room = 64 - length m % 64

  filled : Bytes
  filled = memcpy ctx.buffer (length m % 64) (take room bytes)

  length-take-room : length (take room bytes) ≡ room
  unfolding room
  length-take-room = omega (arith, length-take (64 - length m % 64) bytes)

  -- the buffer holds the next block of the message
  filled_lem : filled ≡ take 64 (drop (64 * before) (m ++ bytes))
  unfolding filled before room
  filled_lem =
      let len =
        length-memcpy ctx.buffer (length m % 64) (take (64 - length m % 64) bytes)
          (omega (arith, r.capacity, length-take-room)) in
      let e : 64 - length (drop (64 * (length m / 64)) m) ≡ 64 - length m % 64 =
        omega (arith, length-drop (64 * (length m / 64)) m) in
      rw (
        ← take_all 64 (memcpy ctx.buffer (length m % 64) (take (64 - length m % 64) bytes))
            (omega (arith, len, r.capacity)),
        take-memcpy ctx.buffer (length m % 64) 64 (take (64 - length m % 64) bytes)
            (omega (arith, length-take-room)) (omega (arith, r.capacity)),
        r.pending,
        drop-append_le (64 * (length m / 64)) m bytes (omega arith),
        take-append_ge 64 (drop (64 * (length m / 64)) m) bytes
            (omega (arith, length-drop (64 * (length m / 64)) m)),
        e,
      )

  -- what follows that block
  behind_lem : drop room bytes ≡ drop (64 * suc before) (m ++ bytes)
  unfolding before room
  behind_lem =
      let e : 64 * suc (length m / 64) - length m ≡ 64 - length m % 64 = omega arith in
      rw (drop-append_ge (64 * suc (length m / 64)) m bytes (omega arith), e)

  -- the number of whole blocks behind the first
  more : ℕ
  more = length (drop room bytes) / 64

  looped : State × Bytes
  looped = update_blocks (length bytes) (transform ctx.state filled) (drop room bytes)

  first_block : transform ctx.state filled ≡ absorb (suc before) initial (m ++ bytes)
  unfolding before
  first_block =
      rw (filled_lem, r.state, ← absorb-append (length m / 64) initial m bytes (omega arith))
        (unfold before in absorb_next (length m / 64) initial (m ++ bytes))

  looped_lem : looped ≡ (
    absorb (suc before + more) initial (m ++ bytes),
    drop (64 * (suc before + more)) (m ++ bytes),
  )
  unfolding looped
  looped_lem =
      let k : 64 * suc before + 64 * more ≡ 64 * (suc before + more) = omega arith in
      let fuel : more ≤ length bytes = unfold more in omega (arith, length-drop room bytes) in
      rw (
        first_block,
        update_blocks-absorb (length bytes) more (absorb (suc before) initial (m ++ bytes))
            (drop room bytes) (unfold more in refl) fuel,
        behind_lem,
        absorb-absorb (suc before) more (suc before + more) initial (m ++ bytes) refl,
        drop-drop (64 * suc before) (64 * more) (64 * (suc before + more)) (m ++ bytes) k,
      )

  -- all whole blocks of the longer message are absorbed
  count_lem : length (m ++ bytes) / 64 ≡ suc before + more
  unfolding before more room
  count_lem = omega (arith, length-append m bytes, length-drop (64 - length m % 64) bytes)

  update_long : Represents (m ++ bytes) (record {
    state = looped.0;
    count0 = (count_bits ctx (length bytes)).0;
    count1 = (count_bits ctx (length bytes)).1;
    buffer = memcpy filled 0 looped.1;
  })
  update_long =
      let bits = count_bits_lem m bytes ctx r small in
      let left = length-drop (64 * (suc before + more)) (m ++ bytes) in
      let size : length filled ≡ 64 =
        unfold filled room in
        length-memcpy ctx.buffer (length m % 64) (take (64 - length m % 64) bytes)
          (unfold room in omega (arith, r.capacity, length-take-room))
        ∙ r.capacity in
      record {
        state = rw (count_lem, looped_lem);
        pending =
            rw (count_lem, looped_lem)
              (take-memcpy filled 0 (length (m ++ bytes) % 64)
                (drop (64 * (suc before + more)) (m ++ bytes)) (omega (arith, left, count_lem))
                (omega (arith, size)));
        capacity = rw looped_lem (
            length-memcpy filled 0 (drop (64 * (suc before + more)) (m ++ bytes))
              (omega (arith, left, count_lem, size))
            ∙ size);
        low = bits.0;
        high = bits.1;
      }

-- An update appends its bytes to the message that the context stands for, however many wait.
pub sha1_update-Represents :
    (m bytes : Bytes) (ctx : Context)
    → length bytes + 64 ≤ 2 ^ 32
    → Represents m ctx
    → Represents (m ++ bytes) (sha1_update ctx bytes)
unfolding sha1_update
sha1_update-Represents m bytes ctx small r =
    let j : ctx.count0 / 8 % 64 ≡ length m % 64 = omega (arith, r.low) in
    rw j (elim (Bool-cases (ltb 63 ((length m % 64 + length bytes) % 2 ^ 32))) [
      | inl flush ↦
          let h = ltb→lt 63 ((length m % 64 + length bytes) % 2 ^ 32) flush in
          rw flush
            (unfold looped filled room in update_long m bytes ctx r (omega arith) (omega arith))
      | inr short ↦
          let h = ltb→ge 63 ((length m % 64 + length bytes) % 2 ^ 32) short in
          rw short (update_short m bytes ctx r (omega arith))
    ])

-- ===== src/Net/Receiving.antt =====
-- What peer_recv_buff has in the buffer when it returns.
use daobell.Prelude.{
  ℕ, zero, suc, ◌+◌, ◌-◌, ◌≤◌, ◌<◌, ltb, ◌==◌, Bool, true, false, Bytes, [], ◌∷◌, ◌++◌, length,
  length-append, append_assoc, append-nil, some, Option-cases, inl, inr, Outcome, arith, ◌≡◌, refl,
  sym, ◌∙◌, Bool-cases, ltb→lt, ltb→ge, lt→ltb, length-drop, drop, drop_all, ==_ne, ◌≢◌, ◌%◌, ◌^◌,
  ◌⊎◌, take_all, none, ok, out_of_fuel, ◌&&◌, if◌then◌else◌, ap,
}
use daobell.Net.{Socket, put_at, recv_loop, peer_recv_buff, receive}
use daobell.Net.Sending.{IsStream, IsReliable}

-- The loop by the bytes that are missing, without its counter.
unfoldable fill_loop : (S : Socket) → ℕ → ℕ → Bytes → S.State → Outcome ((Bool × Bytes) × S.State)
fill_loop S zero left got s = out_of_fuel
fill_loop S (suc fuel) left got s =
    let (r, s') = S.recv left s in
    elim r [
      | none ↦ ok ((false, got), s')
      | some bytes ↦
          let more = fill_loop S fuel (left - length bytes) (got ++ bytes) s' in
          if ltb 0 (length bytes) && ltb 0 (left - length bytes)
          then more
          else ok ((left - length bytes == 0, got ++ bytes), s')
    ]

put_at-end :
    (S : Socket) (at : ℕ) (bytes got : Bytes)
    → length got ≡ at
    → put_at S at bytes got ≡ got ++ bytes
unfolding put_at
put_at-end S at bytes got e =
    rw (take_all at got (omega arith), drop_all (at + length bytes) got (omega arith), append-nil)
      refl

same_test : (total len left : ℕ) → total + left ≡ len → ltb total len ≡ ltb 0 left
same_test total len left e = ground arith

same_end : (total len left : ℕ) → total + left ≡ len → (total == len) ≡ (left == 0)
same_end total len left e = ground arith

-- A round of the loop, by the number of the bytes that are missing.
recv_loop_round :
    (S : Socket) (fuel len total left : ℕ) (got : Bytes) (s : S.State)
    → len - total ≡ left
    → recv_loop S (suc fuel) len total got s ≡ elim (S.recv left s).0 [
      | none ↦ ok ((false, got), (S.recv left s).1)
      | some bytes ↦
          if ltb 0 (length bytes) && ltb ((total + length bytes) % 2 ^ 32) len
          then recv_loop S fuel len
              ((total + length bytes) % 2 ^ 32)
              (put_at S total bytes got)
              (S.recv left s).1
          else ok (
            ((total + length bytes) % 2 ^ 32 == len, put_at S total bytes got),
            (S.recv left s).1,
          )
    ]
unfolding recv_loop
recv_loop_round S fuel len total left got s e =
    let round : ℕ → Outcome ((Bool × Bytes) × S.State) = λ m. elim (S.recv m s).0 [
      | none ↦ ok ((false, got), (S.recv m s).1)
      | some bytes ↦
          if ltb 0 (length bytes) && ltb ((total + length bytes) % 2 ^ 32) len
          then recv_loop S fuel len ((total + length bytes) % 2 ^ 32) (put_at S total bytes got)
              (S.recv m s).1
          else ok
              (((total + length bytes) % 2 ^ 32 == len, put_at S total bytes got), (S.recv m s).1)
    ] in
    ap round e

-- Below 2 ^ 32 bytes the counter does not wrap around.
recv_loop-fill :
    {S : Socket} (I : IsStream S) (fuel len total left : ℕ) (got : Bytes) (s : S.State)
    → total + left ≡ len
    → length got ≡ total
    → len < 2 ^ 32
    → recv_loop S fuel len total got s ≡ fill_loop S fuel left got s
unfolding recv_loop fill_loop
recv_loop-fill I zero len total left got s e g w = refl
recv_loop-fill {S = S} I (suc fuel) len total left got s e g w =
    let s' = (S.recv left s).1 in
    let round = recv_loop_round S fuel len total left got s (omega (arith, e)) in
    elim (Option-cases (S.recv left s).0) [
      | inl none_came ↦ rw (round, fill_loop, none_came) refl
      | inr (bytes, came) ↦
          let (le, _, _) = I.recv_gives left bytes s came in
          let sum : (total + length bytes) % 2 ^ 32 ≡ total + length bytes = omega (arith, e) in
          let rest : total + length bytes + (left - length bytes) ≡ len = omega (arith, e) in
          let more =
            recv_loop-fill I fuel len (total + length bytes) (left - length bytes) (got ++ bytes) s'
              rest (omega (arith, length-append got bytes)) w in
          rw
            (
              round,
              fill_loop,
              came,
              sum,
              put_at-end S total bytes got g,
              more,
              same_test (total + length bytes) len (left - length bytes) rest,
              same_end (total + length bytes) len (left - length bytes) rest,
            )
            refl
    ]

-- Some recv failed, or there was nothing more to come.
abbrev pub BreaksOff : (S : Socket) → Type 0
BreaksOff S =
    (m : ℕ) × (u : S.State) × (0 < m) × (((S.recv m u).0 ≡ none) ⊎ ((S.recv m u).0 ≡ some []))

module _ {S : Socket} (I : IsStream S) where
  -- The run wrote the next bytes of the peer to the buffer: all that was asked for where it says so.
  pub record Receives (n : ℕ) (s : S.State) (run : Outcome ((Bool × Bytes) × S.State))
      : Type 0 where
    pub whole : Bool
    pub got : Bytes
    pub after : S.State
    pub gives : run ≡ ok ((whole, got), after)
    pub arrived : I.pending s ≡ got ++ I.pending after
    pub quiet : I.sent after ≡ I.sent s
    pub fits : length got ≤ n
    pub fills : (whole ≡ true) → length got ≡ n
    pub breaks : (whole ≡ false) → 0 < n → BreaksOff S

split_front :
    (a b c d : Bytes)
    → length a ≤ length c
    → a ++ b ≡ c ++ d
    → (c ≡ a ++ drop (length a) c) × (b ≡ drop (length a) c ++ d)
split_front [] b c d h e = (refl, e)
split_front (x ∷ a) b [] d h e = absurd (omega arith)
split_front (x ∷ a) b (y ∷ c) d h e =
    let head : x ≡ y = cc in
    let tail : a ++ b ≡ c ++ d = cc in
    let (front, back) = split_front a b c d (omega arith) tail in (rw (head, ← front) refl, back)

module _ {S : Socket} (I : IsStream S) (R : IsReliable I) where
  -- With this much fuel the loop fills the buffer with the next bytes.
  IsFilling : ℕ → Type 0
  IsFilling fuel =
      (n : ℕ) (before wanted rest : Bytes) (s : S.State)
      → n ≤ fuel
      → 0 < n
      → length wanted ≡ n
      → I.pending s ≡ wanted ++ rest
      → (s' : S.State) × (fill_loop S fuel n before s ≡ ok ((true, before ++ wanted), s'))
        × (I.pending s' ≡ rest)
        × (I.sent s' ≡ I.sent s)

  fill_loop_round :
      (fuel n : ℕ) (before wanted rest bytes : Bytes) (s : S.State)
      → n ≤ suc fuel
      → length wanted ≡ n
      → I.pending s ≡ wanted ++ rest
      → 0 < length bytes
      → (S.recv n s).0 ≡ some bytes
      → IsFilling fuel
      → (s' : S.State) × (fill_loop S (suc fuel) n before s ≡ ok ((true, before ++ wanted), s'))
        × (I.pending s' ≡ rest)
        × (I.sent s' ≡ I.sent s)
  unfolding fill_loop IsFilling
  fill_loop_round fuel n before wanted rest bytes s h l p came e ih =
      let s' = (S.recv n s).1 in
      let (le, p', q) = I.recv_gives n bytes s e in
      let (front, back) = split_front bytes (I.pending s') wanted rest (omega arith) (sym p' ∙ p) in
      let some_came = lt→ltb 0 (length bytes) came in
      let len = length-drop (length bytes) wanted in
      elim (Bool-cases (ltb 0 (n - length bytes))) [
        | inl short ↦
            let (u, run, pu, qu) =
              ih (n - length bytes) (before ++ bytes) (drop (length bytes) wanted) rest s'
                (omega arith) (ltb→lt 0 (n - length bytes) short) (omega (arith, len)) back in
            (
              u,
              rw (e, fill_loop, some_came, short)
                  (run ∙ rw (append_assoc before bytes (drop (length bytes) wanted), ← front) refl),
              pu,
              qu ∙ q,
            )
        | inr full ↦
            let none_left = ltb→ge 0 (n - length bytes) full in
            let zero_left : n - length bytes ≡ 0 = omega arith in
            let all = drop_all (length bytes) wanted (omega arith) in
            let same : wanted ≡ bytes = front ∙ rw (all, append-nil) refl in
            (s', rw (e, fill_loop, some_came, zero_left, same) refl, back ∙ rw all refl, q)
      ]

  fill_loop-IsFilling : (fuel : ℕ) → IsFilling fuel
  unfolding IsFilling
  fill_loop-IsFilling zero n before wanted rest s h h' l p = absurd (omega arith)
  fill_loop-IsFilling (suc fuel) n before wanted rest s h h' l p =
      let waiting : 0 < length (I.pending s) = rw p (omega (arith, length-append wanted rest)) in
      let (bytes, came, e) = R.recv_works n s h' waiting in
      fill_loop_round fuel n before wanted rest bytes s h l p came e (fill_loop-IsFilling fuel)

  -- On a reliable stream the bytes that come next are received, where there are some to receive.
  pub receive-IsReliable :
      (wanted rest : Bytes) (s : S.State)
      → 0 < length wanted
      → length wanted < 2 ^ 32
      → I.pending s ≡ wanted ++ rest
      → (s' : S.State) × (receive S (length wanted) s ≡ ok (some wanted, s'))
        × (I.pending s' ≡ rest)
        × (I.sent s' ≡ I.sent s)
  unfolding peer_recv_buff IsFilling
  receive-IsReliable wanted rest s h w p =
      let (s', run, p', q) =
        fill_loop-IsFilling (length wanted) (length wanted) [] wanted rest s (omega arith) h refl
          p in
      let some_left : length wanted ≢ 0 = omega arith in
      let n = length wanted in
      (
        s',
        rw (==_ne n 0 some_left, recv_loop-fill I n n 0 n [] s (omega arith) refl w, run) refl,
        p',
        q,
      )

  -- The same of peer_recv_buff, which says of an empty buffer that it is not filled.
  pub peer_recv_buff-IsReliable :
      (wanted rest : Bytes) (s : S.State)
      → length wanted < 2 ^ 32
      → I.pending s ≡ wanted ++ rest
      → (whole : Bool) × (s' : S.State) × (peer_recv_buff S (length wanted) s
          ≡ ok ((whole, wanted), s'))
        × (I.pending s' ≡ rest)
        × (I.sent s' ≡ I.sent s)
  unfolding peer_recv_buff IsFilling
  peer_recv_buff-IsReliable [] rest s h p = (false, s, refl, p, refl)
  peer_recv_buff-IsReliable (c ∷ wanted) rest s h p =
      let n = length (c ∷ wanted) in
      let (s', run, p', q) =
        fill_loop-IsFilling n n [] (c ∷ wanted) rest s (omega arith) (omega arith) refl p in
      let some_left : length (c ∷ wanted) ≢ 0 = omega arith in
      (
        true,
        s',
        rw (==_ne n 0 some_left, recv_loop-fill I n n 0 n [] s (omega arith) refl h) run,
        p',
        q,
      )

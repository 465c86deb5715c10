-- ===== src/Net/Sending.antt =====
-- What peer_send_buff has sent when it returns.
use daobell.Prelude.{
  ℕ, zero, suc, ◌≤◌, ◌<◌, Bytes, [], ◌∷◌, ◌++◌, length, take, drop, length-drop, take-append-drop,
  append_assoc, append-nil, Option, none, some, Option-cases, inl, inr, Outcome, ok, ◌>>=◌, arith,
  ◌≡◌, ◌≢◌, refl, ◌∙◌, ◌+◌, ◌-◌, ◌%◌, ◌^◌, take_all, ap, lt→ltb, ge→ltb, ==_refl,
}
use daobell.Net.{Socket, send_loop, peer_send_buff, Action, go_on}

-- A stream socket that blocks, as its documentation has it: what was sent is what the peer gets,
-- `send` takes the front of the buffer, and not nothing of it; `recv` gives what is next to come.
pub record IsStream (S : Socket) : Type 0 where
  pub sent : S.State → Bytes
  pub pending : S.State → Bytes
  pub send_takes :
      (bytes : Bytes) (n : ℕ) (s : S.State)
      → (S.send bytes s).0 ≡ some n
      → (n ≤ length bytes)
        × (sent (S.send bytes s).1 ≡ sent s ++ take n bytes)
        × (pending (S.send bytes s).1 ≡ pending s)
  pub send_moves :
      (bytes : Bytes) (n : ℕ) (s : S.State) → (S.send bytes s).0 ≡ some n → 0 < length bytes → 0 < n
  pub send_fails :
      (bytes : Bytes) (s : S.State)
      → (S.send bytes s).0 ≡ none
      → (sent (S.send bytes s).1 ≡ sent s) × (pending (S.send bytes s).1 ≡ pending s)
  pub recv_gives :
      (n : ℕ) (bytes : Bytes) (s : S.State)
      → (S.recv n s).0 ≡ some bytes
      → (length bytes ≤ n)
        × (pending s ≡ bytes ++ pending (S.recv n s).1)
        × (sent (S.recv n s).1 ≡ sent s)
  pub recv_fails :
      (n : ℕ) (s : S.State)
      → (S.recv n s).0 ≡ none
      → (pending (S.recv n s).1 ≡ pending s) × (sent (S.recv n s).1 ≡ sent s)

module _ {S : Socket} (I : IsStream S) where
  -- The run sent these bytes; or `send` failed at some point, and it sent the front of them.
  pub data Sends (bytes : Bytes) (s : S.State) (run : Outcome (Option (Unit {0}) × S.State))
      : Type 0 where
    all_sent :
        (s' : S.State)
        → run ≡ ok (some tt, s')
        → I.sent s' ≡ I.sent s ++ bytes
        → I.pending s' ≡ I.pending s
        → Sends bytes s run
    cut_off :
        (front back : Bytes) (s' : S.State)
        → bytes ≡ front ++ back
        → run ≡ ok (none, s')
        → I.sent s' ≡ I.sent s ++ front
        → I.pending s' ≡ I.pending s
        → ((b : Bytes) × (u : S.State) × ((S.send b u).0 ≡ none))
        → Sends bytes s run

  -- Bytes that were sent before a run.
  Sends-after :
      (a b : Bytes) (s s' : S.State) (run : Outcome (Option (Unit {0}) × S.State))
      → I.sent s' ≡ I.sent s ++ a
      → I.pending s' ≡ I.pending s
      → Sends b s' run
      → Sends (a ++ b) s run
  Sends-after a b s s' run e p (all_sent u r e' p') =
      all_sent u r (rw (e', e, append_assoc (I.sent s) a b) refl) (p' ∙ p)
  Sends-after a b s s' run e p (cut_off front back u d r e' p' f) =
      cut_off (a ++ front) back u (rw (d, append_assoc a front back) refl) r
        (rw (e', e, append_assoc (I.sent s) a front) refl) (p' ∙ p) f

  -- A round of the loop that has something to send.
  send_loop_round :
      (fuel len total_sent : ℕ) (bytes : Bytes) (s : S.State)
      → total_sent < len
      → len ≡ total_sent + length bytes
      → send_loop S (suc fuel) len total_sent bytes s ≡ elim (S.send bytes s).0 [
        | none ↦ ok (none, (S.send bytes s).1)
        | some n ↦
            send_loop S fuel len ((total_sent + n) % 2 ^ 32) (drop n bytes) (S.send bytes s).1
      ]
  unfolding send_loop
  send_loop_round fuel len total_sent bytes s h e =
      let below = lt→ltb total_sent len h in
      let inside = ge→ltb (length bytes) (len - total_sent) (omega (arith, e)) in
      let all = take_all (len - total_sent) bytes (omega (arith, e)) in
      let sent : Bytes → Outcome (Option (Unit {0}) × S.State) = λ front. elim (S.send front s).0 [
        | none ↦ ok (none, (S.send front s).1)
        | some n ↦
            send_loop S fuel len ((total_sent + n) % 2 ^ 32) (drop n bytes) (S.send front s).1
      ] in
      rw (below, inside) (ap sent all)

  send_loop-Sends :
      (fuel len total_sent : ℕ) (bytes : Bytes) (s : S.State)
      → length bytes < fuel
      → total_sent + length bytes ≡ len
      → len < 2 ^ 32
      → Sends bytes s (send_loop S fuel len total_sent bytes s)
  unfolding send_loop
  send_loop-Sends zero len total_sent bytes s h e w = absurd (omega arith)
  send_loop-Sends (suc fuel) len total_sent [] s h e w =
      let whole : total_sent ≡ len = omega (arith, e) in
      rw (send_loop, whole, ge→ltb len len (omega arith), ==_refl len)
        (all_sent s refl (rw append-nil refl) refl)
  send_loop-Sends (suc fuel) len total_sent (c ∷ rest) s h e w =
      let round =
        send_loop_round fuel len total_sent (c ∷ rest) s (omega (arith, e)) (omega (arith, e)) in
      elim (Option-cases (S.send (c ∷ rest) s).0) [
        | inl none_went ↦
            rw (round, none_went)
              (cut_off [] (c ∷ rest) (S.send (c ∷ rest) s).1 refl refl
                (rw append-nil (I.send_fails (c ∷ rest) s none_went).0)
                (I.send_fails (c ∷ rest) s none_went).1 (c ∷ rest, s, none_went))
        | inr (n, went) ↦
            let (le, grows, same) = I.send_takes (c ∷ rest) n s went in
            let more = I.send_moves (c ∷ rest) n s went (omega arith) in
            let shorter = length-drop n (c ∷ rest) in
            let total : (total_sent + n) % 2 ^ 32 ≡ total_sent + n = omega (arith, e) in
            rw (round, went, total)
              (rw (take-append-drop n (c ∷ rest)) at (
                Sends-after (take n (c ∷ rest)) (drop n (c ∷ rest)) s (S.send (c ∷ rest) s).1 _
                  grows same
                  (send_loop-Sends fuel len (total_sent + n) (drop n (c ∷ rest))
                    (S.send (c ∷ rest) s).1 (omega (arith, shorter)) (omega (arith, shorter, e))
                    w)))
      ]

  -- peer_send_buff returns, and 0 only where it sent the whole buffer; -1 is for a send that failed,
  -- with the front of the buffer sent. Where the buffer is shorter than 2 ^ 32 bytes.
  pub peer_send_buff-Sends :
      (bytes : Bytes) (s : S.State)
      → length bytes < 2 ^ 32
      → Sends bytes s (peer_send_buff S bytes s)
  unfolding peer_send_buff
  peer_send_buff-Sends bytes s h =
      send_loop-Sends (length bytes + 1) (length bytes) 0 bytes s (omega arith) (omega arith) h

  -- A run, and another after it.
  pub Sends-go_on :
      (a b : Bytes) (s : S.State) (run : Outcome (Option (Unit {0}) × S.State))
      (next : Unit {0} → Action S (Unit {0}))
      → Sends a s run
      → ((u : S.State) → Sends b u (next tt u))
      → Sends (a ++ b) s (run >>= go_on S next)
  Sends-go_on a b s run next (cut_off front back u d r e p f) h =
      rw r (cut_off front (back ++ b) u (rw (d, append_assoc front back b) refl) refl e p f)
  Sends-go_on a b s run next (all_sent u r e p) h = rw r (Sends-after a b s u (next tt u) e p (h u))

pub Sends-nothing : {S : Socket} (I : IsStream S) (s : S.State) → Sends I [] s (ok (some tt, s))
Sends-nothing I s = Sends.all_sent s refl (rw append-nil refl) refl

-- Either way the run ends, and has received nothing.
pub Sends-ends :
    {S : Socket} (I : IsStream S) {bytes : Bytes} {s : S.State}
    {run : Outcome (Option (Unit {0}) × S.State)}
    → Sends I bytes s run
    → (r : Option (Unit {0})) × (s' : S.State) × (run ≡ ok (r, s')) × (I.pending s' ≡ I.pending s)
Sends-ends I (all_sent s' r e p) = (some tt, s', r, p)
Sends-ends I (cut_off front back s' d r e p f) = (none, s', r, p)

-- A connection that does not break, and a peer that does not close it before its last byte.
pub record IsReliable {S : Socket} (I : IsStream S) : Type 0 where
  pub send_works : (bytes : Bytes) (s : S.State) → (S.send bytes s).0 ≢ none
  pub recv_works :
      (n : ℕ) (s : S.State)
      → 0 < n
      → 0 < length (I.pending s)
      → (bytes : Bytes) × (0 < length bytes) × ((S.recv n s).0 ≡ some bytes)

pub Sends-IsReliable :
    {S : Socket} (I : IsStream S) (bytes : Bytes) (s : S.State)
    (run : Outcome (Option (Unit {0}) × S.State))
    → IsReliable I
    → Sends I bytes s run
    → (s' : S.State) × (run ≡ ok (some tt, s'))
      × (I.sent s' ≡ I.sent s ++ bytes)
      × (I.pending s' ≡ I.pending s)
Sends-IsReliable I bytes s run R (all_sent s' r e p) = (s', r, e, p)
Sends-IsReliable I bytes s run R (cut_off front back s' d r e p (b, u, f)) =
    absurd (R.send_works b u f)

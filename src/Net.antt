-- ===== src/Net.antt =====
-- src/peer_msg.cpp, peer_send_buff and peer_recv_buff, over a socket of the system. Their
-- totals are `unsigned`, of 32 bits.
pub mod Sending
pub mod Receiving
use daobell.Prelude.{
  ℕ, zero, suc, ◌-◌, ◌/◌, ◌%◌, ◌^◌, ◌*◌, ◌+◌, ltb, ◌==◌, if◌then◌else◌, Bool, true, false, ◌&&◌,
  Bytes, [], ◌∷◌, ◌++◌, length, take, drop, Option, none, some, Outcome, ok, fault, out_of_fuel,
  ◌>>=◌,
}

-- send and recv on a socket: `none` is the result -1, and errno is not looked at.
pub record Socket : Type 1 where
  pub State : Type 0
  pub send : Bytes → State → Option ℕ × State
  pub recv : ℕ → State → Option Bytes × State

module _ (S : Socket) where
  -- What a function on the socket does: `none` is its result -1.
  abbrev pub Action {ℓ} : Type ℓ → Type ℓ
  Action A = S.State → Outcome (Option A × S.State)

  abbrev pub done {ℓ} : {A : Type ℓ} → A → Action A
  done a s = ok (some a, s)

  abbrev pub failed {ℓ} : {A : Type ℓ} → Action A
  failed s = ok (none, s)

  -- What follows a call, unless that returned -1.
  abbrev pub go_on {ℓ κ} :
      {A : Type ℓ} {B : Type κ} → (A → Action B) → Option A × S.State → Outcome (Option B × S.State)
  go_on f (none, s) = ok (none, s)
  go_on f (some a, s) = f a s

  abbrev pub and_then {ℓ κ} : {A : Type ℓ} {B : Type κ} → Action A → (A → Action B) → Action B
  and_then m f s = m s >>= go_on f

  -- The while loop of peer_send_buff, on a buffer of `len` bytes of which `rest` is not passed yet. To
  -- send from past its end is a fault: total_sent comes to that if it wraps around.
  unfoldable pub send_loop : ℕ → (len total_sent : ℕ) → (rest : Bytes) → Action (Unit {0})
  send_loop zero len total_sent rest s = out_of_fuel
  send_loop (suc fuel) len total_sent rest s =
      let (r, s') = S.send (take (len - total_sent) rest) s in
      let sent : Outcome (Option (Unit {0}) × S.State) = elim r [
        | none ↦ ok (none, s')
        | some n ↦ send_loop fuel len ((total_sent + n) % 2 ^ 32) (drop n rest) s'
      ] in
      if ltb total_sent len
      then if ltb (length rest) (len - total_sent) then fault else sent
      else ok (if total_sent == len then some tt else none, s)

  -- A send of 0 bytes would be tried again for ever; another one leaves fewer bytes.
  unfoldable pub peer_send_buff : Bytes → Action (Unit {0})
  unfolding send_loop
  peer_send_buff bytes s = send_loop (length bytes + 1) (length bytes) 0 bytes s

  -- What a buffer holds after bytes were written at a place of it.
  unfoldable pub put_at : ℕ → (bytes got : Bytes) → Bytes
  put_at at bytes got = take at got ++ (bytes ++ drop (at + length bytes) got)

  -- The do loop of peer_recv_buff: whether the buffer was filled, and what was written to it.
  unfoldable pub recv_loop :
      ℕ → (len total_recv : ℕ) → Bytes → S.State → Outcome ((Bool × Bytes) × S.State)
  unfolding put_at
  recv_loop zero len total_recv got s = out_of_fuel
  recv_loop (suc fuel) len total_recv got s =
      let (r, s') = S.recv (len - total_recv) s in
      elim r [
        | none ↦ ok ((false, got), s')
        | some bytes ↦
            let total = (total_recv + length bytes) % 2 ^ 32 in
            let got' = put_at total_recv bytes got in
            let more = recv_loop fuel len total got' s' in
            if ltb 0 (length bytes) && ltb total len then more else ok ((total == len, got'), s')
      ]

  unfoldable pub peer_recv_buff : ℕ → S.State → Outcome ((Bool × Bytes) × S.State)
  unfolding recv_loop
  peer_recv_buff len s = if len == 0 then ok ((false, []), s) else recv_loop len len 0 [] s

  -- A caller that returns -1 when the buffer is not filled.
  abbrev pub filled : (Bool × Bytes) × S.State → Outcome (Option Bytes × S.State)
  filled ((true, bytes), s) = ok (some bytes, s)
  filled ((false, bytes), s) = ok (none, s)

  abbrev pub receive : ℕ → Action Bytes
  receive len s = peer_recv_buff len s >>= filled

-- The bytes of htonl(n) in memory, and ntohl of four bytes.
abbrev pub htonl : ℕ → Bytes
htonl n = n / 2 ^ 24 % 256 ∷ n / 2 ^ 16 % 256 ∷ n / 2 ^ 8 % 256 ∷ n % 256 ∷ []

abbrev pub ntohl : Bytes → ℕ
ntohl (a ∷ b ∷ c ∷ d ∷ _) = ((a * 256 + b) * 256 + c) * 256 + d
ntohl _ = 0

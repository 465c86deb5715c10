-- ===== src/Message/Handshake/Exchange.antt =====
-- What peer_send_handshake sends, peer_recv_handshake receives.
use daobell.Prelude.{
  ℕ, Bool, true, false, Bytes, [], ◌++◌, length, take, drop, some, ok, ◌≡◌, refl, ◌∙◌, ap,
  append_assoc, arith, length-append, length-take, ◌<◌, ◌^◌, take-append, take_all, drop-append,
  if◌then◌else◌,
}
use daobell.Net.{Socket}
use daobell.Net.Sending.{IsStream, IsReliable, Sends-IsReliable, peer_send_buff-Sends}
use daobell.Net.Receiving.{receive-IsReliable}
use daobell.Message.Handshake.{
  preamble, strncmp_equal, peer_send_handshake, check_handshake, peer_recv_handshake,
}

-- The front of a text of known length, and what follows.
take-append_at : (n : ℕ) (a b : Bytes) → length a ≡ n → take n (a ++ b) ≡ a
take-append_at n a b e = rw (← e) (take-append a b)

drop-append_at : (n : ℕ) (a b : Bytes) → length a ≡ n → drop n (a ++ b) ≡ b
drop-append_at n a b e = rw (← e) (drop-append a b)

length-preamble : length preamble ≡ 28
unfolding preamble
length-preamble = refl

-- What the receiver makes of a handshake.
abbrev pub received_ids : Bool → Bytes → Bytes → Bytes × Bytes
received_ids true info_hash id = (info_hash, id)
received_ids false info_hash id = (info_hash, [])

-- A receiver that does not ask for the peer's id leaves it on the stream.
abbrev pub left_over : Bool → Bytes → Bytes → Bytes
left_over true id rest = rest
left_over false id rest = id ++ rest

module _ {S : Socket} (I : IsStream S) (R : IsReliable I) (info_hash id : Bytes)
    (h : length info_hash ≡ 20) (h' : length id ≡ 20) where
  peer_send_handshake-sent :
      (s : S.State)
      → (s' : S.State) × (peer_send_handshake S info_hash id s ≡ ok (some tt, s'))
        × (I.sent s' ≡ I.sent s ++ (preamble ++ (info_hash ++ id)))
  unfolding peer_send_handshake
  peer_send_handshake-sent s =
      let bytes = preamble ++ (take 20 info_hash ++ take 20 id) in
      let len = length-append preamble (take 20 info_hash ++ take 20 id) in
      let ids_len = length-append (take 20 info_hash) (take 20 id) in
      let small : length bytes < 2 ^ 32 =
        omega (arith, len, ids_len, length-preamble, length-take 20 info_hash, length-take 20 id) in
      let (s', run, e, _) = Sends-IsReliable I bytes s _ R (peer_send_buff-Sends I bytes s small) in
      let ids : take 20 info_hash ++ take 20 id ≡ info_hash ++ id =
        rw (take_all 20 info_hash (omega arith), take_all 20 id (omega arith)) refl in
      (s', run, e ∙ ap (λ x. I.sent s ++ (preamble ++ x)) ids)

  check_with_id :
      (s : S.State)
      → check_handshake S true (preamble ++ (info_hash ++ id)) s ≡ ok (some (info_hash, id), s)
  unfolding check_handshake preamble strncmp_equal
  check_with_id s =
      rw
        (
          take-append_at 20 info_hash id h,
          drop-append_at 20 info_hash id h,
          take_all 20 id (omega (arith, h')),
        )
        refl

  check_without_id :
      (s : S.State)
      → check_handshake S false (preamble ++ info_hash) s ≡ ok (some (info_hash, []), s)
  unfolding check_handshake preamble strncmp_equal
  check_without_id s = rw (take_all 20 info_hash (omega (arith, h))) refl

  recv_handshake :
      (peer_id : Bool) (wanted rest : Bytes) (s : S.State)
      → length wanted ≡ (if peer_id then 68 else 48)
      → I.pending s ≡ wanted ++ rest
      → (s' : S.State) × (peer_recv_handshake S peer_id s ≡ check_handshake S peer_id wanted s')
        × (I.pending s' ≡ rest)
  unfolding peer_recv_handshake
  recv_handshake true wanted rest s l p =
      let (s', run, p', _) = receive-IsReliable I R wanted rest s (omega arith) (omega arith) p in
      (s', rw (← l, run) refl, p')
  recv_handshake false wanted rest s l p =
      let (s', run, p', _) = receive-IsReliable I R wanted rest s (omega arith) (omega arith) p in
      (s', rw (← l, run) refl, p')

  peer_recv_handshake-received :
      (peer_id : Bool) (rest : Bytes) (s : S.State)
      → I.pending s ≡ (preamble ++ (info_hash ++ id)) ++ rest
      → (s' : S.State) × (peer_recv_handshake S peer_id s
          ≡ ok (some (received_ids peer_id info_hash id), s'))
        × (I.pending s' ≡ left_over peer_id id rest)
  peer_recv_handshake-received true rest s p =
      let len = length-append preamble (info_hash ++ id) in
      let ids = length-append info_hash id in
      let (s', run, p') =
        recv_handshake true (preamble ++ (info_hash ++ id)) rest s
          (omega (arith, len, ids, length-preamble, h, h')) p in
      (s', run ∙ check_with_id s', p')
  peer_recv_handshake-received false rest s p =
      let len = length-append preamble info_hash in
      let cut : (preamble ++ (info_hash ++ id)) ++ rest ≡ (preamble ++ info_hash) ++ (id ++ rest) =
        rw (← append_assoc preamble info_hash id, append_assoc (preamble ++ info_hash) id rest)
          refl in
      let (s', run, p') =
        recv_handshake false (preamble ++ info_hash) (id ++ rest) s
          (omega (arith, len, length-preamble, h)) (p ∙ cut) in
      (s', run ∙ check_without_id s', p')

-- A handshake is sent on a reliable stream, and a receiver to which it comes gets the info hash;
-- one that asks for the peer's id gets that as well, and for another the id stays to be read. Where
-- both have 20 bytes.
pub peer_recv_handshake-peer_send_handshake :
    {S S' : Socket} (I : IsStream S) (J : IsStream S') (info_hash id : Bytes) (s : S.State)
    → IsReliable I
    → IsReliable J
    → length info_hash ≡ 20
    → length id ≡ 20
    → (bytes : Bytes) × (s' : S.State) × (peer_send_handshake S info_hash id s ≡ ok (some tt, s'))
      × (I.sent s' ≡ I.sent s ++ bytes)
      × ((peer_id : Bool) (rest : Bytes) (r : S'.State)
          → J.pending r ≡ bytes ++ rest
          → (r' : S'.State) × (peer_recv_handshake S' peer_id r
              ≡ ok (some (received_ids peer_id info_hash id), r'))
            × (J.pending r' ≡ left_over peer_id id rest))
peer_recv_handshake-peer_send_handshake I J info_hash id s R R' h h' =
    let (s', run, e) = peer_send_handshake-sent I R info_hash id h h' s in
    (preamble ++ (info_hash ++ id), s', run, e, peer_recv_handshake-received J R' info_hash id h h')

-- ===== src/Sha1/Absorb.antt =====
-- Laws of absorbing blocks: messages end to end, and blocks one after another.
use daobell.Prelude.{
  ℕ, zero, suc, ◌+◌, ◌*◌, ◌/◌, ◌≤◌, Bytes, ◌++◌, length, take, drop, length-drop, take-append_le,
  drop-append_le, drop-drop, arith, ◌≡◌, refl, ap, lt→ltb, ge→ltb,
}
use daobell.Sha1.{update_blocks}
use daobell.Sha1.Reference.{absorb}
use daobell.Sha1.Transform.{State, transform}

-- What stands behind the blocks does not matter.
pub absorb-append :
    (n : ℕ) (s : State) (m r : Bytes) → 64 * n ≤ length m → absorb n s (m ++ r) ≡ absorb n s m
unfolding absorb
absorb-append zero s m r h = refl
absorb-append (suc n) s m r h =
    rw (take-append_le 64 m r (omega arith), drop-append_le 64 m r (omega arith))
      (absorb-append n (transform s (take 64 m)) (drop 64 m) r (omega (arith, length-drop 64 m)))

-- n blocks and then k more are j blocks.
pub absorb-absorb :
    (n k j : ℕ) (s : State) (m : Bytes)
    → n + k ≡ j
    → absorb k (absorb n s m) (drop (64 * n) m) ≡ absorb j s m
unfolding absorb
absorb-absorb zero k j s m e = ap (λ i. absorb i s m) (let e' : k ≡ j = omega arith in e')
absorb-absorb (suc n) k zero s m e = absurd (omega arith)
absorb-absorb (suc n) k (suc j) s m e =
    let p : 64 + 64 * n ≡ 64 * suc n = omega arith in
    rw (← drop-drop 64 (64 * n) (64 * suc n) m p)
      (absorb-absorb n k j (transform s (take 64 m)) (drop 64 m) (omega arith))

-- One block more.
pub absorb_next :
    (n : ℕ) (s : State) (m : Bytes)
    → transform (absorb n s m) (take 64 (drop (64 * n) m)) ≡ absorb (suc n) s m
unfolding absorb
absorb_next n s m = absorb-absorb n 1 (suc n) s m (omega arith)

-- The loop of sha1_update absorbs the whole blocks and leaves the rest.
pub update_blocks-absorb :
    (fuel k : ℕ) (s : State) (rest : Bytes)
    → k ≡ length rest / 64
    → k ≤ fuel
    → update_blocks fuel s rest ≡ (absorb k s rest, drop (64 * k) rest)
unfolding update_blocks absorb
update_blocks-absorb zero zero s rest e h = refl
update_blocks-absorb zero (suc k) s rest e h = absurd (omega arith)
update_blocks-absorb (suc fuel) zero s rest e h = rw (ge→ltb 63 (length rest) (omega arith))
update_blocks-absorb (suc fuel) (suc k) s rest e h =
    let p : 64 + 64 * k ≡ 64 * suc k = omega arith in
    rw (lt→ltb 63 (length rest) (omega arith), ← drop-drop 64 (64 * k) (64 * suc k) rest p)
      (update_blocks-absorb fuel k (transform s (take 64 rest)) (drop 64 rest)
        (omega (arith, length-drop 64 rest)) (omega arith))

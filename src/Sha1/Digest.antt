-- ===== src/Sha1/Digest.antt =====
-- sha1_finish and sha1_compute give the digest of the message.
use daobell.Prelude.{
  ltb, if◌then◌else◌, ℕ, zero, suc, ◌+◌, ◌-◌, ◌*◌, ◌/◌, ◌%◌, ◌^◌, ◌≤◌, ◌<◌, Bytes, List, [], ◌∷◌,
  ◌++◌, length, replicate, length-append, append_assoc, append-nil, arith, ◌≡◌, refl, ap, ==_ne, ok,
  fault, All, lt→ltb, take, take_all,
}
use mathlib.Core.List.{flatten}
use daobell.Sha1.{
  Context, sha1_context_init, sha1_update, pad_zeros, sha1_finish, final_count, digest_bytes,
  update_each, int_size, sha1_compute,
}
use daobell.Sha1.Reference.{padded, length_bytes, reference_sha1, zeros}
use daobell.Sha1.Streaming.{Represents, Represents-init, sha1_update-Represents}

pad_zeros-Represents :
    (fuel k : ℕ) (m : Bytes) (ctx : Context)
    → Represents m ctx
    → k ≡ (120 - length m % 64) % 64
    → k < fuel
    → (done : Context) × (pad_zeros fuel ctx ≡ ok done) × Represents (m ++ replicate k 0) done
unfolding pad_zeros
pad_zeros-Represents zero k m ctx r e h = elim h [ ]
pad_zeros-Represents (suc fuel) zero m ctx r e h =
    let stop : ctx.count0 / 8 % 64 * 8 ≡ 448 = omega (arith, r.low) in
    (ctx, rw stop, rw append-nil r)
pad_zeros-Represents (suc fuel) (suc k) m ctx r e h =
    let go = ==_ne (ctx.count0 / 8 % 64 * 8) 448 (omega (arith, r.low)) in
    let r' = sha1_update-Represents m (0 ∷ []) ctx (omega arith) r in
    let (done, run, rep) =
      pad_zeros-Represents fuel k (m ++ 0 ∷ []) (sha1_update ctx (0 ∷ [])) r'
        (omega (arith, length-append m (0 ∷ []))) (omega arith) in
    (done, rw go run, rw (← append_assoc m (0 ∷ []) (replicate k 0)) rep)

final_count-Represents :
    (m : Bytes) (ctx : Context) → Represents m ctx → final_count ctx ≡ length_bytes (length m)
unfolding final_count
final_count-Represents m ctx r = rw (r.high, r.low)

-- The digest of a context is that of the message that it stands for.
pub sha1_finish-Represents :
    (m : Bytes) (ctx : Context) → Represents m ctx → sha1_finish ctx ≡ ok (reference_sha1 m)
unfolding sha1_finish reference_sha1 padded
sha1_finish-Represents m ctx r =
    let r1 = sha1_update-Represents m (0x80 ∷ []) ctx (omega arith) r in
    let (done, run, r2) =
      pad_zeros-Represents 65 (zeros (length m)) (m ++ 0x80 ∷ []) (sha1_update ctx (0x80 ∷ [])) r1
        (omega (arith, length-append m (0x80 ∷ []))) (omega arith) in
    let r3 = sha1_update-Represents _ (length_bytes (length m)) done (omega arith) r2 in
    rw (final_count-Represents m ctx r, run) (ap (λ s. ok (digest_bytes s)) r3.state)

-- The context behind a run of updates, one for each chunk.
unfoldable pub update_all : Context → List Bytes → Context
update_all ctx [] = ctx
update_all ctx (chunk ∷ chunks) = update_all (sha1_update ctx chunk) chunks

abbrev pub FitUpdate : Bytes → Type 0
FitUpdate chunk = length chunk + 64 ≤ 2 ^ 32

pub update_all-Represents :
    (m : Bytes) (chunks : List Bytes) (ctx : Context)
    → All FitUpdate chunks
    → Represents m ctx
    → Represents (m ++ flatten chunks) (update_all ctx chunks)
unfolding update_all flatten
update_all-Represents m [] ctx h r = rw append-nil r
update_all-Represents m (c ∷ chunks) ctx h r = rw (← append_assoc m c (flatten chunks)) (
    update_all-Represents (m ++ c) chunks (sha1_update ctx c) h.1
      (sha1_update-Represents m c ctx h.0 r))

-- However a message is cut into updates, the digest is that of Sha1.Reference: the whole message is
-- padded and cut into blocks, and each block compressed as the program does it; what malloc left in
-- the buffer of 64 bytes does not matter. Where no update has more than 2 ^ 32 - 64 bytes.
pub sha1_finish-update_all :
    (garbage : Bytes) (chunks : List Bytes)
    → length garbage ≡ 64
    → All FitUpdate chunks
    → sha1_finish (update_all (sha1_context_init garbage) chunks)
      ≡ ok (reference_sha1 (flatten chunks))
sha1_finish-update_all garbage chunks h fit =
    sha1_finish-Represents (flatten chunks) _
      (update_all-Represents [] chunks (sha1_context_init garbage) fit (Represents-init garbage h))

update_each-Represents :
    (m s : Bytes) (ctx : Context) → Represents m ctx → Represents (m ++ s) (update_each ctx s)
unfolding update_each
update_each-Represents m [] ctx r = rw append-nil r
update_each-Represents m (c ∷ s) ctx r = rw (← append_assoc m (c ∷ []) s) (
    update_each-Represents (m ++ c ∷ []) s (sha1_update ctx (c ∷ []))
      (sha1_update-Represents m (c ∷ []) ctx (omega arith) r))

sha1_compute-absorbed :
    (garbage s : Bytes)
    → length garbage ≡ 64
    → sha1_finish (update_each (sha1_context_init garbage) s) ≡ ok (reference_sha1 s)
sha1_compute-absorbed garbage s h =
    sha1_finish-Represents s _
      (update_each-Represents [] s (sha1_context_init garbage) (Represents-init garbage h))

-- sha1_compute, which updates byte by byte, gives the digest of Sha1.Reference of its string, in which
-- the whole message is padded and cut into blocks, and each block compressed as the program does it,
-- where the output array has room for a byte more than the digest; with less room it comes to
-- undefined behaviour. Where the string is shorter than 2 ^ 31 bytes, and malloc gives a buffer of 64
-- bytes.
pub sha1_compute-reference :
    (room : ℕ) (garbage s : Bytes)
    → length s < 2 ^ 31
    → length garbage ≡ 64
    → sha1_compute room garbage s ≡ (if ltb 20 room then ok (reference_sha1 s) else fault)
unfolding sha1_compute
sha1_compute-reference room garbage s l h =
    let same : length s % 2 ^ 32 ≡ length s = omega arith in
    rw
      (
        same,
        lt→ltb (length s) (2 ^ 31) l,
        take_all (length s) s (omega arith),
        sha1_compute-absorbed garbage s h,
      )
      refl

-- With the array of 20 bytes that the digest itself has, the NUL behind it is written outside.
pub sha1_compute-fault :
    (garbage s : Bytes) → length garbage ≡ 64 → sha1_compute 20 garbage s ≡ fault
unfolding sha1_compute
sha1_compute-fault garbage s h =
    rw (sha1_compute-absorbed garbage (take (int_size (length s)) s) h) refl

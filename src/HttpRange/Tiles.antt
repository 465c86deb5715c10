-- ===== src/HttpRange/Tiles.antt =====
-- The ranges of the threads cover the file.
use daobell.Prelude.{ℕ, suc, ◌+◌, ◌*◌, ◌/◌, ◌%◌, ◌<◌, ◌≤◌, ==_ne, ==_refl, ◌≡◌, refl, arith}
use native.Mathlib.Nat.{mul-le-mul_right, mul-div-le, le-div_iff_mul-le}
use daobell.HttpRange.{thread_range}
use daobell.Pieces.{sub64, u64_mod}

next_begin :
    (a q : ℕ)
    → 0 < q
    → a + q < u64_mod
    → (a + q) % u64_mod ≡ suc (sub64 ((a % u64_mod + q) % u64_mod) 1)
next_begin a q p h = omega arith

-- Each range begins behind the one before it, the first one at 0, and the last one ends at the size of
-- the file, which is one more than its last byte. Where there are two threads or more, at least a
-- byte for each thread, and the size is a size_t.
pub thread_range-adjoins :
    (file_size n i : ℕ)
    → suc n ≤ file_size
    → file_size < u64_mod
    → i < n
    → ((thread_range file_size (suc n) 0).thread_offset_beg ≡ 0)
      × ((thread_range file_size (suc n) n).thread_offset_end ≡ file_size)
      × ((thread_range file_size (suc n) (suc i)).thread_offset_beg
          ≡ suc (thread_range file_size (suc n) i).thread_offset_end)
unfolding thread_range
thread_range-adjoins file_size n i h b l =
    let q = file_size / suc n in
    let last : sub64 (suc n) 1 ≡ n = omega arith in
    let most = mul-le-mul_right q (let k : suc i ≤ suc n = omega arith in k) in
    let whole = mul-div-le file_size (suc n) in
    let one : 1 * suc n ≤ file_size = omega arith in
    let enough = (le-div_iff_mul-le {k = suc n} {x = 1} {y = file_size} (omega arith)).1 one in
    let step : suc i * q ≡ i * q + q = omega arith in
    (
      omega arith,
      rw (last, ==_refl n) refl,
      rw (last, ==_ne i n (λ e. omega arith), step)
          (next_begin (i * q) q (omega (arith, enough)) (omega (arith, most, whole, step, b))),
    )

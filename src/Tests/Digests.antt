-- ===== src/Tests/Digests.antt =====
-- src/sha1.cpp at the test vectors of test/sha1_test.cpp and FIPS 180.
use daobell.Prelude.{◌≡◌, refl, ok, codes, arith, ◌∷◌, [], replicate}
use daobell.Sha1.{
  sha1_compute, sha1_finish, sha1_context_init, sha1_update, pad_zeros, final_count, digest_bytes,
  update_each, update_blocks,
}
use daobell.Sha1.Reference.{reference_sha1}
use daobell.Sha1.Digest.{update_all, sha1_finish-update_all, sha1_compute-reference}
use mathlib.Core.List.{flatten}
use daobell.Sha1.Transform.{transform, rounds, load_words}

digest_of_abc :
    sha1_compute 21 (replicate 64 0) (codes "abc")
    ≡ ok (
        0xa9 ∷ 0x99 ∷ 0x3e ∷ 0x36 ∷ 0x47 ∷ 0x06 ∷ 0x81 ∷ 0x6a ∷ 0xba ∷ 0x3e ∷ 0x25 ∷ 0x71 ∷ 0x78
        ∷ 0x50 ∷ 0xc2 ∷ 0x6c ∷ 0x9c ∷ 0xd0 ∷ 0xd8 ∷ 0x9d ∷ [])
unfolding sha1_compute sha1_finish sha1_context_init sha1_update pad_zeros final_count digest_bytes
    update_each update_blocks transform rounds load_words
digest_of_abc = refl

sha1_finish-update_all_example :
    sha1_finish (update_all (sha1_context_init (replicate 64 7)) (codes "ab" ∷ codes "c" ∷ []))
    ≡ ok (reference_sha1 (codes "abc"))
unfolding flatten
sha1_finish-update_all_example =
    sha1_finish-update_all (replicate 64 7) (codes "ab" ∷ codes "c" ∷ []) refl (omega arith)

sha1_compute-reference_example :
    sha1_compute 21 (replicate 64 7) (codes "test") ≡ ok (reference_sha1 (codes "test"))
sha1_compute-reference_example =
    sha1_compute-reference 21 (replicate 64 7) (codes "test") (omega arith) refl

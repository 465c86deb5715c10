-- ===== src/Torrent/Verify/Hash.antt =====
-- torrent_sha1_verify is true of the pieces that have the SHA-1 of the metainfo, and of no others.
use daobell.Prelude.{
  ℕ, ◌+◌, ◌*◌, ◌≤◌, ◌<◌, ◌^◌, Bytes, Bool, true, ◌&&◌, ◌==◌, List, [], ◌∷◌, ◌++◌, length, take,
  drop, get_elem?, length-append, length-take, append_assoc, arith, some, ok, Outcome, All, ◌≡◌,
  ◌↔◌, inl, inr, refl, ap, sym, Bool-cases, ==_iff, map, ◌∙◌,
}
use mathlib.Core.List.{flatten}
use daobell.Files.{DnldFile, FileMem, AreMapped, content, read_mem, read_mems}
use daobell.Torrent.{Torrent}
use daobell.Torrent.Verify.{
  memcmp_equal, update_mems, update_requests, verify_request, verify_piece, torrent_sha1_verify,
}
use daobell.Pieces.{BlockRequest, PieceRequest, u32_mod, peer_request_size}
use daobell.Pieces.Create.{read_blocks}
use daobell.Pieces.Layout.{piece_request_create_lem}
use daobell.Sha1.{Context, sha1_context_init, sha1_update, digest_bytes}
use daobell.Sha1.Reference.{reference_sha1}
use daobell.Sha1.Digest.{update_all, FitUpdate, sha1_finish-update_all}

-- A run that answers whether P holds.
pub record Decides {ℓ} (P : Type ℓ) (run : Outcome Bool) : Type ℓ where
  pub answer : Bool
  pub gives : run ≡ ok answer
  pub correct : (answer ≡ true) ↔ P

memcmp_equal-Decides :
    (a c z : Bytes) → length c ≡ length a → Decides (a ≡ c) (memcmp_equal (length a) (a ++ z) c)
unfolding memcmp_equal
memcmp_equal-Decides [] [] z e = record {
  answer = true;
  gives = refl;
  correct = (λ x. refl, λ x. refl);
}
memcmp_equal-Decides [] (y ∷ c) z e = absurd (omega arith)
memcmp_equal-Decides (x ∷ a) [] z e = absurd (omega arith)
memcmp_equal-Decides (x ∷ a) (y ∷ c) z e =
    let rest = memcmp_equal-Decides a c z (omega arith) in
    record {
      answer = x == y && rest.answer;
      gives = rw rest.gives refl;
      correct = elim (Bool-cases (x == y)) [
        | inl h ↦ rw h (
          λ t. let tl : a ≡ c = rest.correct.0 t in let hd = (==_iff x y).0 h in cc,
          λ t. rest.correct.1 (cc),
        )
        | inr h ↦ rw h (
          λ t. absurd (cc),
          λ t. let hd : x ≡ y = cc in let h' = (==_iff x y).1 hd in absurd (cc),
        )
      ];
    }

update_all-append :
    (ctx : Context) (xs ys : List Bytes)
    → update_all ctx (xs ++ ys) ≡ update_all (update_all ctx xs) ys
unfolding update_all
update_all-append ctx [] ys = refl
update_all-append ctx (x ∷ xs) ys = update_all-append (sha1_update ctx x) xs ys

flatten-append : (xs ys : List Bytes) → flatten (xs ++ ys) ≡ flatten xs ++ flatten ys
unfolding flatten
flatten-append [] ys = refl
flatten-append (x ∷ xs) ys = rw (flatten-append xs ys) (sym (append_assoc x _ _))

All-FitUpdate : (chunks : List Bytes) → length (flatten chunks) + 64 ≤ 2 ^ 32 → All FitUpdate chunks
unfolding flatten
All-FitUpdate [] h = tt
All-FitUpdate (c ∷ chunks) h =
    let e = length-append c (flatten chunks) in
    (omega (arith, e), All-FitUpdate chunks (omega (arith, e)))

-- The stretches of memory that verification passes to sha1_update, in their order.
request_chunks : List DnldFile → List BlockRequest → List Bytes
request_chunks files [] = []
request_chunks files (b ∷ blocks) = map (read_mem files) b.file_mems ++ request_chunks files blocks

update_mems-update_all :
    (files : List DnldFile) (ctx : Context) (mems : List FileMem)
    → update_mems files ctx mems ≡ update_all ctx (map (read_mem files) mems)
unfolding update_mems update_all
update_mems-update_all files ctx [] = refl
update_mems-update_all files ctx (m ∷ mems) =
    update_mems-update_all files (sha1_update ctx (read_mem files m)) mems

update_requests-update_all :
    (files : List DnldFile) (blocks : List BlockRequest) (ctx : Context)
    → update_requests files ctx blocks ≡ update_all ctx (request_chunks files blocks)
unfolding update_requests request_chunks update_all
update_requests-update_all files [] ctx = refl
update_requests-update_all files (b ∷ blocks) ctx =
    rw
      (
        update_all-append ctx (map (read_mem files) b.file_mems) (request_chunks files blocks),
        update_mems-update_all files ctx b.file_mems,
      )
      (update_requests-update_all files blocks (update_all ctx (map (read_mem files) b.file_mems)))

flatten-read_mems :
    (files : List DnldFile) (mems : List FileMem)
    → flatten (map (read_mem files) mems) ≡ read_mems files mems
unfolding flatten read_mems
flatten-read_mems files [] = refl
flatten-read_mems files (m ∷ mems) = ap (◌++◌ (read_mem files m)) (flatten-read_mems files mems)

flatten-request_chunks :
    (files : List DnldFile) (blocks : List BlockRequest)
    → flatten (request_chunks files blocks) ≡ read_blocks files blocks
unfolding request_chunks read_blocks flatten
flatten-request_chunks files [] = refl
flatten-request_chunks files (b ∷ blocks) =
    rw
      (
        flatten-append (map (read_mem files) b.file_mems) (request_chunks files blocks),
        flatten-read_mems files b.file_mems,
        flatten-request_chunks files blocks,
      )
      refl

length-reference_sha1 : (m : Bytes) → length (reference_sha1 m) ≡ 20
unfolding reference_sha1 digest_bytes
length-reference_sha1 m = refl

verify_request-Decides :
    (garbage hash bytes : Bytes) (t : Torrent) (r : PieceRequest)
    → length garbage ≡ 64
    → length hash ≡ 20
    → read_blocks t.files r.block_requests ≡ bytes
    → length bytes + 64 ≤ 2 ^ 32
    → Decides (hash ≡ reference_sha1 bytes) (verify_request garbage t hash r)
unfolding verify_request
verify_request-Decides garbage hash bytes t r g h e fit =
    let chunks = request_chunks t.files r.block_requests in
    let spell : flatten chunks ≡ bytes = flatten-request_chunks t.files r.block_requests ∙ e in
    let digest = sha1_finish-update_all garbage chunks g (All-FitUpdate chunks (rw spell fit)) in
    let same = update_requests-update_all t.files r.block_requests (sha1_context_init garbage) in
    rw (same, digest, spell, ← h)
      (memcmp_equal-Decides hash (reference_sha1 bytes) (0 ∷ [])
        (omega (arith, length-reference_sha1 bytes, h)))

-- Verification ends, and is true exactly of a piece whose bytes in the files have the SHA-1 that the
-- metainfo gives. Where the piece length is a multiple of 16 KB, the piece begins below 4 GiB, and
-- its hash has 20 bytes.
pub torrent_sha1_verify-reference :
    (garbage hash : Bytes) (t : Torrent) (index k : ℕ)
    → length garbage ≡ 64
    → AreMapped t.files
    → t.piece_length ≡ k * peer_request_size
    → t.piece_length < u32_mod
    → t.piece_length * index < u32_mod
    → get_elem? t.pieces index ≡ some hash
    → length hash ≡ 20
    → Decides
        (hash
          ≡ reference_sha1 (take t.piece_length (drop (t.piece_length * index) (content t.files))))
        (torrent_sha1_verify garbage t index)
unfolding torrent_sha1_verify verify_piece
torrent_sha1_verify-reference garbage hash t index k g m e lt small found h =
    let bytes = take t.piece_length (drop (t.piece_length * index) (content t.files)) in
    let (r, made, is) = piece_request_create_lem t index k m e lt small in
    let fit : length bytes + 64 ≤ 2 ^ 32 =
      omega (arith, length-take t.piece_length (drop (t.piece_length * index) (content t.files))) in
    rw (found, made) (verify_request-Decides garbage hash bytes t r g h is.reads fit)

-- ===== src/Connection/Incoming/Blocks.antt =====
-- blocks_left against the blocks of a request that are not completed.
use daobell.Prelude.{
  ℕ, ◌+◌, ◌^◌, ◌<◌, ◌==◌, Bool, true, false, ◌&&◌, if◌then◌else◌, Bool-cases, inl, inr, List, [],
  ◌∷◌, Option, none, some, ◌≡◌, ◌↔◌, refl, arith,
}
use daobell.Pieces.{BlockRequest, PieceRequest}
use daobell.Connection.Incoming.{complete_block, count_block, dec32}

-- How many blocks are not completed.
unfoldable pub open_blocks : List BlockRequest → ℕ
open_blocks [] = 0
open_blocks (b ∷ blocks) = (if b.completed then 0 else 1) + open_blocks blocks

abbrev pub IsTallied : PieceRequest → Type 0
IsTallied r = r.blocks_left ≡ open_blocks r.block_requests

-- The first block of this place and length.
unfoldable pub first_block : List BlockRequest → (begin block_len : ℕ) → Option BlockRequest
first_block [] begin block_len = none
first_block (b ∷ blocks) begin block_len =
    if b.len == block_len && b.begin == begin then some b else first_block blocks begin block_len

complete_block-open :
    (blocks : List BlockRequest) (begin block_len : ℕ) (b : BlockRequest)
    → first_block blocks begin block_len ≡ some b
    → (blocks' : List BlockRequest) × (complete_block blocks begin block_len ≡ some blocks')
      × (open_blocks blocks' + (if b.completed then 0 else 1) ≡ open_blocks blocks)
unfolding first_block complete_block open_blocks
complete_block-open [] begin block_len b e = absurd (cc)
complete_block-open (a ∷ blocks) begin block_len b e =
    elim (Bool-cases (a.len == block_len && a.begin == begin)) [
      | inl here ↦
          let same : a ≡ b = cc in
          (record a { completed = true } ∷ blocks, rw here refl, rw same (omega arith))
      | inr later ↦
          let e' : first_block blocks begin block_len ≡ some b = rw later at e in
          let (blocks', run, count) = complete_block-open blocks begin block_len b e' in
          (a ∷ blocks', rw (later, run) refl, omega (arith, count))
    ]

tally :
    (done : Bool) (m n : ℕ)
    → m + (if done then 0 else 1) ≡ n
    → n < 2 ^ 32
    → (dec32 n ≡ m) ↔ (done ≡ false)
tally true m n e h = (λ x. absurd (omega arith), λ x. absurd (cc))
tally false m n e h = (λ x. refl, λ x. omega arith)

-- When a block comes of a request whose blocks_left is right, blocks_left stays right exactly if that
-- block had not come before.
pub count_block-IsTallied :
    (r : PieceRequest) (begin block_len : ℕ) (b : BlockRequest)
    → IsTallied r
    → r.blocks_left < 2 ^ 32
    → first_block r.block_requests begin block_len ≡ some b
    → IsTallied (count_block r begin block_len) ↔ (b.completed ≡ false)
unfolding count_block
count_block-IsTallied r begin block_len b w h e =
    let (blocks', run, count) = complete_block-open r.block_requests begin block_len b e in
    rw run (tally b.completed (open_blocks blocks') r.blocks_left (omega (arith, count, w)) h)

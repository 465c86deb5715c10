-- ===== src/Torrent/Bitfield.antt =====
-- torrent_make_bitfield marks the pieces that the torrent has.
use daobell.Prelude.{
  ℕ, zero, suc, true, false, if◌then◌else◌, List, [], ◌∷◌, map, length, replicate, ◌≡◌, refl, ok,
}
use native.Mathlib.Numerals.{unary_clauses}
use daobell.Torrent.{
  Torrent, PieceState, not_requested, requested, have, is_have, resize, mark_have,
  torrent_make_bitfield,
}

mark_bit : (s : PieceState) → (if is_have s then true else false) ≡ is_have s
unfolding is_have
mark_bit not_requested = refl
mark_bit requested = refl
mark_bit have = refl

mark_have-replicate :
    (states : List PieceState)
    → mark_have states (replicate (length states) false) ≡ ok (map is_have states)
unfolding mark_have
mark_have-replicate [] = refl
mark_have-replicate (s ∷ states) = rw (mark_have-replicate states, mark_bit s)

pub resize-nil : (n : ℕ) → resize n [] ≡ replicate n false
unfolding resize
resize-nil zero = refl
resize-nil (suc n) = simp unary_clauses refl

-- The bits of a new bitfield are on for the pieces that the torrent has, and off for the others.
-- Where each piece has a state.
pub torrent_make_bitfield-have :
    (t : Torrent)
    → length t.pieces ≡ length t.sh.pieces_state
    → torrent_make_bitfield t [] ≡ ok (map is_have t.sh.pieces_state)
unfolding torrent_make_bitfield
torrent_make_bitfield-have t e =
    rw (e, resize-nil (length t.sh.pieces_state)) (mark_have-replicate t.sh.pieces_state)

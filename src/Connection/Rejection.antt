-- ===== src/Connection/Rejection.antt =====
-- A piece whose bytes do not have its hash is asked for again.
use daobell.Prelude.{
  ℕ, zero, suc, List, [], ◌∷◌, get_elem?, set, length-set, some, ◌≡◌, ◌≢◌, ◌↔◌, refl, ◌∙◌, arith,
}
use daobell.Torrent.{Torrent, PieceState, have, requested, not_requested, set_state}
use daobell.Torrent.Counting.{missing, IsCounted}
use daobell.Connection.{reject_piece}

pub missing-set_not_requested :
    (states : List PieceState) (i : ℕ) (s : PieceState)
    → get_elem? states i ≡ some s
    → s ≢ have
    → missing (set states i not_requested) ≡ missing states
unfolding missing
missing-set_not_requested [] i s e h = absurd (cc)
missing-set_not_requested (not_requested ∷ states) zero s e h = refl
missing-set_not_requested (requested ∷ states) zero s e h = refl
missing-set_not_requested (have ∷ states) zero s e h = absurd (h cc)
missing-set_not_requested (not_requested ∷ states) (suc i) s e h =
    omega (arith, missing-set_not_requested states i s e h)
missing-set_not_requested (requested ∷ states) (suc i) s e h =
    omega (arith, missing-set_not_requested states i s e h)
missing-set_not_requested (have ∷ states) (suc i) s e h = missing-set_not_requested states i s e h

-- A piece that the torrent had is one more that is missing.
pub missing-set_lost :
    (states : List PieceState) (i : ℕ)
    → get_elem? states i ≡ some have
    → missing (set states i not_requested) ≡ suc (missing states)
unfolding missing
missing-set_lost [] i e = absurd (cc)
missing-set_lost (not_requested ∷ states) zero e = absurd (cc)
missing-set_lost (requested ∷ states) zero e = absurd (cc)
missing-set_lost (have ∷ states) zero e = refl
missing-set_lost (not_requested ∷ states) (suc i) e = omega (arith, missing-set_lost states i e)
missing-set_lost (requested ∷ states) (suc i) e = omega (arith, missing-set_lost states i e)
missing-set_lost (have ∷ states) (suc i) e = missing-set_lost states i e

-- The count of the missing pieces survives the rejection of a piece exactly where the torrent did
-- not have that piece.
pub reject_piece-IsCounted :
    (t : Torrent) (index : ℕ) (s : PieceState)
    → IsCounted t
    → get_elem? t.sh.pieces_state index ≡ some s
    → IsCounted (reject_piece t index) ↔ (s ≢ have)
unfolding reject_piece set_state
reject_piece-IsCounted t index s w e = (
  λ w' same.
      let lost = missing-set_lost t.sh.pieces_state index (e ∙ rw same refl) in
      absurd (let c = w'.counted in omega (arith, w.counted, lost, c)),
  λ ne.
      let count = missing-set_not_requested t.sh.pieces_state index s e ne in
      record {
        sized = length-set t.sh.pieces_state index not_requested ∙ w.sized;
        counted = rw count w.counted;
        flagged = rw count w.flagged;
        words = w.words;
      },
)

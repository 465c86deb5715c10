-- ===== src/Torrent/Counting.antt =====
-- pieces_left is the number of pieces that the torrent does not have.
use daobell.Prelude.{
  ℕ, zero, suc, ◌+◌, ◌≤◌, ◌<◌, ◌^◌, Bool, true, List, [], ◌∷◌, length, get_elem?, set, length-set,
  some, none, Option, subst, sym, ◌∙◌, ◌≡◌, ◌≢◌, ◌↔◌, refl, arith, ok,
}
use daobell.Torrent.Requests.{Chosen, fresh, again, kept, answer, torrent_next_request-Chosen}
use daobell.Torrent.{
  Torrent, PieceState, not_requested, requested, have, set_state, torrent_next_request,
}

-- How many pieces the torrent does not have.
unfoldable pub missing : List PieceState → ℕ
missing [] = 0
missing (have ∷ states) = missing states
missing (requested ∷ states) = suc (missing states)
missing (not_requested ∷ states) = suc (missing states)

-- Each piece has a state, `pieces_left` counts those that are missing, and `completed` is set when
-- there are none.
pub record IsCounted (t : Torrent) : Type 0 where
  pub sized : length t.sh.pieces_state ≡ length t.pieces
  pub counted : t.sh.pieces_left ≡ missing t.sh.pieces_state
  pub flagged : (t.sh.completed ≡ true) ↔ (missing t.sh.pieces_state ≡ 0)
  pub words : length t.pieces < 2 ^ 32

pub missing-le-length : (states : List PieceState) → missing states ≤ length states
unfolding missing
missing-le-length [] = omega arith
missing-le-length (have ∷ states) = omega (arith, missing-le-length states)
missing-le-length (requested ∷ states) = omega (arith, missing-le-length states)
missing-le-length (not_requested ∷ states) = omega (arith, missing-le-length states)

-- A piece that arrives is one fewer.
pub missing-set_have :
    (states : List PieceState) (i : ℕ) (s : PieceState)
    → get_elem? states i ≡ some s
    → s ≢ have
    → suc (missing (set states i have)) ≡ missing states
unfolding missing
missing-set_have [] i s e h = absurd (cc)
missing-set_have (not_requested ∷ states) zero s e h = refl
missing-set_have (requested ∷ states) zero s e h = refl
missing-set_have (have ∷ states) zero s e h = absurd (h cc)
missing-set_have (not_requested ∷ states) (suc i) s e h =
    omega (arith, missing-set_have states i s e h)
missing-set_have (requested ∷ states) (suc i) s e h = omega (arith, missing-set_have states i s e h)
missing-set_have (have ∷ states) (suc i) s e h = missing-set_have states i s e h

-- A request for a missing piece leaves their number.
pub missing-set_requested :
    (states : List PieceState) (i : ℕ) (s : PieceState)
    → get_elem? states i ≡ some s
    → s ≢ have
    → missing (set states i requested) ≡ missing states
unfolding missing
missing-set_requested [] i s e h = absurd (cc)
missing-set_requested (not_requested ∷ states) zero s e h = refl
missing-set_requested (requested ∷ states) zero s e h = refl
missing-set_requested (have ∷ states) zero s e h = absurd (h cc)
missing-set_requested (not_requested ∷ states) (suc i) s e h =
    omega (arith, missing-set_requested states i s e h)
missing-set_requested (requested ∷ states) (suc i) s e h =
    omega (arith, missing-set_requested states i s e h)
missing-set_requested (have ∷ states) (suc i) s e h = missing-set_requested states i s e h

pub Chosen-missing :
    {states : List PieceState} {peer : List Bool} {i : ℕ}
    → Chosen states peer 0 none (some i)
    → (s : PieceState) × (get_elem? states i ≡ some s) × (s ≢ have)
Chosen-missing {i = i} (fresh j e o b) =
    let placed : i ≡ 0 + j = cc in
    let same : i ≡ j = omega arith in (not_requested, rw same o.0, λ x. cc)
Chosen-missing {i = i} (again j e o b l) =
    let placed : i ≡ 0 + j = cc in
    let same : i ≡ j = omega arith in (requested, rw same o.0, λ x. cc)
Chosen-missing (kept e b l) = absurd (cc)

answer-IsCounted :
    (t t' : Torrent) (peer : List Bool) (i : ℕ) (r : Option ℕ)
    → IsCounted t
    → Chosen t.sh.pieces_state peer 0 none r
    → answer t r ≡ some (i, t')
    → IsCounted t'
unfolding set_state
answer-IsCounted t t' peer i none w c e = absurd (cc)
answer-IsCounted t t' peer i (some j) w c e =
    let same : set_state t j requested ≡ t' = cc in
    let (s, at, ne) = Chosen-missing c in
    let count = missing-set_requested t.sh.pieces_state j s at ne in
    subst IsCounted same (record {
      sized = length-set t.sh.pieces_state j requested ∙ w.sized;
      counted = rw count w.counted;
      flagged = rw count w.flagged;
      words = w.words;
    })

-- A request for the next piece keeps the count of the pieces that are missing. Where the peer has a
-- bit for each piece.
pub torrent_next_request-IsCounted :
    (t t' : Torrent) (peer : List Bool) (i : ℕ)
    → IsCounted t
    → length t.pieces ≡ length peer
    → torrent_next_request t peer ≡ ok (some (i, t'))
    → IsCounted t'
torrent_next_request-IsCounted t t' peer i w e run =
    let (r, run', chosen) = torrent_next_request-Chosen t peer (sym w.sized) e in
    let same : ok (answer t r) ≡ ok (some (i, t')) = sym run' ∙ run in
    answer-IsCounted t t' peer i r w chosen (cc)

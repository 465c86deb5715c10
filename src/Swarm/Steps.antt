-- ===== src/Swarm/Steps.antt =====
-- What each step does to the count of the missing pieces.
use daobell.Prelude.{
  ℕ, zero, suc, ◌+◌, ◌^◌, ◌<◌, Bool, true, false, Bool-cases, ltb, ltb→lt, ◌==◌, ==_iff, ==_false,
  inl, inr, List, [], ◌∷◌, length, get_elem?, set, length-set, Option, none, some, ok, arith, ◌≡◌,
  ◌≢◌, ◌↔◌, refl, sym, ◌∙◌, ap, subst,
}
use daobell.Torrent.{
  Torrent, PieceState, have, requested, not_requested, is_have, torrent_next_request, set_state,
}
use daobell.Torrent.Requests.{answer, Chosen, torrent_next_request-Chosen}
use daobell.Torrent.Counting.{
  missing, IsCounted, missing-le-length, missing-set_have, missing-set_requested, Chosen-missing,
}
use daobell.Connection.{mark_piece, count_piece, set_completed, reject_piece}
use daobell.Connection.Rejection.{missing-set_not_requested, missing-set_lost}
use daobell.Swarm.{one_if_had, lost_piece}

-- pieces_left is too small by the pieces that were lost, and `completed` is set when it is 0.
pub record IsShortBy (lost : ℕ) (t : Torrent) : Type 0 where
  pub sized : length t.sh.pieces_state ≡ length t.pieces
  pub counted : t.sh.pieces_left + lost ≡ missing t.sh.pieces_state
  pub flagged : (t.sh.completed ≡ true) ↔ (t.sh.pieces_left ≡ 0)
  pub words : length t.pieces < 2 ^ 32

pub IsCounted-IsShortBy : (t : Torrent) → IsCounted t → IsShortBy 0 t
IsCounted-IsShortBy t w = record {
  sized = w.sized;
  counted = omega (arith, w.counted);
  flagged = (λ c. w.counted ∙ w.flagged.0 c, λ z. w.flagged.1 (sym w.counted ∙ z));
  words = w.words;
}

pub IsShortBy-IsCounted : (t : Torrent) → IsShortBy 0 t → IsCounted t
IsShortBy-IsCounted t w =
    let same : t.sh.pieces_left ≡ missing t.sh.pieces_state = omega (arith, w.counted) in
    record {
      sized = w.sized;
      counted = same;
      flagged = (λ c. sym same ∙ w.flagged.0 c, λ z. w.flagged.1 (same ∙ z));
      words = w.words;
    }

-- A state set for another, with as many pieces missing.
set_state-IsShortBy :
    (n index : ℕ) (t : Torrent) (s : PieceState)
    → IsShortBy n t
    → missing (set t.sh.pieces_state index s) ≡ missing t.sh.pieces_state
    → IsShortBy n (set_state t index s)
unfolding set_state
set_state-IsShortBy n index t s w e = record {
  sized = length-set t.sh.pieces_state index s ∙ w.sized;
  counted = w.counted ∙ sym e;
  flagged = w.flagged;
  words = w.words;
}

answer_missing :
    (t t' : Torrent) (peer_have : List Bool) (p : ℕ) (r : Option ℕ)
    → Chosen t.sh.pieces_state peer_have 0 none r
    → answer t r ≡ some (p, t')
    → (s : PieceState) × (get_elem? t.sh.pieces_state p ≡ some s)
      × (s ≢ have)
      × (set_state t p requested ≡ t')
answer_missing t t' peer_have p none c e = absurd (cc)
answer_missing t t' peer_have p (some j) c e =
    let same : set_state t j requested ≡ t' = cc in
    let at : j ≡ p = cc in
    let (s, here, ne) = Chosen-missing c in (s, rw (← at) here, ne, rw (← at) same)

-- torrent_next_request asks for a piece that is missing.
pub asks_missing :
    (n p : ℕ) (t t' : Torrent) (peer_have : List Bool)
    → IsShortBy n t
    → torrent_next_request t peer_have ≡ ok (some (p, t'))
    → (s : PieceState) × (get_elem? t.sh.pieces_state p ≡ some s)
      × (s ≢ have)
      × (set_state t p requested ≡ t')
unfolding torrent_next_request
asks_missing n p t t' peer_have w run =
    let states : (length t.pieces == length t.sh.pieces_state) ≡ true =
      (==_iff (length t.pieces) (length t.sh.pieces_state)).1 (sym w.sized) in
    elim (Bool-cases (length t.pieces == length peer_have)) [
      | inr differ ↦ absurd (let z = rw (states, differ) at run in cc)
      | inl bits ↦
          let (r, run', chosen) =
            torrent_next_request-Chosen t peer_have (sym w.sized) ((==_iff _ _).0 bits) in
          let same : ok (answer t r) ≡ ok (some (p, t')) = sym run' ∙ run in
          answer_missing t t' peer_have p r chosen (cc)
    ]

pub asks-IsShortBy :
    (n p : ℕ) (t t' : Torrent) (peer_have : List Bool)
    → IsShortBy n t
    → torrent_next_request t peer_have ≡ ok (some (p, t'))
    → IsShortBy n t'
asks-IsShortBy n p t t' peer_have w run =
    let (s, at, ne, same) = asks_missing n p t t' peer_have w run in
    subst (IsShortBy n) same
      (set_state-IsShortBy n p t requested w (missing-set_requested t.sh.pieces_state p s at ne))

set_outside :
    (states : List PieceState) (i : ℕ) (s : PieceState)
    → get_elem? states i ≡ none
    → set states i s ≡ states
set_outside [] i s e = refl
set_outside (u ∷ states) zero s e = cc
set_outside (u ∷ states) (suc i) s e = rw (set_outside states i s e) refl

module _ (n index : ℕ) (t : Torrent) (w : IsShortBy n t) where
  count_piece-IsShortBy :
      (s : PieceState)
      → get_elem? t.sh.pieces_state index ≡ some s
      → s ≢ have
      → (count_piece t index).sh.pieces_left < length t.pieces
      → ((count_piece t index).sh.pieces_left + n ≡ missing (set t.sh.pieces_state index have))
        × (suc (count_piece t index).sh.pieces_left ≡ t.sh.pieces_left)
  unfolding count_piece
  count_piece-IsShortBy s e ne lt =
      let count = missing-set_have t.sh.pieces_state index s e ne in
      let bound = missing-le-length t.sh.pieces_state in
      (
        omega (arith, w.counted, count, bound, w.words, w.sized, lt),
        omega (arith, w.counted, bound, w.words, w.sized, lt),
      )

  marked-IsShortBy :
      (t' : Torrent) (completed : Bool) (s : PieceState)
      → get_elem? t.sh.pieces_state index ≡ some s
      → is_have s ≡ false
      → s ≢ have
      → mark_piece t index (some s) ≡ ok (t', completed)
      → IsShortBy n t'
  unfolding mark_piece count_piece set_completed
  marked-IsShortBy t' completed s e h ne run =
      elim (Bool-cases (ltb (count_piece t index).sh.pieces_left (length t.pieces))) [
        | inr over ↦ absurd (let z = rw (h, over) at run in cc)
        | inl under ↦
            let lt = ltb→lt _ _ under in
            let (count, fewer) = count_piece-IsShortBy s e ne lt in
            let sized = length-set t.sh.pieces_state index have ∙ w.sized in
            elim (Bool-cases ((count_piece t index).sh.pieces_left == 0)) [
              | inl last ↦
                  let same : set_completed (count_piece t index) ≡ t' =
                    let z = rw (h, under, last) at run in cc in
                  let none_left = (==_iff _ 0).0 last in
                  subst (IsShortBy n) same (record {
                    sized = sized;
                    counted = count;
                    flagged = (λ c. none_left, λ z. refl);
                    words = w.words;
                  })
              | inr more ↦
                  let same : count_piece t index ≡ t' = let z = rw (h, under, more) at run in cc in
                  let some_left = ==_false _ 0 more in
                  subst (IsShortBy n) same (record {
                    sized = sized;
                    counted = count;
                    flagged = (
                      λ c. absurd (let z = w.flagged.0 c in omega (arith, z, fewer)),
                      λ z. absurd (some_left z),
                    );
                    words = w.words;
                  })
            ]
      ]

  pub mark_piece-IsShortBy :
      (t' : Torrent) (completed : Bool) (r : Option PieceState)
      → get_elem? t.sh.pieces_state index ≡ r
      → mark_piece t index r ≡ ok (t', completed)
      → IsShortBy n t'
  unfolding mark_piece is_have
  mark_piece-IsShortBy t' completed none e run = absurd (cc)
  mark_piece-IsShortBy t' completed (some have) e run =
      let same : t ≡ t' = cc in subst (IsShortBy n) same w
  mark_piece-IsShortBy t' completed (some requested) e run =
      marked-IsShortBy t' completed requested e refl (λ z. cc) run
  mark_piece-IsShortBy t' completed (some not_requested) e run =
      marked-IsShortBy t' completed not_requested e refl (λ z. cc) run

  kept :
      (s : PieceState)
      → missing (set t.sh.pieces_state index s) ≡ missing t.sh.pieces_state
      → IsShortBy (n + 0) (set_state t index s)
  kept s e =
      let same : n ≡ n + 0 = omega arith in
      subst (λ k. IsShortBy k (set_state t index s)) same (set_state-IsShortBy n index t s w e)

  -- A rejection of a piece that the torrent had leaves pieces_left too small by one more.
  rejected-IsShortBy :
      (r : Option PieceState)
      → get_elem? t.sh.pieces_state index ≡ r
      → IsShortBy (n + one_if_had r) (reject_piece t index)
  unfolding reject_piece one_if_had is_have
  rejected-IsShortBy none e =
      kept not_requested (ap missing (set_outside t.sh.pieces_state index not_requested e))
  rejected-IsShortBy (some have) e =
      unfold set_state in
      record {
        sized = length-set t.sh.pieces_state index not_requested ∙ w.sized;
        counted = omega (arith, w.counted, missing-set_lost t.sh.pieces_state index e);
        flagged = w.flagged;
        words = w.words;
      }
  rejected-IsShortBy (some requested) e =
      kept not_requested (missing-set_not_requested t.sh.pieces_state index requested e (λ z. cc))
  rejected-IsShortBy (some not_requested) e =
      kept not_requested
        (missing-set_not_requested t.sh.pieces_state index not_requested e (λ z. cc))

  pub reject_piece-IsShortBy : IsShortBy (n + lost_piece t index) (reject_piece t index)
  unfolding lost_piece
  reject_piece-IsShortBy = rejected-IsShortBy (get_elem? t.sh.pieces_state index) refl

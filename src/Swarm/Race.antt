-- ===== src/Swarm/Race.antt =====
-- What the connections may take from each other.
use daobell.Prelude.{
  Bytes, ℕ, ◌+◌, Bool, Bool-cases, false, ltb, ◌==◌, List, length, get_elem?, get_elem?-set_ne, set,
  Option, none, some, ok, inl, inr, arith, ◌≡◌, ◌≢◌, refl, sym, ◌∙◌, ap, subst,
}
use daobell.Torrent.{Torrent, PieceState, have, requested, not_requested, is_have, set_state}
use daobell.Torrent.Counting.{IsCounted}
use daobell.Connection.{mark_piece, count_piece, set_completed, reject_piece, torrent_complete}
use daobell.Swarm.{
  Swarm, one_if_had, lost_piece, Move, asks, writes, downloads, rejects, completes, leaves, Runs,
  rests, goes_on,
}
use daobell.Swarm.Steps.{IsShortBy, IsCounted-IsShortBy, asks_missing}
use daobell.Swarm.Counting.{Runs-IsShortBy}

-- The piece is the torrent's.
abbrev pub Has : Torrent → ℕ → Type 0
Has t p = get_elem? t.sh.pieces_state p ≡ some have

lost_piece-had :
    (t : Torrent) (p : ℕ) → get_elem? t.sh.pieces_state p ≡ some have → lost_piece t p ≡ 1
unfolding lost_piece one_if_had is_have
lost_piece-had t p e = rw e refl

-- The state of another piece is set.
set_keeps :
    (states : List PieceState) (q p : ℕ) (s u : PieceState)
    → get_elem? states q ≡ some u
    → u ≢ have
    → get_elem? states p ≡ some have
    → get_elem? (set states q s) p ≡ some have
set_keeps states q p s u at ne has =
    let differ : q ≢ p =
      λ e. ne (let both : some u ≡ some have = sym at ∙ (ap (get_elem? states) e ∙ has) in cc) in
    get_elem?-set_ne states q p s differ ∙ has

marked-Has :
    (t t' : Torrent) (q p : ℕ) (completed : Bool) (s : PieceState)
    → get_elem? t.sh.pieces_state q ≡ some s
    → is_have s ≡ false
    → s ≢ have
    → mark_piece t q (some s) ≡ ok (t', completed)
    → Has t p
    → Has t' p
unfolding mark_piece count_piece set_completed
marked-Has t t' q p completed s at h ne run has =
    let kept = set_keeps t.sh.pieces_state q p have s at ne has in
    elim (Bool-cases (ltb (count_piece t q).sh.pieces_left (length t.pieces))) [
      | inr over ↦ absurd (let z = rw (h, over) at run in cc)
      | inl under ↦ elim (Bool-cases ((count_piece t q).sh.pieces_left == 0)) [
        | inl last ↦
            let same : set_completed (count_piece t q) ≡ t' =
              let z = rw (h, under, last) at run in cc in
            subst (λ u. Has u p) same kept
        | inr more ↦
            let same : count_piece t q ≡ t' = let z = rw (h, under, more) at run in cc in
            subst (λ u. Has u p) same kept
      ]
    ]

mark_piece-Has :
    (t t' : Torrent) (q p : ℕ) (completed : Bool) (r : Option PieceState)
    → get_elem? t.sh.pieces_state q ≡ r
    → mark_piece t q r ≡ ok (t', completed)
    → Has t p
    → Has t' p
unfolding mark_piece is_have
mark_piece-Has t t' q p completed none at run has = cc
mark_piece-Has t t' q p completed (some have) at run has =
    let same : t ≡ t' = cc in subst (λ u. Has u p) same has
mark_piece-Has t t' q p completed (some requested) at run has =
    marked-Has t t' q p completed requested at refl (λ z. cc) run has
mark_piece-Has t t' q p completed (some not_requested) at run has =
    marked-Has t t' q p completed not_requested at refl (λ z. cc) run has

Move-Has :
    (garbage : Bytes) (w v : Swarm) (n m p : ℕ)
    → IsShortBy n w.torrent
    → m ≡ 0
    → Has w.torrent p
    → Move garbage w v m
    → Has v.torrent p
Move-Has garbage w v n m p k z has (asks peer_have q t run) =
    let (s, at, ne, same) = asks_missing n q w.torrent t peer_have k run in
    subst (λ u. Has u p) same
      (unfold set_state in set_keeps w.torrent.sh.pieces_state q p requested s at ne has)
Move-Has garbage w v n m p k z has (writes files) = has
Move-Has garbage w v n m p k z has (downloads front back q t completed at run) =
    mark_piece-Has w.torrent t q p completed _ refl run has
Move-Has garbage w v n m p k z has (rejects front back q at bad) =
    let differ : q ≢ p = λ e.
      let one = lost_piece-had w.torrent q (ap (get_elem? w.torrent.sh.pieces_state) e ∙ has) in
      absurd (omega (arith, one, z)) in
    unfold reject_piece set_state in
    get_elem?-set_ne w.torrent.sh.pieces_state q p not_requested differ ∙ has
Move-Has garbage w v n m p k z has (completes c) = unfold torrent_complete set_completed in has
Move-Has garbage w v n m p k z has (leaves front requests back at) = has

-- A piece that the torrent has stays its own, in whatever order the connections make their steps, while no piece that it
-- has is rejected. Where the count was right at the start.
pub Runs-Has :
    (garbage : Bytes) (w v : Swarm) (lost p : ℕ)
    → IsCounted w.torrent
    → lost ≡ 0
    → Has w.torrent p
    → Runs garbage w v lost
    → Has v.torrent p
Runs-Has garbage w v lost p k z has rests = has
Runs-Has garbage w v lost p k z has (goes_on u v' m n run move) =
    let short = Runs-IsShortBy garbage w u 0 m (IsCounted-IsShortBy w.torrent k) run in
    Move-Has garbage u v' (0 + m) n p short (omega arith)
      (Runs-Has garbage w u m p k (omega arith) has run) move

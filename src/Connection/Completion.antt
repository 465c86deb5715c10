-- ===== src/Connection/Completion.antt =====
-- handle_piece_dnld_completion keeps the count of the pieces that are missing.
use daobell.Prelude.{
  ℕ, zero, suc, ◌^◌, ◌<◌, Bool, true, false, ◌==◌, Bool-cases, inl, inr, List, length, get_elem?,
  get_elem?-some, set, length-set, some, Option, [], ◌∷◌, Outcome, ok, ◌≡◌, ◌≢◌, refl, sym, ◌∙◌,
  arith, lt→ltb, ==_ne, ==_iff, if◌then◌else◌,
}
use daobell.Torrent.{Torrent, PieceState, have, requested, not_requested, is_have}
use daobell.Torrent.Counting.{missing, IsCounted, missing-set_have, missing-le-length}
use daobell.Net.{Socket}
use daobell.Net.Sending.{IsStream, Sends-ends}
use daobell.Message.{PeerMsg}
use daobell.Message.Send.{peer_msg_send}
use daobell.Message.Wire.Sent.{peer_msg_send-wire}
use daobell.Connection.{
  mark_piece, count_piece, set_completed, torrent_complete, handle_piece_dnld_completion,
}

-- The torrent after the piece was marked, and whether it was the last.
pub record Marks (t : Torrent) (index : ℕ) (run : Outcome (Torrent × Bool)) : Type 0 where
  pub after : Torrent
  pub last : Bool
  pub gives : run ≡ ok (after, last)
  pub now_have : after.sh.pieces_state ≡ set t.sh.pieces_state index have
  pub counts : IsCounted after
  pub same_pieces : after.pieces ≡ t.pieces
  pub last_means : (last ≡ true) → after.sh.completed ≡ true

set_same :
    (states : List PieceState) (i : ℕ) → get_elem? states i ≡ some have → set states i have ≡ states
set_same [] i e = refl
set_same (s ∷ states) zero e = let z : s ≡ have = cc in rw z refl
set_same (s ∷ states) (suc i) e = rw (set_same states i e) refl

module _ (t : Torrent) (index : ℕ) (w : IsCounted t) where
  have_Marks :
      get_elem? t.sh.pieces_state index ≡ some have → Marks t index (mark_piece t index (some have))
  unfolding mark_piece is_have
  have_Marks e = record {
    after = t;
    last = false;
    gives = refl;
    now_have = sym (set_same t.sh.pieces_state index e);
    counts = w;
    same_pieces = refl;
    last_means = λ l. cc;
  }

  -- The counters after the piece.
  module _ (s : PieceState) (e : get_elem? t.sh.pieces_state index ≡ some s) (ne : s ≢ have) where
    counted_left :
        ((count_piece t index).sh.pieces_left ≡ missing (set t.sh.pieces_state index have))
        × ((count_piece t index).sh.pieces_left < length t.pieces)
    unfolding count_piece
    counted_left =
        let count = missing-set_have t.sh.pieces_state index s e ne in
        let bound = missing-le-length t.sh.pieces_state in
        (
          omega (arith, w.counted, count, bound, w.words, w.sized),
          omega (arith, w.counted, count, bound, w.words, w.sized),
        )

    last_Marks :
        is_have s ≡ false
        → (count_piece t index).sh.pieces_left ≡ 0
        → Marks t index (mark_piece t index (some s))
    unfolding mark_piece count_piece set_completed
    last_Marks h z = record {
      after = set_completed (count_piece t index);
      last = true;
      gives = rw (h, lt→ltb _ _ counted_left.1, z) refl;
      now_have = refl;
      counts = record {
        sized = length-set t.sh.pieces_state index have ∙ w.sized;
        counted = counted_left.0;
        flagged = (λ _. sym counted_left.0 ∙ z, λ _. refl);
        words = w.words;
      };
      same_pieces = refl;
      last_means = λ _. refl;
    }

    more_Marks :
        is_have s ≡ false
        → (count_piece t index).sh.pieces_left ≢ 0
        → Marks t index (mark_piece t index (some s))
    unfolding mark_piece count_piece
    more_Marks h nz = record {
      after = count_piece t index;
      last = false;
      gives = rw (h, lt→ltb _ _ counted_left.1, ==_ne _ 0 nz) refl;
      now_have = refl;
      counts = record {
        sized = length-set t.sh.pieces_state index have ∙ w.sized;
        counted = counted_left.0;
        flagged = (
          λ c. absurd (
              let z = w.flagged.0 c in
              omega (arith, z, missing-set_have t.sh.pieces_state index s e ne)),
          λ z. absurd (nz (counted_left.0 ∙ z)),
        );
        words = w.words;
      };
      same_pieces = refl;
      last_means = λ l. cc;
    }

    missing_Marks : is_have s ≡ false → Marks t index (mark_piece t index (some s))
    missing_Marks h = elim (Bool-cases ((count_piece t index).sh.pieces_left == 0)) [
      | inl z ↦ last_Marks h ((==_iff (count_piece t index).sh.pieces_left 0).0 z)
      | inr nz ↦
          more_Marks h
            (λ z. absurd (let z' = (==_iff (count_piece t index).sh.pieces_left 0).1 z in cc))
    ]

  pub mark_piece-Marks :
      (s : PieceState)
      → get_elem? t.sh.pieces_state index ≡ some s
      → Marks t index (mark_piece t index (some s))
  unfolding is_have
  mark_piece-Marks not_requested e = missing_Marks not_requested e (λ x. cc) refl
  mark_piece-Marks requested e = missing_Marks requested e (λ x. cc) refl
  mark_piece-Marks have e = have_Marks e

-- A send comes to an end, whether it succeeds or not, and receives nothing.
have-sent :
    {S : Socket} (I : IsStream S) (t : Torrent) (index : ℕ) (s : S.State)
    → index < 2 ^ 32
    → (r : Option (Unit {0})) × (s' : S.State) × (peer_msg_send S t (PeerMsg.have index) s
        ≡ ok (r, s'))
      × (I.pending s' ≡ I.pending s)
have-sent I t index s h = Sends-ends I (peer_msg_send-wire I t (PeerMsg.have index) s h)

-- The torrent after the message: a piece that was the last one completes it.
completed-IsCounted :
    (t : Torrent) (last : Bool)
    → IsCounted t
    → ((last ≡ true) → t.sh.completed ≡ true)
    → IsCounted (if last then torrent_complete t else t)
unfolding torrent_complete set_completed
completed-IsCounted t true w h = record {
  sized = w.sized;
  counted = w.counted;
  flagged = (λ _. w.flagged.0 (h refl), λ _. refl);
  words = w.words;
}
completed-IsCounted t false w h = w

completed-pieces_state :
    (t : Torrent) (last : Bool)
    → (if last then torrent_complete t else t).sh.pieces_state ≡ t.sh.pieces_state
unfolding torrent_complete set_completed
completed-pieces_state t true = refl
completed-pieces_state t false = refl

completed-pieces :
    (t : Torrent) (last : Bool) → (if last then torrent_complete t else t).pieces ≡ t.pieces
unfolding torrent_complete set_completed
completed-pieces t true = refl
completed-pieces t false = refl

-- The end of the handler: what it returns, and what it has kept.
pub record Completes {S : Socket} (I : IsStream S) (t : Torrent) (index : ℕ) (s : S.State)
    (run : Outcome (Torrent × S.State)) : Type 0 where
  pub torrent : Torrent
  pub socket : S.State
  pub gives : run ≡ ok (torrent, socket)
  pub now_have : torrent.sh.pieces_state ≡ set t.sh.pieces_state index have
  pub counts : IsCounted torrent
  pub same_pieces : torrent.pieces ≡ t.pieces
  pub quiet : I.pending socket ≡ I.pending s

pub handle_piece_dnld_completion-Completes :
    {S : Socket} (I : IsStream S) (t : Torrent) (index : ℕ) (s : S.State)
    → IsCounted t
    → index < length t.pieces
    → Completes I t index s (handle_piece_dnld_completion S t index s)
unfolding handle_piece_dnld_completion
handle_piece_dnld_completion-Completes I t index s w h =
    let (state, e) = get_elem?-some t.sh.pieces_state index (omega (arith, w.sized)) in
    let m = mark_piece-Marks t index w state e in
    let t' = if m.last then torrent_complete m.after else m.after in
    let (r, s', run, quiet) = have-sent I t' index s (omega (arith, w.words)) in
    record {
      torrent = t';
      socket = s';
      gives = rw (lt→ltb index (length t.pieces) h, e, m.gives, run) refl;
      now_have = completed-pieces_state m.after m.last ∙ m.now_have;
      counts = completed-IsCounted m.after m.last m.counts m.last_means;
      same_pieces = completed-pieces m.after m.last ∙ m.same_pieces;
      quiet = quiet;
    }

-- Where the count of the missing pieces was right before, and the index is that of a piece of the
-- torrent: handle_piece_dnld_completion returns, the torrent has the piece, the count is right after
-- it, and `completed` is set with the last one, also if the peer cannot be told.
pub handle_piece_dnld_completion-IsCounted :
    {S : Socket} (I : IsStream S) (t : Torrent) (index : ℕ) (s : S.State)
    → IsCounted t
    → index < length t.pieces
    → (t' : Torrent) × (s' : S.State) × (handle_piece_dnld_completion S t index s ≡ ok (t', s'))
      × (t'.sh.pieces_state ≡ set t.sh.pieces_state index have)
      × IsCounted t'
handle_piece_dnld_completion-IsCounted I t index s w h =
    let c = handle_piece_dnld_completion-Completes I t index s w h in
    (c.torrent, c.socket, c.gives, c.now_have, c.counts)

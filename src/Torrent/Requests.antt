-- ===== src/Torrent/Requests.antt =====
-- torrent_next_request: which piece it asks for.
use daobell.Prelude.{
  ℕ, zero, suc, ◌+◌, ◌<◌, Bool, true, false, List, [], ◌∷◌, length, get_elem?, Option, none, some,
  ok, ◌≡◌, refl, ap, arith, ==_refl,
}
use daobell.Torrent.{
  Torrent, PieceState, not_requested, requested, have, is_requested, is_not_requested,
  search_request, set_state, torrent_next_request,
}

-- Piece j is in this state, and the peer has it.
abbrev pub IsOffered : PieceState → List PieceState → List Bool → ℕ → Type 0
IsOffered s states peer j = (get_elem? states j ≡ some s) × (get_elem? peer j ≡ some true)

-- The choice r among the pieces from number i on, where `request` is the choice before them: the
-- first fresh piece; or else the last that was requested already; or else what it was.
pub data Chosen (states : List PieceState) (peer : List Bool) (i : ℕ) (request r : Option ℕ)
    : Type 0 where
  fresh :
      (j : ℕ)
      → r ≡ some (i + j)
      → IsOffered not_requested states peer j
      → ((k : ℕ) → k < j → ¬ IsOffered not_requested states peer k)
      → Chosen states peer i request r
  again :
      (j : ℕ)
      → r ≡ some (i + j)
      → IsOffered requested states peer j
      → ((k : ℕ) → ¬ IsOffered not_requested states peer k)
      → ((k : ℕ) → j < k → ¬ IsOffered requested states peer k)
      → Chosen states peer i request r
  kept :
      r ≡ request
      → ((k : ℕ) → ¬ IsOffered not_requested states peer k)
      → ((k : ℕ) → ¬ IsOffered requested states peer k)
      → Chosen states peer i request r

module _ (s : PieceState) (p : Bool) (states : List PieceState) (peer : List Bool) where
  abbrev Head : PieceState → Type 0
  Head u = (s ≡ u) × (p ≡ true)

  none_before :
      (u : PieceState) (j : ℕ)
      → ¬ Head u
      → ((k : ℕ) → k < j → ¬ IsOffered u states peer k)
      → (k : ℕ) → k < suc j
      → ¬ IsOffered u (s ∷ states) (p ∷ peer) k
  none_before u j h t zero lt (e, e') = h (cc, cc)
  none_before u j h t (suc k) lt o = t k (omega arith) o

  none_at_all :
      (u : PieceState)
      → ¬ Head u
      → ((k : ℕ) → ¬ IsOffered u states peer k)
      → (k : ℕ) → ¬ IsOffered u (s ∷ states) (p ∷ peer) k
  none_at_all u h t zero (e, e') = h (cc, cc)
  none_at_all u h t (suc k) o = t k o

  none_after :
      (u : PieceState) (j : ℕ)
      → ((k : ℕ) → j < k → ¬ IsOffered u states peer k)
      → (k : ℕ) → suc j < k
      → ¬ IsOffered u (s ∷ states) (p ∷ peer) k
  none_after u j t zero lt o = absurd (omega arith)
  none_after u j t (suc k) lt o = t k (omega arith) o

  none_behind :
      (u : PieceState)
      → ((k : ℕ) → ¬ IsOffered u states peer k)
      → (k : ℕ) → 0 < k
      → ¬ IsOffered u (s ∷ states) (p ∷ peer) k
  none_behind u t zero lt o = absurd (omega arith)
  none_behind u t (suc k) lt o = t k o

  -- The head is not fresh; the choice among the others is one among all.
  Chosen-skip :
      {i : ℕ} {request r : Option ℕ}
      → ¬ Head not_requested
      → ¬ Head requested
      → Chosen states peer (i + 1) request r
      → Chosen (s ∷ states) (p ∷ peer) i request r
  Chosen-skip n a (fresh j e o b) =
      fresh (suc j) (rw e (ap some (omega arith))) o (none_before not_requested j n b)
  Chosen-skip n a (again j e o b l) =
      again (suc j) (rw e (ap some (omega arith))) o (none_at_all not_requested n b)
        (none_after requested j l)
  Chosen-skip n a (kept e b l) = kept e (none_at_all not_requested n b) (none_at_all requested a l)

  -- The head was requested already.
  Chosen-mark :
      {i : ℕ} {request r : Option ℕ}
      → ¬ Head not_requested
      → Head requested
      → Chosen states peer (i + 1) (some i) r
      → Chosen (s ∷ states) (p ∷ peer) i request r
  Chosen-mark n a (fresh j e o b) =
      fresh (suc j) (rw e (ap some (omega arith))) o (none_before not_requested j n b)
  Chosen-mark n a (again j e o b l) =
      again (suc j) (rw e (ap some (omega arith))) o (none_at_all not_requested n b)
        (none_after requested j l)
  Chosen-mark n a (kept e b l) =
      again zero (rw e (ap some (omega arith))) (rw a.0 refl, rw a.1 refl)
        (none_at_all not_requested n b) (none_behind requested l)

search_request-Chosen :
    (states : List PieceState) (peer : List Bool) (i : ℕ) (request : Option ℕ)
    → length states ≡ length peer
    → Chosen states peer i request (search_request states peer i request)
unfolding search_request is_requested is_not_requested
search_request-Chosen [] [] i request e = kept refl (λ k (x, y). cc) (λ k (x, y). cc)
search_request-Chosen [] (p ∷ peer) i request e = absurd (omega arith)
search_request-Chosen (s ∷ states) [] i request e = absurd (omega arith)
search_request-Chosen (not_requested ∷ states) (true ∷ peer) i request e =
    fresh zero (ap some (omega arith)) (refl, refl) (λ k lt o. absurd (omega arith))
search_request-Chosen (not_requested ∷ states) (false ∷ peer) i request e =
    Chosen-skip _ _ _ _ (λ (x, y). cc) (λ (x, y). cc)
      (search_request-Chosen states peer (i + 1) request (omega arith))
search_request-Chosen (requested ∷ states) (true ∷ peer) i request e =
    Chosen-mark _ _ _ _ (λ (x, y). cc) (refl, refl)
      (search_request-Chosen states peer (i + 1) (some i) (omega arith))
search_request-Chosen (requested ∷ states) (false ∷ peer) i request e =
    Chosen-skip _ _ _ _ (λ (x, y). cc) (λ (x, y). cc)
      (search_request-Chosen states peer (i + 1) request (omega arith))
search_request-Chosen (have ∷ states) (p ∷ peer) i request e =
    Chosen-skip _ _ _ _ (λ (x, y). cc) (λ (x, y). cc)
      (search_request-Chosen states peer (i + 1) request (omega arith))

-- What the return value says: no piece, or one that is marked as requested.
abbrev pub answer : Torrent → Option ℕ → Option (ℕ × Torrent)
answer t none = none
answer t (some index) = some (index, set_state t index requested)

answer-elim :
    (t : Torrent) (r : Option ℕ)
    → elim r [ none ↦ none | some index ↦ some (index, set_state t index requested) ] ≡ answer t r
answer-elim t none = refl
answer-elim t (some index) = refl

-- The next request is the first piece that the peer has and nobody asked for; without one, the last
-- piece that the peer has and that was asked for already; without either, none. The piece is marked
-- as requested, and nothing else changes. Where each piece has a state and a bit of the peer.
pub torrent_next_request-Chosen :
    (t : Torrent) (peer : List Bool)
    → length t.pieces ≡ length t.sh.pieces_state
    → length t.pieces ≡ length peer
    → (r : Option ℕ) × (torrent_next_request t peer ≡ ok (answer t r))
      × Chosen t.sh.pieces_state peer 0 none r
unfolding torrent_next_request
torrent_next_request-Chosen t peer e e' =
    let r = search_request t.sh.pieces_state peer 0 none in
    (
      r,
      rw (← e, ← e', ==_refl (length t.pieces)) (ap ok (answer-elim t r)),
      search_request-Chosen t.sh.pieces_state peer 0 none (omega arith),
    )

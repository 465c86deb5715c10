-- ===== src/Swarm/Counting.antt =====
-- What the count of the missing pieces is, in whatever order the connections make their steps.
use daobell.Prelude.{Bytes, ℕ, ◌+◌, true, arith, ◌≡◌, ◌↔◌, refl, subst}
use daobell.Torrent.{Torrent}
use daobell.Torrent.Counting.{missing, IsCounted}
use daobell.Connection.{set_completed, torrent_complete}
use daobell.Swarm.{
  Swarm, Move, asks, writes, downloads, rejects, completes, leaves, Runs, rests, goes_on,
}
use daobell.Swarm.Steps.{
  IsShortBy, IsCounted-IsShortBy, IsShortBy-IsCounted, asks-IsShortBy, mark_piece-IsShortBy,
  reject_piece-IsShortBy,
}

same_loss : (n : ℕ) (t : Torrent) → IsShortBy n t → IsShortBy (n + 0) t
same_loss n t w = let same : n ≡ n + 0 = omega arith in subst (λ k. IsShortBy k t) same w

complete-IsShortBy :
    (n : ℕ) (t : Torrent) → IsShortBy n t → t.sh.completed ≡ true → IsShortBy n (torrent_complete t)
unfolding torrent_complete set_completed
complete-IsShortBy n t w c = record {
  sized = w.sized;
  counted = w.counted;
  flagged = (λ z. w.flagged.0 c, λ z. refl);
  words = w.words;
}

Move-IsShortBy :
    (garbage : Bytes) (w v : Swarm) (n m : ℕ)
    → IsShortBy n w.torrent
    → Move garbage w v m
    → IsShortBy (n + m) v.torrent
Move-IsShortBy garbage w v n m k (asks peer_have p t run) =
    same_loss n t (asks-IsShortBy n p w.torrent t peer_have k run)
Move-IsShortBy garbage w v n m k (writes files) =
    same_loss n _
      record { sized = k.sized; counted = k.counted; flagged = k.flagged; words = k.words }
Move-IsShortBy garbage w v n m k (downloads front back p t completed at run) =
    same_loss n t (mark_piece-IsShortBy n p w.torrent k t completed _ refl run)
Move-IsShortBy garbage w v n m k (rejects front back p at bad) =
    reject_piece-IsShortBy n p w.torrent k
Move-IsShortBy garbage w v n m k (completes c) = same_loss n _ (complete-IsShortBy n w.torrent k c)
Move-IsShortBy garbage w v n m k (leaves front requests back at) = same_loss n w.torrent k

pub Runs-IsShortBy :
    (garbage : Bytes) (w v : Swarm) (n m : ℕ)
    → IsShortBy n w.torrent
    → Runs garbage w v m
    → IsShortBy (n + m) v.torrent
Runs-IsShortBy garbage w v n m k rests = same_loss n w.torrent k
Runs-IsShortBy garbage w v n m k (goes_on u v' i j run move) =
    let sum : n + i + j ≡ n + (i + j) = omega arith in
    subst (λ l. IsShortBy l v'.torrent) sum
      (Move-IsShortBy garbage u v' (n + i) j (Runs-IsShortBy garbage w u n i k run) move)

-- In whatever order the connections make their steps, pieces_left and the number of the pieces that were lost, by the
-- rejection of a piece that the torrent had, are together the number of the missing pieces, and the
-- torrent is called completed exactly when as many are missing as were lost. Where the count was
-- right at the start.
pub Runs-IsCounted :
    (garbage : Bytes) (w v : Swarm) (lost : ℕ)
    → IsCounted w.torrent
    → Runs garbage w v lost
    → (v.torrent.sh.pieces_left + lost ≡ missing v.torrent.sh.pieces_state)
      × ((v.torrent.sh.completed ≡ true) ↔ (missing v.torrent.sh.pieces_state ≡ lost))
      × ((lost ≡ 0) → IsCounted v.torrent)
Runs-IsCounted garbage w v lost k run =
    let same : 0 + lost ≡ lost = omega arith in
    let short =
      subst (λ l. IsShortBy l v.torrent) same
        (Runs-IsShortBy garbage w v 0 lost (IsCounted-IsShortBy w.torrent k) run) in
    (
      short.counted,
      (
        λ c. omega (arith, short.counted, short.flagged.0 c),
        λ e. short.flagged.1 (omega (arith, short.counted, e)),
      ),
      λ none_lost.
          IsShortBy-IsCounted v.torrent (subst (λ l. IsShortBy l v.torrent) none_lost short),
    )

-- ===== src/Connection/Session/Start.antt =====
-- A connection begins in a state that its handlers can rely on.
use daobell.Prelude.{
  suc, false, List, [], ◌∷◌, map, length, length-replicate, replicate, Option, none, some, Outcome,
  ok, ◌>>=◌, Bytes, ◌≡◌, refl, sym, ◌∙◌, ap, arith,
}
use daobell.Torrent.{Torrent, is_have}
use daobell.Torrent.Bitfield.{torrent_make_bitfield-have, resize-nil}
use daobell.Torrent.Counting.{IsCounted}
use daobell.Torrent.Sound.{IsSound}
use daobell.Net.{Socket}
use daobell.Net.Sending.{IsStream, Sends, all_sent, cut_off, Sends-ends}
use daobell.Message.{bitfield, unchoke}
use daobell.Message.Send.{peer_msg_send}
use daobell.Message.Wire.Sent.{peer_msg_send-wire}
use daobell.Connection.{ConnState, initial_state, conn_state_init, unchoke_peer, told}
use daobell.Connection.Incoming.Interest.{IsConnected, IsConnected-fields}
use daobell.Connection.Session.{start_connection, start_told}

length-map : {A B : Type 0} (f : A → B) (xs : List A) → length (map f xs) ≡ length xs
length-map f [] = refl
length-map f (x ∷ xs) = ap suc (length-map f xs)

conn_state_init-IsConnected :
    (t : Torrent)
    → IsCounted t
    → IsSound t
    → (c : ConnState) × (conn_state_init t ≡ ok c) × IsConnected t c
unfolding conn_state_init
conn_state_init-IsConnected t w k = (
  initial_state t (map is_have t.sh.pieces_state),
  rw (torrent_make_bitfield-have t (sym w.sized)) refl,
  record {
    counted = w;
    sound = k;
    peer_bits = rw (resize-nil (length t.pieces)) (length-replicate (length t.pieces) false);
    local_bits = length-map is_have t.sh.pieces_state ∙ w.sized;
    few = omega arith;
    asked = tt;
  },
)

-- What start_connection gives: a connection; or none, and then a send has failed.
abbrev pub IsStarted : (S : Socket) → Torrent → Option ConnState → Type 0
IsStarted S t none = (b : Bytes) × (u : S.State) × ((S.send b u).0 ≡ none)
IsStarted S t (some c) = IsConnected t c

module _ {S : Socket} (I : IsStream S) where
  -- A run of the start, which took nothing from the peer.
  pub record StartsUp (t : Torrent) (s : S.State) (run : Outcome (Option ConnState × S.State))
      : Type 0 where
    pub state : Option ConnState
    pub socket : S.State
    pub gives : run ≡ ok (state, socket)
    pub started : IsStarted S t state
    pub quiet : I.pending socket ≡ I.pending s

  unchoke_told :
      (t : Torrent) (c : ConnState) (r : Option (Unit {0})) (s u : S.State)
      → IsConnected t c
      → I.pending u ≡ I.pending s
      → StartsUp t s (
          told S (record c { remote = record c.remote { choked = false } }) c (r, u) >>= λ (c', s').
          ok (some c', s'))
  unchoke_told t c none s u w q = record {
    state = some c;
    socket = u;
    gives = refl;
    started = w;
    quiet = q;
  }
  unchoke_told t c (some _) s u w q = record {
    state = some (record c { remote = record c.remote { choked = false } });
    socket = u;
    gives = refl;
    started = IsConnected-fields c.local _ c.peer_requests w;
    quiet = q;
  }

  started_told :
      (t : Torrent) (c : ConnState) (s u : S.State)
      → IsConnected t c
      → I.pending u ≡ I.pending s
      → StartsUp t s (start_told S t c (some tt, u))
  unfolding unchoke_peer
  started_told t c s u w q =
      let (r, v, run, q') = Sends-ends I (peer_msg_send-wire I t unchoke u tt) in
      rw run (unchoke_told t c r s v w (q' ∙ q))

  -- What follows the bitfield.
  start_told-StartsUp :
      (t : Torrent) (c : ConnState) {bytes : Bytes} (s : S.State)
      (run : Outcome (Option (Unit {0}) × S.State))
      → IsConnected t c
      → Sends I bytes s run
      → StartsUp t s (run >>= start_told S t c)
  start_told-StartsUp t c s run w (all_sent u e _ q) = rw e (started_told t c s u w q)
  start_told-StartsUp t c s run w (cut_off front back u d e _ q failed) =
      rw e (record { state = none; socket = u; gives = refl; started = failed; quiet = q })

  -- On a torrent with IsCounted and IsSound a connection starts, unless a send fails; it has
  -- IsConnected then. No byte is taken from the peer.
  pub start_connection-IsConnected :
      (t : Torrent) (s : S.State) → IsCounted t → IsSound t → StartsUp t s (start_connection S t s)
  unfolding start_connection
  start_connection-IsConnected t s w k =
      let (c, made, connected) = conn_state_init-IsConnected t w k in
      let bits = replicate (length t.pieces) false in
      let few = length-replicate (length t.pieces) false in
      let sent =
        peer_msg_send-wire I t (bitfield bits) s
          (length-replicate (length t.pieces) false, omega (arith, few, w.words)) in
      rw made (start_told-StartsUp t c s (peer_msg_send S t (bitfield bits) s) connected sent)

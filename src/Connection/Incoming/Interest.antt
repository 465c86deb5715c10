-- ===== src/Connection/Incoming/Interest.antt =====
-- The handlers of a bitfield and of a piece that the peer has, and what they keep.
use daobell.Prelude.{
  ℕ, zero, suc, ◌≤◌, ◌<◌, set, length-set, length-take, Bool, true, false, not, ◌&&◌, Bool-cases,
  inl, inr, if◌then◌else◌, List, [], ◌∷◌, length, get_elem?, Option, none, some, Bytes, All,
  Outcome, ok, fault, ◌≡◌, ◌≢◌, refl, ◌∙◌, arith, take,
}
use daobell.Torrent.{Torrent, PieceState, have, is_have}
use daobell.Torrent.Counting.{IsCounted}
use daobell.Torrent.Sound.{IsSound}
use daobell.Pieces.{PieceRequest}
use daobell.Net.{Socket}
use daobell.Net.Sending.{IsStream, Sends-ends}
use daobell.Message.{interested}
use daobell.Message.Wire.Sent.{peer_msg_send-wire}
use daobell.Connection.{ConnState, PeerState, RequestMsg, told, show_interested}
use daobell.Connection.Incoming.{bit_at, copy_bits, finds_wanted, process_have, process_bitfield}

-- A piece that was requested and is not the torrent's yet.
abbrev pub IsAsked : Torrent → PieceRequest → Type 0
IsAsked t r = (s : PieceState) × (get_elem? t.sh.pieces_state r.piece_index ≡ some s) × (s ≢ have)

-- A connection on its torrent between two messages.
pub record IsConnected (t : Torrent) (c : ConnState) : Type 0 where
  pub counted : IsCounted t
  pub sound : IsSound t
  pub peer_bits : length c.peer_have ≡ length t.pieces
  pub local_bits : length c.local_have ≡ length t.pieces
  pub few : length c.local_requests ≤ 1
  pub asked : All (IsAsked t) c.local_requests

-- The fields that nothing rests on may change.
pub IsConnected-fields :
    {t : Torrent} {c : ConnState} (local remote : PeerState) (requests : List RequestMsg)
    → IsConnected t c
    → IsConnected t (record c { local = local; remote = remote; peer_requests = requests })
IsConnected-fields local remote requests w = record {
  counted = w.counted;
  sound = w.sound;
  peer_bits = w.peer_bits;
  local_bits = w.local_bits;
  few = w.few;
  asked = w.asked;
}

pub bit_at-fault : (bits : List Bool) (i : ℕ) → length bits ≤ i → bit_at bits i ≡ fault
unfolding bit_at
bit_at-fault [] i h = refl
bit_at-fault (b ∷ bits) zero h = absurd (omega arith)
bit_at-fault (b ∷ bits) (suc i) h = bit_at-fault bits i (omega arith)

bit_at-ok : (bits : List Bool) (i : ℕ) → i < length bits → (b : Bool) × (bit_at bits i ≡ ok b)
unfolding bit_at
bit_at-ok [] i h = absurd (omega arith)
bit_at-ok (b ∷ bits) zero h = (b, refl)
bit_at-ok (b ∷ bits) (suc i) h = bit_at-ok bits i (omega arith)

module _ {S : Socket} (I : IsStream S) (garbage : Bytes) where
  -- A handler returned, kept the connection, and took no byte from the peer.
  pub record Handles (t : Torrent) (s : S.State) (run : Outcome ((Torrent × ConnState) × S.State))
      : Type 0 where
    pub torrent : Torrent
    pub state : ConnState
    pub socket : S.State
    pub gives : run ≡ ok ((torrent, state), socket)
    pub connected : IsConnected torrent state
    pub same_pieces : torrent.pieces ≡ t.pieces
    pub quiet : I.pending socket ≡ I.pending s

  -- A change of the state alone.
  pub Handles-state :
      (t : Torrent) (c : ConnState) (s : S.State) → IsConnected t c → Handles t s (ok ((t, c), s))
  Handles-state t c s w = record {
    torrent = t;
    state = c;
    socket = s;
    gives = refl;
    connected = w;
    same_pieces = refl;
    quiet = refl;
  }

  interested_told :
      (c : ConnState) (r : Option (Unit {0})) (s' : S.State)
      → (shown : Bool) × (told S
            (record c { local = record c.local { interested = true } })
            c
            (r, s')
          ≡ ok (record c { local = record c.local { interested = shown } }, s'))
  interested_told c none s' = (c.local.interested, refl)
  interested_told c (some u) s' = (true, refl)

  show_interested-ends :
      (t : Torrent) (c : ConnState) (s : S.State)
      → (shown : Bool) × (s' : S.State) × (show_interested S t c s
          ≡ ok (record c { local = record c.local { interested = shown } }, s'))
        × (I.pending s' ≡ I.pending s)
  unfolding show_interested
  show_interested-ends t c s =
      let (r, s', run, quiet) = Sends-ends I (peer_msg_send-wire I t interested s tt) in
      let (shown, e) = interested_told c r s' in (shown, s', rw run e, quiet)

  -- Interest is shown unless it was before.
  shown_if :
      (t : Torrent) (c : ConnState) (s : S.State) (before ours : Bool)
      → (shown : Bool) × (s' : S.State) × ((if before
            then ok (c, s)
            else if ours
            then show_interested S t c s
            else ok (c, s))
          ≡ ok (record c { local = record c.local { interested = shown } }, s'))
        × (I.pending s' ≡ I.pending s)
  shown_if t c s true ours = (c.local.interested, s, refl, refl)
  shown_if t c s false true = show_interested-ends t c s
  shown_if t c s false false = (c.local.interested, s, refl, refl)

  pub process_have-Handles :
      (t : Torrent) (c : ConnState) (index : ℕ) (s : S.State)
      → IsConnected t c
      → index < length t.pieces
      → Handles t s (process_have S garbage index t c s)
  unfolding process_have
  process_have-Handles t c index s w h =
      let (ours, e) = bit_at-ok c.local_have index (omega (arith, w.local_bits)) in
      let (theirs, e') = bit_at-ok c.peer_have index (omega (arith, w.peer_bits)) in
      let (shown, s', run, quiet) = shown_if t c s c.local.interested ours in
      record {
        torrent = t;
        state = record c {
          local = record c.local { interested = shown };
          peer_have = set c.peer_have index true;
        };
        socket = s';
        gives = rw (e, run, e') refl;
        connected = record {
          counted = w.counted;
          sound = w.sound;
          peer_bits = length-set c.peer_have index true ∙ w.peer_bits;
          local_bits = w.local_bits;
          few = w.few;
          asked = w.asked;
        };
        same_pieces = refl;
        quiet = quiet;
      }

  copy_bits-ok :
      (peer_have bits : List Bool)
      → length peer_have ≤ length bits
      → copy_bits peer_have bits ≡ ok (take (length peer_have) bits)
  unfolding copy_bits
  copy_bits-ok [] bits h = refl
  copy_bits-ok (p ∷ peer_have) [] h = absurd (omega arith)
  copy_bits-ok (p ∷ peer_have) (b ∷ bits) h = rw (copy_bits-ok peer_have bits (omega arith)) refl

  finds_wanted-ok :
      (pieces : List Bytes) (states : List PieceState) (peer_have : List Bool)
      → length pieces ≤ length states
      → length pieces ≤ length peer_have
      → (found : Bool) × (finds_wanted pieces states peer_have ≡ ok found)
  unfolding finds_wanted
  finds_wanted-ok [] states peer_have h h' = (false, refl)
  finds_wanted-ok (x ∷ pieces) [] peer_have h h' = absurd (omega arith)
  finds_wanted-ok (x ∷ pieces) (s ∷ states) [] h h' = absurd (omega arith)
  finds_wanted-ok (x ∷ pieces) (s ∷ states) (p ∷ peer_have) h h' =
      let (found, e) = finds_wanted-ok pieces states peer_have (omega arith) (omega arith) in
      elim (Bool-cases (not (is_have s) && p)) [
        | inl y ↦ (true, rw y refl)
        | inr n ↦ (found, rw n e)
      ]

  pub process_bitfield-Handles :
      (t : Torrent) (c : ConnState) (bits : List Bool) (s : S.State)
      → IsConnected t c
      → length t.pieces ≤ length bits
      → Handles t s (process_bitfield S garbage bits t c s)
  unfolding process_bitfield
  process_bitfield-Handles t c bits s w h =
      let theirs = take (length c.peer_have) bits in
      let len : length theirs ≡ length t.pieces =
        omega (arith, length-take (length c.peer_have) bits, w.peer_bits) in
      let c' = record c { peer_have = theirs } in
      let (found, e) =
        finds_wanted-ok t.pieces t.sh.pieces_state theirs (omega (arith, w.counted.sized))
          (omega (arith, len)) in
      let (shown, s', run, quiet) = shown_if t c' s false found in
      record {
        torrent = t;
        state = record c' { local = record c.local { interested = shown } };
        socket = s';
        gives = rw (copy_bits-ok c.peer_have bits (omega (arith, w.peer_bits)), e, run) refl;
        connected = record {
          counted = w.counted;
          sound = w.sound;
          peer_bits = len;
          local_bits = w.local_bits;
          few = w.few;
          asked = w.asked;
        };
        same_pieces = refl;
        quiet = quiet;
      }

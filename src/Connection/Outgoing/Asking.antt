-- ===== src/Connection/Outgoing/Asking.antt =====
-- send_requests asks for one piece at a time, and for each of its blocks.
use daobell.Prelude.{
  ℕ, ◌-◌, ◌<◌, Bool, true, false, ◌&&◌, List, [], ◌∷◌, ◌++◌, length, get_elem?-set_self, get_elem?,
  Option, none, some, Bytes, Outcome, ok, ◌>>=◌, ◌≡◌, refl, sym, ◌∙◌, arith, ap, List-cases,
  length-ne_nil, get_elem?-lt, Bool-cases, inl, inr,
}
use daobell.Torrent.{Torrent, requested, set_state, torrent_next_request}
use daobell.Torrent.Requests.{Chosen, answer, torrent_next_request-Chosen}
use daobell.Torrent.Counting.{IsCounted, Chosen-missing, torrent_next_request-IsCounted}
use daobell.Torrent.Sound.{IsSound-sh}
use daobell.Pieces.{BlockRequest, piece_request_create}
use daobell.Pieces.Layout.{piece_request_create_lem}
use daobell.Net.{Socket}
use daobell.Net.Sending.{IsStream, Sends, Sends-go_on, Sends-ends, Sends-nothing}
use daobell.Message.{request, not_interested}
use daobell.Message.Wire.{wire}
use daobell.Message.Wire.Sent.{request-Sends, peer_msg_send-wire}
use daobell.Connection.{ConnState, show_not_interested, told}
use daobell.Connection.Incoming.Interest.{IsConnected, IsConnected-fields}
use daobell.Connection.Outgoing.{
  request_blocks, request_pieces, finish_requests, send_requests, after_sent, add_request,
}

-- The requests for the blocks of a piece, on the wire.
unfoldable pub wire_requests : ℕ → List BlockRequest → Bytes
wire_requests index [] = []
wire_requests index (b ∷ blocks) = wire (request index b.begin b.len) ++ wire_requests index blocks

module _ {S : Socket} (I : IsStream S) where
  -- Each block of a piece is asked for once, in its order, unless a send fails.
  pub request_blocks-Sends :
      (t : Torrent) (index : ℕ) (blocks : List BlockRequest) (s : S.State)
      → Sends I (wire_requests index blocks) s (request_blocks S t index blocks s)
  unfolding wire_requests request_blocks
  request_blocks-Sends t index [] s = Sends-nothing I s
  request_blocks-Sends t index (b ∷ blocks) s =
      Sends-go_on I (wire (request index b.begin b.len)) (wire_requests index blocks) s _ _
        (request-Sends I t index b.begin b.len s) (request_blocks-Sends t index blocks)

  -- send_requests returned, and kept the connection.
  pub record Asks (s : S.State)
      (run : Outcome ((Option (Unit {0}) × (Torrent × ConnState)) × S.State)) : Type 0 where
    pub answer : Option (Unit {0})
    pub torrent : Torrent
    pub state : ConnState
    pub socket : S.State
    pub gives : run ≡ ok ((answer, (torrent, state)), socket)
    pub connected : IsConnected torrent state
    pub quiet : I.pending socket ≡ I.pending s

  Asks-as_is :
      (a : Option (Unit {0})) (t : Torrent) (c : ConnState) (s u : S.State)
      → IsConnected t c
      → I.pending u ≡ I.pending s
      → Asks s (ok ((a, (t, c)), u))
  Asks-as_is a t c s u w q = record {
    answer = a;
    torrent = t;
    state = c;
    socket = u;
    gives = refl;
    connected = w;
    quiet = q;
  }

  -- The peer is told of no interest, or cannot be told.
  not_interested_told :
      (t : Torrent) (c : ConnState) (r : Option (Unit {0})) (s u : S.State)
      → IsConnected t c
      → I.pending u ≡ I.pending s
      → Asks s (
          told S (record c { local = record c.local { interested = false } }) c (r, u)
          >>= λ (c', s'). ok ((some tt, (t, c')), s'))
  not_interested_told t c none s u w q = Asks-as_is (some tt) t c s u w q
  not_interested_told t c (some _) s u w q =
      Asks-as_is (some tt) t _ s u (IsConnected-fields _ c.remote c.peer_requests w) q

  show_not_interested-Asks :
      (t : Torrent) (c : ConnState) (s u : S.State)
      → IsConnected t c
      → I.pending u ≡ I.pending s
      → Asks s (show_not_interested S t c u >>= λ (c', s'). ok ((some tt, (t, c')), s'))
  unfolding show_not_interested
  show_not_interested-Asks t c s u w q =
      let (r, u', run, q') = Sends-ends I (peer_msg_send-wire I t not_interested u tt) in
      rw run (not_interested_told t c r s u' w (q' ∙ q))

  finish_requests-Asks :
      (t : Torrent) (c : ConnState) (s u : S.State) (failed none_found : Bool)
      → IsConnected t c
      → I.pending u ≡ I.pending s
      → Asks s (
          finish_requests S
            (record { failed = failed; not_interested = none_found; torrent = t; state = c }, u))
  unfolding finish_requests
  finish_requests-Asks t c s u true none_found w q = Asks-as_is none t c s u w q
  finish_requests-Asks t c s u false none_found w q =
      elim (Bool-cases (c.local.interested && none_found)) [
        | inl lost ↦ rw lost (show_not_interested-Asks t c s u w q)
        | inr fine ↦ rw fine (Asks-as_is (some tt) t c s u w q)
      ]

  after_sent-Asks :
      (t : Torrent) (c : ConnState) (sent : Option (Unit {0})) (s u : S.State)
      → IsConnected t c
      → I.pending u ≡ I.pending s
      → Asks s (after_sent S t c (request_pieces S 0 t c) (sent, u) >>= finish_requests S)
  unfolding request_pieces
  after_sent-Asks t c none s u w q = finish_requests-Asks t c s u true false w q
  after_sent-Asks t c (some _) s u w q = finish_requests-Asks t c s u false false w q

  -- A piece that was chosen, for a connection that has asked for none.
  ask_piece :
      (t : Torrent) (c : ConnState) (i : ℕ) (s : S.State)
      → IsConnected t c
      → c.local_requests ≡ []
      → i < length t.pieces
      → IsCounted (set_state t i requested)
      → Asks s (
          (piece_request_create (set_state t i requested) i >>= λ r.
          request_blocks S (set_state t i requested) r.piece_index r.block_requests s
          >>= after_sent S
              (set_state t i requested)
              (add_request S c r)
              (request_pieces S 0 (set_state t i requested) (add_request S c r)))
          >>= finish_requests S)
  unfolding set_state
  ask_piece t c i s w e h counted =
      let k = w.sound in
      let t' = set_state t i requested in
      let (r, made, is) =
        piece_request_create_lem t' i k.blocks k.mapped k.whole k.word (k.begins i h) in
      let (sent, u, run, quiet) =
        Sends-ends I (request_blocks-Sends t' r.piece_index r.block_requests s) in
      let at : get_elem? t'.sh.pieces_state r.piece_index ≡ some requested =
        rw is.index_set
          (get_elem?-set_self t.sh.pieces_state i requested (omega (arith, w.counted.sized))) in
      rw (made, run)
        (after_sent-Asks t' (add_request S c r) sent s u
          (record {
            counted = counted;
            sound = IsSound-sh _ k;
            peer_bits = w.peer_bits;
            local_bits = w.local_bits;
            few = rw e (omega arith);
            asked = rw e ((requested, at, λ x. cc), tt);
          })
          quiet)

  request_pieces-Asks :
      (t : Torrent) (c : ConnState) (r : Option ℕ) (s : S.State)
      → IsConnected t c
      → c.local_requests ≡ []
      → torrent_next_request t c.peer_have ≡ ok (answer t r)
      → Chosen t.sh.pieces_state c.peer_have 0 none r
      → Asks s (request_pieces S 1 t c s >>= finish_requests S)
  unfolding request_pieces
  request_pieces-Asks t c none s w e run chosen =
      rw run (finish_requests-Asks t c s s false true w refl)
  request_pieces-Asks t c (some i) s w e run chosen =
      let (state, at, ne) = Chosen-missing chosen in
      let inside = get_elem?-lt t.sh.pieces_state i state at in
      let counted =
        torrent_next_request-IsCounted t (set_state t i requested) c.peer_have i w.counted
          (sym w.peer_bits) run in
      rw run (ask_piece t c i s w e (omega (arith, w.counted.sized)) counted)

  -- On a connection with IsConnected send_requests returns, and keeps it: at most one piece is asked
  -- for at a time, it is not the torrent's yet, and the count of the missing pieces stays right; no
  -- byte is taken from the peer.
  pub send_requests-IsConnected :
      (t : Torrent) (c : ConnState) (s : S.State) → IsConnected t c → Asks s (send_requests S t c s)
  unfolding send_requests
  send_requests-IsConnected t c s w = elim (List-cases c.local_requests) [
    | inl e ↦
        let (r, run, chosen) =
          torrent_next_request-Chosen t c.peer_have (sym w.counted.sized) (sym w.peer_bits) in
        let one : 1 - length c.local_requests ≡ 1 = omega (arith, ap length e) in
        rw one (request_pieces-Asks t c r s w e run chosen)
    | inr ne ↦
        let none_left : 1 - length c.local_requests ≡ 0 =
          omega (arith, length-ne_nil c.local_requests ne) in
        rw none_left (Asks-as_is (some tt) t c s s w refl)
  ]

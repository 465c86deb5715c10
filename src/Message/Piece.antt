-- ===== src/Message/Piece.antt =====
-- peer_msg_send_piece and peer_msg_recv_piece: a block between the socket and the mapped files.
pub mod Writes
pub mod Reads
pub mod Sends
pub mod Transfer
pub mod Download
use daobell.Prelude.{
  ℕ, zero, suc, ◌+◌, ◌-◌, ◌%◌, Bool, false, ◌==◌, ltb, leb, if◌then◌else◌, Bytes, [], ◌∷◌, ◌++◌,
  List, length, take, drop, min, Option, none, some, Outcome, ok, fault, ◌>>=◌,
}
use daobell.Files.{DnldFile, FileMem, contents_at}
use daobell.Torrent.{Torrent}
use daobell.Pieces.{BlockRequest, piece_request_create, piece_request_block_at, sub64, u64_mod}
use daobell.Net.{
  Socket, Action, and_then, go_on, receive, peer_send_buff, peer_recv_buff, htonl, ntohl,
}
use daobell.Message.{PeerMsg, piece}

-- n bytes of a mapped file from an address on, which wraps around; outside the mapping is a fault.
unfoldable pub read_mapped : List DnldFile → ℕ → ℕ → ℕ → Outcome Bytes
unfolding contents_at
read_mapped files file start n =
    let contents = contents_at files file in
    let at = start % u64_mod in
    if leb (at + n) (length contents) then ok (take n (drop at contents)) else fault

-- The mapped file with these bytes from an offset on.
unfoldable pub write_mapped : List DnldFile → ℕ → ℕ → Bytes → List DnldFile
write_mapped [] file at bytes = []
write_mapped (f ∷ files) zero at bytes =
    record f { contents = take at f.contents ++ (bytes ++ drop (at + length bytes) f.contents) }
    ∷ files
write_mapped (f ∷ files) (suc file) at bytes = f ∷ write_mapped files file at bytes

-- The variables of the loops of peer_msg_send_piece.
pub record Progress : Type 0 where
  pub written : ℕ
  pub offset : ℕ
  pub over : Bool

module _ (S : Socket) (t : Torrent) where
  -- One file_mem: `mem_beg` is a size_t, in which offset - begin wraps around; `over` is the return
  -- from inside the loops.
  unfoldable pub send_mem : (begin block_len : ℕ) → FileMem → Progress → Action S Progress
  send_mem begin block_len m g s =
      let mem_beg = if ltb begin g.offset then 0 else sub64 g.offset begin in
      let mem_len = min (sub64 m.size mem_beg) (sub64 block_len g.written) in
      let sent = read_mapped t.files m.file (m.mem + mem_beg) mem_len >>= λ bytes.
      and_then S (peer_send_buff S bytes) (λ _ u. ok (some (g.written + mem_len), u)) s in
      let kept : Outcome (Option ℕ × S.State) = ok (some g.written, s) in
      (if ltb begin (g.offset + m.size) then sent else kept)
      >>= go_on S (λ written u. ok (
        some
            (record { written = written; offset = g.offset + m.size; over = written == block_len }),
        u,
      ))

  unfoldable pub send_mems : (begin block_len : ℕ) → List FileMem → Progress → Action S Progress
  unfolding send_mem
  send_mems begin block_len [] g s = ok (some g, s)
  send_mems begin block_len (m ∷ mems) g s =
      let more = and_then S (send_mem begin block_len m g) (send_mems begin block_len mems) s in
      if g.over then ok (some g, s) else more

  unfoldable pub send_blocks :
      (begin block_len : ℕ) → List BlockRequest → Progress → Action S Progress
  unfolding send_mems
  send_blocks begin block_len [] g s = ok (some g, s)
  send_blocks begin block_len (b ∷ blocks) g s =
      and_then S (send_mems begin block_len b.file_mems g) (send_blocks begin block_len blocks) s

  -- piece_request_create never returns other than 0.
  unfoldable pub peer_msg_send_piece : (index begin block_len : ℕ) → Action S (Unit {0})
  unfolding send_blocks
  peer_msg_send_piece index begin block_len s = piece_request_create t index >>= λ r.
      and_then S (peer_send_buff S (htonl index))
        (λ _. and_then S (peer_send_buff S (htonl begin)) (λ _.
          and_then S
            (send_blocks begin block_len r.block_requests
              (record { written = 0; offset = 0; over = false }))
            (λ g u. ok (some tt, u))))
        s

  -- The loop of peer_msg_recv_piece: what comes goes to the mapping, and a failure is passed over.
  unfoldable pub recv_mems : List FileMem → List DnldFile → Action S (List DnldFile)
  recv_mems [] files s = ok (some files, s)
  recv_mems (m ∷ mems) files s = peer_recv_buff S m.size s >>= λ ((whole, bytes), u).
      recv_mems mems (write_mapped files m.file m.mem bytes) u

  -- The message, and the torrent with the block in its files.
  unfoldable pub peer_msg_recv_piece : ℕ → Action S (PeerMsg × Torrent)
  unfolding recv_mems
  peer_msg_recv_piece len = and_then S (receive S 4) (λ a. and_then S (receive S 4) (λ b s.
      piece_request_create t (ntohl a) >>= λ r. elim (piece_request_block_at r (ntohl b)) [
        | none ↦ fault
        | some block ↦
            recv_mems block.file_mems t.files s
            >>= go_on S (λ files u.
              ok (some (piece (ntohl a) (ntohl b) (len - 8), record t { files = files }), u))
      ]))

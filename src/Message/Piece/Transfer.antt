-- ===== src/Message/Piece/Transfer.antt =====
-- A block goes from the files of one peer to those of another.
use daobell.Prelude.{
  ℕ, ◌+◌, ◌-◌, ◌*◌, ◌^◌, ◌≤◌, ◌<◌, min, false, Bytes, List, [], ◌∷◌, ◌++◌, length, take, drop,
  append-nil, length-take, length-drop, arith, ◌≡◌, refl, sym, ◌∙◌, ap, subst, some, ok, ◌>>=◌,
}
use daobell.Files.{DnldFile, AreMapped, content}
use daobell.Files.Splice.{splice}
use daobell.Pieces.{peer_request_size, u32_mod}
use daobell.Pieces.Place.{piece_request_create-IsCut, piece_request_block_at-Locates}
use daobell.Pieces.Spans.{Spans}
use daobell.Pieces.Tiles.{IsTiled, total_len, total_len-read_blocks}
use daobell.Torrent.{Torrent}
use daobell.Net.{Socket, htonl, ntohl, peer_send_buff}
use daobell.Net.Sending.{IsStream, IsReliable, Sends-IsReliable, peer_send_buff-Sends}
use daobell.Net.Receiving.{receive-IsReliable}
use daobell.Message.{piece, msg_type, msg_length, type_byte, type_of_byte, valid_len}
use daobell.Message.Send.{peer_msg_send, send_body, send_payload}
use daobell.Message.Receive.{peer_msg_recv, peer_msg_recv_pastlen, recv_typed, recv_payload}
use daobell.Message.Wire.Received.{ntohl-htonl, Yields}
use daobell.Message.Piece.{peer_msg_send_piece, peer_msg_recv_piece}
use daobell.Message.Piece.Writes.{recv_mems_lem}
use daobell.Message.Piece.Reads.{Leaves, Leaves-go_on, Leaves-done, Leaves-same}
use daobell.Message.Piece.Sends.{IsSending, send_blocks-Continues}

-- The bytes of a piece from an offset on.
abbrev pub stretch : Torrent → (index begin n : ℕ) → Bytes
stretch t index begin n = take n (drop (t.piece_length * index + begin) (content t.files))

-- peer_msg_send_piece sends the index, the begin, and the bytes of the piece from there on, as many
-- as were asked for.
module _ {S : Socket} (I : IsStream S) (R : IsReliable I) (t : Torrent) (index k : ℕ)
    (m : AreMapped t.files) (e : t.piece_length ≡ k * peer_request_size)
    (lt : t.piece_length < u32_mod) (small : t.piece_length * index < u32_mod) where
  buff-Leaves :
      (bytes : Bytes) (s : S.State)
      → length bytes < 2 ^ 32
      → Leaves I tt bytes s (peer_send_buff S bytes s)
  buff-Leaves bytes s h = Sends-IsReliable I bytes s _ R (peer_send_buff-Sends I bytes s h)

  pub peer_msg_send_piece-Leaves :
      (j block_len : ℕ) (s : S.State)
      → 0 < block_len
      → j * peer_request_size + block_len ≤ t.piece_length
      → t.piece_length * index + (j * peer_request_size + block_len) ≤ length (content t.files)
      → Leaves I tt
          (htonl index
            ++ (htonl (j * peer_request_size) ++ stretch t index (j * peer_request_size) block_len))
          s
          (peer_msg_send_piece S t index (j * peer_request_size) block_len s)
  unfolding peer_msg_send_piece
  peer_msg_send_piece-Leaves j block_len s some_asked le inside =
      let begin = j * peer_request_size in
      let (r, cut) = piece_request_create-IsCut t index k m e lt small (omega arith) in
      let all = total_len-read_blocks t.files 0 r.block_requests cut.layout in
      let total = total_len r.block_requests in
      let rest = drop (t.piece_length * index + begin) (content t.files) in
      let whole : min block_len (total - begin) ≡ block_len = omega (arith, all, cut.size) in
      let none : min block_len (0 * peer_request_size - begin) ≡ 0 = omega arith in
      let start_empty : (b : Bytes)
          → take (min block_len (0 * peer_request_size - begin)) rest ++ b ≡ b =
        λ b. rw none refl in
      let from_start : t.piece_length * index ≡ t.piece_length * index + 0 * peer_request_size =
        omega arith in
      let tiled = subst (λ q. IsTiled t.files q r.block_requests) from_start cut.tiled in
      rw cut.made (
        Leaves-go_on I tt tt _ _ s _ _ (buff-Leaves (htonl index) s (omega arith)) λ u.
          Leaves-go_on I tt tt _ _ u _ _ (buff-Leaves (htonl begin) u (omega arith)) λ v.
            let (g, bytes, is, same, run) =
              send_blocks-Continues I R t m (t.piece_length * index) begin block_len some_asked
                (omega arith) 0 j total r.block_requests
                (record { written = 0; offset = 0; over = false }) v refl tiled (omega arith)
                (IsSending.under_way refl (omega arith) (omega arith) some_asked) in
            let spelt : bytes ++ [] ≡ stretch t index begin block_len =
              append-nil bytes ∙ (sym (start_empty bytes) ∙ (same ∙ ap (λ n. take n rest) whole)) in
            Leaves-same I tt _ _ v _ spelt (
              Leaves-go_on I g tt bytes [] v _ (λ _ w. ok (some tt, w)) run
                λ w. Leaves-done I tt w))

  -- The whole message; its length is that of a full block, whatever the length of this one.
  pub send_piece-Leaves :
      (j block_len : ℕ) (s : S.State)
      → 0 < block_len
      → j * peer_request_size + block_len ≤ t.piece_length
      → t.piece_length * index + (j * peer_request_size + block_len) ≤ length (content t.files)
      → Leaves I tt
          (htonl (9 + peer_request_size)
            ++ (7
                ∷ (htonl index
                    ++ (htonl (j * peer_request_size)
                        ++ stretch t index (j * peer_request_size) block_len))))
          s
          (peer_msg_send S t (piece index (j * peer_request_size) block_len) s)
  unfolding peer_msg_send send_body send_payload msg_type msg_length type_byte
  send_piece-Leaves j block_len s some_asked le inside =
      Leaves-go_on I tt tt _ _ s _ _ (buff-Leaves (htonl (9 + peer_request_size)) s (omega arith))
        λ u.
          Leaves-go_on I tt tt (7 ∷ []) _ u _ _ (buff-Leaves (7 ∷ []) u (omega arith))
            λ v. peer_msg_send_piece-Leaves j block_len v some_asked le inside

-- The torrent with these bytes in its files, and nothing else changed.
pub record IsWritten (t : Torrent) (index begin : ℕ) (bytes : Bytes) (t' : Torrent) : Type 0 where
  pub files : List DnldFile
  pub only_files : t' ≡ record t { files = files }
  pub spliced : content files ≡ splice (t.piece_length * index + begin) bytes (content t.files)
  pub mapped : AreMapped files

-- peer_msg_recv_piece puts the bytes that come over those of the block, in the files, and takes no
-- byte more.
module _ {S : Socket} (I : IsStream S) (R : IsReliable I) (t : Torrent) (index k : ℕ)
    (m : AreMapped t.files) (e : t.piece_length ≡ k * peer_request_size)
    (lt : t.piece_length < u32_mod) (small : t.piece_length * index < u32_mod)
    (word : index < 2 ^ 32) where
  pub peer_msg_recv_piece-IsWritten :
      (j len : ℕ) (bytes rest : Bytes) (s : S.State)
      → j < k
      → t.piece_length * index + j * peer_request_size < length (content t.files)
      → length bytes
        ≡ min peer_request_size
            (length (content t.files) - (t.piece_length * index + j * peer_request_size))
      → I.pending s ≡ htonl index ++ (htonl (j * peer_request_size) ++ (bytes ++ rest))
      → (t' : Torrent) × IsWritten t index (j * peer_request_size) bytes t'
        × Yields I
            (piece index (j * peer_request_size) (len - 8), t')
            rest
            (peer_msg_recv_piece S t len s)
  unfolding peer_msg_recv_piece Yields
  peer_msg_recv_piece-IsWritten j len bytes rest s inside some_left size p =
      let begin = j * peer_request_size in
      let (r, b, at) = piece_request_block_at-Locates t index k m e lt small j inside some_left in
      let (u, run, pu, _) =
        receive-IsReliable I R (htonl index) (htonl begin ++ (bytes ++ rest)) s (omega arith)
          (omega arith) p in
      let (v, run', pv, _) =
        receive-IsReliable I R (htonl begin) (bytes ++ rest) u (omega arith) (omega arith) pu in
      let end : t.piece_length * index + begin + b.len
          ≡ t.piece_length * index + begin + length bytes =
        omega (arith, at.size) in
      let spans = subst (Spans t.files (t.piece_length * index + begin) b.file_mems) end at.spans in
      let index_back : ntohl (htonl index) ≡ index = ntohl-htonl index [] word in
      let begin_back : ntohl (htonl begin) ≡ begin = ntohl-htonl begin [] (omega arith) in
      let (files, w, run'', spliced, mapped, pw, _) =
        recv_mems_lem I R t t.files (t.piece_length * index + begin) b.file_mems bytes rest v m
          (omega arith) spans pv in
      (
        record t { files = files },
        record { files = files; only_files = refl; spliced = spliced; mapped = mapped },
        (
          w,
          rw (run, run', index_back, begin_back, at.made, ◌>>=◌, at.found, run'')
              (rw (index_back, begin_back) refl),
          pw,
        ),
      )

  -- The whole message.
  pub recv_piece-IsWritten :
      (j : ℕ) (bytes rest : Bytes) (s : S.State)
      → j < k
      → t.piece_length * index + j * peer_request_size < length (content t.files)
      → length bytes
        ≡ min peer_request_size
            (length (content t.files) - (t.piece_length * index + j * peer_request_size))
      → I.pending s
        ≡ (htonl (9 + peer_request_size)
            ++ (7 ∷ (htonl index ++ (htonl (j * peer_request_size) ++ bytes))))
          ++ rest
      → (t' : Torrent) × IsWritten t index (j * peer_request_size) bytes t'
        × Yields I
            (piece index (j * peer_request_size) peer_request_size, t')
            rest
            (peer_msg_recv S t s)
  unfolding peer_msg_recv peer_msg_recv_pastlen recv_typed recv_payload Yields valid_len
      type_of_byte
  recv_piece-IsWritten j bytes rest s inside some_left size p =
      let (u, run, pu, _) =
        receive-IsReliable I R (htonl (9 + peer_request_size)) _ s (omega arith) (omega arith) p in
      let (v, run', pv, _) = receive-IsReliable I R (7 ∷ []) _ u (omega arith) (omega arith) pu in
      let (t', written, (w, run'', pw)) =
        peer_msg_recv_piece-IsWritten j (8 + peer_request_size) bytes rest v inside some_left size
          pv in
      (t', written, (w, rw (run, run') run'', pw))

-- A block that one peer sends of its files comes into those of another.
module _ {S S' : Socket} (I : IsStream S) (J : IsStream S') (R : IsReliable I)
    (R' : IsReliable J) where
  -- On reliable streams, peer_msg_send of a block returns 0, and at a receiver to which the bytes
  -- come that it sent, peer_msg_recv returns that piece and begin, and the bytes of the block in its
  -- files are now those of the sender, while its other bytes stay; it takes no byte more.
  pub peer_msg_recv-peer_msg_send_piece :
      (t t' : Torrent) (index k j block_len : ℕ) (s : S.State)
      → AreMapped t.files
      → AreMapped t'.files
      → t.piece_length ≡ k * peer_request_size
      → t'.piece_length ≡ k * peer_request_size
      → length (content t'.files) ≡ length (content t.files)
      → k * peer_request_size < u32_mod
      → k * peer_request_size * index < u32_mod
      → index < u32_mod
      → j < k
      → k * peer_request_size * index + j * peer_request_size < length (content t.files)
      → block_len
        ≡ min peer_request_size
            (length (content t.files) - (k * peer_request_size * index + j * peer_request_size))
      → (bytes : Bytes) × (s' : S.State) × (peer_msg_send S t
            (piece index (j * peer_request_size) block_len)
            s
          ≡ ok (some tt, s'))
        × (I.sent s' ≡ I.sent s ++ bytes)
        × ((rest : Bytes) (r : S'.State)
            → J.pending r ≡ bytes ++ rest
            → (t'' : Torrent) × (r' : S'.State) × IsWritten t' index
                (j * peer_request_size)
                (stretch t index (j * peer_request_size) block_len)
                t''
              × (peer_msg_recv S' t' r
                  ≡ ok (some (piece index (j * peer_request_size) peer_request_size, t''), r'))
              × (J.pending r' ≡ rest))
  unfolding Yields
  peer_msg_recv-peer_msg_send_piece t t' index k j block_len s m m' e e' same lt small word inside
        some_left size =
      let le : j * peer_request_size + block_len ≤ k * peer_request_size = omega arith in
      let (s', run, sent, _) =
        send_piece-Leaves I R t index k m e (rw e lt) (rw e small) j block_len s (omega arith)
          (rw e le) (rw e (omega arith)) in
      let n : length (stretch t index (j * peer_request_size) block_len) ≡ block_len = rw e (
        omega (
          arith,
          length-take block_len
              (drop (k * peer_request_size * index + j * peer_request_size) (content t.files)),
          length-drop (k * peer_request_size * index + j * peer_request_size) (content t.files),
        )) in
      (
        _,
        s',
        run,
        sent,
        λ rest r p.
            let (t'', written, (r', run', q)) =
              recv_piece-IsWritten J R' t' index k m' e' (rw e' lt) (rw e' small) word j _ rest r
                inside (rw (e', same) some_left) (rw (e', same) (n ∙ size)) p in
            (t'', r', written, run', q),
      )

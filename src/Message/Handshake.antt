-- ===== src/Message/Handshake.antt =====
-- peer_send_handshake and peer_recv_handshake of src/peer_msg.cpp.
pub mod Exchange
use daobell.Prelude.{
  ℕ, zero, suc, ◌+◌, ◌==◌, ◌&&◌, if◌then◌else◌, Bool, true, false, Bytes, [], ◌∷◌, ◌++◌, codes,
  length, take, drop, get_or, replicate, some, Outcome, ok, fault, ◌>>=◌, ◌≡◌, refl, append_assoc,
  append-nil, arith, length-append, take-append, drop-append, ==_refl, ◌∙◌,
}
use daobell.Net.{Socket, Action, and_then, done, failed, receive, peer_send_buff}
use daobell.Net.Sending.{IsStream, IsReliable, Sends, Sends-IsReliable, peer_send_buff-Sends}
use daobell.Net.Receiving.{receive-IsReliable}

abbrev pub pstr : Bytes
pstr = codes "BitTorrent protocol"

-- strncmp(s, text, strlen(text)) == 0, for a text without NUL.
unfoldable pub strncmp_equal : Bytes → Bytes → Bool
strncmp_equal s [] = true
strncmp_equal [] (c ∷ text) = false
strncmp_equal (d ∷ s) (c ∷ text) = d == c && strncmp_equal s text

-- What a handshake has before the two identifiers.
unfoldable pub preamble : Bytes
preamble = 19 ∷ (pstr ++ replicate 8 0)

module _ (S : Socket) where
  -- `local_id` is g_local_peer_id; both arrays have 20 bytes.
  unfoldable pub peer_send_handshake : (info_hash local_id : Bytes) → Action S (Unit {0})
  unfolding preamble
  peer_send_handshake info_hash local_id =
      peer_send_buff S (preamble ++ (take 20 info_hash ++ take 20 local_id))

  -- The checks on what came, and what is written to out_info_hash and out_peer_id.
  unfoldable pub check_handshake : Bool → Bytes → Action S (Bytes × Bytes)
  unfolding strncmp_equal
  check_handshake peer_id buff s =
      if get_or buff 0 0 == 19
      then if strncmp_equal (drop 1 buff) pstr
        then done S (take 20 (drop 28 buff), if peer_id then take 20 (drop 48 buff) else []) s
        else failed S s
      else failed S s

  unfoldable pub peer_recv_handshake : Bool → Action S (Bytes × Bytes)
  unfolding check_handshake
  peer_recv_handshake peer_id s =
      and_then S (receive S (if peer_id then 68 else 48)) (check_handshake peer_id) s

-- ===== src/Message/Wire.antt =====
-- The format of the messages as the program writes it, <length prefix><message ID><payload>, and
-- that both sides keep to it. The port has four bytes, where the specification has two.
pub mod Sent
pub mod Received
pub mod RoundTrip
use daobell.Prelude.{ℕ, ◌+◌, ◌<◌, ◌^◌, Bool, Bytes, [], ◌∷◌, ◌++◌, length, List, ◌≡◌}
use daobell.Torrent.{Torrent}
use daobell.Net.{htonl}
use daobell.Message.{
  PeerMsg, keepalive, choke, unchoke, interested, not_interested, cancel, have, bitfield, request,
  piece, port, bitfield_num_bytes,
}
use daobell.Message.Bits.{bitfield_payload}

-- A piece is not in this list: its payload is in the files.
unfoldable pub wire : PeerMsg → Bytes
wire keepalive = htonl 0
wire choke = htonl 1 ++ 0 ∷ []
wire unchoke = htonl 1 ++ 1 ∷ []
wire interested = htonl 1 ++ 2 ∷ []
wire not_interested = htonl 1 ++ 3 ∷ []
wire (have index) = htonl 5 ++ (4 ∷ htonl index)
wire (bitfield bits) = htonl (1 + bitfield_num_bytes (length bits)) ++ (5 ∷ bitfield_payload bits)
wire (request index begin len) = htonl 13 ++ (6 ∷ (htonl index ++ (htonl begin ++ htonl len)))
wire (port listen_port) = htonl 5 ++ (9 ∷ htonl listen_port)
wire (piece index begin block_len) = []
wire cancel = []

abbrev IsWord : ℕ → Type 0
IsWord n = n < 2 ^ 32

-- The messages with a format of their own, with words in them, and a bit for each piece,
-- which are fewer than 2 ^ 32.
abbrev pub IsPlain : Torrent → PeerMsg → Type 0
IsPlain t (have index) = IsWord index
IsPlain t (bitfield bits) = (length bits ≡ length t.pieces) × (length bits < 2 ^ 32)
IsPlain t (request index begin len) = IsWord index × IsWord begin × IsWord len
IsPlain t (port listen_port) = IsWord listen_port
IsPlain t (piece index begin block_len) = ⊥
IsPlain t cancel = ⊥
IsPlain t _ = Unit {0}

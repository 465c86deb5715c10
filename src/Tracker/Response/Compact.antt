-- ===== src/Tracker/Response/Compact.antt =====
-- The answer of a tracker with its peers as one string.
use daobell.Prelude.{
  ℕ, ◌*◌, ◌/◌, ◌%◌, ◌^◌, ◌<◌, Bytes, codes, List, [], ◌∷◌, ◌++◌, length, length-append,
  take-append_eq, drop-append_eq, drop-drop, sym, ◌∙◌, All, ok, pos, ◌≡◌, refl, ap, arith, drop,
}
use daobell.Bencode.Value.{
  Value, string, int, dict, entry, end, down_cast_dict, down_cast_string, down_cast_int,
}
use daobell.Bencode.Grammar.{print, IsWellFormed}
use daobell.Bencode.Parser.RoundTrip.{parse-encode}
use daobell.Metainfo.{same_string}
use daobell.Metainfo.Single.{as_unsigned-small}
use daobell.Tracker.Response.{
  PeerInfo, empty_resp, read_peers, parse_peerlist_string, read_entry, read_entries,
  tracker_resp_parse,
}

abbrev pub IsCompact : PeerInfo → Type 0
IsCompact p = (length p.ip ≡ 4) × (length p.port ≡ 2)

-- Six bytes for each peer.
unfoldable pub compact : List PeerInfo → Bytes
compact [] = []
compact (p ∷ peers) = p.ip ++ (p.port ++ compact peers)

length-compact :
    (peers : List PeerInfo) → All IsCompact peers → length (compact peers) ≡ 6 * length peers
unfolding compact
length-compact [] h = refl
length-compact (p ∷ peers) ((i, q), h) = omega (
  arith,
  i,
  q,
  length-append p.ip (p.port ++ compact peers),
  length-append p.port (compact peers),
  length-compact peers h,
)

read_peers-compact :
    (peers : List PeerInfo)
    → All IsCompact peers
    → read_peers (length peers) (compact peers) ≡ peers
unfolding read_peers compact
read_peers-compact [] h = refl
read_peers-compact (p ∷ peers) ((i, q), h) =
    let s = p.ip ++ (p.port ++ compact peers) in
    let behind_ip = drop-append_eq 4 p.ip (p.port ++ compact peers) i in
    let behind : drop 6 s ≡ compact peers =
      sym (drop-drop 4 2 6 s refl)
      ∙ (ap (drop 2) behind_ip ∙ drop-append_eq 2 p.port (compact peers) q) in
    rw
      (
        take-append_eq 4 p.ip (p.port ++ compact peers) i,
        behind_ip,
        take-append_eq 2 p.port (compact peers) q,
        behind,
        read_peers-compact peers h,
      )
      refl

parse_peerlist_string-compact :
    (peers : List PeerInfo)
    → All IsCompact peers
    → parse_peerlist_string (compact peers) [] ≡ ok peers
unfolding parse_peerlist_string
parse_peerlist_string-compact peers h =
    let size = length-compact peers h in
    let whole : length (compact peers) % 6 ≡ 0 = omega arith in
    let many : length (compact peers) / 6 ≡ length peers = omega arith in
    rw (whole, many, read_peers-compact peers h) refl

-- An answer with its keys in order.
abbrev pub answer : (complete incomplete interval : ℕ) → List PeerInfo → Value
answer complete incomplete interval peers = dict (
    entry (codes "complete") (int (pos complete)) (
      entry (codes "incomplete") (int (pos incomplete)) (
        entry (codes "interval") (int (pos interval))
          (entry (codes "peers") (string (compact peers)) end))))

-- From the bencoding of an answer with its peers as one string, at the front of any buffer,
-- tracker_resp_parse gives the counts, the interval and the peers in their order, and no optional
-- field. Where the numbers are below 2 ^ 32, an address has four bytes and a port two; the length of
-- the bencoding is fuel enough.
pub tracker_resp_parse-compact :
    (complete incomplete interval : ℕ) (peers : List PeerInfo) (rest : Bytes) (fuel : ℕ)
    → complete < 2 ^ 32
    → incomplete < 2 ^ 32
    → interval < 2 ^ 32
    → All IsCompact peers
    → IsWellFormed (answer complete incomplete interval peers)
    → length (print (answer complete incomplete interval peers)) < fuel
    → tracker_resp_parse fuel (print (answer complete incomplete interval peers) ++ rest)
      ≡ ok (record empty_resp {
        interval = interval;
        complete = complete;
        incomplete = incomplete;
        peers = peers;
      })
unfolding tracker_resp_parse read_entries read_entry same_string down_cast_dict down_cast_string
    down_cast_int
tracker_resp_parse-compact complete incomplete interval peers rest fuel c i v h wf f =
    let (_, parsed) = parse-encode (answer complete incomplete interval peers) rest fuel wf f in
    rw
      (
        parsed,
        as_unsigned-small complete c,
        as_unsigned-small incomplete i,
        as_unsigned-small interval v,
        parse_peerlist_string-compact peers h,
      )
      refl

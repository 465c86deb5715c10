-- ===== src/Tracker/Response.antt =====
-- src/tracker_resp_parser.cpp: the answer of a tracker from its bencoding.
pub mod Compact
use daobell.Prelude.{
  ℕ, zero, suc, ◌+◌, ◌/◌, ◌%◌, ◌==◌, if◌then◌else◌, Bytes, codes, List, [], ◌∷◌, ◌++◌, length, take,
  drop, Option, none, some, Outcome, ok, fault, ◌>>=◌, ℤ,
}
use daobell.Bencode.Value.{
  Value, Entries, end, entry, down_cast_string, down_cast_int, down_cast_dict,
}
use daobell.Bencode.Parser.{parse}
use daobell.Metainfo.{same_string, as_unsigned}

-- struct peer_info of an IPv4 peer: s_addr and sin_port as they lie in memory, in network order.
pub record PeerInfo : Type 0 where
  pub ip : Bytes
  pub port : Bytes

-- struct tracker_announce_resp. The bits of `has` say which of the four optional fields were there.
pub record TrackerAnnounceResp : Type 0 where
  pub has : ℕ
  pub failure_reason : Bytes
  pub warning_message : Bytes
  pub interval : ℕ
  pub min_interval : ℕ
  pub tracker_id : Bytes
  pub complete : ℕ
  pub incomplete : ℕ
  pub peers : List PeerInfo

-- What make_shared leaves in it.
abbrev pub empty_resp : TrackerAnnounceResp
empty_resp = record {
  has = 0;
  failure_reason = [];
  warning_message = [];
  interval = 0;
  min_interval = 0;
  tracker_id = [];
  complete = 0;
  incomplete = 0;
  peers = [];
}

-- SET_HAS with 1 << bit
unfoldable pub set_has : ℕ → ℕ → ℕ
set_has has bit = if has / bit % 2 == 0 then has + bit else has

abbrev pub response_has_failure_reason : ℕ
response_has_failure_reason = 1

abbrev pub response_has_warning_message : ℕ
response_has_warning_message = 2

abbrev pub response_has_min_interval : ℕ
response_has_min_interval = 4

abbrev pub response_has_tracker_id : ℕ
response_has_tracker_id = 8

-- The loop of parse_peerlist_string, over n groups of six bytes.
unfoldable pub read_peers : ℕ → Bytes → List PeerInfo
read_peers zero s = []
read_peers (suc n) s = record { ip = take 4 s; port = take 2 (drop 4 s) } ∷ read_peers n (drop 6 s)

unfoldable pub parse_peerlist_string : Bytes → List PeerInfo → Outcome (List PeerInfo)
unfolding read_peers
parse_peerlist_string s peers =
    if length s % 6 == 0 then ok (peers ++ read_peers (length s / 6) s) else fault

abbrev pub set_failure_reason : TrackerAnnounceResp → Option Bytes → TrackerAnnounceResp
set_failure_reason ret none = ret
set_failure_reason ret (some s) = record ret {
  failure_reason = s;
  has = set_has ret.has response_has_failure_reason;
}

abbrev pub set_warning_message : TrackerAnnounceResp → Option Bytes → TrackerAnnounceResp
set_warning_message ret none = ret
set_warning_message ret (some s) = record ret {
  warning_message = s;
  has = set_has ret.has response_has_warning_message;
}

abbrev pub set_interval : TrackerAnnounceResp → Option ℤ → TrackerAnnounceResp
set_interval ret none = ret
set_interval ret (some n) = record ret { interval = as_unsigned n }

abbrev pub set_min_interval : TrackerAnnounceResp → Option ℤ → TrackerAnnounceResp
set_min_interval ret none = ret
set_min_interval ret (some n) = record ret {
  min_interval = as_unsigned n;
  has = set_has ret.has response_has_min_interval;
}

abbrev pub set_tracker_id : TrackerAnnounceResp → Option Bytes → TrackerAnnounceResp
set_tracker_id ret none = ret
set_tracker_id ret (some s) = record ret {
  tracker_id = s;
  has = set_has ret.has response_has_tracker_id;
}

abbrev pub set_complete : TrackerAnnounceResp → Option ℤ → TrackerAnnounceResp
set_complete ret none = ret
set_complete ret (some n) = record ret { complete = as_unsigned n }

abbrev pub set_incomplete : TrackerAnnounceResp → Option ℤ → TrackerAnnounceResp
set_incomplete ret none = ret
set_incomplete ret (some n) = record ret { incomplete = as_unsigned n }

-- Peers that are no string, the dictionary model, are left out.
abbrev pub set_peers : TrackerAnnounceResp → Option Bytes → Outcome TrackerAnnounceResp
set_peers ret none = ok ret
set_peers ret (some s) =
    parse_peerlist_string s ret.peers >>= λ peers. ok (record ret { peers = peers })

-- An entry of the answer. The tests of a key exclude one another, so that they stand as a chain.
unfoldable pub read_entry : Bytes → Value → TrackerAnnounceResp → Outcome TrackerAnnounceResp
unfolding same_string
read_entry k v ret =
    if same_string k (codes "failure reason")
    then ok (set_failure_reason ret (down_cast_string v))
    else if same_string k (codes "warning message")
    then ok (set_warning_message ret (down_cast_string v))
    else if same_string k (codes "interval")
    then ok (set_interval ret (down_cast_int v))
    else if same_string k (codes "min interval")
    then ok (set_min_interval ret (down_cast_int v))
    else if same_string k (codes "tracker id")
    then ok (set_tracker_id ret (down_cast_string v))
    else if same_string k (codes "complete")
    then ok (set_complete ret (down_cast_int v))
    else if same_string k (codes "incomplete")
    then ok (set_incomplete ret (down_cast_int v))
    else if same_string k (codes "peers")
    then set_peers ret (down_cast_string v)
    else ok ret

unfoldable pub read_entries : Entries → TrackerAnnounceResp → Outcome TrackerAnnounceResp
unfolding read_entry
read_entries end ret = ok ret
read_entries (entry k v es) ret = read_entry k v ret >>= λ ret'. read_entries es ret'

-- The asserts fail for a value that is no dictionary.
abbrev pub resp_of : Option Entries → Outcome TrackerAnnounceResp
resp_of none = fault
resp_of (some es) = read_entries es empty_resp

-- `resp_str` is what c_str() points to, the closing NUL included; `fuel` is the parser's.
unfoldable pub tracker_resp_parse : ℕ → (resp_str : Bytes) → Outcome TrackerAnnounceResp
tracker_resp_parse fuel resp_str =
    parse fuel resp_str >>= λ (meta, rest). resp_of (down_cast_dict meta)

-- ===== src/Tracker/Announce.antt =====
-- src/tracker_announce.cpp: the request to a tracker, and the content of its answer.
pub mod Content
use daobell.Prelude.{
  ℕ, zero, suc, ◌+◌, ◌-◌, ◌*◌, ◌/◌, ◌%◌, ◌^◌, ltb, leb, ◌==◌, ◌&&◌, ◌||◌, not, if◌then◌else◌, Bool,
  true, false, Bytes, codes, List, [], ◌∷◌, ◌++◌, length, take, drop, replicate, Option, none, some,
  Outcome, ok, fault, out_of_fuel, ◌>>=◌,
}
use daobell.Bencode.Numbers.{to_string, skip_space}
use daobell.PercentEncoding.{percent_encode}
use daobell.Files.{starts_with}
use daobell.Net.{Socket, Action, and_then}
use daobell.Tracker.Response.{TrackerAnnounceResp, tracker_resp_parse}
use daobell.Tracker.Tokens.{Token, strtok_r, deref, strtoul}

pub data TorrentEvent : Type 0 where
  started completed stopped : TorrentEvent

-- struct tracker_announce_req, without the fields that no function reads.
pub record TrackerAnnounceReq : Type 0 where
  pub has : ℕ
  pub info_hash : Bytes
  pub peer_id : Bytes
  pub port : ℕ
  pub uploaded : ℕ
  pub downloaded : ℕ
  pub left : ℕ
  pub compact : Bool
  pub event : TorrentEvent
  pub numwant : ℕ
  pub key : Bytes
  pub trackerid : Bytes

-- The members of an http_url_parser.
pub record HttpUrl : Type 0 where
  pub scheme : Bytes
  pub domain : Bytes
  pub port : Bytes
  pub path : Bytes

-- HAS with 1 << bit
abbrev pub has_flag : ℕ → ℕ → Bool
has_flag has bit = not (has / bit % 2 == 0)

unfoldable pub event_str : TorrentEvent → Bytes
event_str started = codes "started"
event_str completed = codes "completed"
event_str stopped = codes "stopped"

-- out_str += text, under a condition.
abbrev pub append_if : Bool → Bytes → Bytes
append_if true text = text
append_if false text = []

unfoldable pub build_http_request : HttpUrl → TrackerAnnounceReq → Bytes
unfolding event_str percent_encode to_string
build_http_request url req =
    codes "GET "
    ++ url.path
    ++ codes "?info_hash="
    ++ percent_encode req.info_hash
    ++ codes "&peer_id="
    ++ percent_encode req.peer_id
    ++ codes "&port="
    ++ to_string req.port
    ++ codes "&uploaded="
    ++ to_string req.uploaded
    ++ codes "&downloaded="
    ++ to_string req.downloaded
    ++ codes "&left="
    ++ to_string req.left
    ++ append_if (has_flag req.has 8)
        (codes "&compact=" ++ to_string (if req.compact then 1 else 0))
    ++ append_if (has_flag req.has 64) (codes "&event=" ++ event_str req.event)
    ++ append_if (has_flag req.has 2) (codes "&numwant=" ++ to_string req.numwant)
    ++ append_if (has_flag req.has 16) (codes "&key=" ++ req.key)
    ++ append_if (has_flag req.has 32) (codes "&trackerid=" ++ req.trackerid)
    ++ codes " HTTP/1.1"
    ++ 13 ∷ 10 ∷ codes "Host: "
    ++ url.domain
    ++ 13 ∷ 10 ∷ 13 ∷ 10 ∷ []

-- The number behind the first ':' of a line, as an `unsigned`.
unfoldable pub length_of_line : Bytes → Outcome ℕ
unfolding strtok_r strtoul
length_of_line line = strtok_r b':' (line ++ 0 ∷ []) >>= deref >>= λ name.
    strtok_r b':' name.save >>= deref >>= λ value. ok (strtoul value.token % 2 ^ 32)

pub record Headers : Type 0 where
  pub chuncked : Bool
  pub content_length : ℕ
  pub behind : Bytes

-- The do loop over the lines. A line of the length has been cut at its ':', so that it does not have
-- one character. Each line takes a unit of fuel.
unfoldable pub read_headers : ℕ → Bytes → Bool → ℕ → Outcome Headers
unfolding strtok_r length_of_line starts_with
read_headers zero s chuncked content_length = out_of_fuel
read_headers (suc fuel) s chuncked content_length = strtok_r 10 s >>= deref >>= λ line.
    let chuncked' = starts_with (codes "Transfer-Encoding: chuncked") line.token || chuncked in
    let sized = length_of_line line.token >>= λ n. read_headers fuel line.save chuncked' n in
    let more = read_headers fuel line.save chuncked' content_length in
    if starts_with (codes "Content-Length:") line.token
    then sized
    else if length line.token == 1
    then ok (record { chuncked = chuncked'; content_length = content_length; behind = line.behind })
    else more

-- The content, which is read past the NUL that strtok_r put; a length past the buffer is a fault. With
-- chunks out_str is left as it was.
abbrev pub content_of : Bytes → Headers → Outcome (Option Bytes)
content_of out_str h =
    if h.chuncked
    then ok (some out_str)
    else if leb h.content_length (length h.behind)
    then ok (some (take h.content_length h.behind))
    else fault

-- `buff` is the whole array; `none` is -1.
unfoldable pub content_from_tracker_resp : (buff out_str : Bytes) → Outcome (Option Bytes)
unfolding read_headers
content_from_tracker_resp buff out_str = strtok_r 10 buff >>= deref >>= λ line.
    let content = read_headers (length buff) line.save false 0 >>= content_of out_str in
    if starts_with (codes "HTTP/1.0 200 OK") line.token
      || starts_with (codes "HTTP/1.1 200 OK") line.token
    then content
    else ok none

module _ (S : Socket) where
  -- The while loop of tracker_send_all, on the bytes that are not sent yet.
  unfoldable pub tracker_send_loop : ℕ → Bytes → Action S (Unit {0})
  tracker_send_loop fuel [] s = ok (some tt, s)
  tracker_send_loop zero (c ∷ rest) s = out_of_fuel
  tracker_send_loop (suc fuel) (c ∷ rest) s =
      let (r, s') = S.send (c ∷ rest) s in
      elim r [ none ↦ ok (none, s') | some n ↦ tracker_send_loop fuel (drop n (c ∷ rest)) s' ]

  unfoldable pub tracker_send_all : Bytes → Action S (Unit {0})
  unfolding tracker_send_loop
  tracker_send_all buff s = tracker_send_loop (length buff) buff s

  -- The do loop of tracker_recv_resp; when the buffer is full, recv is asked for nothing.
  unfoldable pub tracker_recv_loop : ℕ → ℕ → Bytes → Action S Bytes
  tracker_recv_loop zero left got s = out_of_fuel
  tracker_recv_loop (suc fuel) left got s =
      let (r, s') = S.recv left s in
      elim r [
        | none ↦ ok (none, s')
        | some bytes ↦
            let more = tracker_recv_loop fuel (left - length bytes) (got ++ bytes) s' in
            if ltb 0 (length bytes) then more else ok (some (got ++ bytes), s')
      ]

  -- The buffer has 1024 bytes, zeros at first.
  unfoldable pub tracker_recv_resp : Action S Bytes
  unfolding tracker_recv_loop content_from_tracker_resp
  tracker_recv_resp = and_then S (tracker_recv_loop 1025 1024 []) (λ got s.
      content_from_tracker_resp (got ++ replicate (1024 - length got) 0) [] >>= λ r. ok (r, s))

  -- tracker_announce on a socket that is connected to the tracker; the URL is not of https or udp.
  unfoldable pub tracker_exchange :
      (fuel : ℕ) → HttpUrl → TrackerAnnounceReq → Action S TrackerAnnounceResp
  unfolding tracker_send_all tracker_recv_resp tracker_resp_parse build_http_request
  tracker_exchange fuel url req = and_then S (tracker_send_all (build_http_request url req)) (λ _.
      and_then S tracker_recv_resp
        (λ resp_str s. tracker_resp_parse fuel (resp_str ++ 0 ∷ []) >>= λ resp. ok (some resp, s)))

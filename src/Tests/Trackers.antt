-- ===== src/Tests/Trackers.antt =====
-- The answer of a tracker, and its bencoded content.
use daobell.Prelude.{
  ℕ, suc, ltb, if◌then◌else◌, false, ◌≡◌, refl, arith, Bytes, codes, List, [], ◌∷◌, ◌++◌, ok, some,
  Option, replicate, true,
}
use daobell.Files.{starts_with}
use daobell.Torrent.{Torrent}
use daobell.Downloader.{periodic_announce}
use daobell.Downloader.Events.{TellsStart, periodic_announce-TellsStart}
use daobell.Tests.Torrents.{three}
use daobell.Bencode.Value.{lt_string}
use daobell.Bencode.Numbers.{to_string, to_string_int, print_digits, skip_space, is_space}
use daobell.Bencode.Grammar.{print, IsWellFormed}
use daobell.Tracker.Response.{PeerInfo, TrackerAnnounceResp, empty_resp, tracker_resp_parse}
use daobell.Tracker.Response.Compact.{answer, compact, tracker_resp_parse-compact}
use daobell.Tracker.Announce.{TrackerAnnounceReq, content_from_tracker_resp}
use daobell.Tracker.Tokens.{strtoul, strtoul_sign, scan_auto, scan_base, base_digit}
use daobell.Tracker.Announce.Content.{status, header_text, content_from_tracker_resp-content}

abbrev two_peers : List PeerInfo
two_peers =
    record { ip = 10 ∷ 0 ∷ 0 ∷ 1 ∷ []; port = 26 ∷ 225 ∷ [] }
    ∷ record { ip = 10 ∷ 0 ∷ 0 ∷ 2 ∷ []; port = 26 ∷ 226 ∷ [] }
    ∷ []

answer-IsWellFormed : IsWellFormed (answer 5 1 1800 two_peers)
unfolding lt_string compact
answer-IsWellFormed = ground arith

tracker_resp_parse-compact_example :
    tracker_resp_parse 100 (print (answer 5 1 1800 two_peers) ++ 0 ∷ [])
    ≡ ok (record empty_resp { interval = 1800; complete = 5; incomplete = 1; peers = two_peers })
tracker_resp_parse-compact_example =
    tracker_resp_parse-compact 5 1 1800 two_peers (0 ∷ []) 100 (omega arith) (omega arith)
      (omega arith) ((refl, refl), ((refl, refl), tt)) answer-IsWellFormed
      (unfold print compact to_string to_string_int print_digits in omega arith)

abbrev server : Bytes
server = codes "Server: x" ++ 13 ∷ []

abbrev three_bytes : Bytes
three_bytes = codes " 3" ++ 13 ∷ []

content_from_tracker_resp-content_example :
    content_from_tracker_resp
      ((status false ++ 13 ∷ [])
        ++ 10 ∷ header_text (server ∷ []) [] three_bytes (codes "d1e" ++ replicate 4 0))
      []
    ≡ ok (some (codes "d1e"))
unfolding strtoul strtoul_sign skip_space is_space scan_auto scan_base base_digit starts_with
content_from_tracker_resp-content_example =
    content_from_tracker_resp-content false (13 ∷ []) (server ∷ []) [] three_bytes (codes "d1e")
      (replicate 4 0) [] (ground arith) (ground arith) tt (ground arith) refl

abbrev answers : Bytes → TrackerAnnounceReq → ℕ → Option TrackerAnnounceResp × ℕ
answers url req w = (some (record empty_resp { interval = 60; peers = two_peers }), suc w)

-- A connection after which the torrent is complete, from the fourth on.
abbrev connects : PeerInfo → Torrent → ℕ → Torrent × ℕ
connects peer t w =
    (record t { sh = record t.sh { completed = if ltb w 6 then false else true } }, suc w)

periodic_announce-TellsStart_example :
    TellsStart (periodic_announce answers connects 5 (replicate 20 1) 6889 three 0).0
periodic_announce-TellsStart_example =
    periodic_announce-TellsStart answers connects 4 (replicate 20 1) 6889 three 0

-- ===== src/Tracker.antt =====
-- The tracker: src/tracker_resp_parser.cpp (Response) and src/tracker_announce.cpp (Announce).
pub mod Response
pub mod Tokens
pub mod Announce

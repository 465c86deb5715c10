-- ===== src/Tests.antt =====
-- Runs of the model on concrete inputs, and each theorem at an input that meets its hypotheses.
mod Bencoding
mod Blocks
mod Digests
mod Metainfos
mod Headers
mod Peers
mod Torrents
mod Swarms
mod Trackers
mod Connections
mod Urls

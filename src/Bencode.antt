-- ===== src/Bencode.antt =====
-- Bencoding: values, the parsers of a character buffer and of a file, the encoder, and what they mean.
pub mod Value
pub mod Numbers
pub mod Grammar
pub mod Encoder
pub mod Parser
pub mod Ifstream
pub mod FileParser
pub mod Reader

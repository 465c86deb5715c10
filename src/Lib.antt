-- ===== src/Lib.antt =====
-- daobell: a verification library for the BitTorrent core of the download tool, the program under
-- src/ of the repository.
--
-- The program reads a .torrent file, announces itself to a tracker, and exchanges pieces of the
-- files with peers. Bencoding (bencode_*.cpp) is the syntax of the .torrent file and of the
-- tracker's answers; torrent_info.cpp keeps the torrent; piece_request.cpp cuts a piece into blocks
-- of the mapped files; sha1.cpp names the torrent and checks each piece.
--
-- Bencode and its children: src/bencode_string, bencode_int, bencode_list, bencode_dict (Value),
-- src/bencode_value_safe_cast.h (the down_cast functions of Value), src/bencode_encoder.cpp
-- (Encoder), the two parsers of src/bencode_parser.cpp (Parser for the one of a `const char *`,
-- FileParser for the one of an ifstream, over the stream of Ifstream), src/bencode_reader.cpp
-- (Reader). Numbers has the library functions to_string and strtol that they call; Grammar is the
-- bencoding of a value, stated apart from the program. Files: src/dnld_file.cpp; Files.Splice has
-- bytes put over others. Pieces: src/piece_request.cpp; Pieces.Spans, Tiles and Place say which
-- bytes of the files a block stands for. Sha1: src/sha1.cpp; Sha1.Reference states the digest of a
-- whole message, over the program's own compression of a block. Torrent: src/torrent_info.cpp, with
-- Verify for torrent_sha1_verify and Counting for the number of the missing pieces. Net:
-- peer_send_buff and peer_recv_buff of src/peer_msg.cpp, over a socket that is a parameter;
-- Net.Sending has the laws of a stream socket. Message: the other functions of src/peer_msg.cpp
-- (Send, Receive, Piece, Handshake) and src/bitfield_macro.h (Bits); Message.Wire is the format of
-- the messages, as the program writes it, and Message.Piece.Transfer takes a block from the files
-- of one peer to those of another, Message.Piece.Download all blocks. Connection:
-- src/peer_connection.cpp, the state of a connection and the completion of a piece, with Incoming
-- for the messages that come, Outgoing for the requests, and Session for the start and the loop of
-- its thread. Swarm: the steps of all connections on the torrent, in any order. Metainfo:
-- torrent_init of src/torrent_info.cpp and what it calls. Tracker: src/tracker_resp_parser.cpp
-- (Response) and src/tracker_announce.cpp (Announce). Downloader: the requests and the loop of
-- src/bt_downloader.cpp. PercentEncoding: percent_encode of src/utils.cpp. FtpUrl:
-- src/ftp_url_parser.cpp. HttpRange: the requests of src/http_multi_threads_downloader.cpp.
-- HttpHeader: src/http_header_parser.cpp.
--
-- What the system does is a parameter: a socket (Socket, and Poll for peeking at it), the mapping
-- of a file (`map_file`), and what malloc leaves in memory (`garbage`); boost's trim_copy is the
-- parameter `trim`. The announcing loop takes the round trip to the tracker and the run of a
-- connection as functions.
--
-- A pointer into a buffer is the list of what the buffer holds from there on; a pointer into a
-- mapped file is the number of the file and an offset. Undefined behaviour and failed asserts are
-- the outcome `fault`. Loops that the source bounds only by its data take fuel: the parser one unit
-- for each call and round (the length of the text is enough), piece_request_create the size of the
-- files and their number (it never runs out), the padding of sha1_finish 65 rounds, a buffer that
-- is received its length, one that is sent a round more, process_queued_msgs one unit for each
-- message and one more, the lines of a tracker's answer the length of the buffer, a connection its
-- rounds, and the digits of a Content-Length the number and one more.
--
-- Not modelled: threads that interleave elsewhere than under the mutex of the torrent, the file
-- system, connecting to peers and trackers, the message queue of a connection, the boost regex of a
-- URL, the transfers of the HTTP and FTP downloaders, logging, and the directory useless/, which is
-- not built.
pub mod Prelude
pub mod Bencode
pub mod Files
pub mod Torrent
pub mod Pieces
pub mod Net
pub mod Message
pub mod Metainfo
pub mod Tracker
pub mod Downloader
pub mod FtpUrl
pub mod HttpRange
pub mod HttpHeader
pub mod Connection
pub mod PercentEncoding
pub mod Sha1
pub mod Swarm
pub mod Tests

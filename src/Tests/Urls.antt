-- ===== src/Tests/Urls.antt =====
-- A percent-encoded info hash, and FTP URLs.
use daobell.Prelude.{◌≡◌, [], ◌∷◌, arith, codes, refl, ok, some, suc}
use daobell.Files.{starts_with}
use daobell.FtpUrl.{parse_ftp_url, contains, slash_before, parse_domain, find_first, find_last}
use daobell.FtpUrl.RoundTrip.{parse_ftp_url-user_url}
use daobell.HttpRange.{thread_range}
use daobell.HttpRange.Tiles.{thread_range-adjoins}
use daobell.Bencode.Numbers.{is_digit}
use daobell.PercentEncoding.{percent_encode, is_rfc3986_unreserved_chars, is_alpha, hex_digit}
use daobell.PercentEncoding.RoundTrip.{percent_decode, percent_decode-percent_encode}

info_hash_escaped : percent_encode (0x12 ∷ b'a' ∷ 0xf0 ∷ b'~' ∷ []) ≡ codes "%12a%F0~"
unfolding percent_encode is_rfc3986_unreserved_chars is_alpha is_digit hex_digit
info_hash_escaped = refl

percent_decode-percent_encode_example :
    percent_decode (percent_encode (0x12 ∷ b'a' ∷ 0xf0 ∷ [])) ≡ 0x12 ∷ b'a' ∷ 0xf0 ∷ []
percent_decode-percent_encode_example =
    percent_decode-percent_encode (0x12 ∷ b'a' ∷ 0xf0 ∷ []) (omega arith)

-- A ':' in the path is taken for that of the port.
colon_in_path :
    parse_ftp_url (codes "ftp://h/a:b")
    ≡ ok (
        some (record {
          user = codes "anonymous";
          password = codes "anonymous";
          domain = codes "h/a";
          port = codes "b";
          path = codes "/";
          file = codes "a:b";
        }))
unfolding parse_ftp_url contains slash_before parse_domain find_first find_last starts_with
colon_in_path = refl

parse_ftp_url-user_url_example :
    parse_ftp_url (codes "ftp://me:pw@h:21/a@b/c/f")
    ≡ ok (
        some (record {
          user = codes "me";
          password = codes "pw";
          domain = codes "h";
          port = codes "21";
          path = codes "/a@b/c";
          file = codes "f";
        }))
parse_ftp_url-user_url_example =
    parse_ftp_url-user_url (codes "me") (codes "pw") (codes "h") (codes "21") (codes "a@b/c")
      (codes "f") (ground arith) (refl, (refl, tt)) (refl, tt) (refl, tt) (refl, (refl, tt))
      (refl, tt) (omega arith)

thread_range-adjoins_example :
    ((thread_range 10 3 0).thread_offset_beg ≡ 0)
    × ((thread_range 10 3 2).thread_offset_end ≡ 10)
    × ((thread_range 10 3 2).thread_offset_beg ≡ suc (thread_range 10 3 1).thread_offset_end)
thread_range-adjoins_example = thread_range-adjoins 10 2 1 (omega arith) (omega arith) (omega arith)

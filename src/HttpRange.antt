-- ===== src/HttpRange.antt =====
-- src/http_multi_threads_downloader.cpp: the requests of a download in several threads.
pub mod Tiles
use daobell.Prelude.{
  ℕ, ◌+◌, ◌-◌, ◌*◌, ◌/◌, ◌%◌, ◌==◌, if◌then◌else◌, Bytes, codes, [], ◌∷◌, ◌++◌, Option, none, some,
  Outcome, ok, fault, ◌>>=◌,
}
use daobell.Bencode.Numbers.{to_string}
use daobell.Pieces.{sub64, u64_mod}

-- thread_offset_beg_ and thread_offset_end_, which are size_t.
pub record Range : Type 0 where
  pub thread_offset_beg : ℕ
  pub thread_offset_end : ℕ

unfoldable pub thread_range : (file_size thread_count index : ℕ) → Range
thread_range file_size thread_count index =
    let thread_file_size = file_size / thread_count in
    let beg = (index * thread_file_size) % u64_mod in
    record {
      thread_offset_beg = beg;
      thread_offset_end =
          if index == sub64 thread_count 1
          then file_size
          else sub64 ((beg + thread_file_size) % u64_mod) 1;
    }

abbrev request_start : (path domain : Bytes) → Bytes
request_start path domain =
    codes "GET "
    ++ path
    ++ codes " HTTP/1.1"
    ++ 13 ∷ 10 ∷ codes "Host: "
    ++ domain
    ++ 13 ∷ 10 ∷ codes "Connection: Close"

-- `none` is -1, for a URL that is not valid: it has no domain.
unfoldable pub gen_request_header : (path domain : Bytes) → Option Bytes
gen_request_header path [] = none
gen_request_header path (c ∷ domain) =
    some (request_start path (c ∷ domain) ++ 13 ∷ 10 ∷ 13 ∷ 10 ∷ [])

-- Without threads the division is a fault.
unfoldable pub gen_range_header :
    (path domain : Bytes) → (file_size thread_count index : ℕ) → Outcome (Option Bytes)
unfolding thread_range to_string
gen_range_header path [] file_size thread_count index = ok none
gen_range_header path (c ∷ domain) file_size thread_count index =
    let r = thread_range file_size thread_count index in
    if thread_count == 0
    then fault
    else ok (
        some (
          request_start path (c ∷ domain)
          ++ 13 ∷ 10 ∷ codes "Range: bytes="
          ++ to_string r.thread_offset_beg
          ++ codes "-"
          ++ to_string r.thread_offset_end
          ++ 13 ∷ 10 ∷ 13 ∷ 10 ∷ []))

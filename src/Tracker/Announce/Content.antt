-- ===== src/Tracker/Announce/Content.antt =====
-- The content of a tracker's answer.
use daobell.Prelude.{
  Bool, ℕ, suc, ◌+◌, ◌-◌, ◌%◌, ◌^◌, ◌<◌, ◌≤◌, leb, le→leb, ==_ne, ==_refl, true, false, ◌||◌, Bytes,
  codes, List, [], ◌∷◌, ◌++◌, length, length-append, take-append, some, All, ok, ◌≡◌, ◌≢◌, refl,
  sym, ◌∙◌, subst, arith, append_assoc,
}
use daobell.Files.{starts_with}
use daobell.Tracker.Announce.{
  Headers, length_of_line, read_headers, content_of, content_from_tracker_resp,
}
use daobell.Tracker.Tokens.{skip_delims, take_token, token_at, strtok_r, strtoul}

-- No character is the delimiter or a NUL.
abbrev pub IsFree : ℕ → Bytes → Type 0
IsFree d = All (λ c. (c ≢ d) × (c ≢ 0))

take_token-delim :
    (d : ℕ) (l rest : Bytes)
    → IsFree d l
    → take_token d (l ++ d ∷ rest) ≡ ok (record { token = l; save = rest; behind = rest })
unfolding take_token
take_token-delim d [] rest h = rw (==_refl d) refl
take_token-delim d (c ∷ l) rest ((n, z), h) =
    rw (==_ne c d n, ==_ne c 0 z, take_token-delim d l rest h) refl

take_token-nul :
    (d : ℕ) (l : Bytes)
    → 0 < d
    → IsFree d l
    → take_token d (l ++ 0 ∷ []) ≡ ok (record { token = l; save = 0 ∷ []; behind = [] })
unfolding take_token
take_token-nul d [] p h = rw (==_ne 0 d (λ e. omega arith)) refl
take_token-nul d (c ∷ l) p ((n, z), h) = rw (==_ne c d n, ==_ne c 0 z, take_token-nul d l p h) refl

strtok_r-delim :
    (d c : ℕ) (l rest : Bytes)
    → IsFree d (c ∷ l)
    → strtok_r d ((c ∷ l) ++ d ∷ rest)
      ≡ ok (some (record { token = c ∷ l; save = rest; behind = rest }))
unfolding strtok_r skip_delims token_at
strtok_r-delim d c l rest ((n, z), h) =
    rw (==_ne c d n, ==_ne c 0 z, ==_ne c d n, take_token-delim d l rest h) refl

strtok_r-nul :
    (d c : ℕ) (l : Bytes)
    → 0 < d
    → IsFree d (c ∷ l)
    → strtok_r d ((c ∷ l) ++ 0 ∷ [])
      ≡ ok (some (record { token = c ∷ l; save = 0 ∷ []; behind = [] }))
unfolding strtok_r skip_delims token_at
strtok_r-nul d c l p ((n, z), h) =
    rw (==_ne c d n, ==_ne c 0 z, ==_ne c d n, take_token-nul d l p h) refl

-- A line, its '\r' included, that neither ends the headers nor says anything of the content.
abbrev pub IsHeader : Bytes → Type 0
IsHeader [] = ⊥
IsHeader (c ∷ l) =
    IsFree 10 (c ∷ l)
    × (length (c ∷ l) ≢ 1)
    × (starts_with (codes "Transfer-Encoding: chuncked") (c ∷ l) ≡ false)
    × (starts_with (codes "Content-Length:") (c ∷ l) ≡ false)

-- The lines, each with its '\n', in front of a text.
unfoldable pub lines : List Bytes → Bytes → Bytes
lines [] tail = tail
lines (l ∷ ls) tail = l ++ 10 ∷ lines ls tail

-- What stands behind "Content-Length:".
abbrev pub IsNumber : Bytes → Type 0
IsNumber [] = ⊥
IsNumber (c ∷ value) = IsFree 10 (c ∷ value) × IsFree b':' (c ∷ value)

-- A unit of fuel for each line, and more.
abbrev budget : List Bytes → ℕ → ℕ
budget [] fuel = fuel
budget (l ∷ ls) fuel = suc (budget ls fuel)

budget_lem : (ls : List Bytes) (fuel : ℕ) → budget ls fuel ≡ length ls + fuel
budget_lem [] fuel = omega arith
budget_lem (l ∷ ls) fuel = omega (arith, budget_lem ls fuel)

read_headers-lines :
    (ls : List Bytes) (tail : Bytes) (fuel n : ℕ)
    → All IsHeader ls
    → read_headers (budget ls fuel) (lines ls tail) false n ≡ read_headers fuel tail false n
unfolding read_headers lines
read_headers-lines [] tail fuel n h = refl
read_headers-lines ([] ∷ ls) tail fuel n (h, hs) = elim h [ ]
read_headers-lines ((c ∷ l) ∷ ls) tail fuel n ((free, long, chunk, len), hs) =
    rw
      (
        strtok_r-delim 10 c l (lines ls tail) free,
        chunk,
        len,
        ==_ne (length (c ∷ l)) 1 long,
        read_headers-lines ls tail fuel n hs,
      )
      refl

lines-length : (ls : List Bytes) (tail : Bytes) → length ls + length tail ≤ length (lines ls tail)
unfolding lines
lines-length [] tail = omega arith
lines-length (l ∷ ls) tail =
    omega (arith, length-append l (10 ∷ lines ls tail), lines-length ls tail)

length_of_line-colon :
    (b c : ℕ) (name value : Bytes)
    → IsFree b':' (b ∷ name)
    → IsFree b':' (c ∷ value)
    → length_of_line ((b ∷ name) ++ b':' ∷ c ∷ value) ≡ ok (strtoul (c ∷ value) % 2 ^ 32)
unfolding length_of_line
length_of_line-colon b c name value h free =
    rw
      (
        append_assoc name (b':' ∷ c ∷ value) (0 ∷ []),
        strtok_r-delim b':' b name ((c ∷ value) ++ 0 ∷ []) h,
        strtok_r-nul b':' c value (omega arith) free,
      )
      refl

length_of_line-number :
    (value : Bytes)
    → IsNumber value
    → length_of_line (codes "Content-Length:" ++ value) ≡ ok (strtoul value % 2 ^ 32)
length_of_line-number [] h = elim h [ ]
length_of_line-number (c ∷ value) (_, free) =
    length_of_line-colon b'C' c (codes "ontent-Length") value (ground arith) free

-- The lines of an answer behind its first one.
abbrev pub header_text : (before after : List Bytes) → (value rest : Bytes) → Bytes
header_text before after value rest =
    lines before ((codes "Content-Length:" ++ value) ++ 10 ∷ lines after (13 ∷ 10 ∷ rest))

IsFree-append : (d : ℕ) (xs ys : Bytes) → IsFree d xs → IsFree d ys → IsFree d (xs ++ ys)
IsFree-append d [] ys h k = k
IsFree-append d (x ∷ xs) ys (f, h) k = (f, IsFree-append d xs ys h k)

length-IsFree : (value : Bytes) → IsNumber value → IsFree 10 (codes "Content-Length:" ++ value)
length-IsFree [] h = elim h [ ]
length-IsFree (c ∷ value) h =
    IsFree-append 10 (codes "Content-Length:") (c ∷ value) (ground arith) h.0

-- The line "\r" ends the headers.
read_headers-blank :
    (fuel n : ℕ) (rest : Bytes)
    → read_headers (suc fuel) (13 ∷ 10 ∷ rest) false n
      ≡ ok (record { chuncked = false; content_length = n; behind = rest })
unfolding read_headers strtok_r skip_delims token_at take_token starts_with
read_headers-blank fuel n rest = refl

read_headers-text :
    (before after : List Bytes) (value rest : Bytes) (fuel : ℕ)
    → All IsHeader before
    → All IsHeader after
    → IsNumber value
    → read_headers
        (budget before (suc (budget after (suc fuel))))
        (header_text before after value rest)
        false
        0
      ≡ ok (record { chuncked = false; content_length = strtoul value % 2 ^ 32; behind = rest })
unfolding read_headers starts_with
read_headers-text before after value rest fuel b a v =
    rw
      (
        read_headers-lines before
            ((codes "Content-Length:" ++ value) ++ 10 ∷ lines after (13 ∷ 10 ∷ rest))
            (suc (budget after (suc fuel))) 0 b,
        strtok_r-delim 10 b'C' (codes "ontent-Length:" ++ value) (lines after (13 ∷ 10 ∷ rest))
            (length-IsFree value v),
        length_of_line-number value v,
        read_headers-lines after (13 ∷ 10 ∷ rest) (suc fuel) (strtoul value % 2 ^ 32) a,
        read_headers-blank fuel (strtoul value % 2 ^ 32) rest,
      )
      refl

-- The fuel of content_from_tracker_resp is enough.
budgets :
    (before after : List Bytes) (value rest : Bytes) (size : ℕ)
    → length (header_text before after value rest) ≤ size
    → (fuel : ℕ) × (size ≡ budget before (suc (budget after (suc fuel))))
budgets before after value rest size h =
    let fuel = size - (length before + length after + 2) in
    let l = lines-length after (13 ∷ 10 ∷ rest) in
    let b =
      lines-length before
        ((codes "Content-Length:" ++ value) ++ 10 ∷ lines after (13 ∷ 10 ∷ rest)) in
    let c = length-append (codes "Content-Length:" ++ value) (10 ∷ lines after (13 ∷ 10 ∷ rest)) in
    (
      fuel,
      omega (
        arith,
        h,
        l,
        b,
        c,
        budget_lem after (suc fuel),
        budget_lem before (suc (budget after (suc fuel))),
      ),
    )

content-headers :
    (c : ℕ) (first text out_str : Bytes) (h : Headers)
    → IsFree 10 (c ∷ first)
    → (starts_with (codes "HTTP/1.0 200 OK") (c ∷ first)
        || starts_with (codes "HTTP/1.1 200 OK") (c ∷ first))
      ≡ true
    → read_headers (length ((c ∷ first) ++ 10 ∷ text)) text false 0 ≡ ok h
    → content_from_tracker_resp ((c ∷ first) ++ 10 ∷ text) out_str ≡ content_of out_str h
unfolding content_from_tracker_resp
content-headers c first text out_str h free fine run =
    rw (strtok_r-delim 10 c first text free, fine, run) refl

content_of-body :
    (n : ℕ) (body behind out_str : Bytes)
    → n ≡ length body
    → content_of out_str (record { chuncked = false; content_length = n; behind = body ++ behind })
      ≡ ok (some body)
content_of-body n body behind out_str e =
    let fits : leb (length body) (length (body ++ behind)) ≡ true =
      le→leb (length body) (length (body ++ behind)) (omega (arith, length-append body behind)) in
    rw (e, fits, take-append body behind) refl

-- The beginnings of a first line with the status 200.
abbrev pub status : Bool → Bytes
status false = codes "HTTP/1.0 200 OK"
status true = codes "HTTP/1.1 200 OK"

status_lem :
    (newer : Bool) (more : Bytes)
    → (starts_with (codes "HTTP/1.0 200 OK") (status newer ++ more)
        || starts_with (codes "HTTP/1.1 200 OK") (status newer ++ more))
      ≡ true
unfolding starts_with
status_lem false more = refl
status_lem true more = refl

with_status :
    (newer : Bool) (more text out_str : Bytes) (h : Headers)
    → IsFree 10 more
    → (starts_with (codes "HTTP/1.0 200 OK") (status newer ++ more)
        || starts_with (codes "HTTP/1.1 200 OK") (status newer ++ more))
      ≡ true
    → read_headers (length ((status newer ++ more) ++ 10 ∷ text)) text false 0 ≡ ok h
    → content_from_tracker_resp ((status newer ++ more) ++ 10 ∷ text) out_str ≡ content_of out_str h
with_status false more text out_str h f fine run =
    content-headers b'H' (codes "TTP/1.0 200 OK" ++ more) text out_str h
      (IsFree-append 10 (status false) more (ground arith) f) fine run
with_status true more text out_str h f fine run =
    content-headers b'H' (codes "TTP/1.1 200 OK" ++ more) text out_str h
      (IsFree-append 10 (status true) more (ground arith) f) fine run

read_headers-budget :
    (before after : List Bytes) (value rest : Bytes) (size : ℕ)
    → All IsHeader before
    → All IsHeader after
    → IsNumber value
    → length (header_text before after value rest) ≤ size
    → read_headers size (header_text before after value rest) false 0
      ≡ ok (record { chuncked = false; content_length = strtoul value % 2 ^ 32; behind = rest })
read_headers-budget before after value rest size b a v h =
    let (fuel, enough) = budgets before after value rest size h in
    subst
      (λ n.
        read_headers n (header_text before after value rest) false 0
        ≡ ok (record { chuncked = false; content_length = strtoul value % 2 ^ 32; behind = rest }))
      (sym enough) (read_headers-text before after value rest fuel b a v)

-- From an answer whose first line begins with "HTTP/1.0 200 OK" or "HTTP/1.1 200 OK", with a
-- Content-Length among its headers and no chunks, content_from_tracker_resp gives the bytes behind the
-- first line "\r", as many as strtoul reads of the Content-Length. Where the buffer holds as many, each
-- other header is a line of two characters or more, and the Content-Length has no second ':'; no line
-- has a NUL.
pub content_from_tracker_resp-content :
    (newer : Bool) (more : Bytes) (before after : List Bytes) (value body behind out_str : Bytes)
    → IsFree 10 more
    → All IsHeader before
    → All IsHeader after
    → IsNumber value
    → strtoul value % 2 ^ 32 ≡ length body
    → content_from_tracker_resp
        ((status newer ++ more) ++ 10 ∷ header_text before after value (body ++ behind))
        out_str
      ≡ ok (some body)
content_from_tracker_resp-content newer more before after value body behind out_str f b a v n =
    let text = header_text before after value (body ++ behind) in
    let run =
      read_headers-budget before after value (body ++ behind)
        (length ((status newer ++ more) ++ 10 ∷ text)) b a v
        (omega (arith, length-append (status newer ++ more) (10 ∷ text))) in
    let begins = status_lem newer more in
    with_status newer more text out_str _ f begins run
    ∙ content_of-body (strtoul value % 2 ^ 32) body behind out_str n

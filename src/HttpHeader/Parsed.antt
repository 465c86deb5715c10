-- ===== src/HttpHeader/Parsed.antt =====
-- What the parser of a header makes of its lines.
use daobell.Prelude.{
  ℕ, suc, ◌+◌, ◌<◌, ◌≤◌, le→leb, ◌==◌, Bool-cases, false, Bytes, codes, List, [], ◌∷◌, ◌++◌, length,
  take, drop, Option, Option-cases, none, some, ok, All, inl, inr, arith, ◌≡◌, refl, ◌∙◌, ap,
  append_assoc,
}
use daobell.Bencode.Numbers.{size_mod, to_string, print_digits}
use daobell.FtpUrl.{find_first, find_last, contains}
use daobell.HttpHeader.{
  header_lines, HeaderMap, insert, insert_status, insert_field, is_cr, place_behind, place_before,
  parse_lines, parse_header, content_length, get_content_length, get_content_length_number_count,
}
use daobell.HttpHeader.ContentLength.{
  content_length_key, HasNoLength, content_length-insert, insert-HasNoLength,
  content_length-insert_length, read_size-to_string, find_first-lt, number_count-digits,
}

-- A map got by inserting other keys.
record Grows (m m' : HeaderMap) : Type 0 where
  others : HasNoLength m → HasNoLength m'
  same : (n : ℕ) → content_length m' n ≡ content_length m n

Grows-insert :
    (key value : Bytes) (m : HeaderMap)
    → contains content_length_key key ≡ false
    → Grows m (insert key value m)
Grows-insert key value m h = record {
  others = insert-HasNoLength key value m h;
  same = λ n. content_length-insert key value m n h;
}

Grows-refl : (m : HeaderMap) → Grows m m
Grows-refl m = record { others = λ h. h; same = λ n. refl }

Grows-trans : (m m' m'' : HeaderMap) → Grows m m' → Grows m' m'' → Grows m m''
Grows-trans m m' m'' g h = record {
  others = λ a. h.others (g.others a);
  same = λ n. h.same n ∙ g.same n;
}

place_behind-le : (line : Bytes) → place_behind (find_first (λ c. c == b' ') line) ≤ length line
place_behind-le line = elim (Option-cases (find_first (λ c. c == b' ') line)) [
  | inl e ↦ rw e (omega arith)
  | inr (i, e) ↦ rw e (omega (arith, find_first-lt _ line i e))
]

insert_status-Grows :
    (line : Bytes) (m : HeaderMap) → (m' : HeaderMap) × (insert_status line m ≡ ok m') × Grows m m'
unfolding insert_status
insert_status-Grows line m = elim (Bool-cases (contains (codes "HTTP/1.") line)) [
  | inr e ↦ (m, rw e refl, Grows-refl m)
  | inl e ↦
      let at = le→leb _ (length line) (place_behind-le line) in
      let status =
        take (place_before (find_last b' ' line))
          (drop (place_behind (find_first (λ c. c == b' ') line)) line) in
      (
        insert (codes "Status") status m,
        rw (e, at) refl,
        Grows-insert (codes "Status") status m (unfold contains in refl),
      )
]

module _ (trim : Bytes → Bytes) where
  -- A line that gives no Content-Length: its key has another name.
  abbrev NamesOther : Bytes → Option ℕ → Type 0
  NamesOther line none = Unit {0}
  NamesOther line (some i) = contains content_length_key (trim (take i line)) ≡ false

  abbrev pub IsOther : Bytes → Type 0
  IsOther line =
      (is_cr line ≡ false)
      × All (λ c. (c == b'\n') ≡ false) line
      × NamesOther line (find_first (λ c. c == b':') line)

  insert_field-Grows :
      (line : Bytes) (m : HeaderMap) (at : Option ℕ)
      → find_first (λ c. c == b':') line ≡ at
      → NamesOther line at
      → Grows m (insert_field trim line m)
  unfolding insert_field
  insert_field-Grows line m none e h = rw (insert_field, e) (Grows-refl m)
  insert_field-Grows line m (some i) e h = rw (insert_field, e) (Grows-insert _ _ m h)

  parse_lines-others :
      (others rest : List Bytes) (m : HeaderMap)
      → All IsOther others
      → (m' : HeaderMap) × (parse_lines trim (others ++ rest) m ≡ parse_lines trim rest m')
        × Grows m m'
  unfolding parse_lines
  parse_lines-others [] rest m h = (m, refl, Grows-refl m)
  parse_lines-others (line ∷ others) rest m h =
      let (u, run, g) = insert_status-Grows line m in
      let g' = insert_field-Grows line u _ refl h.0.2 in
      let (v, run', g'') = parse_lines-others others rest (insert_field trim line u) h.1 in
      (v, rw (h.0.0, run) run', Grows-trans _ _ _ g (Grows-trans _ _ _ g' g''))

  -- The line of the Content-Length.
  parse_lines-length :
      (value : Bytes) (n : ℕ) (rest : List Bytes) (m : HeaderMap)
      → trim content_length_key ≡ content_length_key
      → trim value ≡ to_string n
      → n < size_mod
      → HasNoLength m
      → (m' : HeaderMap) × (parse_lines trim ((content_length_key ++ b':' ∷ value) ∷ rest) m
          ≡ parse_lines trim rest m')
        × (content_length m' 0 ≡ n)
  unfolding parse_lines insert_field find_first
  parse_lines-length value n rest m key size small none_yet =
      let line = content_length_key ++ b':' ∷ value in
      let (u, run, g) = insert_status-Grows line m in
      (
        insert (trim content_length_key) (trim value) u,
        rw run refl,
        rw (key, size)
            (content_length-insert_length content_length_key (to_string n) u 0
                (unfold contains in refl) (g.others none_yet)
              ∙ read_size-to_string n 0 small),
      )

header_lines-append :
    (line rest : Bytes)
    → All (λ c. (c == b'\n') ≡ false) line
    → header_lines (line ++ b'\n' ∷ rest) ≡ line ∷ header_lines rest
unfolding header_lines
header_lines-append [] rest h = refl
header_lines-append (c ∷ line) rest h = rw (h.0, header_lines-append line rest h.1) refl

-- The lines of a text, each with its end.
unfoldable pub text : List Bytes → Bytes
text [] = []
text (line ∷ rest) = line ++ b'\n' ∷ text rest

header_lines-text :
    (ls : List Bytes) (rest : Bytes)
    → All (All (λ c. (c == b'\n') ≡ false)) ls
    → header_lines (text ls ++ rest) ≡ ls ++ header_lines rest
unfolding text
header_lines-text [] rest h = refl
header_lines-text (l ∷ ls) rest h =
    ap header_lines (append_assoc l (b'\n' ∷ text ls) rest)
    ∙ (header_lines-append l (text ls ++ rest) h.0
        ∙ ap (λ k. l ∷ k) (header_lines-text ls rest h.1))

get_content_length_number_count-digits :
    (m : HeaderMap) (n : ℕ)
    → get_content_length m ≡ n
    → 0 < n
    → get_content_length_number_count m ≡ ok (length (to_string n))
unfolding get_content_length_number_count to_string
get_content_length_number_count-digits m n e h =
    let (k, run, len) = number_count-digits (n + 1) (suc n) n 0 [] h (omega arith) (omega arith) in
    let digits : 0 + k ≡ length (print_digits (suc n) n []) = omega (arith, len) in
    rw e (run ∙ ap ok digits)

module _ (trim : Bytes → Bytes) where
  others-free : (ls : List Bytes) → All (IsOther trim) ls → All (All (λ c. (c == b'\n') ≡ false)) ls
  others-free [] h = tt
  others-free (l ∷ ls) h = (h.0.1, others-free ls h.1)

  -- The header of an answer, with a Content-Length among its lines, is parsed, and gives that length
  -- and the number of its digits, whatever follows the empty line. Where the length is positive and
  -- below 2 ^ 64, the other lines have other keys and no end of line within them, and trim_copy takes
  -- the space off the value of the length and leaves its key.
  pub get_content_length-parse_header :
      (before after : List Bytes) (value body : Bytes) (n : ℕ)
      → All (IsOther trim) before
      → All (IsOther trim) after
      → All (λ c. (c == b'\n') ≡ false) value
      → trim content_length_key ≡ content_length_key
      → trim value ≡ to_string n
      → 0 < n
      → n < size_mod
      → (m : HeaderMap) × (parse_header trim (
            text before
            ++ ((content_length_key ++ b':' ∷ value)
                ++ b'\n' ∷ (text after ++ (13 ∷ b'\n' ∷ body))))
          ≡ ok m)
        × (get_content_length m ≡ n)
        × (get_content_length_number_count m ≡ ok (length (to_string n)))
  unfolding parse_header get_content_length
  get_content_length-parse_header before after value body n h h' free key size some_left small =
      let line = content_length_key ++ b':' ∷ value in
      let (u, run, g) =
        parse_lines-others trim before (line ∷ (after ++ (13 ∷ []) ∷ header_lines body)) [] h in
      let (v, run', len) =
        parse_lines-length trim value n (after ++ (13 ∷ []) ∷ header_lines body) u key size small
          (g.others tt) in
      let (m, run'', g') = parse_lines-others trim after ((13 ∷ []) ∷ header_lines body) v h' in
      let end : parse_lines trim ((13 ∷ []) ∷ header_lines body) m ≡ ok m =
        unfold parse_lines in refl in
      let whole = g'.same 0 ∙ len in
      let split =
        header_lines-text before (line ++ b'\n' ∷ (text after ++ (13 ∷ b'\n' ∷ body)))
          (others-free before h)
        ∙ ap (λ k. before ++ k)
            (header_lines-append line (text after ++ (13 ∷ b'\n' ∷ body)) (ground (arith, free))
              ∙ ap (λ k. line ∷ k)
                  (header_lines-text after (13 ∷ b'\n' ∷ body) (others-free after h')
                    ∙ ap (λ k. after ++ k) (header_lines-append (13 ∷ []) body (ground arith)))) in
      (
        m,
        ap (λ ls. parse_lines trim ls []) split ∙ (run ∙ (run' ∙ (run'' ∙ end))),
        whole,
        get_content_length_number_count-digits m n whole some_left,
      )

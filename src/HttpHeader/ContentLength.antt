-- ===== src/HttpHeader/ContentLength.antt =====
-- The Content-Length of an answer, and the number of its digits.
use daobell.Prelude.{
  ℕ, zero, suc, ◌+◌, ◌-◌, ◌/◌, ◌%◌, ◌<◌, ltb, ltb→lt, ltb→ge, lt→ltb, Bool-cases, true, false,
  Bytes, codes, [], ◌∷◌, length, Option-cases, some, ok, All, inl, inr, append-nil, Bool, arith,
  ◌≡◌, refl, sym, ◌∙◌, ap, ge→ltb,
}
use daobell.Bencode.Value.{lt_string}
use daobell.Bencode.Numbers.{size_mod, to_string, print_digits}
use daobell.Bencode.Numbers.RoundTrip.{StartsWithDigit, to_string-StartsWithDigit}
use daobell.Bencode.FileParser.Extracts.{
  skip_space-digit, take_sign-digit, take_digits-to_string_end,
}
use daobell.Bencode.Ifstream.{take_digits}
use daobell.FtpUrl.{place_after, find_first, contains}
use daobell.HttpHeader.{HeaderMap, insert, read_size, content_length, number_count}

abbrev pub content_length_key : Bytes
content_length_key = codes "Content-Length"

abbrev pub HasNoLength : HeaderMap → Type 0
HasNoLength = All (λ e. contains content_length_key e.0 ≡ false)

content_length_other :
    (k v : Bytes) (m : HeaderMap) (n : ℕ)
    → contains content_length_key k ≡ false
    → content_length ((k, v) ∷ m) n ≡ content_length m n
unfolding content_length
content_length_other k v m n h = rw h refl

content_length-HasNoLength : (m : HeaderMap) (n : ℕ) → HasNoLength m → content_length m n ≡ n
unfolding content_length
content_length-HasNoLength [] n h = refl
content_length-HasNoLength (e ∷ m) n h = rw h.0 (content_length-HasNoLength m n h.1)

-- Another key.
pub content_length-insert :
    (key value : Bytes) (m : HeaderMap) (n : ℕ)
    → contains content_length_key key ≡ false
    → content_length (insert key value m) n ≡ content_length m n
unfolding content_length insert
content_length-insert key value [] n h = rw h refl
content_length-insert key value ((k, v) ∷ m) n h = elim (Bool-cases (lt_string key k)) [
  | inl before ↦ rw before (content_length_other key value ((k, v) ∷ m) n h)
  | inr not_before ↦ elim (Bool-cases (lt_string k key)) [
    | inl behind ↦ rw (not_before, behind) (content_length-insert key value m _ h)
    | inr same ↦ rw (not_before, same) refl
  ]
]

pub insert-HasNoLength :
    (key value : Bytes) (m : HeaderMap)
    → contains content_length_key key ≡ false
    → HasNoLength m
    → HasNoLength (insert key value m)
unfolding insert
insert-HasNoLength key value [] h a = (h, tt)
insert-HasNoLength key value ((k, v) ∷ m) h a = elim (Bool-cases (lt_string key k)) [
  | inl before ↦ rw before (h, a)
  | inr not_before ↦ elim (Bool-cases (lt_string k key)) [
    | inl behind ↦ rw (not_before, behind) (a.0, insert-HasNoLength key value m h a.1)
    | inr same ↦ rw (not_before, same) a
  ]
]

lt_string-same : (s t : Bytes) → lt_string s t ≡ false → lt_string t s ≡ false → s ≡ t
unfolding lt_string
lt_string-same [] [] h k = refl
lt_string-same [] (y ∷ t) h k = cc
lt_string-same (x ∷ s) [] h k = cc
lt_string-same (x ∷ s) (y ∷ t) h k = ground (arith, lt_string-same s t)

-- The key itself.
pub content_length-insert_length :
    (key value : Bytes) (m : HeaderMap) (n : ℕ)
    → contains content_length_key key ≡ true
    → HasNoLength m
    → content_length (insert key value m) n ≡ read_size value n
unfolding content_length insert
content_length-insert_length key value [] n h a = rw h refl
content_length-insert_length key value ((k, v) ∷ m) n h a = elim (Bool-cases (lt_string key k)) [
  | inl before ↦
      let first : content_length ((key, value) ∷ (k, v) ∷ m) n
          ≡ content_length ((k, v) ∷ m) (read_size value n) =
        rw h refl in
      rw before (first ∙ content_length-HasNoLength ((k, v) ∷ m) (read_size value n) a)
  | inr not_before ↦ elim (Bool-cases (lt_string k key)) [
    | inl behind ↦
        rw (not_before, behind)
          (content_length_other k v (insert key value m) n a.0
            ∙ content_length-insert_length key value m n h a.1)
    | inr same ↦ absurd (
        let e = lt_string-same key k not_before same in
        let z : true ≡ false = sym h ∙ (ap (contains content_length_key) e ∙ a.0) in cc)
  ]
]

read_size-digits :
    (t : Bytes) (n m : ℕ)
    → StartsWithDigit t
    → take_digits t 0 ≡ (n, [])
    → n < size_mod
    → read_size t m ≡ n
unfolding read_size
read_size-digits [] n m d e h = elim d [ ]
read_size-digits (c ∷ t) n m d e h =
    let small : ltb (size_mod - 1) n ≡ false = ge→ltb (size_mod - 1) n (omega arith) in
    rw (read_size, skip_space-digit (c ∷ t) d, take_sign-digit (c ∷ t) d, e, small) refl

pub read_size-to_string : (n m : ℕ) → n < size_mod → read_size (to_string n) m ≡ n
read_size-to_string n m h =
    let d : StartsWithDigit (to_string n) =
      rw (append-nil (to_string n)) at (to_string-StartsWithDigit n []) in
    read_size-digits (to_string n) n m d (take_digits-to_string_end n) h

pub find_first-lt :
    (test : ℕ → Bool) (s : Bytes) (i : ℕ) → find_first test s ≡ some i → i < length s
unfolding find_first
find_first-lt test [] i e = absurd (cc)
find_first-lt test (c ∷ s) i e = elim (Bool-cases (test c)) [
  | inl here ↦ let z : some 0 ≡ some i = rw here at e in let zero_at : 0 ≡ i = cc in omega arith
  | inr not_here ↦
      let later : place_after (find_first test s) ≡ some i = rw not_here at e in
      elim (Option-cases (find_first test s)) [
        | inl none_later ↦ absurd (let z = rw none_later at later in cc)
        | inr (j, found) ↦
            let z : some (suc j) ≡ some i = rw found at later in
            let at : suc j ≡ i = cc in omega (arith, find_first-lt test s j found)
      ]
]

number_count_end : (f n count : ℕ) → ltb 0 n ≡ false → 0 < f → number_count f count n ≡ ok count
unfolding number_count
number_count_end zero n count h b = absurd (omega arith)
number_count_end (suc f) n count h b = rw h refl

-- The number of the rounds is the number of the digits.
pub number_count-digits :
    (f f' n count : ℕ) (out : Bytes)
    → 0 < n
    → n < f
    → n < f'
    → (k : ℕ) × (number_count f count n ≡ ok (count + k))
      × (length (print_digits f' n out) ≡ k + length out)
unfolding number_count print_digits
number_count-digits zero f' n count out h a b = absurd (omega arith)
number_count-digits (suc f) zero n count out h a b = absurd (omega arith)
number_count-digits (suc f) (suc f') n count out h a b =
    let some_left = lt→ltb 0 n h in
    elim (Bool-cases (ltb n 10)) [
      | inl one ↦
          let none_left : ltb 0 (n / 10) ≡ false =
            ge→ltb 0 (n / 10) (let lt = ltb→lt n 10 one in omega arith) in
          (
            1,
            rw some_left (number_count_end f (n / 10) (count + 1) none_left (omega arith)),
            rw one (omega arith),
          )
      | inr more ↦
          let ge = ltb→ge n 10 more in
          let (k, run, len) =
            number_count-digits f f' (n / 10) (count + 1) ((b'0' + n % 10) ∷ out) (omega arith)
              (omega arith) (omega arith) in
          let same : count + 1 + k ≡ count + suc k = omega arith in
          (suc k, rw (some_left, run) (ap ok same), rw more (omega (arith, len)))
    ]

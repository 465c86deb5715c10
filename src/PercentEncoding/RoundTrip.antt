-- ===== src/PercentEncoding/RoundTrip.antt =====
-- Percent-encoded bytes decode to the bytes that were encoded.
use daobell.Prelude.{
  ℕ, ◌+◌, ◌-◌, ◌*◌, ◌/◌, ◌%◌, ◌<◌, ltb, ◌==◌, if◌then◌else◌, true, false, Bool-cases, inl, inr,
  Bytes, [], ◌∷◌, All, ◌≡◌, ◌≢◌, refl, arith, ==_ne, ap,
}
use daobell.Bencode.Numbers.{is_digit}
use daobell.PercentEncoding.{
  all_unreserved, percent_encode_string, is_alpha, is_rfc3986_unreserved_chars, hex_digit,
  percent_encode,
}

-- The value of a digit, and the decoding of RFC 3986.
unfoldable pub digit_value : ℕ → ℕ
digit_value d = if ltb d 58 then d - 48 else d - 55

-- An escape takes three bytes; any other byte stands for itself.
unfoldable pub percent_decode : Bytes → Bytes
unfolding digit_value
percent_decode [] = []
percent_decode (c ∷ []) = c ∷ []
percent_decode (c ∷ a ∷ []) = c ∷ a ∷ []
percent_decode (c ∷ a ∷ b ∷ s) =
    let escaped = percent_decode s in
    let plain = percent_decode (a ∷ b ∷ s) in
    if c == 37 then (digit_value a * 16 + digit_value b) ∷ escaped else c ∷ plain

digit_value-hex_digit : (n : ℕ) → n < 16 → digit_value (hex_digit n) ≡ n
unfolding digit_value hex_digit
digit_value-hex_digit n h = ground arith

unreserved-ne : (c : ℕ) → is_rfc3986_unreserved_chars c ≡ true → c ≢ 37
unfolding is_rfc3986_unreserved_chars is_alpha is_digit
unreserved-ne c h = ground arith

decode_plain : (c : ℕ) (s : Bytes) → c ≢ 37 → percent_decode (c ∷ s) ≡ c ∷ percent_decode s
unfolding percent_decode
decode_plain c [] h = refl
decode_plain c (a ∷ []) h = refl
decode_plain c (a ∷ b ∷ s) h = rw (==_ne c 37 h) refl

-- Decoding what percent_encode makes of some bytes gives these bytes.
pub percent_decode-percent_encode :
    (s : Bytes) → All (λ c. c < 256) s → percent_decode (percent_encode s) ≡ s
unfolding percent_encode percent_decode
percent_decode-percent_encode [] h = refl
percent_decode-percent_encode (c ∷ s) h = elim (Bool-cases (is_rfc3986_unreserved_chars c)) [
  | inl u ↦
      rw (percent_encode, u, decode_plain c (percent_encode s) (unreserved-ne c u))
        (ap (◌∷◌ c) (percent_decode-percent_encode s h.1))
  | inr r ↦
      let whole : c / 16 * 16 + c % 16 ≡ c = omega arith in
      rw
        (
          percent_encode,
          r,
          digit_value-hex_digit (c / 16) (omega (arith, h.0)),
          digit_value-hex_digit (c % 16) (omega arith),
          whole,
        )
        (ap (◌∷◌ c) (percent_decode-percent_encode s h.1))
]

percent_encode-unreserved :
    (target : Bytes) → all_unreserved target ≡ true → percent_encode target ≡ target
unfolding all_unreserved percent_encode
percent_encode-unreserved [] h = refl
percent_encode-unreserved (c ∷ target) h = elim (Bool-cases (is_rfc3986_unreserved_chars c)) [
  | inl plain ↦ rw plain (ap (◌∷◌ c) (percent_encode-unreserved target (rw plain at h)))
  | inr reserved ↦ absurd (let no : false ≡ true = rw reserved at h in cc)
]

-- The two overloads agree.
percent_encode_string-percent_encode :
    (target : Bytes) → percent_encode_string target ≡ percent_encode target
unfolding percent_encode_string
percent_encode_string-percent_encode target = elim (Bool-cases (all_unreserved target)) [
  | inl plain ↦ rw (plain, percent_encode-unreserved target plain) refl
  | inr reserved ↦ rw reserved refl
]

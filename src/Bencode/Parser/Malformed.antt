-- ===== src/Bencode/Parser/Malformed.antt =====
-- What the parser makes of text that is no bencoding.
use daobell.Prelude.{ℕ, zero, suc, Bytes, ◌∷◌, ok, out_of_fuel, ◌≡◌, ◌≢◌, refl, ==_ne}
use daobell.Bencode.Numbers.{is_digit}
use daobell.Bencode.Parser.{label, other, parse, parse_list}
use daobell.Bencode.Parser.Steps.{parse_list_more}
use daobell.Bencode.Value.{Values, nil, insert_to_list, null}

parse_other : (f c : ℕ) (p : Bytes) → label c ≡ other → parse (suc f) (c ∷ p) ≡ ok (null, c ∷ p)
unfolding parse
parse_other f c p h = rw (h, parse)

parse_list_stuck :
    (f c : ℕ) (p : Bytes) (vs : Values)
    → label c ≡ other
    → c ≢ b'e'
    → parse_list f (c ∷ p) vs ≡ out_of_fuel
parse_list_stuck zero c p vs h e = unfold parse in refl
parse_list_stuck (suc zero) c p vs h e =
    rw (parse_list_more zero (c ∷ p) vs (==_ne c b'e' e)) (unfold parse in refl)
parse_list_stuck (suc (suc f)) c p vs h e =
    rw (parse_list_more (suc f) (c ∷ p) vs (==_ne c b'e' e), parse_other f c p h)
      (parse_list_stuck (suc f) c p (insert_to_list null vs) h e)

-- A list whose item starts with no letter of a value is never left, whatever the number of rounds.
pub parse_list_diverges :
    (f c : ℕ) (p : Bytes) → label c ≡ other → c ≢ b'e' → parse f (b'l' ∷ c ∷ p) ≡ out_of_fuel
unfolding parse label is_digit
parse_list_diverges zero c p h e = refl
parse_list_diverges (suc f) c p h e = parse_list_stuck f c p nil h e

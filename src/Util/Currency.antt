-- ===== src/Util/Currency.antt =====
-- core/src/util/currency.rs
use e_bill.Prelude.{
  ℕ, ◌+◌, ◌-◌, ◌*◌, String, Bool, true, false, ◌&&◌, not, List, [], ◌∷◌, Option, none, some, ltb,
  leb, eqb, u64_mod, if◌then◌else◌, Result, ok, err, fail_if, codes, lowercase_codes, any,
}
use e_bill.Error.{ValidationError, invalid_sum, invalid_currency}

-- `str::parse::<u64>` after the sign: digits from the left, with an error where the number
-- leaves the range.
unfoldable pub parse_digits : ℕ → List ℕ → Option ℕ
parse_digits acc [] = some acc
parse_digits acc (c ∷ cs) =
    let rest = parse_digits (acc * 10 + (c - b'0')) cs in
    if leb b'0' c && leb c b'9' && ltb (acc * 10 + (c - b'0')) u64_mod then rest else none

-- A leading `+` is allowed; no digit at all is an error.
abbrev after_sign : List ℕ → Option ℕ
after_sign [] = none
after_sign (c ∷ cs) = parse_digits 0 (c ∷ cs)

unfoldable pub parse_u64 : List ℕ → Option ℕ
parse_u64 [] = none
parse_u64 (c ∷ cs) = if eqb c b'+' then after_sign cs else after_sign (c ∷ cs)

abbrev or_invalid_sum : Option ℕ → Result ValidationError ℕ
or_invalid_sum none = err invalid_sum
or_invalid_sum (some num) = ok num

unfoldable pub parse_sum : String → Result ValidationError ℕ
unfolding parse_u64
parse_sum sum = or_invalid_sum (parse_u64 (codes sum))

unfoldable pub validate_sum : ℕ → Result ValidationError Unit
validate_sum sum = fail_if (eqb sum 0) invalid_sum

codes_eq : List ℕ → List ℕ → Bool
codes_eq [] [] = true
codes_eq (c ∷ cs) (d ∷ ds) = eqb c d && codes_eq cs ds
codes_eq _ _ = false

abbrev valid_currencies : List String
valid_currencies = "sat" ∷ []

unfoldable pub validate_currency : String → Result ValidationError Unit
unfolding codes_eq
validate_currency currency =
    fail_if (not (any (λ v. codes_eq (codes v) (lowercase_codes currency)) valid_currencies))
      invalid_currency

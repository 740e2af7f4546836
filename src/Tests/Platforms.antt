-- ===== src/Tests/Platforms.antt =====
-- The sample platform keeps the laws of keys, signatures and texts.
use e_bill.Prelude.{
  ℕ, zero, suc, ◌+◌, ◌≡◌, refl, ap, ◌∙◌, String, true, some, [], ◌∷◌, arith, codes, eqb_refl,
}
use e_bill.Platform.{Bytes}
use e_bill.Util.Crypto.Laws.{Laws}
use e_bill.Tests.Sample.{unary, encode, decode_from, decode, eq_bytes, head, added_from, platform}

decode_from-unary :
    (acc n : ℕ) (s : String)
    → decode_from acc (codes (unary n s)) ≡ (acc + n) ∷ decode_from 0 (codes s)
decode_from-unary acc zero s = ap (λ k. k ∷ decode_from 0 (codes s)) (omega arith)
decode_from-unary acc (suc n) s =
    decode_from-unary (suc acc) n s ∙ ap (λ k. k ∷ decode_from 0 (codes s)) (omega arith)

zero_plus : (n : ℕ) → 0 + n ≡ n
zero_plus n = omega arith

pub decode-encode : (bytes : Bytes) → decode (encode bytes) ≡ bytes
decode-encode [] = refl
decode-encode (n ∷ ns) =
    decode_from-unary 0 n (encode ns)
    ∙ ap (λ k. k ∷ decode (encode ns)) (zero_plus n)
    ∙ ap (λ l. n ∷ l) (decode-encode ns)

eq_bytes_refl : (bytes : Bytes) → eq_bytes bytes bytes ≡ true
eq_bytes_refl [] = refl
eq_bytes_refl (n ∷ ns) = rw (eqb_refl n) (eq_bytes_refl ns)

sum_from :
    (a b : ℕ) (keys : Bytes) {c : ℕ}
    → some (a + b) ≡ some c
    → some (added_from (a + b) keys) ≡ some (added_from c keys)
sum_from a b keys {c} e =
    let same : a + b ≡ c = ground arith in ap (λ k. some (added_from k keys)) same

pub platform-Laws : Laws platform
platform-Laws = record {
  base58 = λ bytes. ap (λ l. some l) (decode-encode bytes);
  secret_text = λ key. ap (λ l. head l) (decode-encode (key ∷ []));
  public_text = λ key. ap (λ l. head l) (decode-encode (key ∷ []));
  sums = λ a b e. e;
  one_key = λ a. refl;
  all_keys = λ a b keys e. sum_from a b keys e;
  signature_text = λ msg key. refl;
  schnorr = λ msg key. eq_bytes_refl (key ∷ msg);
  ecies = λ key bytes e. ground (arith, eqb_refl key);
}

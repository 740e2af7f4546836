-- ===== src/Util/Crypto/Laws.antt =====
-- What the code relies on of secp256k1, ecies and base58: texts are read back, a sum of secret keys
-- belongs to the combined public keys, several keys at once add up as they do one after the other
-- (where each of the partial sums is a key), and signatures and encryption work for a key pair.
use e_bill.Prelude.{◌≡◌, true, some, List, [], ◌∷◌}
use e_bill.Platform.{Platform, Bytes, PublicKey, SecretKey}

pub record Laws (P : Platform) : Type 0 where
  pub base58 : (bytes : Bytes) → P.base58_decode (P.base58_encode bytes) ≡ some bytes
  pub secret_text :
      (key : SecretKey) → P.secret_key_from_str (P.secret_key_to_string key) ≡ some key
  pub public_text :
      (key : PublicKey) → P.public_key_from_str (P.public_key_to_string key) ≡ some key
  pub sums :
      (a b : SecretKey) {s : SecretKey}
      → P.add_tweak a b ≡ some s
      → P.combine (P.public_key_of a) (P.public_key_of b) ≡ some (P.public_key_of s)
  pub one_key : (a : PublicKey) → P.combine_keys (a ∷ []) ≡ some a
  pub all_keys :
      (a b : PublicKey) (keys : List PublicKey) {c : PublicKey}
      → P.combine a b ≡ some c
      → P.combine_keys (a ∷ b ∷ keys) ≡ P.combine_keys (c ∷ keys)
  pub signature_text :
      (msg : Bytes) (key : SecretKey)
      → P.signature_from_slice (P.sign_schnorr msg key) ≡ some (P.sign_schnorr msg key)
  pub schnorr :
      (msg : Bytes) (key : SecretKey)
      → P.verify_schnorr (P.sign_schnorr msg key) msg (P.public_key_of key) ≡ true
  pub ecies :
      (key : SecretKey) (bytes : Bytes) {encrypted : Bytes}
      → P.ecies_encrypt (P.public_key_of key) bytes ≡ some encrypted
      → P.ecies_decrypt key encrypted ≡ some bytes

-- ===== src/Util/Crypto.antt =====
-- core/src/util/crypto.rs: keys, aggregated keys and signatures, encryption. The arithmetic of
-- secp256k1 and ecies is the platform's.
pub mod Laws
pub mod Signatures
use e_bill.Prelude.{
  String, Bool, List, [], ◌∷◌, ltb, length, Result, ok, err, ◌>>=◌, ◌>>◌, ok_or, fail_if, map,
}
use e_bill.Error.{CryptoError, private_key, ecies, too_few_keys, decode}
use e_bill.Platform.{Platform, Bytes, PublicKey, SecretKey}

-- `BcrKeys` holds a key pair; its public half is computed from the secret one.
pub record BcrKeys : Type 0 where
  pub inner : SecretKey

module _ (P : Platform) where
  open P use {
    base58_encode, base58_decode, public_key_from_str, public_key_to_string, secret_key_from_str,
    secret_key_to_string, public_key_of, combine, combine_keys, add_tweak, digest_from_slice,
    sign_schnorr, signature_from_slice, verify_schnorr, ecies_encrypt, ecies_decrypt,
  }

  unfoldable pub load_keypair : String → Result CryptoError SecretKey
  load_keypair key = ok_or (secret_key_from_str key) private_key

  unfoldable pub from_private_key : String → Result CryptoError BcrKeys
  unfolding load_keypair
  from_private_key key = do inner ← load_keypair key; ok (record { inner = inner })

  unfoldable pub get_private_key_string : BcrKeys → String
  get_private_key_string keys = secret_key_to_string keys.inner

  unfoldable pub get_public_key : BcrKeys → String
  get_public_key keys = public_key_to_string (public_key_of keys.inner)

  unfoldable pub validate_pub_key : String → Result CryptoError Unit
  validate_pub_key pub_key = do key ← ok_or (public_key_from_str pub_key) private_key; ok tt

  -- `collect` into a `Result`: the first error ends it.
  unfoldable pub public_keys : List String → Result CryptoError (List PublicKey)
  public_keys [] = ok []
  public_keys (key ∷ keys) = do
    k ← ok_or (public_key_from_str key) private_key
    ks ← public_keys keys
    ok (k ∷ ks)

  unfoldable pub load_keypairs : List String → Result CryptoError (List SecretKey)
  unfolding load_keypair
  load_keypairs [] = ok []
  load_keypairs (key ∷ keys) = do k ← load_keypair key; ks ← load_keypairs keys; ok (k ∷ ks)

  -- `aggregated_key.combine(key)` for each further key
  unfoldable pub combine_from : PublicKey → List PublicKey → Result CryptoError PublicKey
  combine_from acc [] = ok acc
  combine_from acc (k ∷ ks) = do next ← ok_or (combine acc k) private_key; combine_from next ks

  unfoldable pub add_from : SecretKey → List SecretKey → Result CryptoError SecretKey
  add_from acc [] = ok acc
  add_from acc (k ∷ ks) = do next ← ok_or (add_tweak acc k) private_key; add_from next ks

  unfoldable pub combine_all : List PublicKey → Result CryptoError PublicKey
  unfolding combine_from
  combine_all [] = err too_few_keys
  combine_all (k ∷ ks) = combine_from k ks

  unfoldable pub add_all : List SecretKey → Result CryptoError SecretKey
  unfolding add_from
  add_all [] = err too_few_keys
  add_all (k ∷ ks) = add_from k ks

  unfoldable pub combine_pub_keys : List String → Result CryptoError String
  unfolding public_keys
  combine_pub_keys pub_keys = do
    fail_if (ltb (length pub_keys) 2) too_few_keys
    keys ← public_keys pub_keys
    combined_key ← ok_or (combine_keys keys) private_key
    ok (public_key_to_string combined_key)

  unfoldable pub get_aggregated_public_key : List String → Result CryptoError String
  unfolding load_keypairs combine_all
  get_aggregated_public_key private_keys = do
    fail_if (ltb (length private_keys) 2) too_few_keys
    key_pairs ← load_keypairs private_keys
    aggregated_key ← combine_all (map public_key_of key_pairs)
    ok (public_key_to_string aggregated_key)

  -- `Message::from_digest_slice(&base58_decode(hash)?)?`
  unfoldable pub message : String → Result CryptoError Bytes
  message hash = do
    bytes ← ok_or (base58_decode hash) decode
    ok_or (digest_from_slice bytes) private_key

  unfoldable pub aggregated_signature : String → List String → Result CryptoError String
  unfolding load_keypairs add_all message
  aggregated_signature hash keys = do
    fail_if (ltb (length keys) 2) too_few_keys
    secret_keys ← load_keypairs keys
    aggregated_key ← add_all secret_keys
    msg ← message hash
    ok (base58_encode (sign_schnorr msg aggregated_key))

  unfoldable pub signature : String → String → Result CryptoError String
  unfolding load_keypair message
  signature hash private_key_text = do
    key_pair ← load_keypair private_key_text
    msg ← message hash
    ok (base58_encode (sign_schnorr msg key_pair))

  unfoldable pub verify : String → String → String → Result CryptoError Bool
  unfolding message
  verify hash signature public_key = do
    pub_key ← ok_or (public_key_from_str public_key) private_key
    msg ← message hash
    bytes ← ok_or (base58_decode signature) decode
    decoded_signature ← ok_or (signature_from_slice bytes) private_key
    ok (verify_schnorr decoded_signature msg pub_key)

  unfoldable pub encrypt_ecies : Bytes → String → Result CryptoError Bytes
  encrypt_ecies bytes public_key = do
    pub_key ← ok_or (public_key_from_str public_key) private_key
    ok_or (ecies_encrypt pub_key bytes) ecies

  unfoldable pub decrypt_ecies : Bytes → String → Result CryptoError Bytes
  unfolding from_private_key
  decrypt_ecies bytes key = do
    keypair ← from_private_key key
    ok_or (ecies_decrypt keypair.inner bytes) ecies

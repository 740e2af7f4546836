-- ===== src/Util/Crypto/Signatures.antt =====
-- Aggregated keys, signatures and encryption of core/src/util/crypto.rs fit together.
use e_bill.Prelude.{
  ◌≡◌, ◌∙◌, refl, ap, String, Bool, true, false, Option, none, some, List, [], ◌∷◌, map, arith,
  Result, ok, err, panic, ◌>>=◌, ok_or, fail_if, ltb, length, Option-cases, inl, inr, Result-cases,
  Bool-cases,
}
use e_bill.Platform.{Platform, Bytes, PublicKey, SecretKey}
use e_bill.Util.Crypto
use e_bill.Util.Crypto.{
  BcrKeys, load_keypair, load_keypairs, from_private_key, get_private_key_string, get_public_key,
  public_keys, combine_from, combine_all, add_from, add_all, combine_pub_keys,
  get_aggregated_public_key, message, aggregated_signature, encrypt_ecies, decrypt_ecies, signature,
}
use e_bill.Util.Crypto.Laws.{Laws}

module _ (P : Platform) (L : Laws P) where
  open P use {public_key_of, public_key_to_string}

  add_from-combine_from :
      (acc : SecretKey) (keys : List SecretKey) {s : SecretKey}
      → add_from P acc keys ≡ ok s
      → combine_from P (public_key_of acc) (map public_key_of keys) ≡ ok (public_key_of s)
  unfolding add_from combine_from
  add_from-combine_from acc [] h = ground arith
  add_from-combine_from acc (k ∷ ks) {s} h = elim (Option-cases (P.add_tweak acc k)) [
    | inl e ↦ absurd (ground arith)
    | inr (next, e) ↦
        let rest = add_from-combine_from next ks {s = s} (ground arith) in
        ground (arith, L.sums acc k e, rest)
  ]

  add_all-combine_all :
      (keys : List SecretKey) {s : SecretKey}
      → add_all P keys ≡ ok s
      → combine_all P (map public_key_of keys) ≡ ok (public_key_of s)
  unfolding add_all combine_all
  add_all-combine_all [] h = absurd (ground arith)
  add_all-combine_all (k ∷ ks) h = add_from-combine_from k ks h

  -- An aggregated signature that is made for private keys verifies, for the same hash, with the
  -- aggregated public key of those private keys.
  pub aggregated_signature-verify :
      (hash : String) (keys : List String) {signature : String}
      → aggregated_signature P hash keys ≡ ok signature
      → (public_key : String) × (get_aggregated_public_key P keys ≡ ok public_key)
        × (Crypto.verify P hash signature public_key ≡ ok true)
  unfolding aggregated_signature get_aggregated_public_key Crypto.verify
  aggregated_signature-verify hash keys h = elim (Result-cases (load_keypairs P keys)) [
    | inl (secrets, loaded) ↦ elim (Result-cases (add_all P secrets)) [
      | inl (sum, added) ↦ elim (Result-cases (message P hash)) [
        | inl (msg, decoded) ↦
            let combined = add_all-combine_all secrets {s = sum} added in
            (
              public_key_to_string (public_key_of sum),
              ground arith,
              ground (
                arith,
                L.public_text (public_key_of sum),
                L.base58 (P.sign_schnorr msg sum),
                L.signature_text msg sum,
                L.schnorr msg sum,
              ),
            )
        | inr failed ↦ absurd (ground arith)
      ]
      | inr failed ↦ absurd (ground arith)
    ]
    | inr failed ↦ absurd (ground arith)
  ]

  public_keys-get_public_key :
      (keys : List BcrKeys)
      → public_keys P (map (get_public_key P) keys)
        ≡ ok (map (λ (k : BcrKeys). public_key_of k.inner) keys)
  unfolding public_keys get_public_key
  public_keys-get_public_key [] = refl
  public_keys-get_public_key (k ∷ ks) =
      ground (arith, L.public_text (public_key_of k.inner), public_keys-get_public_key ks)

  load_keypairs-get_private_key_string :
      (keys : List BcrKeys)
      → load_keypairs P (map (get_private_key_string P) keys)
        ≡ ok (map (λ (k : BcrKeys). k.inner) keys)
  unfolding load_keypairs load_keypair get_private_key_string
  load_keypairs-get_private_key_string [] = refl
  load_keypairs-get_private_key_string (k ∷ ks) =
      ground (arith, L.secret_text k.inner, load_keypairs-get_private_key_string ks)

  map-map :
      (keys : List BcrKeys)
      → map public_key_of (map (λ (k : BcrKeys). k.inner) keys)
        ≡ map (λ (k : BcrKeys). public_key_of k.inner) keys
  map-map [] = refl
  map-map (k ∷ ks) = ap (λ rest. public_key_of k.inner ∷ rest) (map-map ks)

  length-map : {A B : Type 0} (f : A → B) (xs : List A) → length (map f xs) ≡ length xs
  length-map f [] = refl
  length-map f (x ∷ xs) = ap (λ n. e_bill.Prelude.suc n) (length-map f xs)

  combine_from-combine_keys :
      (acc : PublicKey) (keys : List PublicKey) {sum : PublicKey}
      → combine_from P acc keys ≡ ok sum
      → P.combine_keys (acc ∷ keys) ≡ some sum
  unfolding combine_from
  combine_from-combine_keys acc [] h = ground (arith, L.one_key acc)
  combine_from-combine_keys acc (k ∷ ks) {sum} h = elim (Option-cases (P.combine acc k)) [
    | inl e ↦ absurd (ground arith)
    | inr (next, e) ↦
        let rest = combine_from-combine_keys next ks {sum = sum} (ground arith) in
        L.all_keys acc k ks e ∙ rest
  ]

  combine_all-combine_keys :
      (keys : List PublicKey) {sum : PublicKey}
      → combine_all P keys ≡ ok sum
      → P.combine_keys keys ≡ some sum
  unfolding combine_all
  combine_all-combine_keys [] h = absurd (ground arith)
  combine_all-combine_keys (k ∷ ks) h = combine_from-combine_keys k ks h

  -- Where the private keys of some key pairs aggregate to a public key, one after the other, the
  -- public keys of these pairs combine to the same key, all at once.
  pub combine_pub_keys-get_aggregated_public_key :
      (keys : List BcrKeys) {key : String}
      → get_aggregated_public_key P (map (get_private_key_string P) keys) ≡ ok key
      → combine_pub_keys P (map (get_public_key P) keys) ≡ ok key
  unfolding combine_pub_keys get_aggregated_public_key
  combine_pub_keys-get_aggregated_public_key keys {key} h =
      let publics = map (λ (k : BcrKeys). public_key_of k.inner) keys in
      elim (Result-cases (combine_all P publics)) [
        | inl (sum, e) ↦
            let all = combine_all-combine_keys publics {sum = sum} e in
            ground (
              arith,
              length-map (get_public_key P) keys,
              length-map (get_private_key_string P) keys,
              public_keys-get_public_key keys,
              load_keypairs-get_private_key_string keys,
              map-map keys,
            )
        | inr failed ↦ absurd (
            ground (
              arith,
              length-map (get_private_key_string P) keys,
              load_keypairs-get_private_key_string keys,
              map-map keys,
            ))
      ]

  -- What is encrypted for a key pair's public key is read back with its private key.
  pub encrypt_ecies-decrypt_ecies :
      (bytes : Bytes) (keys : BcrKeys) {encrypted : Bytes}
      → encrypt_ecies P bytes (get_public_key P keys) ≡ ok encrypted
      → decrypt_ecies P encrypted (get_private_key_string P keys) ≡ ok bytes
  unfolding encrypt_ecies decrypt_ecies get_public_key get_private_key_string from_private_key
      load_keypair
  encrypt_ecies-decrypt_ecies bytes keys {encrypted} h =
      elim (Option-cases (P.ecies_encrypt (public_key_of keys.inner) bytes)) [
        | inl e ↦ absurd (ground (arith, L.public_text (public_key_of keys.inner)))
        | inr (c, e) ↦ ground (
          arith,
          L.public_text (public_key_of keys.inner),
          L.secret_text keys.inner,
          L.ecies keys.inner bytes e,
        )
      ]

  -- A signature that is made for a key pair verifies with its public key, for the same hash.
  pub signature-verify :
      (hash : String) (keys : BcrKeys) {sig : String}
      → signature P hash (get_private_key_string P keys) ≡ ok sig
      → Crypto.verify P hash sig (get_public_key P keys) ≡ ok true
  unfolding signature get_private_key_string get_public_key load_keypair Crypto.verify
  signature-verify hash keys h = elim (Result-cases (message P hash)) [
    | inl (msg, decoded) ↦ ground (
      arith,
      L.secret_text keys.inner,
      L.public_text (public_key_of keys.inner),
      L.base58 (P.sign_schnorr msg keys.inner),
      L.signature_text msg keys.inner,
      L.schnorr msg keys.inner,
    )
    | inr failed ↦ absurd (ground (arith, L.secret_text keys.inner))
  ]

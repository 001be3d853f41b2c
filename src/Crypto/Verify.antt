-- ===== src/Crypto/Verify.antt =====
-- crypto_utils.c: `samconfCryptoUtilsVerify` and its steps.
use samconf.Common.{
  ℕ, true, List, [], ◌∷◌, Option, some, ◌≡◌, ◌⊎◌, refl, arith, inl, inr, Option-cases,
}
use samconf.Status.{ok}
use samconf.Text.{Bytes}
use samconf.Uri.{Uri, uri_new}
use samconf.Crypto.{
  Ssl, Decoded, decoded, refused, overread, base64_decode, load_public_key, digest_name,
  check_digest, check_path, crypto_verify, behind_first,
}

Decoded-cases :
    (d : Decoded) → ((raw : Bytes) × (n : ℕ) × (d ≡ decoded raw n)) ⊎ (d ≡ refused) ⊎ (d ≡ overread)
Decoded-cases (decoded raw n) = inl (raw, n, refl)
Decoded-cases refused = inr (inl refl)
Decoded-cases overread = inr (inr refl)

module _ {K D : Type 0} (ssl : Ssl K D) where
  -- The digest that the scheme names accepts the key, the text and the raw signature.
  abbrev pub Accepts : K → Bytes → Bytes → Bytes → ℕ → Type 0
  Accepts key scheme text raw raw_length =
      (alg : D) × (ssl.digest_by_name (digest_name ssl scheme) ≡ some alg)
      × (ssl.verify_init alg key ≡ true)
      × (ssl.verify_update alg key text ≡ true)
      × (ssl.verify_final alg key text raw raw_length ≡ true)

  check_digest-Accepts :
      (key : K) (scheme text raw : Bytes) (n : ℕ)
      → check_digest ssl key scheme text raw n ≡ ok
      → Accepts key scheme text raw n
  unfolding check_digest
  check_digest-Accepts key scheme text raw n e =
      elim (Option-cases (ssl.digest_by_name (digest_name ssl scheme))) [
        | inl missing ↦ ground arith
        | inr (alg, here) ↦ (alg, here, ground arith, ground arith, ground arith)
      ]

  check_path-Accepts :
      (key : K) (scheme path text : Bytes)
      → check_path ssl key scheme path text ≡ some ok
      → (base64 raw : Bytes) × (n : ℕ) × (behind_first ssl path ≡ some base64)
        × (base64_decode ssl base64 ≡ decoded raw n)
        × Accepts key scheme text raw n
  unfolding check_path
  check_path-Accepts key scheme [] text e = cc
  check_path-Accepts key scheme (c ∷ s) text e = elim (Decoded-cases (base64_decode ssl s)) [
    | inl (raw, n, here) ↦
        let checked : check_digest ssl key scheme text raw n ≡ ok = ground arith in
        (s, raw, n, refl, here, check_digest-Accepts key scheme text raw n checked)
    | inr (inl missing) ↦ ground arith
    | inr (inr missing) ↦ ground arith
  ]

  -- The verification answers OK only if the signature is a URI whose path decodes from base64 behind its
  -- first byte, the public key was loaded, and the digest that the scheme names accepts the text, that
  -- key and the decoded bytes as their signature.
  pub crypto_verify_sound :
      (regexec : Bytes → Option (List (Option (ℕ × ℕ)))) (text signature : Bytes)
      → crypto_verify ssl regexec text signature ≡ some ok
      → (uri : Uri) × (key : K) × (scheme path base64 raw : Bytes) × (n : ℕ) × ((uri_new regexec
            signature).1
          ≡ some uri)
        × ((load_public_key ssl).1 ≡ some key)
        × (uri.scheme ≡ some scheme)
        × (uri.path ≡ some path)
        × (behind_first ssl path ≡ some base64)
        × (base64_decode ssl base64 ≡ decoded raw n)
        × Accepts key scheme text raw n
  unfolding crypto_verify
  crypto_verify_sound regexec text signature e = elim (Option-cases (uri_new regexec signature).1) [
    | inl missing ↦ ground arith
    | inr (uri, made) ↦ elim (Option-cases (load_public_key ssl).1) [
      | inl missing ↦ ground arith
      | inr (key, has_key) ↦ elim (Option-cases uri.scheme) [
        | inl missing ↦ ground arith
        | inr (scheme, s) ↦ elim (Option-cases uri.path) [
          | inl missing ↦ ground arith
          | inr (path, p) ↦
              let checked : check_path ssl key scheme path text ≡ some ok = ground arith in
              let (base64, raw, n, behind, dec, accepted) =
                check_path-Accepts key scheme path text checked in
              (uri, key, scheme, path, base64, raw, n, made, has_key, s, p, behind, dec, accepted)
        ]
      ]
    ]
  ]

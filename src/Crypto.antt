-- ===== src/Crypto.antt =====
-- src/samconf/private/crypto_utils.c: the verification of a text against its signature.
pub mod Verify
pub mod Padding
use samconf.Common.{
  ℕ, ◌+◌, ◌-◌, ◌^◌, Bool, true, false, List, [], ◌∷◌, Option, none, some, leb, length, ◌==◌,
  if◌then◌else◌,
}
use mathlib.Core.List.{reverse}
use samconf.Status.{Status, ok, error, invalid_signature, is_ok}
use samconf.Text.{Bytes, codes, str_eq}
use samconf.Uri.{Uri, uri_new}

-- The system as the file uses it: K is an EVP_PKEY, D an EVP_MD.
pub record Ssl (K D : Type 0) : Type 0 where
  -- `getenv("SAMCONF_SIGNATURE_KEY")`, whether `fopen` opens a file, and `PEM_read_PUBKEY` on it.
  pub key_path : Option Bytes
  pub opens : Bytes → Bool
  pub read_key : Bytes → Option K
  -- `EVP_DecodeBlock`: what it writes, as many bytes as it returns, `none` for a negative result.
  pub decode_block : Bytes → Option Bytes
  -- `EVP_get_digestbyname`, and whether `EVP_DigestVerifyInit`, `EVP_DigestVerifyUpdate` on the text and
  -- `EVP_DigestVerifyFinal` on a buffer and a length return 1.
  pub digest_by_name : Bytes → Option D
  pub verify_init : D → K → Bool
  pub verify_update : D → K → Bytes → Bool
  pub verify_final : D → K → Bytes → Bytes → ℕ → Bool

-- `samconfBase64Decode` gives a status with the buffer and its length, or reads in front of the text.
pub data Decoded : Type 0 where
  decoded : Bytes → ℕ → Decoded
  refused : Decoded
  overread : Decoded

-- The loop over the padding, on the bytes from the end of the text backwards: the padding counted, `none`
-- for a read in front of the text.
unfoldable pub padding_loop : Bytes → ℕ → Option ℕ
padding_loop [] padding = none
padding_loop (c ∷ s) padding =
    let further = padding_loop s (padding + 1) in
    if c == b'='
    then (if leb (padding + 1) 2 then further else some (padding + 1))
    else some padding

-- `outLen` less one for each padding byte, as a size_t.
abbrev pub less : ℕ → ℕ → ℕ
less out_len padding = if leb padding out_len then out_len - padding else out_len + 2 ^ 64 - padding

module _ {K D : Type 0} (ssl : Ssl K D) where
  -- `samconfLoadPublicKey`
  unfoldable pub load_public_key : Status × Option K
  load_public_key = elim ssl.key_path [
    | none ↦ (error, none)
    | some file ↦
        if ssl.opens file
        then elim (ssl.read_key file) [ none ↦ (error, none) | some key ↦ (ok, some key) ]
        else (error, none)
  ]

  -- `samconfBase64Decode`
  unfoldable pub base64_decode : Bytes → Decoded
  base64_decode base64 = elim (ssl.decode_block base64) [
    | none ↦ refused
    | some buf ↦ elim (padding_loop (reverse base64) 0) [
      | none ↦ overread
      | some padding ↦ if leb padding 2 then decoded buf (less (length buf) padding) else refused
    ]
  ]

  -- The digest that a scheme names.
  abbrev pub digest_name : Bytes → Bytes
  digest_name scheme = if str_eq scheme (codes "RSA-SHA2-256") then codes "SHA256" else scheme

  -- The steps of `samconfCryptoUtilsVerify` from the digest on.
  unfoldable pub check_digest : K → Bytes → Bytes → Bytes → ℕ → Status
  check_digest key scheme text raw raw_length = elim (ssl.digest_by_name (digest_name scheme)) [
    | none ↦ error
    | some alg ↦
        if ssl.verify_init alg key
        then (if ssl.verify_update alg key text
            then (if ssl.verify_final alg key text raw raw_length then ok else invalid_signature)
            else error)
        else error
  ]

  -- `&uri->path[1]`, which for an empty path lies behind its NUL; `none` for that.
  abbrev pub behind_first : Bytes → Option Bytes
  behind_first [] = none
  behind_first (c ∷ s) = some s

  -- The decoding of the path and what follows; `none` is a read out of bounds. The members of the URI
  -- are not NULL, since `samconfUriNew` answered OK.
  unfoldable pub check_path : K → Bytes → Bytes → Bytes → Option Status
  check_path key scheme path text = elim (behind_first path) [
    | none ↦ none
    | some base64 ↦ elim (base64_decode base64) [
      | refused ↦ some error
      | overread ↦ none
      | decoded raw raw_length ↦ some (check_digest key scheme text raw raw_length)
    ]
  ]

  -- `samconfCryptoUtilsVerify` on text and a signature that are not NULL. `samconfUriDelete` is always OK.
  unfoldable pub crypto_verify :
      (Bytes → Option (List (Option (ℕ × ℕ)))) → Bytes → Bytes → Option Status
  crypto_verify regexec text signature = elim (uri_new regexec signature).1 [
    | none ↦ some error
    | some uri ↦ elim load_public_key.1 [
      | none ↦ some error
      | some key ↦ elim uri.scheme [
        | none ↦ none
        | some scheme ↦ elim uri.path [ none ↦ none | some path ↦ check_path key scheme path text ]
      ]
    ]
  ]

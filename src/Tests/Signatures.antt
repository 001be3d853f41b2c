-- ===== src/Tests/Signatures.antt =====
-- Verifying signatures.
use samconf.Common.{
  ℕ, ◌-◌, true, List, [], ◌∷◌, Option, none, some, ◌≡◌, refl, arith, leb, length, list_eq,
  if◌then◌else◌,
}
use samconf.Status.{ok}
use samconf.Text.{Bytes, codes, str_eq}
use samconf.Uri.{Uri, uri_new, uri_init}
use samconf.Crypto.{
  Ssl, decoded, refused, padding_loop, load_public_key, base64_decode, check_digest, check_path,
  crypto_verify, behind_first,
}
use samconf.Crypto.Verify.{Accepts, crypto_verify_sound}
use samconf.Crypto.Padding.{base64_decode-equals}

-- A system in which the only signature is "AB==", which stands for the byte 1.
abbrev pub ssl : Ssl Unit Unit
ssl = record {
  key_path = some (codes "key.pem");
  opens = λ file. true;
  read_key = λ file. some tt;
  decode_block = λ text. some (1 ∷ 0 ∷ 0 ∷ []);
  digest_by_name = λ name. if str_eq name (codes "SHA256") then some tt else none;
  verify_init = λ alg key. true;
  verify_update = λ alg key text. true;
  verify_final = λ alg key text raw n. list_eq raw (1 ∷ 0 ∷ 0 ∷ []);
}

abbrev buf : Bytes
buf = 1 ∷ 0 ∷ 0 ∷ []

abbrev pub regexec : Bytes → Option (List (Option (ℕ × ℕ)))
regexec text = some (
    some (0, 18)
    ∷ some (0, 13)
    ∷ some (0, 12)
    ∷ none
    ∷ none
    ∷ some (13, 18)
    ∷ none
    ∷ none
    ∷ none
    ∷ [])

abbrev pub signature : Bytes
signature = codes "RSA-SHA2-256:/AB=="

pub verified : crypto_verify ssl regexec (codes "{}") signature ≡ some ok
unfolding crypto_verify uri_new uri_init load_public_key check_path check_digest base64_decode
    padding_loop list_eq
verified = refl

crypto_verify_sound_example :
    (uri : Uri) × (key : Unit) × (scheme path base64 raw : Bytes) × (n : ℕ) × ((uri_new regexec
        signature).1
      ≡ some uri)
    × ((load_public_key ssl).1 ≡ some key)
    × (uri.scheme ≡ some scheme)
    × (uri.path ≡ some path)
    × (behind_first ssl path ≡ some base64)
    × (base64_decode ssl base64 ≡ decoded raw n)
    × Accepts ssl key scheme (codes "{}") raw n
crypto_verify_sound_example = crypto_verify_sound ssl regexec (codes "{}") signature verified

padded_decoded :
    base64_decode ssl (codes "AB==") ≡ (if leb 2 2 then decoded buf (length buf - 2) else refused)
padded_decoded =
    base64_decode-equals ssl (codes "AB==") buf 2 b'B' (b'A' ∷ []) refl refl (omega arith)
      (omega arith)

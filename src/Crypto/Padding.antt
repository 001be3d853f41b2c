-- ===== src/Crypto/Padding.antt =====
-- crypto_utils.c: the padding that `samconfBase64Decode` takes off.
use samconf.Common.{
  ℕ, zero, suc, ◌+◌, ◌-◌, ◌≤◌, ◌∷◌, some, ◌≡◌, ◌≢◌, arith, leb, length, if◌then◌else◌,
}
use mathlib.Core.List.{reverse}
use samconf.Text.{Bytes}
use samconf.Crypto.{Ssl, decoded, refused, padding_loop, base64_decode}

-- A number of '=' before a text.
abbrev pub equals : ℕ → Bytes → Bytes
equals zero text = text
equals (suc k) text = b'=' ∷ equals k text

padding_loop-equals :
    (k c : ℕ) (s : Bytes) (n : ℕ)
    → c ≢ b'='
    → n ≤ 2
    → padding_loop (equals k (c ∷ s)) n ≡ some (if leb (n + k) 2 then n + k else 3)
unfolding padding_loop
padding_loop-equals zero c s n h le = ground arith
padding_loop-equals (suc k) c s n h le = ground (arith, padding_loop-equals k c s (n + 1) h)

-- A text that the decoder accepts, and that from its end backwards has a number of '=' and then another
-- byte, is decoded to what the decoder writes, less a byte for each '=' if these are at most two, and
-- refused if they are more; the decoder is taken to write at least as many bytes as there are '='.
pub base64_decode-equals :
    {K D : Type 0} (ssl : Ssl K D) (base64 buf : Bytes) (k c : ℕ) (s : Bytes)
    → ssl.decode_block base64 ≡ some buf
    → reverse base64 ≡ equals k (c ∷ s)
    → c ≢ b'='
    → k ≤ length buf
    → base64_decode ssl base64 ≡ (if leb k 2 then decoded buf (length buf - k) else refused)
unfolding base64_decode
base64_decode-equals ssl base64 buf k c s dec back h le =
    let counted : padding_loop (reverse base64) 0 ≡ some (if leb (0 + k) 2 then 0 + k else 3) =
      rw back (padding_loop-equals k c s 0 h (omega arith)) in
    ground arith

-- ===== src/Text.antt =====
-- The functions of the C library on NUL-terminated strings, as far as samconf uses them. A string is
-- the list of its bytes before the NUL.
use Prim.Native.Char.{code}
use Prim.Native.String.{String}
use samconf.Common.Int.{ℤ, pos, negsuc}
use samconf.Common.{
  zero, suc, ◌-◌, ◌*◌, ◌^◌, ◌||◌, ltb, ℕ, ◌+◌, Bool, true, false, ◌&&◌, List, [], ◌∷◌, ◌++◌, map,
  ◌≢◌, leb, ◌==◌, if◌then◌else◌, list_eq, All, is_empty,
}

abbrev pub Bytes : Type 0
Bytes = List ℕ

-- The bytes of an ASCII literal.
abbrev pub codes : String → Bytes
codes String.[] = []
codes (String.◌∷◌ c s) = code c ∷ codes s

abbrev pub slash : ℕ
slash = b'/'

-- `strcmp(a, b) == 0`
abbrev pub str_eq : Bytes → Bytes → Bool
str_eq = list_eq

-- `tolower` in the C locale
unfoldable pub to_lower : ℕ → ℕ
to_lower c = if leb b'A' c && leb c b'Z' then c + 32 else c

-- `strcasecmp(a, b) == 0`
abbrev pub str_case_eq : Bytes → Bytes → Bool
str_case_eq a b = list_eq (map to_lower a) (map to_lower b)

-- No byte of the text is a given one.
abbrev pub Lacks : ℕ → Bytes → Type 0
Lacks b = All (λ c. c ≢ b)

-- The tokens that a loop of `strtok_r(s, sep, &s)` yields, `cur` being the token under way: the
-- longest runs of bytes other than the separator, the empty ones left out.
unfoldable pub tokens_from : ℕ → Bytes → Bytes → List Bytes
tokens_from sep cur [] = if is_empty cur then [] else cur ∷ []
tokens_from sep cur (c ∷ s) =
    let closed = tokens_from sep [] s in
    let longer = tokens_from sep (cur ++ c ∷ []) s in
    if c == sep then (if is_empty cur then closed else cur ∷ closed) else longer

-- The last element, or `d` of an empty list.
abbrev pub last_or : Bytes → List Bytes → Bytes
last_or d [] = d
last_or d (x ∷ xs) = last_or x xs

-- POSIX `basename`: the last component, "/" for a path of slashes, "." for the empty path.
unfoldable pub basename : Bytes → Bytes
unfolding tokens_from
basename [] = b'.' ∷ []
basename (c ∷ s) = last_or (slash ∷ []) (tokens_from slash [] (c ∷ s))

-- The tokens that a loop of `strsep(&s, sep)` yields, `cur` being the token under way: all of them, the
-- empty ones too, and always at least one.
unfoldable pub split_from : ℕ → Bytes → Bytes → List Bytes
split_from sep cur [] = cur ∷ []
split_from sep cur (c ∷ s) =
    let closed = split_from sep [] s in
    let longer = split_from sep (cur ++ c ∷ []) s in if c == sep then cur ∷ closed else longer

unfoldable pub split : ℕ → Bytes → List Bytes
split sep s = split_from sep [] s

-- Whether a text begins with another, and `strstr(text, part) != NULL`.
unfoldable pub starts_with : Bytes → Bytes → Bool
starts_with [] s = true
starts_with (p ∷ ps) [] = false
starts_with (p ∷ ps) (c ∷ s) = (p == c) && starts_with ps s

unfoldable pub contains : Bytes → Bytes → Bool
contains part [] = is_empty part
contains part (c ∷ s) = starts_with part (c ∷ s) || contains part s

-- `isspace` in the C locale
abbrev pub is_space : ℕ → Bool
is_space c = (c == 32) || (leb 9 c && leb c 13)

abbrev pub is_digit : ℕ → Bool
is_digit c = leb b'0' c && leb c b'9'

unfoldable pub skip_space : Bytes → Bytes
skip_space [] = []
skip_space (c ∷ s) = let rest = skip_space s in if is_space c then rest else c ∷ s

-- The digits at the start of a text: the number that they spell behind n, and what follows them.
unfoldable pub scan_digits : Bytes → ℕ → ℕ × Bytes
scan_digits [] n = (n, [])
scan_digits (c ∷ s) n =
    let more = scan_digits s (n * 10 + (c - b'0')) in if is_digit c then more else (n, c ∷ s)

-- A number with its sign, held within the range of int64_t.
abbrev pub saturate : Bool → ℕ → ℤ
saturate true zero = pos 0
saturate true (suc n) = negsuc (if ltb n (2 ^ 63) then n else 2 ^ 63 - 1)
saturate false n = pos (if ltb n (2 ^ 63) then n else 2 ^ 63 - 1)

-- The unsigned part of `strtoll`: without a digit nothing is converted, and the end is the start.
abbrev pub convert : Bytes → Bool → Bytes → ℤ × Bytes
convert whole negative [] = (pos 0, whole)
convert whole negative (c ∷ s) =
    let (n, rest) = scan_digits (c ∷ s) 0 in
    if is_digit c then (saturate negative n, rest) else (pos 0, whole)

abbrev pub convert_signed : Bytes → Bytes → ℤ × Bytes
convert_signed whole [] = (pos 0, whole)
convert_signed whole (c ∷ s) =
    if c == b'-'
    then convert whole true s
    else if c == b'+'
    then convert whole false s
    else convert whole false (c ∷ s)

-- `strtoll(text, &end, 10)`: the number, and the text from `end` on.
unfoldable pub strtoll : Bytes → ℤ × Bytes
strtoll s = convert_signed s (skip_space s)

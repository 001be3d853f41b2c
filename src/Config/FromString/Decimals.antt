-- ===== src/Config/FromString/Decimals.antt =====
-- samconf.c: `samconfConfigSetValueFromString` and `samconfCreateFromStringAt` on decimal numbers.
use samconf.Common.{
  ℕ, zero, suc, ◌+◌, ◌-◌, ◌*◌, ◌/◌, ◌%◌, ◌^◌, ◌≤◌, ◌<◌, true, false, [], ◌∷◌, none, some, ◌≡◌, ◌≢◌,
  refl, sym, ap, ◌∙◌, arith, ◌==◌, ltb, list_eq, Bool-cases, inl, inr,
}
use samconf.Common.Int.{pos, to_int32}
use samconf.Status.{ok, not_found}
use samconf.Text.{Bytes, basename, to_lower, is_digit, is_space, skip_space, scan_digits, strtoll}
use samconf.Path.{segments}
use samconf.Config.{integer, Config, config_new, with_node}
use samconf.Config.Get.{samconf_get, get_int32, to_integer}
use samconf.Config.Insert.Create.{named, Creates, create_at-get, get_typed_found}
use samconf.Config.FromString.{value_of, set_value_from_string, set_from, create_from_string_at}
use samconf.Json.{digits_from, decimal}

scan_digits-digits_from :
    (fuel n : ℕ) (acc : Bytes)
    → n < fuel
    → scan_digits (digits_from fuel n acc) 0 ≡ scan_digits acc n
unfolding scan_digits digits_from
scan_digits-digits_from zero n acc h = absurd (omega arith)
scan_digits-digits_from (suc fuel) n acc h = elim (Bool-cases (n / 10 == 0)) [
  | inl small ↦
      let whole : 0 * 10 + (b'0' + n % 10 - b'0') ≡ n = ground arith in
      let digit : is_digit (b'0' + n % 10) ≡ true = ground arith in
      rw (small, digit, digits_from, whole, scan_digits)
  | inr large ↦
      let whole : n / 10 * 10 + (b'0' + n % 10 - b'0') ≡ n = omega arith in
      let digit : is_digit (b'0' + n % 10) ≡ true = ground arith in
      rw (
        large,
        digits_from,
        scan_digits-digits_from fuel (n / 10) ((b'0' + n % 10) ∷ acc) (ground arith),
        digit,
        scan_digits,
        whole,
      )
]

digits_from-first :
    (fuel n : ℕ) (acc : Bytes)
    → (c : ℕ) × (s : Bytes) × (digits_from (suc fuel) n acc ≡ c ∷ s) × (b'0' ≤ c) × (c ≤ b'9')
unfolding digits_from
digits_from-first zero n acc = (b'0' + n % 10, acc, ground arith, omega arith, omega arith)
digits_from-first (suc fuel) n acc = elim (Bool-cases (n / 10 == 0)) [
  | inl small ↦ (b'0' + n % 10, acc, ground arith, omega arith, omega arith)
  | inr large ↦
      let (c, s, e, lo, hi) = digits_from-first fuel (n / 10) ((b'0' + n % 10) ∷ acc) in
      (c, s, rw (large, digits_from) e, lo, hi)
]

strtoll-digit :
    (c : ℕ) (s : Bytes) (n : ℕ)
    → b'0' ≤ c
    → c ≤ b'9'
    → n < 2 ^ 63
    → scan_digits (c ∷ s) 0 ≡ (n, [])
    → strtoll (c ∷ s) ≡ (pos n, [])
unfolding strtoll skip_space
strtoll-digit c s n lo hi h e =
    let digit : is_digit c ≡ true = ground arith in
    let solid : is_space c ≡ false = ground arith in
    let plain : (c == b'-') ≡ false = ground arith in
    let unsigned : (c == b'+') ≡ false = ground arith in
    let fits : ltb n (2 ^ 63) ≡ true = ground arith in rw (solid, plain, unsigned, digit, e, fits)

scan_nil : (n : ℕ) → scan_digits [] n ≡ (n, [])
unfolding scan_digits
scan_nil n = refl

strtoll-decimal : (n : ℕ) → n < 2 ^ 63 → strtoll (decimal n) ≡ (pos n, [])
unfolding decimal
strtoll-decimal n h =
    let (c, s, e, lo, hi) = digits_from-first n n [] in
    let scanned = scan_digits-digits_from (suc n) n [] (omega arith) in
    rw e (strtoll-digit c s n lo hi h (ap (λ t. scan_digits t 0) (sym e) ∙ scanned ∙ scan_nil n))

value_of-digit :
    (strtod : Bytes → ℕ × Bytes) (c : ℕ) (s : Bytes) (n : ℕ)
    → b'0' ≤ c
    → c ≤ b'9'
    → strtoll (c ∷ s) ≡ (pos n, [])
    → value_of strtod (c ∷ s) ≡ integer (pos n)
unfolding value_of list_eq to_lower
value_of-digit strtod c s n lo hi e =
    let no_t : (to_lower c == b't') ≡ false = ground arith in
    let no_f : (to_lower c == b'f') ≡ false = ground arith in rw (no_t, no_f, e)

value_of-decimal :
    (strtod : Bytes → ℕ × Bytes) (n : ℕ)
    → n < 2 ^ 63
    → value_of strtod (decimal n) ≡ integer (pos n)
unfolding decimal
value_of-decimal strtod n h =
    let (c, s, e, lo, hi) = digits_from-first n n [] in
    let read : strtoll (c ∷ s) ≡ (pos n, []) = rw (sym e) (strtoll-decimal n h) in
    rw e (value_of-digit strtod c s n lo hi read)

-- The decimal digits of a number below 2^63, given as text for a path that has a segment and leads
-- nowhere yet, as `samconfConfigGet` answers without a crash, create an integer with status OK, of
-- which the getter for int32 at that path reads the low 32 bits.
pub create_from_string_at-decimal :
    (strtod : Bytes → ℕ × Bytes) (root : Config) (path : Bytes) (n : ℕ)
    → n < 2 ^ 63
    → segments path ≢ []
    → samconf_get (some root) (some path) ≡ some (not_found, none)
    → Creates
        (create_from_string_at strtod (some root) (some path) (some (decimal n)))
        (λ t. get_int32 (some t) (some path) ≡ some (ok, some (to_int32 (pos n))))
unfolding create_from_string_at get_int32
create_from_string_at-decimal strtod root path n small h lost =
    let set = set_from strtod (decimal n) in
    let sets : set (some (with_node (λ m. record m { key = some (basename path) }) config_new))
        ≡ (ok, some (named path (value_of strtod (decimal n)))) =
      unfold set_value_from_string in refl in
    let (r, q, run, found, is_q) =
      create_at-get set (value_of strtod (decimal n)) root path sets h lost in
    let value : to_integer (value_of strtod (decimal n)) ≡ some (to_int32 (pos n)) =
      rw (value_of-decimal strtod n small) in
    (r, run, get_typed_found to_integer r path q _ _ found is_q value)

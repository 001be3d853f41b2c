-- ===== src/Config/Get/Defaults.antt =====
-- samconf.c: the getters with a default.
use samconf.Common.{ℕ, Bool, List, [], Option, none, some, ◌≡◌, ◌≢◌, ◌∙◌, inl, inr, Option-cases}
use samconf.Common.Int.{ℤ}
use samconf.Status.{ok, not_found, invalid_type}
use samconf.Text.{Bytes}
use samconf.Path.{segments}
use samconf.Config.{Value, Config, node, subtree}
use samconf.Config.Get.{
  samconf_get, to_bool, to_integer, to_real, to_string, get_typed, get_string, or_default, get_bool,
  get_int32, get_real, get_bool_or, get_int32_or, get_real_or, get_string_or,
}
use samconf.Config.Get.Crash.{IsKeyed}
use samconf.Config.Get.Resolve.{resolve, samconf_get-resolve}
use samconf.Config.Tree.{resolve-subtree}

-- What a reader makes of the node that the segments lead to, or the default if they lead nowhere or to
-- a node of another type.
abbrev pub read_or : {A : Type 0} → (Value → Option A) → Config → List Bytes → A → A
read_or read root segs d = elim (resolve root segs) [
  | none ↦ d
  | some p ↦ elim (subtree root p) [
    | none ↦ d
    | some c ↦ elim (read (node c).value) [ none ↦ d | some a ↦ a ]
  ]
]

module _ (root : Config) (path : Bytes) (keyed : IsKeyed root) (h : segments path ≢ []) where
  typed-read_or :
      {A : Type 0} (read : Value → Option A) (d : A)
      → or_default (get_typed read (some root) (some path)) d
        ≡ some (read_or read root (segments path) d)
  unfolding get_typed or_default
  typed-read_or read d = elim (Option-cases (resolve root (segments path))) [
    | inl missing ↦
        let got : samconf_get (some root) (some path) ≡ some (not_found, none) =
          samconf_get-resolve root path keyed h ∙ rw missing in
        rw (got, get_typed, read_or, missing)
    | inr (p, here) ↦
        let got : samconf_get (some root) (some path) ≡ some (ok, some p) =
          samconf_get-resolve root path keyed h ∙ rw here in
        let (c, there) = resolve-subtree root (segments path) p here in
        elim (Option-cases (read (node c).value)) [
          | inl other ↦
              let missed : get_typed read (some root) (some path) ≡ some (invalid_type, none) =
                rw (get_typed, got, there, other) in
              rw (missed, or_default, read_or, here, there, other)
          | inr (a, is) ↦
              let hit : get_typed read (some root) (some path) ≡ some (ok, some a) =
                rw (get_typed, got, there, is) in
              rw (hit, or_default, read_or, here, there, is)
        ]
  ]

  string-read_or :
      (d : Option Bytes)
      → get_string_or (some root) (some path) d ≡ some (read_or to_string root (segments path) d)
  unfolding get_string_or get_string
  string-read_or d = elim (Option-cases (resolve root (segments path))) [
    | inl missing ↦
        let got : samconf_get (some root) (some path) ≡ some (not_found, none) =
          samconf_get-resolve root path keyed h ∙ rw missing in
        let none_got : get_string (some root) (some path) ≡ some (not_found, none) =
          rw (get_string, got) in
        rw (none_got, get_string_or, read_or, missing)
    | inr (p, here) ↦
        let got : samconf_get (some root) (some path) ≡ some (ok, some p) =
          samconf_get-resolve root path keyed h ∙ rw here in
        let (c, there) = resolve-subtree root (segments path) p here in
        elim (Option-cases (to_string (node c).value)) [
          | inl other ↦
              let none_got : get_string (some root) (some path) ≡ some (invalid_type, none) =
                rw (get_string, got, there, other) in
              rw (none_got, get_string_or, read_or, here, there, other)
          | inr (a, is) ↦
              let some_got : get_string (some root) (some path) ≡ some (ok, a) =
                rw (get_string, got, there, is) in
              rw (some_got, get_string_or, read_or, here, there, is)
        ]
  ]

-- On a tree in which each node below the root has a key, and on a path with a segment, each getter
-- with a default returns, without a NULL dereference, the value of the node that the segments lead
-- to, if there is one and it has the getter's type, else the default.
pub get_or-read_or :
    (root : Config) (path : Bytes) (b : Bool) (i : ℤ) (r : ℕ) (s : Option Bytes)
    → IsKeyed root
    → segments path ≢ []
    → (get_bool_or (some root) (some path) b ≡ some (read_or to_bool root (segments path) b))
      × (get_int32_or (some root) (some path) i ≡ some (read_or to_integer root (segments path) i))
      × (get_real_or (some root) (some path) r ≡ some (read_or to_real root (segments path) r))
      × (get_string_or (some root) (some path) s ≡ some (read_or to_string root (segments path) s))
unfolding get_bool_or get_int32_or get_real_or get_bool get_int32 get_real
get_or-read_or root path b i r s keyed h = (
  typed-read_or root path keyed h to_bool b,
  typed-read_or root path keyed h to_integer i,
  typed-read_or root path keyed h to_real r,
  string-read_or root path keyed h s,
)

-- ===== src/Config/Get.antt =====
-- samconf.c: `samconfConfigGet` and the typed getters.
pub mod Crash
pub mod Safe
pub mod Resolve
pub mod Defaults
use samconf.Common.{
  ℕ, ◌+◌, Bool, true, false, List, [], ◌∷◌, ◌++◌, Option, none, some, if◌then◌else◌, is_empty,
  list_eq,
}
use samconf.Common.Int.{ℤ, to_int32}
use samconf.Status.{Status, ok, error, not_found, invalid_type, is_ok}
use samconf.Text.{Bytes, str_eq}
use samconf.Path.{create_array}
use samconf.Config.{
  Value, string, integer, real, boolean, Node, Config, config, Children, nil, cons, Position, node,
  children, has_children, subtree,
}

-- `strcmp(node->key, segment) == 0`. `none` is the read of a NULL key.
abbrev pub compare_key : Option Bytes → Bytes → Option Bool
compare_key none seg = none
compare_key (some k) seg = some (str_eq k seg)

-- The inner loop of `samconfConfigGet`: the first child with the key, and its index from i on. The
-- outer `none` is a crash.
unfoldable pub scan_children : Bytes → Children → ℕ → Option (Option (ℕ × Config))
unfolding list_eq
scan_children seg nil i = some none
scan_children seg (cons c cs) i =
    let rest = scan_children seg cs (i + 1) in
    elim (compare_key (node c).key seg) [
      | none ↦ none
      | some same ↦ if same then some (some (i, c)) else rest
    ]

-- The outer loop, `parent` at the position `at`. A segment below a node with no children sets
-- NOT_FOUND and goes on to the next one; a segment that no child has ends the loop.
unfoldable pub walk_segments :
    Config → List Bytes → Position → Status → Option (Status × Option Position)
walk_segments parent [] at status = some (status, none)
walk_segments parent (seg ∷ rest) at status =
    let stuck = walk_segments parent rest at not_found in
    let scanned : Option (Status × Option Position) = elim (scan_children seg (children parent) 0) [
      | none ↦ none
      | some none ↦ some (not_found, none)
      | some (some (i, child)) ↦
          let deeper = walk_segments child rest (at ++ i ∷ []) status in
          if is_empty rest then some (ok, some (at ++ i ∷ [])) else deeper
    ] in
    if has_children parent then scanned else stuck

-- `samconfConfigGet`: the status, and the position stored in `*result`, `none` if nothing is
-- stored. The outer `none` is a crash.
unfoldable pub samconf_get : Option Config → Option Bytes → Option (Status × Option Position)
samconf_get none path = some (error, none)
samconf_get (some root) none = some (error, none)
samconf_get (some root) (some path) =
    let arr = create_array (some path) in
    if has_children root
    then (if is_ok arr.status then walk_segments root arr.items [] ok else some (arr.status, none))
    else some (not_found, none)

-- The answers of these functions where they do not crash, as Get/Crash relates them: a node without
-- a key is passed over.
abbrev pub key_is : Option Bytes → Bytes → Bool
key_is none seg = false
key_is (some k) seg = str_eq k seg

-- The first child with the key, and its index from i on.
unfoldable pub find_child : Bytes → Children → ℕ → Option (ℕ × Config)
unfolding list_eq
find_child seg nil i = none
find_child seg (cons c cs) i =
    let rest = find_child seg cs (i + 1) in if key_is (node c).key seg then some (i, c) else rest

-- What the outer loop answers.
unfoldable pub get_walk : Config → List Bytes → Position → Status → Status × Option Position
get_walk parent [] at status = (status, none)
get_walk parent (seg ∷ rest) at status =
    let stuck = get_walk parent rest at not_found in
    let scanned : Status × Option Position = elim (find_child seg (children parent) 0) [
      | none ↦ (not_found, none)
      | some (i, child) ↦
          let deeper = get_walk child rest (at ++ i ∷ []) status in
          if is_empty rest then (ok, some (at ++ i ∷ [])) else deeper
    ] in
    if has_children parent then scanned else stuck

-- The answer of `samconfConfigGet` where it does not crash.
unfoldable pub config_get : Option Config → Option Bytes → Status × Option Position
config_get none path = (error, none)
config_get (some root) none = (error, none)
config_get (some root) (some path) =
    let arr = create_array (some path) in
    if has_children root
    then (if is_ok arr.status then get_walk root arr.items [] ok else (arr.status, none))
    else (not_found, none)

-- The node that `*result` points to.
abbrev pub pointee : Config → Option Position → Option Config
pointee root none = none
pointee root (some p) = subtree root p

-- What a typed getter makes of the node: `none` if its type is another one.
abbrev pub to_bool : Value → Option Bool
to_bool (boolean b) = some b
to_bool _ = none

abbrev pub to_real : Value → Option ℕ
to_real (real r) = some r
to_real _ = none

abbrev pub to_integer : Value → Option ℤ
to_integer (integer i) = some (to_int32 i)
to_integer _ = none

abbrev pub to_string : Value → Option (Option Bytes)
to_string (string s) = some s
to_string _ = none

-- What the getters for numbers and truth values share: the status and what is stored in `*result`.
-- The outer `none` is a crash: one of `samconfConfigGet`, or the dereference of a NULL `node` after a
-- status OK.
unfoldable pub get_typed :
    {A : Type 0} → (Value → Option A) → Option Config → Option Bytes → Option (Status × Option A)
get_typed read none path = some (error, none)
get_typed read (some root) none = some (error, none)
get_typed read (some root) (some path) = elim (samconf_get (some root) (some path)) [
  | none ↦ none
  | some (status, found) ↦
      if is_ok status
      then elim (pointee root found) [
        | none ↦ none
        | some c ↦
            some
              (elim (read (node c).value) [ none ↦ (invalid_type, none) | some a ↦ (ok, some a) ])
      ]
      else some (status, none)
]

-- `samconfConfigGetBool`, `samconfConfigGetInt32`, `samconfConfigGetReal`
unfoldable pub get_bool : Option Config → Option Bytes → Option (Status × Option Bool)
get_bool = get_typed to_bool

unfoldable pub get_int32 : Option Config → Option Bytes → Option (Status × Option ℤ)
get_int32 = get_typed to_integer

unfoldable pub get_real : Option Config → Option Bytes → Option (Status × Option ℕ)
get_real = get_typed to_real

-- `samconfConfigGetString`: the status and `*result`, which is `none` for NULL. This getter tests
-- `node` before it reads it, so that only `samconfConfigGet` can crash.
unfoldable pub get_string : Option Config → Option Bytes → Option (Status × Option Bytes)
get_string none path = some (error, none)
get_string (some root) none = some (error, none)
get_string (some root) (some path) = elim (samconf_get (some root) (some path)) [
  | none ↦ none
  | some (status, found) ↦ elim (pointee root found) [
    | none ↦ some (status, none)
    | some c ↦
        if is_ok status
        then elim (to_string (node c).value) [
          | none ↦ some (invalid_type, none)
          | some s ↦ some (status, s)
        ]
        else some (status, none)
  ]
]

-- What the `…Or` getters share: the value, or the default on any status but OK.
unfoldable pub or_default : {A : Type 0} → Option (Status × Option A) → A → Option A
or_default none d = none
or_default (some (status, none)) d = if is_ok status then none else some d
or_default (some (status, some a)) d = some (if is_ok status then a else d)

-- `samconfConfigGetBoolOr`, `samconfConfigGetInt32Or`, `samconfConfigGetRealOr`; `none` as above.
unfoldable pub get_bool_or : Option Config → Option Bytes → Bool → Option Bool
get_bool_or root path d = or_default (get_bool root path) d

unfoldable pub get_int32_or : Option Config → Option Bytes → ℤ → Option ℤ
get_int32_or root path d = or_default (get_int32 root path) d

unfoldable pub get_real_or : Option Config → Option Bytes → ℕ → Option ℕ
get_real_or root path d = or_default (get_real root path) d

-- `samconfConfigGetStringOr`; the outer `none` as above.
unfoldable pub get_string_or : Option Config → Option Bytes → Option Bytes → Option (Option Bytes)
get_string_or root path d = elim (get_string root path) [
  | none ↦ none
  | some (status, found) ↦ some (if is_ok status then found else d)
]

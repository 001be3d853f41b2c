-- ===== src/Dump.antt =====
-- samconf.c: `samconfDumpConfigTree`, which prints a tree.
pub mod Lines
use samconf.Common.{
  ℕ, suc, ◌+◌, Bool, true, false, List, [], ◌∷◌, ◌++◌, Option, none, some, leb, if◌then◌else◌,
}
use samconf.Common.Int.{ℤ, pos, negsuc}
use samconf.Text.{Bytes, codes}
use samconf.Json.{decimal}
use samconf.Config.{
  Value, no_value, string, integer, real, boolean, array, object, Node, Config, config, Children,
  nil, cons, child_count,
}

-- What `printf` prints for `%f` of the bits of a double, and for `%s` of a NULL.
pub record Printf : Type 0 where
  pub real_text : ℕ → Bytes
  pub null_text : Bytes

-- The standard output, and the vector of `last` flags (`safuVecPush` appends, `safuVecPop` takes the last
-- element away).
pub record Screen : Type 0 where
  pub out : Bytes
  pub indicator : List Bool

abbrev pub print : Bytes → Screen → Screen
print text s = record { out = s.out ++ text; indicator = s.indicator }

abbrev pub push : Bool → Screen → Screen
push b s = record { out = s.out; indicator = s.indicator ++ b ∷ [] }

unfoldable pub without_last : List Bool → List Bool
without_last [] = []
without_last (b ∷ []) = []
without_last (b ∷ c ∷ bs) = b ∷ without_last (c ∷ bs)

abbrev pub pop : Screen → Screen
pop s = record { out = s.out; indicator = without_last s.indicator }

-- The literals of the code in UTF-8: "│   ", "└── ", "├── ", and the marks of SIGNED.
abbrev bar : Bytes
bar = 0xe2 ∷ 0x94 ∷ 0x82 ∷ codes "   "

abbrev dashes : Bytes
dashes = 0xe2 ∷ 0x94 ∷ 0x80 ∷ 0xe2 ∷ 0x94 ∷ 0x80 ∷ codes " "

abbrev pub branch : Bool → Bytes
branch true = 0xe2 ∷ 0x94 ∷ 0x94 ∷ dashes
branch false = 0xe2 ∷ 0x94 ∷ 0x9c ∷ dashes

abbrev pub signed_mark : Bool → Bytes
signed_mark true = 0xe2 ∷ 0x9c ∷ 0x85 ∷ []
signed_mark false = 0xe2 ∷ 0x9d ∷ 0x8c ∷ []

-- What one round of the loop of `_level` prints.
abbrev pub level_of : Bool → Bytes
level_of true = codes "    "
level_of false = bar

-- The loop of `_level`.
unfoldable pub level_loop : List Bool → Screen → Screen
level_loop [] s = s
level_loop (b ∷ bs) s = level_loop bs (print (level_of b) s)

-- `_level`
abbrev pub level : Screen → Screen
level s = level_loop s.indicator s

-- `%ld`
abbrev pub signed_decimal : ℤ → Bytes
signed_decimal (pos n) = decimal n
signed_decimal (negsuc n) = b'-' ∷ decimal (suc n)

-- The types in which the switch of `_dumpConfigTree` goes on to the children.
abbrev pub is_container : Value → Bool
is_container object = true
is_container array = true
is_container _ = false

module _ (printf : Printf) where
  -- `%s`
  abbrev pub text_of : Option Bytes → Bytes
  text_of none = printf.null_text
  text_of (some s) = s

  -- What `_dumpConfigTree` prints of a node in front of its type.
  abbrev pub head_of : Bool → Node → Bytes
  head_of last n = branch last ++ signed_mark n.is_signed ++ codes " " ++ text_of n.key

  -- What it prints of the value, for the types in which it does not go on to the children.
  abbrev pub value_text : Value → Bytes
  value_text (boolean b) = codes ": " ++ (if b then codes "true" else codes "false") ++ b'\n' ∷ []
  value_text (integer i) = codes ": " ++ signed_decimal i ++ b'\n' ∷ []
  value_text (real r) = codes ": " ++ printf.real_text r ++ b'\n' ∷ []
  value_text (string s) = codes ": \"" ++ text_of s ++ codes "\"" ++ b'\n' ∷ []
  value_text no_value = codes ": UNKNOWN/ERROR" ++ b'\n' ∷ []
  value_text object = b'\n' ∷ []
  value_text array = b'\n' ∷ []

  -- `_dumpConfigTree`, and its two loops over the children, from index i on of `count`.
  unfoldable mutual
    pub dump_config_tree : Config → Bool → Screen → Screen
    dump_config_tree (config n cs) last s =
        let s1 = push last (print (head_of last n) (level s)) in
        let s2 = print (value_text n.value) s1 in
        let below = dump_children cs 0 (child_count cs) s2 in
        if is_container n.value then pop below else pop s2

    pub dump_children : Children → ℕ → ℕ → Screen → Screen
    dump_children nil i count s = s
    dump_children (cons c cs) i count s =
        dump_children cs (i + 1) count (dump_config_tree c (leb count (i + 1)) s)

  -- `samconfDumpConfigTree`: what it prints. The vector starts empty.
  unfoldable pub dump_tree : Option Config → Bytes
  dump_tree none = []
  dump_tree (some (config n cs)) =
      let head =
        signed_mark n.is_signed ++ codes " / (" ++ text_of n.key ++ codes ")" ++ b'\n' ∷ [] in
      (dump_children cs 0 (child_count cs) (record { out = head; indicator = [] })).out

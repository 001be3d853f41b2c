-- ===== src/Demo/EnvExample.antt =====
-- src/demo/env_example.c: loads variables of the environment and prints a row for each of five paths.
pub mod Rows
use samconf.Common.{
  ℕ, zero, suc, ◌-◌, Bool, true, false, List, [], ◌∷◌, ◌++◌, Option, none, some, length,
  if◌then◌else◌,
}
use samconf.Status.{Status, is_ok}
use samconf.Text.{Bytes, codes}
use samconf.Config.{
  Value, no_value, string, integer, real, boolean, array, object, Config, node, Position, subtree,
}
use samconf.Config.Get.{samconf_get}
use samconf.Config.Delete.{config_delete}
use samconf.Json.{decimal}
use samconf.Dump.{Printf, text_of, signed_decimal}

-- The variables of `_set_env_variables`.
abbrev pub variables : List (Bytes × Bytes)
variables =
    (codes "SAMCONF_VARIABLE_STRING", codes "utest string")
    ∷ (codes "SAMCONF_VARIABLE_INT", codes "42")
    ∷ (codes "SAMCONF_VARIABLE_REAL", codes "1.9865")
    ∷ (codes "SAMCONF_VARIABLE_BOOL", codes "true")
    ∷ (codes "SAMCONF_SAMCONF_VARIABLE_INT", codes "42")
    ∷ []

-- `_set_env_variables`, with `setenv` on a name and a value as an argument.
unfoldable pub set_env_variables :
    (List Bytes → Bytes → Bytes → List Bytes) → List (Bytes × Bytes) → List Bytes → List Bytes
set_env_variables setenv [] environ = environ
set_env_variables setenv ((name, value) ∷ rest) environ =
    set_env_variables setenv rest (setenv environ name value)

abbrev pub env_location : Bytes
env_location = codes "env://?envPrefix=SAMCONF&testVar=Check"

abbrev pub paths : List Bytes
paths =
    codes "SAMCONF/VARIABLE/STRING"
    ∷ codes "SAMCONF/VARIABLE/INT"
    ∷ codes "SAMCONF/VARIABLE/REAL"
    ∷ codes "SAMCONF/VARIABLE/BOOL"
    ∷ codes "SAMCONF/SAMCONF/VARIABLE/INT"
    ∷ []

abbrev pub spaces : ℕ → Bytes
spaces zero = []
spaces (suc n) = b' ' ∷ spaces n

-- `%-30s`
abbrev pub column : Bytes → Bytes
column text = text ++ spaces (30 - length text)

-- The line of four columns.
abbrev pub columns : Bytes → Bytes → Bytes → Bytes → Bytes
columns a b c d = column a ++ b'\t' ∷ column b ++ b'\t' ∷ column c ++ b'\t' ∷ column d ++ b'\n' ∷ []

-- `node->type` as a number.
abbrev pub type_number : Value → ℕ
type_number no_value = 0
type_number (string s) = 1
type_number (integer i) = 2
type_number (real r) = 3
type_number (boolean b) = 4
type_number array = 5
type_number object = 6

-- What is behind `*node`: the node at a position of the tree, if the pointer was set.
abbrev pub pointed : Config → Option Position → Option Config
pointed c none = none
pointed c (some p) = subtree c p

-- What `node` points to after a call that stored this.
abbrev pub kept_or : Option Position → Option Position → Option Position
kept_or kept none = kept
kept_or kept (some p) = some p

-- The exit status with what was printed, or a crash.
pub data End : Type 0 where
  exits : Status → Bytes → End
  crashed : End

module _ (printf : Printf) where
  abbrev pub value_column : Value → Bytes
  value_column (string s) = text_of printf s
  value_column (integer i) = signed_decimal i
  value_column (boolean b) = if b then codes "1" else codes "0"
  value_column (real r) = printf.real_text r
  value_column _ = codes "None"

  abbrev pub node_row : Bytes → Config → Bytes
  node_row path c =
      columns path (text_of printf (node c).key) (value_column (node c).value)
        (decimal (type_number (node c).value))

  -- What a round prints, by the result of `samconfConfigGet` and what `node` points to behind it.
  abbrev pub show_path : Config → Bytes → Status → Option Position → Bytes
  show_path c path result at = elim (pointed c at) [
    | none ↦ []
    | some n ↦ if is_ok result then node_row path n else []
  ]

  -- The loop over the paths; `node` keeps what an earlier round stored. `none` is a crash.
  unfoldable pub show_paths : Config → List Bytes → Option Position → Bytes → Option Bytes
  show_paths c [] kept out = some out
  show_paths c (path ∷ rest) kept out = elim (samconf_get (some c) (some path)) [
    | none ↦ none
    | some (result, stored) ↦
        let at = kept_or kept stored in show_paths c rest at (out ++ show_path c path result at)
  ]

  -- `main`, with `samconfLoad` in an environment. What it unsets at the end is not seen any more.
  unfoldable pub env_example_main :
      (List Bytes → Bytes → Bytes → List Bytes)
      → (List Bytes → Bytes → Bool → Option (Status × Option Config))
      → List Bytes
      → End
  env_example_main setenv load environ =
      elim (load (set_env_variables setenv variables environ) env_location false) [
        | none ↦ crashed
        | some (result, tree) ↦
            let shown : End = elim tree [
              | none ↦ exits result []
              | some c ↦
                  elim (show_paths c paths none
                    (columns (codes "PATH") (codes "KEY") (codes "VALUE") (codes "TYPE"))) [
                      | none ↦ crashed
                      | some out ↦ exits (config_delete (some c)).0 out
                    ]
            ] in
            if is_ok result then shown else exits result []
      ]

-- ===== src/Demo/Samprobe.antt =====
-- src/demo/samprobe.c: loads a configuration and prints a row for each node.
pub mod Rows
pub mod Faults
use samconf.Common.{
  ℕ, Bool, true, false, List, [], ◌∷◌, ◌++◌, ◌||◌, Option, none, some, if◌then◌else◌,
}
use samconf.Status.{Status, is_ok, is_error, is_invalid_signature}
use samconf.Text.{Bytes, codes, slash, str_eq}
use samconf.Config.{
  Value, no_value, string, integer, real, boolean, array, object, Node, Config, config, Children,
  nil, cons, node, has_children,
}
use samconf.Dump.{signed_decimal}

-- What `dynValue` points to. After the `free` it keeps its address.
pub data Dynamic : Type 0 where
  null : Dynamic
  live : Bytes → Dynamic
  freed : Dynamic

-- The variables of `_readConfig` that outlive a round of its loop.
pub record Locals : Type 0 where
  pub value : Option Bytes
  pub dyn_value : Dynamic

-- EXIT_SUCCESS
abbrev pub exit_success : ℕ
exit_success = 0

-- `_convert_to_path`, `none` for the `strlen` of a NULL key.
unfoldable pub convert_to_path : Bytes → Option Bytes → Option Bytes
convert_to_path pkey none = none
convert_to_path pkey (some ckey) = some (pkey ++ slash ∷ ckey)

-- `_printValue`
abbrev pub row : Bytes → Bytes → Bytes → Bytes
row path value type = path ++ b'\t' ∷ value ++ b'\t' ∷ type ++ b'\n' ∷ []

-- The name of the type that a row shows.
abbrev pub type_text : Value → Bytes
type_text (string s) = codes "SAMCONF_CONFIG_VALUE_STRING"
type_text (integer i) = codes "SAMCONF_CONFIG_VALUE_INT"
type_text (boolean b) = codes "SAMCONF_CONFIG_VALUE_BOOLEAN"
type_text (real r) = codes "SAMCONF_CONFIG_VALUE_REAL"
type_text array = codes "SAMCONF_CONFIG_VALUE_ARRAY"
type_text object = codes "SAMCONF_CONFIG_VALUE_OBJECT"
type_text no_value = codes "None"

-- The path of a child: below the root of a JSON tree, which is named "config", it starts with a slash.
-- `none` is the `strcmp` or `strlen` of a NULL key.
unfoldable pub path_of_child : Option Bytes → Option Bytes → Option Bytes
path_of_child none ckey = none
path_of_child (some key) ckey =
    if str_eq key (codes "config") then convert_to_path [] ckey else convert_to_path key ckey

-- The end of `main`: an exit code with what was printed, or a fault. Where the load answers another
-- error than those tested, `config` is not initialised.
pub data End : Type 0 where
  exits : ℕ → Bytes → End
  faults : End
  uninitialised : End

-- `%.06f` of the bits of a double.
module _ (real_text : ℕ → Bytes) where
  -- The switch on the type of a child: what it prints, and the variables behind it.
  unfoldable pub switch : Bytes → Value → Locals → Bytes × Locals
  switch path (string s) l = ([], record l { value = s })
  switch path (integer i) l =
      (row path (signed_decimal i) (type_text (integer i)), record l { value = none })
  switch path (boolean b) l =
      ([], record l { value = some (if b then codes "TRUE" else codes "FALSE") })
  switch path (real r) l = ([], record l { dyn_value = live (real_text r) })
  switch path array l = ([], record l { value = some (codes "None") })
  switch path object l = ([], record l { value = some (codes "None") })
  switch path no_value l = ([], record l { value = some (codes "None") })

  -- What follows the switch; `none` is the use of the freed text.
  unfoldable pub print_value : Bytes → Bytes → Locals → Option (Bytes × Locals)
  print_value path type l = elim l.value [
    | some v ↦ some (row path v type, l)
    | none ↦ elim l.dyn_value [
      | null ↦ some ([], l)
      | live text ↦ some (row path text type, record { value = none; dyn_value = freed })
      | freed ↦ none
    ]
  ]

  -- The switch and what follows it.
  unfoldable pub show_child : Bytes → Value → Locals → Option (Bytes × Locals)
  show_child path v l =
      let (printed, l1) = switch path v l in
      elim (print_value path (type_text v) l1) [
        | none ↦ none
        | some (more, l2) ↦ some (printed ++ more, l2)
      ]

  -- One round of the loop of `_readConfig`, without the recursion: what is printed, and the variables.
  unfoldable pub read_child : Option Bytes → Node → Locals → Option (Bytes × Locals)
  read_child key n l = elim (path_of_child key n.key) [
    | none ↦ none
    | some path ↦ show_child path n.value l
  ]

  -- `_readConfig` on a node, and its loop over the children: the status and the output, `none` for a
  -- fault.
  unfoldable mutual
    pub read_config : Config → Bytes → Option (ℕ × Bytes)
    read_config (config n cs) out =
        read_children n.key cs (record { value = none; dyn_value = null }) exit_success out

    pub read_children : Option Bytes → Children → Locals → ℕ → Bytes → Option (ℕ × Bytes)
    read_children key nil l status out = some (status, out)
    read_children key (cons c ds) l status out = elim (read_child key (node c) l) [
      | none ↦ none
      | some (printed, l') ↦
          let childless = read_children key ds l' status (out ++ printed) in
          let deeper : Option (ℕ × Bytes) = elim (read_config c (out ++ printed)) [
            | none ↦ none
            | some (status', out') ↦ read_children key ds l' status' out'
          ] in
          if has_children c then deeper else childless
    ]

  -- `main` on the arguments behind the name of the program, `usage` being what `_usage` prints.
  -- EXIT_FAILURE is 1.
  unfoldable pub samprobe_main :
      (Bytes → Bool → Option (Status × Option Config)) → Bytes → List Bytes → End
  samprobe_main load_path usage [] = exits 1 usage
  samprobe_main load_path usage (arg ∷ args) = elim (load_path arg false) [
    | none ↦ faults
    | some (status, c) ↦
        let reading : End = elim c [
          | none ↦ exits 1 []
          | some root ↦
              elim (read_config root (row (codes "PATH") (codes "VALUE") (codes "TYPE"))) [
                | none ↦ faults
                | some (result, out) ↦ exits result out
              ]
        ] in
        if is_error status || is_invalid_signature status
        then exits 1 []
        else if is_ok status
        then reading
        else uninitialised
  ]

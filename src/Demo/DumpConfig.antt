-- ===== src/Demo/DumpConfig.antt =====
-- src/demo/dump_config.c: loads one configuration and prints it as JSON or as a tree.
pub mod Arguments
use samconf.Common.{
  ℕ, zero, suc, Bool, true, false, not, ◌&&◌, ◌||◌, List, [], ◌∷◌, ◌++◌, Option, none, some,
  if◌then◌else◌,
}
use samconf.Status.{Status}
use samconf.Text.{Bytes, codes, str_eq}
use samconf.Config.{Config}
use samconf.Json.{Json, JsonC, null, dump}
use samconf.Dump.{Printf, dump_tree}

-- The variables of `main`.
pub record Options : Type 0 where
  pub json_dump : Bool
  pub tree_dump : Bool
  pub enforce_signature : Bool
  pub location : Option Bytes

-- What the loop over the arguments comes to: `exit` with a code, or the options.
pub data Parsed : Type 0 where
  exit : ℕ → Parsed
  parsed : Options → Parsed

abbrev pub is_either : Bytes → Bytes → Bytes → Bool
is_either arg short long = str_eq arg short || str_eq arg long

-- The loop over argv from index i on, `first` being argv[1].
unfoldable pub parse_loop : Bytes → List Bytes → Options → Parsed
parse_loop first [] o = parsed o
parse_loop first (arg ∷ rest) o =
    let json = parse_loop first rest (record o { json_dump = true }) in
    let tree = parse_loop first rest (record o { tree_dump = true }) in
    let enforce = parse_loop first rest (record o { enforce_signature = true }) in
    let located : Parsed = elim o.location [
      | none ↦ parse_loop first rest (record o { location = some first })
      | some l ↦ exit 2
    ] in
    if is_either arg (codes "-h") (codes "--help")
    then exit 0
    else if is_either arg (codes "-j") (codes "--json")
    then json
    else if is_either arg (codes "-t") (codes "--tree")
    then tree
    else if is_either arg (codes "-s") (codes "--enforceSignature")
    then enforce
    else located

abbrev pub defaults : Options
defaults = record {
  json_dump = false;
  tree_dump = false;
  enforce_signature = false;
  location = none;
}

-- The arguments behind the name of the program.
unfoldable pub parse_args : List Bytes → Parsed
parse_args [] = parsed defaults
parse_args (first ∷ rest) = parse_loop first (first ∷ rest) defaults

-- `samconfDumpJsonConfig` on a pointer that may be NULL.
abbrev pub dump_json : JsonC → Option Config → Json
dump_json json_c none = null
dump_json json_c (some c) = dump json_c c

-- The end of the program: the exit code and what it printed, `crashed` where the load crashes.
pub data Run : Type 0 where
  exits : ℕ → Bytes → Run
  crashed : Run

-- The help text of `_printHelp` and `json_object_to_json_string_ext` are arguments.
module _ (json_c : JsonC) (printf : Printf) (json_text : Json → Bytes) where
  -- What is printed of the tree, by the options.
  abbrev pub printed : Bool → Bool → Option Config → Bytes
  printed json tree c =
      (if json then json_text (dump_json json_c c) ++ b'\n' ∷ [] else [])
      ++ (if tree then dump_tree printf c else [])

  -- `main` from the options on; the tree is NULL unless the load stores one.
  unfoldable pub run : (Bytes → Bool → Option (Status × Option Config)) → Options → Run
  run load_path o =
      let json = o.json_dump || not o.tree_dump in
      elim o.location [
        | none ↦ exits 1 []
        | some l ↦ elim (load_path l o.enforce_signature) [
          | none ↦ crashed
          | some (status, c) ↦ exits 0 (printed json o.tree_dump c)
        ]
      ]

  -- `main`
  unfoldable pub dump_config_main :
      (Bytes → Bool → Option (Status × Option Config)) → Bytes → List Bytes → Run
  dump_config_main load_path help args = elim (parse_args args) [
    | parsed o ↦ run load_path o
    | exit code ↦ exits code (elim code [ zero ↦ help | suc n ↦ [] ])
  ]

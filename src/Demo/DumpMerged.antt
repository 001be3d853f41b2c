-- ===== src/Demo/DumpMerged.antt =====
-- src/demo/dump_merged_config.c: loads and merges configurations, and prints them as JSON or as a tree.
pub mod Arguments
use samconf.Common.{
  ℕ, zero, suc, Bool, true, false, not, ◌&&◌, ◌||◌, List, [], ◌∷◌, ◌++◌, Option, none, some,
  if◌then◌else◌,
}
use samconf.Text.{Bytes, codes}
use samconf.Config.{Config}
use samconf.Config.Merge.{Outcome, done, fault, out_of_fuel}
use samconf.Loader.{Location, path}
use samconf.Json.{Json, JsonC}
use samconf.Dump.{Printf}
use samconf.Demo.DumpConfig.{is_either, printed}

-- The variables of `main`; `confDirs` in the order of its elements.
pub record Options : Type 0 where
  pub json_dump : Bool
  pub tree_dump : Bool
  pub enforce_signature : Bool
  pub benchmark : Bool
  pub conf_dirs : List Location

abbrev pub defaults : Options
defaults = record {
  json_dump = false;
  tree_dump = false;
  enforce_signature = false;
  benchmark = false;
  conf_dirs = [];
}

-- The loop over the arguments; `none` is its `exit(0)` behind the help text.
unfoldable pub parse_loop : List Bytes → Options → Option Options
parse_loop [] o = some o
parse_loop (arg ∷ rest) o =
    let json = parse_loop rest (record o { json_dump = true }) in
    let tree = parse_loop rest (record o { tree_dump = true }) in
    let benchmark = parse_loop rest (record o { benchmark = true }) in
    let enforce = parse_loop rest (record o { enforce_signature = true }) in
    let allow = parse_loop rest (record o { enforce_signature = false }) in
    let location = path (some arg) o.enforce_signature in
    let located = parse_loop rest (record o { conf_dirs = o.conf_dirs ++ location ∷ [] }) in
    if is_either arg (codes "-h") (codes "--help")
    then none
    else if is_either arg (codes "-j") (codes "--json")
    then json
    else if is_either arg (codes "-t") (codes "--tree")
    then tree
    else if is_either arg (codes "-b") (codes "--benchmark")
    then benchmark
    else if is_either arg (codes "-s") (codes "--enforceSignature")
    then enforce
    else if is_either arg (codes "-u") (codes "--allowUnsigned")
    then allow
    else located

-- The end of the program: the exit code and what it printed, or the fault of the load.
pub data Run : Type 0 where
  exits : ℕ → Bytes → Run
  crashed : Run
  unfinished : Run

-- The help text of `_printHelp`, the line of the benchmark, which is none if a clock failed, and
-- `json_object_to_json_string_ext` are arguments.
module _ (json_c : JsonC) (printf : Printf) (json_text : Json → Bytes) (elapsed : Option Bytes)
    (load_and_merge : List Location → Option Config → Outcome) where
  -- The line of the benchmark.
  abbrev benchmark_text : Bool → Bytes
  benchmark_text wanted = elim elapsed [ none ↦ [] | some line ↦ if wanted then line else [] ]

  -- `main` from the options on.
  unfoldable pub run : Bytes → Options → Run
  run help o =
      let json = o.json_dump || not o.tree_dump in
      elim o.conf_dirs [
        | [] ↦ exits 1 help
        | l ∷ ls ↦ elim (load_and_merge o.conf_dirs none) [
          | done status conf ↦ exits 0 (
              benchmark_text o.benchmark
              ++ printed json_c printf json_text json o.tree_dump (some conf))
          | fault ↦ crashed
          | out_of_fuel ↦ unfinished
        ]
      ]

  -- `main` on the arguments behind the name of the program.
  unfoldable pub dump_merged_main : Bytes → List Bytes → Run
  dump_merged_main help args = elim (parse_loop args defaults) [
    | none ↦ exits 0 help
    | some o ↦ run help o
  ]

-- ===== src/Tests/Demos.antt =====
-- The command line programs.
use samconf.Common.{◌∷◌, [], List, false, some, none, true, ◌++◌, ◌≡◌, refl, ◌⊎◌, list_eq}
use samconf.Common.Int.{pos}
use samconf.Text.{Bytes, codes}
use samconf.Config.{object, real, integer, cons, nil}
use samconf.Loader.{path}
use samconf.Demo.DumpConfig.{Options, parse_args, parse_loop, parsed}
use samconf.Demo.DumpConfig.Arguments.{parse_args-location}
use samconf.Demo.DumpMerged
use samconf.Demo.DumpMerged.Arguments.{locations, asks_help, parse_loop-locations}
use samconf.Demo.Samprobe.{exit_success, read_config}
use samconf.Demo.Samprobe.Rows.{HasRows, rows, read_config-rows}
use samconf.Demo.Samprobe.Faults.{read_config-faults}
use samconf.Tests.{settings, named_node}

-- dump_config -t a.json
abbrev tree_first : Options
tree_first = record {
  json_dump = false;
  tree_dump = true;
  enforce_signature = false;
  location = some (codes "-t");
}

parses_option : parse_args (codes "-t" ∷ codes "a.json" ∷ []) ≡ parsed tree_first
unfolding parse_args parse_loop list_eq
parses_option = refl

first_argument : (tree_first.location ≡ none) ⊎ (tree_first.location ≡ some (codes "-t"))
first_argument = parse_args-location (codes "-t") (codes "a.json" ∷ []) tree_first parses_option

abbrev merge_args : List Bytes
merge_args =
    codes "a" ∷ codes "-s" ∷ codes "b" ∷ codes "-j" ∷ codes "c" ∷ codes "-u" ∷ codes "d" ∷ []

no_help : asks_help merge_args ≡ false
unfolding list_eq
no_help = refl

located :
    locations [] merge_args
    ≡ path (some (codes "a")) false
      ∷ path (some (codes "b")) true
      ∷ path (some (codes "c")) true
      ∷ path (some (codes "d")) false
      ∷ []
unfolding list_eq
located = refl

locations_listed :
    (o : DumpMerged.Options) × (DumpMerged.parse_loop merge_args DumpMerged.defaults ≡ some o)
    × (o.conf_dirs ≡ locations [] merge_args)
locations_listed = parse_loop-locations merge_args no_help

settings-HasRows : HasRows settings
unfolding HasRows
settings-HasRows =
    ((_, refl), (tt, ((_, refl), (tt, ((_, refl), tt), tt)), (tt, ((_, refl), tt), tt)))

read_config-rows_example :
    read_config (λ bits. []) settings [] ≡ some (exit_success, [] ++ rows settings)
read_config-rows_example = read_config-rows (λ bits. []) settings [] settings-HasRows

real_then_integer :
    read_config
      (λ bits. [])
      (named_node (codes "config") false object (
        cons
          (named_node (codes "a") false (real 0) nil)
          (cons (named_node (codes "b") false (integer (pos 1)) nil) nil)))
      []
    ≡ none
real_then_integer =
    read_config-faults (λ bits. [])
      (record { key = some (codes "config"); is_signed = false; value = object }) (codes "config")
      (codes "a") (codes "b") 0 (pos 1) false false nil nil [] refl

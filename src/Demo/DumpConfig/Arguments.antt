-- ===== src/Demo/DumpConfig/Arguments.antt =====
-- src/demo/dump_config.c: the location that is loaded.
use samconf.Common.{true, List, [], ◌∷◌, none, some, ◌≡◌, ◌⊎◌, refl, inl, arith}
use samconf.Text.{Bytes}
use samconf.Demo.DumpConfig.{Options, parsed, parse_loop, parse_args, defaults}

-- The location is not set, or it is the first argument.
abbrev pub FirstOnly : Bytes → Options → Type 0
FirstOnly first o = (o.location ≡ none) ⊎ (o.location ≡ some first)

parse_loop-FirstOnly :
    (first : Bytes) (args : List Bytes) (o o' : Options)
    → FirstOnly first o
    → parse_loop first args o ≡ parsed o'
    → FirstOnly first o'
unfolding parse_loop
parse_loop-FirstOnly first [] o o' h e = ground arith
parse_loop-FirstOnly first (arg ∷ rest) o o' h e = ground (
  arith,
  parse_loop-FirstOnly first rest (record o { json_dump = true }) o',
  parse_loop-FirstOnly first rest (record o { tree_dump = true }) o',
  parse_loop-FirstOnly first rest (record o { enforce_signature = true }) o',
  parse_loop-FirstOnly first rest (record o { location = some first }) o',
)

-- Whatever the arguments are, the location that the program loads is its first argument, or none: if an
-- option stands before the location, the option is what is loaded.
pub parse_args-location :
    (first : Bytes) (rest : List Bytes) (o : Options)
    → parse_args (first ∷ rest) ≡ parsed o
    → (o.location ≡ none) ⊎ (o.location ≡ some first)
unfolding parse_args
parse_args-location first rest o e =
    parse_loop-FirstOnly first (first ∷ rest) defaults o (inl refl) e

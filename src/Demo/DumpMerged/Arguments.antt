-- ===== src/Demo/DumpMerged/Arguments.antt =====
-- src/demo/dump_merged_config.c: the locations that are loaded.
use samconf.Common.{
  Bool, true, false, ◌||◌, List, [], ◌∷◌, ◌++◌, Option, none, some, ◌≡◌, refl, ◌∙◌, inl, inr, ◌⊎◌,
  arith, Bool-cases, if◌then◌else◌, append-nil, append_assoc, sym, list_eq_to, list_eq,
}
use samconf.Text.{Bytes, codes, str_eq}
use samconf.Loader.{Location, path}
use samconf.Demo.DumpConfig.{is_either}
use samconf.Demo.DumpMerged.{Options, parse_loop, defaults}

-- Whether an argument is one of the options that neither help nor locate.
abbrev pub is_switch : Bytes → Bool
is_switch arg =
    is_either arg (codes "-j") (codes "--json")
    || is_either arg (codes "-t") (codes "--tree")
    || is_either arg (codes "-b") (codes "--benchmark")

abbrev pub enforces : Bytes → Bool
enforces arg = is_either arg (codes "-s") (codes "--enforceSignature")

abbrev pub allows : Bytes → Bool
allows arg = is_either arg (codes "-u") (codes "--allowUnsigned")

-- Whether some argument asks for the help text.
abbrev pub asks_help : List Bytes → Bool
asks_help [] = false
asks_help (arg ∷ rest) = is_either arg (codes "-h") (codes "--help") || asks_help rest

-- Whether the last of the arguments -s and -u is -s, read from the last argument backwards.
abbrev pub choice : Bool → List Bytes → Bool
choice otherwise [] = otherwise
choice otherwise (arg ∷ before) =
    if enforces arg then true else if allows arg then false else choice otherwise before

-- The locations among the arguments, behind those that were read before, the latest of them first.
abbrev pub locations : List Bytes → List Bytes → List Location
locations before [] = []
locations before (arg ∷ rest) =
    let below = locations (arg ∷ before) rest in
    if is_switch arg || (enforces arg || allows arg)
    then below
    else path (some arg) (choice false before) ∷ below

-- What the loop collects.
abbrev collected : Option Options → Option (List Location)
collected none = none
collected (some o) = some o.conf_dirs

-- Such an option neither enforces nor allows.
is_either_to :
    (arg short long : Bytes) → is_either arg short long ≡ true → (arg ≡ short) ⊎ (arg ≡ long)
is_either_to arg short long h = elim (Bool-cases (str_eq arg short)) [
  | inl e ↦ inl (list_eq_to arg short e)
  | inr e ↦ inr (list_eq_to arg long (ground arith))
]

abbrev Neutral : Bytes → Type 0
Neutral arg = (enforces arg ≡ false) × (allows arg ≡ false)

either-Neutral :
    (arg short long : Bytes)
    → is_either arg short long ≡ true
    → Neutral short
    → Neutral long
    → Neutral arg
either-Neutral arg short long h s l = elim (is_either_to arg short long h) [
  | inl e ↦ rw e s
  | inr e ↦ rw e l
]

switch-Neutral : (arg : Bytes) → is_switch arg ≡ true → Neutral arg
unfolding list_eq
switch-Neutral arg h = elim (Bool-cases (is_either arg (codes "-j") (codes "--json"))) [
  | inl j ↦ either-Neutral arg _ _ j (refl, refl) (refl, refl)
  | inr j ↦ elim (Bool-cases (is_either arg (codes "-t") (codes "--tree"))) [
    | inl t ↦ either-Neutral arg _ _ t (refl, refl) (refl, refl)
    | inr t ↦
        either-Neutral arg (codes "-b") (codes "--benchmark") (ground arith) (refl, refl)
          (refl, refl)
  ]
]

-- What the loop comes to behind an argument, given what it comes to from there on.
module _ (arg : Bytes) (rest before : List Bytes) (o : Options)
    (next : (o' : Options)
      → o'.enforce_signature ≡ choice false (arg ∷ before)
      → collected (parse_loop rest o') ≡ some (o'.conf_dirs ++ locations (arg ∷ before) rest)) where
  abbrev Goal : Type 0
  Goal = collected (parse_loop (arg ∷ rest) o) ≡ some (o.conf_dirs ++ locations before (arg ∷ rest))

  switched :
      is_either arg (codes "-h") (codes "--help") ≡ false
      → o.enforce_signature ≡ choice false before
      → is_switch arg ≡ true
      → Goal
  unfolding parse_loop
  switched h e s =
      let (n1, n2) = switch-Neutral arg s in
      let e' : o.enforce_signature ≡ choice false (arg ∷ before) = rw (n1, n2) e in
      elim (Bool-cases (is_either arg (codes "-j") (codes "--json"))) [
        | inl j ↦ rw (h, s, j) (next (record o { json_dump = true }) e')
        | inr j ↦ elim (Bool-cases (is_either arg (codes "-t") (codes "--tree"))) [
          | inl t ↦ rw (h, s, j, t) (next (record o { tree_dump = true }) e')
          | inr t ↦
              let b : is_either arg (codes "-b") (codes "--benchmark") ≡ true = ground arith in
              rw (h, s, j, t, b) (next (record o { benchmark = true }) e')
        ]
      ]

  unswitched :
      is_either arg (codes "-h") (codes "--help") ≡ false
      → o.enforce_signature ≡ choice false before
      → is_switch arg ≡ false
      → Goal
  unfolding parse_loop
  unswitched h e s =
      let j : is_either arg (codes "-j") (codes "--json") ≡ false = ground arith in
      let t : is_either arg (codes "-t") (codes "--tree") ≡ false = ground arith in
      let b : is_either arg (codes "-b") (codes "--benchmark") ≡ false = ground arith in
      elim (Bool-cases (enforces arg)) [
        | inl on ↦ rw (h, j, t, b, on) (next (record o { enforce_signature = true }) (rw on refl))
        | inr not_on ↦ elim (Bool-cases (allows arg)) [
          | inl off ↦
              rw (h, j, t, b, not_on, off)
                (next (record o { enforce_signature = false }) (rw (not_on, off) refl))
          | inr not_off ↦
              rw (h, j, t, b, not_on, not_off, sym e)
                (next
                    (record o {
                      conf_dirs = o.conf_dirs ++ path (some arg) o.enforce_signature ∷ [];
                    })
                    (rw (not_on, not_off) e)
                  ∙ simp append_assoc)
        ]
      ]

collected_to :
    (r : Option Options) (ls : List Location)
    → collected r ≡ some ls
    → (o : Options) × (r ≡ some o) × (o.conf_dirs ≡ ls)
collected_to none ls e = ground arith
collected_to (some o) ls e = (o, refl, ground arith)

parse_loop-collected :
    (args before : List Bytes) (o : Options)
    → asks_help args ≡ false
    → o.enforce_signature ≡ choice false before
    → collected (parse_loop args o) ≡ some (o.conf_dirs ++ locations before args)
unfolding parse_loop
parse_loop-collected [] before o h e = rw append-nil
parse_loop-collected (arg ∷ rest) before o h e =
    let h1 : is_either arg (codes "-h") (codes "--help") ≡ false = ground arith in
    let h2 : asks_help rest ≡ false = ground arith in
    let next = λ (o' : Options). parse_loop-collected rest (arg ∷ before) o' h2 in
    elim (Bool-cases (is_switch arg)) [
      | inl s ↦ switched arg rest before o next h1 e s
      | inr s ↦ unswitched arg rest before o next h1 e s
    ]

-- Where no argument asks for the help text, the loop ends with options, whose locations are the
-- arguments that are none of the options, in their order, each with enforced signatures exactly if -s
-- or --enforceSignature is the last of the options -s, -u and their long forms in front of it.
pub parse_loop-locations :
    (args : List Bytes)
    → asks_help args ≡ false
    → (o : Options) × (parse_loop args defaults ≡ some o) × (o.conf_dirs ≡ locations [] args)
parse_loop-locations args h = collected_to _ _ (parse_loop-collected args [] defaults h refl)

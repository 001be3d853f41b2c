-- ===== src/Demo/Samprobe/Rows.antt =====
-- src/demo/samprobe.c: the rows that are printed of a tree.
use samconf.Common.{
  ℕ, true, false, [], ◌∷◌, ◌++◌, Option, none, some, ◌≡◌, refl, ap, ◌∙◌, append-nil, append_assoc,
  if◌then◌else◌, inl, inr, Bool-cases,
}
use samconf.Text.{Bytes, codes, slash, str_eq}
use samconf.Config.{
  Value, no_value, string, integer, real, boolean, array, object, Node, Config, config, Children,
  nil, cons, node, has_children,
}
use samconf.Dump.{signed_decimal}
use samconf.Demo.Samprobe.{
  Locals, null, exit_success, convert_to_path, path_of_child, row, type_text, switch, print_value,
  show_child, read_child, read_config, read_children,
}

-- A value that is no real number and no NULL string.
abbrev pub IsPrintable : Value → Type 0
IsPrintable (real r) = ⊥
IsPrintable (string none) = ⊥
IsPrintable _ = Unit

-- The text of such a value.
abbrev pub value_text : Value → Bytes
value_text (string (some s)) = s
value_text (integer i) = signed_decimal i
value_text (boolean b) = if b then codes "TRUE" else codes "FALSE"
value_text _ = codes "None"

-- Every node of the tree has a key, and every one below the root a value as above.
unfoldable mutual
  pub HasRows : Config → Type 0
  HasRows (config n cs) = ((k : Bytes) × (n.key ≡ some k)) × HasRowsBelow cs

  pub HasRowsBelow : Children → Type 0
  HasRowsBelow nil = Unit
  HasRowsBelow (cons c cs) = IsPrintable (node c).value × HasRows c × HasRowsBelow cs

abbrev pub or_empty : Option Bytes → Bytes
or_empty none = []
or_empty (some s) = s

-- The row of a child below a node with a key.
abbrev pub row_of : Option Bytes → Node → Bytes
row_of key n = row (or_empty (path_of_child key n.key)) (value_text n.value) (type_text n.value)

-- The rows below a node: for each child its own, and then those below it.
unfoldable mutual
  pub rows : Config → Bytes
  rows (config n cs) = rows_below n.key cs

  pub rows_below : Option Bytes → Children → Bytes
  rows_below key nil = []
  rows_below key (cons c cs) = row_of key (node c) ++ rows c ++ rows_below key cs

-- The variables, while no real number was met.
abbrev locals : Option Bytes → Locals
locals v = record { value = v; dyn_value = null }

-- `value` behind a child of a value, where it was v.
abbrev value_behind : Value → Option Bytes → Option Bytes
value_behind (string s) v = s
value_behind (integer i) v = none
value_behind (real r) v = v
value_behind (boolean b) v = some (if b then codes "TRUE" else codes "FALSE")
value_behind _ v = some (codes "None")

pub path_of_child-some :
    (key k : Bytes) → (path : Bytes) × (path_of_child (some key) (some k) ≡ some path)
unfolding path_of_child convert_to_path
path_of_child-some key k = elim (Bool-cases (str_eq key (codes "config"))) [
  | inl at_root ↦ (slash ∷ k, rw at_root)
  | inr below ↦ (key ++ slash ∷ k, rw below)
]

module _ (real_text : ℕ → Bytes) where
  show_child-row :
      (path : Bytes) (v : Value) (w : Option Bytes)
      → IsPrintable v
      → show_child real_text path v (locals w)
        ≡ some (row path (value_text v) (type_text v), locals (value_behind v w))
  unfolding show_child switch print_value
  show_child-row path (string none) w h = absurd h
  show_child-row path (string (some s)) w h = refl
  show_child-row path (integer i) w h = rw append-nil
  show_child-row path (real r) w h = absurd h
  show_child-row path (boolean b) w h = refl
  show_child-row path array w h = refl
  show_child-row path object w h = refl
  show_child-row path no_value w h = refl

  read_child-row :
      (key k : Bytes) (n : Node) (w : Option Bytes)
      → n.key ≡ some k
      → IsPrintable n.value
      → read_child real_text (some key) n (locals w)
        ≡ some (row_of (some key) n, locals (value_behind n.value w))
  unfolding read_child
  read_child-row key k n w h p =
      let (path, at) = path_of_child-some key k in
      let at' : path_of_child (some key) n.key ≡ some path = ap (path_of_child (some key)) h ∙ at in
      rw (at', read_child) (show_child-row path n.value w p)

  rows_none : (c : Config) → has_children c ≡ false → rows c ≡ []
  unfolding rows
  rows_none (config n nil) h = refl
  rows_none (config n (cons c cs)) h = cc

  HasRows-key : (c : Config) → HasRows c → (k : Bytes) × ((node c).key ≡ some k)
  unfolding HasRows
  HasRows-key (config n cs) (e, h) = e

  -- A round of the loop at a child without children, and at one with children.
  module _ (key : Option Bytes) (c : Config) (cs : Children) (l : Locals) (out : Bytes) where
    -- The round behind what `read_child` answers.
    abbrev pub rest : Option (Bytes × Locals) → Option (ℕ × Bytes)
    rest none = none
    rest (some (line, l')) =
        if has_children c
        then elim (read_config real_text c (out ++ line)) [
          | none ↦ none
          | some (status, more) ↦ read_children real_text key cs l' status more
        ]
        else read_children real_text key cs l' exit_success (out ++ line)

    pub round_childless :
        {line : Bytes} {l' : Locals}
        → read_child real_text key (node c) l ≡ some (line, l')
        → has_children c ≡ false
        → read_children real_text key (cons c cs) l exit_success out
          ≡ read_children real_text key cs l' exit_success (out ++ line)
    unfolding read_config
    round_childless first childless = ap rest first ∙ rw childless refl

    pub round_faults :
        read_child real_text key (node c) l ≡ none
        → read_children real_text key (cons c cs) l exit_success out ≡ none
    unfolding read_config
    round_faults first = ap rest first

    round_deeper :
        {line more : Bytes} {l' : Locals} {status : ℕ}
        → read_child real_text key (node c) l ≡ some (line, l')
        → has_children c ≡ true
        → read_config real_text c (out ++ line) ≡ some (status, more)
        → read_children real_text key (cons c cs) l exit_success out
          ≡ read_children real_text key cs l' status more
    unfolding read_config
    round_deeper first goes_on deeper = ap rest first ∙ rw (goes_on, deeper) refl

  mutual
    unfolding read_config rows HasRows

    config-rows :
        (c : Config) (out : Bytes)
        → HasRows c
        → read_config real_text c out ≡ some (exit_success, out ++ rows c)
    config-rows (config n cs) out ((k, e), h) = rw e (children-rows k cs none out h)

    children-rows :
        (key : Bytes) (cs : Children) (w : Option Bytes) (out : Bytes)
        → HasRowsBelow cs
        → read_children real_text (some key) cs (locals w) exit_success out
          ≡ some (exit_success, out ++ rows_below (some key) cs)
    children-rows key nil w out h = rw append-nil
    children-rows key (cons c cs) w out (p, hc, h) =
        let (k, e) = HasRows-key c hc in
        let line : Bytes = row_of (some key) (node c) in
        let first = read_child-row key k (node c) w e p in
        let deeper = config-rows c (out ++ line) hc in
        let next = value_behind (node c).value w in
        elim (Bool-cases (has_children c)) [
          | inl more ↦
              round_deeper (some key) c cs (locals w) out first more deeper
              ∙ (children-rows key cs next ((out ++ line) ++ rows c) h ∙ simp append_assoc)
          | inr childless ↦
              round_childless (some key) c cs (locals w) out first childless
              ∙ (children-rows key cs next (out ++ line) h
                  ∙ rw (rows_none c childless) (simp append_assoc))
        ]

-- What `_readConfig` prints of a tree, where every node has a key and every node below the root a value
-- that is no real number and no NULL string: one row for each node below the root, in the order of the
-- tree, with its path below its parent's key, its value and its type, and it answers EXIT_SUCCESS.
pub read_config-rows :
    (real_text : ℕ → Bytes) (c : Config) (out : Bytes)
    → HasRows c
    → read_config real_text c out ≡ some (exit_success, out ++ rows c)
read_config-rows real_text c out h = config-rows real_text c out h

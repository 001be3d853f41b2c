-- ===== src/Config.antt =====
-- The configuration tree of src/samconf/interface/samconf/samconf_types.h, and the operations of
-- src/samconf/private/samconf.c on one node of it. A `samconfConfig_t *` that may be NULL is an
-- `Option`; a pointer into a tree is the position of the node in it.
pub mod Get
pub mod Tree
pub mod Insert
pub mod Merge
pub mod FromString
pub mod Delete
use samconf.Common.{ℕ, zero, suc, Bool, true, false, List, [], ◌∷◌, Option, none, some}
use samconf.Common.Int.{ℤ}
use samconf.Status.{Status, ok, error}
use samconf.Text.{Bytes}

-- `type` together with the member of the union `value` that it selects; the two change together.
-- A string is `none` for the NULL that `memset` leaves there; a `double` is its 64 bits.
pub data Value : Type 0 where
  no_value : Value
  string : Option Bytes → Value
  integer : ℤ → Value
  real : ℕ → Value
  boolean : Bool → Value
  array : Value
  object : Value

-- The members of samconfConfig_t but for the links. `key` is `none` for NULL.
pub record Node : Type 0 where
  pub key : Option Bytes
  pub is_signed : Bool
  pub value : Value

-- samconfConfig_t with its children. `children` is NULL exactly when there is none, as
-- `samconfConfigNew` and `samconfConfigAdd` keep it; `parent` is the node one position up.
mutual
  pub data Config : Type 0 where
    config : Node → Children → Config

  pub data Children : Type 0 where
    nil : Children
    cons : Config → Children → Children

-- A pointer to a node of a tree: the child indices on the way to it from the root.
abbrev pub Position : Type 0
Position = List ℕ

abbrev pub node : Config → Node
node (config n cs) = n

abbrev pub children : Config → Children
children (config n cs) = cs

-- `childCount`
abbrev pub child_count : Children → ℕ
child_count nil = 0
child_count (cons c cs) = suc (child_count cs)

abbrev pub has_children : Config → Bool
has_children (config n nil) = false
has_children (config n (cons c cs)) = true

abbrev pub append_child : Children → Config → Children
append_child nil child = cons child nil
append_child (cons c cs) child = cons c (append_child cs child)

abbrev pub with_node : (Node → Node) → Config → Config
with_node f (config n cs) = config (f n) cs

abbrev pub with_value : Value → Config → Config
with_value v = with_node (λ n. record n { value = v })

abbrev pub child_at : Children → ℕ → Option Config
child_at nil i = none
child_at (cons c cs) zero = some c
child_at (cons c cs) (suc i) = child_at cs i

-- The node at a position.
unfoldable pub subtree : Config → Position → Option Config
subtree c [] = some c
subtree c (i ∷ p) = elim (child_at (children c) i) [ none ↦ none | some d ↦ subtree d p ]

abbrev pub modify_child : Children → ℕ → (Config → Config) → Children
modify_child nil i f = nil
modify_child (cons c cs) zero f = cons (f c) cs
modify_child (cons c cs) (suc i) f = cons c (modify_child cs i f)

-- A write through a pointer to a node of the tree.
unfoldable pub modify_at : Config → Position → (Config → Config) → Config
modify_at c [] f = f c
modify_at (config n cs) (i ∷ p) f = config n (modify_child cs i (λ d. modify_at d p f))

-- What a zeroed samconfConfig_t is (`samconfConfigInit`).
unfoldable pub config_init : Option Config → Status × Option Config
config_init none = (error, none)
config_init (some c) =
    (ok, some (config (record { key = none; is_signed = false; value = no_value }) nil))

-- `samconfConfigNew` leaves a zeroed node in the memory it is granted.
abbrev pub config_new : Config
config_new = config (record { key = none; is_signed = false; value = no_value }) nil

-- A node linked as the last child of another.
abbrev pub link : Config → Config → Config
link child (config n cs) = config n (append_child cs child)

-- `samconfConfigAdd`: the parent with the child linked behind its other children.
unfoldable pub config_add : Option Config → Option Config → Status × Option Config
config_add none child = (error, none)
config_add (some parent) none = (error, some parent)
config_add (some parent) (some child) = (ok, some (link child parent))

-- `samconfConfigSetInt`, `samconfConfigSetBool`, `samconfConfigSetReal` and `samconfConfigSetString`.
unfoldable pub set_int : Option Config → ℤ → Status × Option Config
set_int none v = (error, none)
set_int (some c) v = (ok, some (with_value (integer v) c))

unfoldable pub set_bool : Option Config → Bool → Status × Option Config
set_bool none v = (error, none)
set_bool (some c) v = (ok, some (with_value (boolean v) c))

unfoldable pub set_real : Option Config → ℕ → Status × Option Config
set_real none v = (error, none)
set_real (some c) v = (ok, some (with_value (real v) c))

unfoldable pub set_string : Option Config → Option Bytes → Status × Option Config
set_string none v = (error, none)
set_string (some c) none = (error, some c)
set_string (some c) (some s) = (ok, some (with_value (string (some s)) c))

-- The switch of `samconfCopyConfigValue`.
copy_by_type : Value → Config → Status × Option Config
unfolding set_int set_bool set_real set_string
copy_by_type (integer i) to = set_int (some to) i
copy_by_type (boolean b) to = set_bool (some to) b
copy_by_type (real r) to = set_real (some to) r
copy_by_type no_value to = (ok, some to)
copy_by_type array to = (ok, some to)
copy_by_type object to = (ok, some to)
copy_by_type (string s) to = set_string (some to) s

-- `samconfCopyConfigValue`
unfoldable pub copy_value : Option Config → Option Config → Status × Option Config
unfolding copy_by_type
copy_value none to = (error, to)
copy_value (some from) none = (error, none)
copy_value (some from) (some to) = copy_by_type (node from).value to

-- The value of a node whose `type` is set and whose union is still zeroed.
abbrev pub zero_of_type : Value → Value
zero_of_type (string s) = string none
zero_of_type v = v

-- `samconfConfigCopyConfig`. The outer `none` is the `strdup` of a NULL key.
unfoldable pub copy_config : Option Config → Option Config → Option (Status × Option Config)
unfolding copy_value
copy_config none to = some (error, to)
copy_config (some from) none = some (error, none)
copy_config (some from) (some (config n cs)) = elim (node from).key [
  | none ↦ none
  | some key ↦ some (
      copy_value (some from) (
        some (
          config
            (record {
              key = some key;
              is_signed = (node from).is_signed;
              value = zero_of_type (node from).value;
            })
            cs)))
]

-- ===== src/Config/Delete.antt =====
-- samconf.c: `samconfConfigDelete` and `samconfConfigDeleteMembers`, as the blocks of memory that they free.
pub mod Exact
use samconf.Common.{
  ℕ, ◌+◌, Bool, true, false, List, [], ◌∷◌, ◌++◌, map, Option, none, some, ◌==◌, if◌then◌else◌,
}
use samconf.Status.{Status, ok, error, is_error}
use samconf.Text.{Bytes}
use samconf.Config.{
  Value, string, Node, Config, config, Children, nil, cons, Position, has_children,
}

-- The blocks that a node owns: `key`, `value.string`, `children` and the node itself.
pub data Kind : Type 0 where
  key_block : Kind
  string_block : Kind
  children_block : Kind
  node_block : Kind

-- A block of the node at a position.
abbrev pub Block : Type 0
Block = Kind × Position

-- The block as it is seen from one node up, of which the node is the child i.
abbrev pub below : ℕ → Block → Block
below i (kind, p) = (kind, i ∷ p)

-- `free(config->key)` and `free(config->value.string)`, of which NULL frees nothing.
abbrev pub free_key : Option Bytes → List Block
free_key none = []
free_key (some k) = (key_block, []) ∷ []

abbrev pub free_string : Value → List Block
free_string (string (some s)) = (string_block, []) ∷ []
free_string _ = []

abbrev pub free_children : Children → List Block
free_children nil = []
free_children (cons c cs) = (children_block, []) ∷ []

-- What `samconfConfigDeleteMembers` does around its loop, of which the status and the frees are given.
abbrev pub members : Node → Children → Status × List Block → Status × List Block
members n cs (status, freed) =
    (status, free_key n.key ++ free_string n.value ++ freed ++ free_children cs)

-- The status and what is freed, in order; the loop is over the children from index i on.
unfoldable mutual
  pub delete : Config → Status × List Block
  delete (config n cs) =
      let (status, freed) = members n cs (delete_children cs 0 ok) in
      (status, freed ++ (node_block, []) ∷ [])

  pub delete_children : Children → ℕ → Status → Status × List Block
  delete_children nil i status = (status, [])
  delete_children (cons c cs) i status =
      let (one, freed) = delete c in
      let (status', more) = delete_children cs (i + 1) (if is_error one then error else status) in
      (status', map (below i) freed ++ more)

-- `samconfConfigDeleteMembers`
unfoldable pub delete_members : Option Config → Status × List Block
delete_members none = (error, [])
delete_members (some (config n cs)) = members n cs (delete_children cs 0 ok)

-- `samconfConfigDelete`; `free(NULL)` frees nothing.
unfoldable pub config_delete : Option Config → Status × List Block
config_delete none = (error, [])
config_delete (some c) = delete c

-- ===== src/Config/Delete/Exact.antt =====
-- samconf.c: how often `samconfConfigDelete` frees each block.
use samconf.Common.{
  ℕ, zero, suc, ◌+◌, ◌<◌, Bool, true, false, ◌&&◌, List, [], ◌∷◌, ◌++◌, map, Option, none, some,
  ◌==◌, list_eq, if◌then◌else◌, ◌≡◌, refl, ◌∙◌, arith,
}
use samconf.Status.{Status, ok, error, is_error}
use samconf.Text.{Bytes}
use samconf.Config.{
  Value, string, Node, Config, config, Children, nil, cons, Position, node, children, child_at,
  subtree,
}
use samconf.Config.Delete.{
  Kind, key_block, string_block, children_block, node_block, Block, below, free_key, free_string,
  free_children, delete, delete_children, config_delete,
}

abbrev pub same_kind : Kind → Kind → Bool
same_kind key_block key_block = true
same_kind string_block string_block = true
same_kind children_block children_block = true
same_kind node_block node_block = true
same_kind _ _ = false

abbrev pub same_block : Block → Block → Bool
same_block (k, p) (j, q) = same_kind k j && list_eq p q

-- How often a block is in a list.
unfoldable pub occurs : Block → List Block → ℕ
occurs b [] = 0
occurs b (c ∷ bs) = (if same_block b c then 1 else 0) + occurs b bs

abbrev pub key_count : Option Bytes → ℕ
key_count none = 0
key_count (some k) = 1

abbrev pub string_count : Value → ℕ
string_count (string (some s)) = 1
string_count _ = 0

abbrev pub array_count : Children → ℕ
array_count nil = 0
array_count (cons c cs) = 1

-- How many blocks of a kind a node owns: one or none.
abbrev pub owns : Kind → Config → ℕ
owns key_block c = key_count (node c).key
owns string_block c = string_count (node c).value
owns children_block c = array_count (children c)
owns node_block c = 1

abbrev pub owns_at : Kind → Option Config → ℕ
owns_at kind none = 0
owns_at kind (some c) = owns kind c

occurs_nil : (b : Block) → occurs b [] ≡ 0
unfolding occurs
occurs_nil b = refl

occurs-append : (b : Block) (xs ys : List Block) → occurs b (xs ++ ys) ≡ occurs b xs + occurs b ys
unfolding occurs
occurs-append b [] ys = omega arith
occurs-append b (x ∷ xs) ys = omega (arith, occurs-append b xs ys)

occurs-below_nil : (k : Kind) (i : ℕ) (xs : List Block) → occurs (k, []) (map (below i) xs) ≡ 0
unfolding occurs list_eq
occurs-below_nil k i [] = refl
occurs-below_nil k i ((j, q) ∷ xs) = ground (arith, occurs-below_nil k i xs)

occurs-below :
    (k : Kind) (p : Position) (i j : ℕ) (xs : List Block)
    → occurs (k, j ∷ p) (map (below i) xs) ≡ (if j == i then occurs (k, p) xs else 0)
unfolding occurs list_eq
occurs-below k p i j [] = ground arith
occurs-below k p i j ((l, q) ∷ xs) = ground (arith, occurs-below k p i j xs)

-- The node below the child at an index.
abbrev below_child : Children → ℕ → Position → Option Config
below_child cs m p = elim (child_at cs m) [ none ↦ none | some d ↦ subtree d p ]

-- The blocks of a node are at no position below it.
key-deep : (k : Kind) (j : ℕ) (p : Position) (o : Option Bytes) → occurs (k, j ∷ p) (free_key o) ≡ 0
unfolding occurs list_eq
key-deep k j p none = refl
key-deep k j p (some x) = ground arith

string-deep : (k : Kind) (j : ℕ) (p : Position) (v : Value) → occurs (k, j ∷ p) (free_string v) ≡ 0
unfolding occurs list_eq
string-deep k j p (string (some s)) = ground arith
string-deep k j p _ = refl

children-deep :
    (k : Kind) (j : ℕ) (p : Position) (cs : Children) → occurs (k, j ∷ p) (free_children cs) ≡ 0
unfolding occurs list_eq
children-deep k j p nil = refl
children-deep k j p (cons c cs) = ground arith

node-deep : (k : Kind) (j : ℕ) (p : Position) → occurs (k, j ∷ p) ((node_block, []) ∷ []) ≡ 0
unfolding occurs list_eq
node-deep k j p = ground arith

key_here :
    (k : Kind) (o : Option Bytes)
    → occurs (k, []) (free_key o) ≡ (if same_kind k key_block then key_count o else 0)
unfolding occurs list_eq
key_here k none = ground arith
key_here k (some x) = ground arith

string_here :
    (k : Kind) (v : Value)
    → occurs (k, []) (free_string v) ≡ (if same_kind k string_block then string_count v else 0)
unfolding occurs list_eq
string_here k (string (some s)) = ground arith
string_here k _ = ground arith

children_here :
    (k : Kind) (cs : Children)
    → occurs (k, []) (free_children cs) ≡ (if same_kind k children_block then array_count cs else 0)
unfolding occurs list_eq
children_here k nil = ground arith
children_here k (cons c cs) = ground arith

node_here :
    (k : Kind) → occurs (k, []) ((node_block, []) ∷ []) ≡ (if same_kind k node_block then 1 else 0)
unfolding occurs list_eq
node_here k = ground arith

-- The blocks that are freed of the node itself are those that it owns.
own-owns :
    (k : Kind) (n : Node) (cs : Children)
    → occurs (k, []) (free_key n.key)
        + occurs (k, []) (free_string n.value)
        + occurs (k, []) (free_children cs)
        + occurs (k, []) ((node_block, []) ∷ [])
      ≡ owns k (config n cs)
own-owns key_block n cs = rw (key_here, string_here, children_here, node_here) (omega arith)
own-owns string_block n cs = rw (key_here, string_here, children_here, node_here) (omega arith)
own-owns children_block n cs = rw (key_here, string_here, children_here, node_here) (omega arith)
own-owns node_block n cs = rw (key_here, string_here, children_here, node_here) (omega arith)

-- What is freed at a node and below it, by the parts of the list.
parts :
    (b : Block) (n : Node) (cs : Children) (xs : List Block)
    → occurs b
        ((free_key n.key ++ free_string n.value ++ xs ++ free_children cs) ++ (node_block, []) ∷ [])
      ≡ occurs b xs
        + (occurs b (free_key n.key)
            + occurs b (free_string n.value)
            + occurs b (free_children cs)
            + occurs b ((node_block, []) ∷ []))
parts b n cs xs = simp occurs-append (omega arith)

-- Where the children from index i on stand.
children-before :
    (k : Kind) (cs : Children) (i j : ℕ) (p : Position) (st : Status)
    → j < i
    → occurs (k, j ∷ p) (delete_children cs i st).1 ≡ 0
unfolding delete_children
children-before k nil i j p st h = unfold occurs in refl
children-before k (cons c cs) i j p st h =
    rw (occurs-append, occurs-below)
      (ground
        (arith, children-before k cs (i + 1) j p (if is_error (delete c).0 then error else st)))

children_nil :
    (k : Kind) (cs : Children) (i : ℕ) (st : Status)
    → occurs (k, []) (delete_children cs i st).1 ≡ 0
unfolding delete_children
children_nil k nil i st = unfold occurs in refl
children_nil k (cons c cs) i st =
    rw (occurs-append, occurs-below_nil)
      (omega (arith, children_nil k cs (i + 1) (if is_error (delete c).0 then error else st)))

mutual
  unfolding delete_children subtree

  delete-owns :
      (c : Config) (k : Kind) (p : Position) → occurs (k, p) (delete c).1 ≡ owns_at k (subtree c p)
  delete-owns (config n cs) k [] =
      parts (k, []) n cs (delete_children cs 0 ok).1
      ∙ omega (arith, own-owns k n cs, children_nil k cs 0 ok)
  delete-owns (config n cs) k (j ∷ p) =
      parts (k, j ∷ p) n cs (delete_children cs 0 ok).1
      ∙ omega (
        arith,
        key-deep k j p n.key,
        string-deep k j p n.value,
        children-deep k j p cs,
        node-deep k j p,
        children-owns cs k 0 j j p ok (omega arith),
      )

  children-owns :
      (cs : Children) (k : Kind) (i m j : ℕ) (p : Position) (st : Status)
      → j ≡ i + m
      → occurs (k, j ∷ p) (delete_children cs i st).1 ≡ owns_at k (below_child cs m p)
  children-owns nil k i m j p st e = occurs_nil (k, j ∷ p)
  children-owns (cons c cs) k i zero j p st e =
      rw (occurs-append, occurs-below)
        (ground (
          arith,
          delete-owns c k p,
          children-before k cs (i + 1) j p (if is_error (delete c).0 then error else st),
        ))
  children-owns (cons c cs) k i (suc m) j p st e =
      rw (occurs-append, occurs-below)
        (ground
          (arith, children-owns cs k (i + 1) m j p (if is_error (delete c).0 then error else st)))

mutual
  unfolding delete_children

  delete-ok : (c : Config) → (delete c).0 ≡ ok
  delete-ok (config n cs) = delete_children-ok cs 0 ok refl

  delete_children-ok :
      (cs : Children) (i : ℕ) (st : Status) → st ≡ ok → (delete_children cs i st).0 ≡ ok
  delete_children-ok nil i st h = h
  delete_children-ok (cons c cs) i st h =
      delete_children-ok cs (i + 1) (if is_error (delete c).0 then error else st)
        (rw (delete-ok c) h)

-- Deleting a tree answers OK and frees each block that a node of it owns exactly once, the node itself,
-- its key, its string and its array of children, and nothing else: no block is freed twice, none is
-- left, and none is freed for a position at which the tree has no node.
pub config_delete-exact :
    (c : Config) (k : Kind) (p : Position)
    → ((config_delete (some c)).0 ≡ ok)
      × (occurs (k, p) (config_delete (some c)).1 ≡ owns_at k (subtree c p))
unfolding config_delete
config_delete-exact c k p = (delete-ok c, delete-owns c k p)

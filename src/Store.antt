-- ===== src/Store.antt =====
-- The memory behind the tree of samconf_types.h: nodes at addresses, linked by `parent` and `children`,
-- with `samconfConfigAdd`, `samconfConfigNext`, `samconfConfigGet` and `samconfConfigDelete` of
-- src/samconf/private/samconf.c and `samconfPathGetPath` of path_helper.c on pointers.
pub mod Laid
pub mod Frame
pub mod Distinct
pub mod Add
pub mod Upward
pub mod Positions
pub mod Onward
pub mod Freed
pub mod Lookup
pub mod Insert
pub mod Members
pub mod Copy
use samconf.Common.{
  ℕ, zero, suc, Bool, true, false, List, [], ◌∷◌, ◌++◌, Option, none, some, ◌==◌, if◌then◌else◌,
  is_empty,
}
use samconf.Status.{Status, ok, error, not_found, is_error, is_ok}
use samconf.Text.{Bytes, str_eq}
use samconf.Path.{add_to_new_path, root_key, create_array}
use samconf.Config.{Node}

abbrev pub Addr : Type 0
Addr = ℕ

-- samconfConfig_t with its links. `childCount` is the length of `children`.
pub record Cell : Type 0 where
  pub node : Node
  pub parent : Option Addr
  pub children : List Addr

-- What is at an address; `none` is memory that holds no node.
abbrev pub Store : Type 0
Store = Addr → Option Cell

abbrev pub write : Addr → Cell → Store → Store
write a cell s b = if b == a then some cell else s b

-- `child->parent = parent`, behind the write of the parent. `none` is an access to memory with no node.
abbrev pub set_parent : Addr → Addr → Store → Option Store
set_parent parent child s = elim (s child) [
  | none ↦ none
  | some cell ↦ some (write child (record cell { parent = some parent }) s)
]

-- `samconfConfigAdd` on pointers, where NULL is `none`.
unfoldable pub store_add : Option Addr → Option Addr → Store → Option (Status × Store)
store_add none child s = some (error, s)
store_add (some parent) none s = some (error, s)
store_add (some parent) (some child) s = elim (s parent) [
  | none ↦ none
  | some cell ↦
      elim (set_parent parent child
        (write parent (record cell { children = cell.children ++ child ∷ [] }) s)) [
          | none ↦ none
          | some s' ↦ some (ok, s')
        ]
]

-- The result of a call that follows pointers. `crash` is an access to memory with no node, or through NULL.
pub data Walk (A : Type 0) : Type 0 where
  walked : A → Walk A
  crash : Walk A
  out_of_fuel : Walk A

abbrev pub and_then : {A B : Type 0} → Walk A → (A → Walk B) → Walk B
and_then (walked x) go = go x
and_then crash go = crash
and_then out_of_fuel go = out_of_fuel

-- A loop over `children`.
abbrev pub visit_all : {S : Type 0} → (Addr → S → Walk S) → List Addr → S → Walk S
visit_all visit [] x = walked x
visit_all visit (a ∷ more) x = and_then (visit a x) (visit_all visit more)

-- The `while` loop of `samconfPathGetPath` and what follows it, from `parent` on. A NULL parent, one
-- without a key, and an address without a node crash.
unfoldable pub store_path_loop : ℕ → Store → Bytes → Option Addr → Walk Bytes
unfolding add_to_new_path
store_path_loop zero s new_path parent = out_of_fuel
store_path_loop (suc fuel) s new_path none = crash
store_path_loop (suc fuel) s new_path (some a) = elim (s a) [
  | none ↦ crash
  | some cell ↦ elim cell.node.key [
    | none ↦ crash
    | some key ↦
        let further = store_path_loop fuel s (add_to_new_path new_path key) cell.parent in
        if str_eq key root_key then walked (add_to_new_path new_path root_key) else further
  ]
]

-- `samconfPathGetPath` on a pointer.
unfoldable pub store_get_path : ℕ → Store → Addr → Walk Bytes
unfolding add_to_new_path
store_get_path fuel s a = elim (s a) [
  | none ↦ crash
  | some cell ↦ elim cell.node.key [
    | none ↦ crash
    | some key ↦
        let further = store_path_loop fuel s (add_to_new_path [] key) cell.parent in
        if str_eq key root_key then walked root_key else further
  ]
]

-- `_findNextConfigAtLevel` on a pointer: its status, `*found` and `*nextConfig`, from those before it.
unfoldable pub store_find_next :
    ℕ → Store → Addr → Addr → Status × Bool × Option Addr → Walk (Status × Bool × Option Addr)
store_find_next zero s to_find a before = out_of_fuel
store_find_next (suc fuel) s to_find a (status, found, some q) = walked (error, found, some q)
store_find_next (suc fuel) s to_find a (status, true, none) = walked (ok, true, some a)
store_find_next (suc fuel) s to_find a (status, false, none) = elim (s a) [
  | none ↦ crash
  | some cell ↦
      visit_all (store_find_next fuel s to_find) cell.children (not_found, a == to_find, none)
]

-- `samconfConfigNext` on pointers, with `*nextConfig` NULL before the call.
unfoldable pub store_next : ℕ → Store → Option Addr → Option Addr → Walk (Status × Option Addr)
store_next fuel s none to_find = walked (error, none)
store_next fuel s (some root) none = walked (error, none)
store_next fuel s (some root) (some to_find) =
    and_then (store_find_next fuel s to_find root (not_found, false, none))
      (λ after. walked (after.0, after.2))

-- The inner loop of `samconfConfigGet`: the first child with the key. `strcmp` of a NULL key crashes.
unfoldable pub store_find_child : Store → Bytes → List Addr → Walk (Option Addr)
store_find_child s seg [] = walked none
store_find_child s seg (a ∷ more) =
    let rest = store_find_child s seg more in
    elim (s a) [
      | none ↦ crash
      | some cell ↦ elim cell.node.key [
        | none ↦ crash
        | some key ↦ if str_eq key seg then walked (some a) else rest
      ]
    ]

-- The outer loop, from `parent` on: the status and `*result`, NULL if nothing is stored.
unfoldable pub store_get_walk : Store → Addr → List Bytes → Status → Walk (Status × Option Addr)
store_get_walk s parent [] status = walked (status, none)
store_get_walk s parent (seg ∷ rest) status =
    let stuck = store_get_walk s parent rest not_found in
    elim (s parent) [
      | none ↦ crash
      | some cell ↦
          let scanned = and_then (store_find_child s seg cell.children) (λ hit. elim hit [
            | none ↦ walked (not_found, none)
            | some child ↦
                if is_empty rest
                then walked (ok, some child)
                else store_get_walk s child rest status
          ]) in
          if is_empty cell.children then stuck else scanned
    ]

-- `samconfConfigGet` on pointers.
unfoldable pub store_get : Store → Option Addr → Option Bytes → Walk (Status × Option Addr)
store_get s none path = walked (error, none)
store_get s (some root) none = walked (error, none)
store_get s (some root) (some path) = elim (s root) [
  | none ↦ crash
  | some cell ↦
      let arr = create_array (some path) in
      if is_empty cell.children
      then walked (not_found, none)
      else if is_ok arr.status
      then store_get_walk s root arr.items ok
      else walked (arr.status, none)
]

abbrev pub discard : Addr → Store → Store
discard a s b = if b == a then none else s b

-- `free(config)` for a node, with the status to return. Memory without a node is freed twice.
abbrev pub free_node : Addr → Status × Store → Walk (Status × Store)
free_node a (status, s) = elim (s a) [ none ↦ crash | some cell ↦ walked (status, discard a s) ]

abbrev pub worst : Status → Status → Status
worst status one = if is_error one then error else status

-- `samconfConfigDelete` on a pointer, with the loop of `samconfConfigDeleteMembers`: the status, and the
-- store without the nodes that were freed.
unfoldable pub store_delete : ℕ → Addr → Store → Walk (Status × Store)
store_delete zero a s = out_of_fuel
store_delete (suc fuel) a s = elim (s a) [
  | none ↦ crash
  | some cell ↦
      and_then
        (visit_all (λ b x. and_then (store_delete fuel b x.1) (λ y. walked (worst x.0 y.0, y.1)))
          cell.children (ok, s))
        (free_node a)
]

-- ===== src/Store/Insert.antt =====
-- `samconfInsertAt` of src/samconf/private/samconf.c on pointers.
pub mod Links
pub mod Rounds
pub mod Ready
pub mod Grown
use samconf.Common.{ℕ, suc, false, List, [], ◌∷◌, Option, none, some, if◌then◌else◌, is_empty}
use samconf.Status.{Status, ok, error, is_ok, is_error}
use samconf.Text.{Bytes}
use samconf.Path.{create_array, get_path_until}
use samconf.Config.{object, Node}
use samconf.Store.{Addr, Cell, Store, Walk, walked, crash, and_then, write, store_add, store_get}

-- The members that `samconfInsertAt` sets of the node that it makes for a segment on the way.
abbrev pub object_members : Bytes → Node
object_members seg = record { key = some seg; is_signed = false; value = object }

-- A pointer that keeps what it was if the other is NULL.
abbrev pub pointer_or : Option Addr → Option Addr → Option Addr
pointer_or old none = old
pointer_or old (some a) = some a

-- Over `samconfConfigNew`, as the address of the node that it makes in the round i.
module _ (alloc : ℕ → Addr) where
  -- `node`, and the memory with it: `config` for the last segment, else a new object.
  abbrev pub node_for : ℕ → Bytes → List Bytes → Addr → Store → Addr × Store
  node_for i seg [] conf s = (conf, s)
  node_for i seg (t ∷ rest) conf s = (
    alloc i,
    write (alloc i) (record { node = object_members seg; parent = none; children = [] }) s,
  )

  -- The loop from index i on, `rest` being the segments from there; `existing` is `existingNode`. The
  -- root is the same in all rounds.
  unfoldable pub store_insert_loop :
      List Bytes
      → ℕ
      → List Bytes
      → Option Addr
      → Option Addr
      → Option Addr
      → Addr
      → Status
      → Store
      → Walk (Status × Store)
  store_insert_loop items i [] root parent existing conf result s = walked (result, s)
  store_insert_loop items i (seg ∷ rest) root parent existing conf result s =
      and_then (store_get s root (some (get_path_until items i))) (λ got.
        let existing' = pointer_or existing got.1 in
        let descend = store_insert_loop items (suc i) rest root existing' existing' conf ok s in
        let made = node_for i seg rest conf s in
        let grow : Walk (Status × Store) = elim (store_add parent (some made.0) made.1) [
          | none ↦ crash
          | some added ↦
              let further =
                store_insert_loop items (suc i) rest root (some made.0) existing' conf ok added.1 in
              if is_ok added.0 then further else walked added
        ] in
        if is_ok got.0
        then (if is_empty rest then walked (ok, s) else descend)
        else if is_error got.0
        then walked (error, s)
        else grow)

  -- `samconfInsertAt`: the status and the memory; `root` is `*root`.
  unfoldable pub store_insert_at :
      Option Addr → Option Bytes → Option Addr → Store → Walk (Status × Store)
  store_insert_at root none conf s = walked (error, s)
  store_insert_at root (some path) none s = walked (error, s)
  store_insert_at root (some path) (some conf) s =
      let arr = create_array (some path) in
      if is_ok arr.status
      then (if is_empty arr.items
          then walked (error, s)
          else store_insert_loop arr.items 0 arr.items root root none conf ok s)
      else walked (error, s)

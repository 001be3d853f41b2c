-- ===== src/Config/Insert.antt =====
-- samconf.c: `samconfInsertAt`, and the functions that create a node at a path.
pub mod Loop
pub mod Frame
pub mod Keeps
pub mod Keyed
pub mod Safe
pub mod Laws
pub mod Create
use samconf.Common.{
  ℕ, suc, Bool, true, false, List, [], ◌∷◌, ◌++◌, Option, none, some, if◌then◌else◌, is_empty,
}
use samconf.Common.Int.{ℤ}
use samconf.Status.{Status, ok, error, is_ok, is_error}
use samconf.Text.{Bytes, basename}
use samconf.Path.{create_array, get_path_until}
use samconf.Config.{
  Value, no_value, object, Node, Config, config, Children, nil, Position, children, child_count,
  link, subtree, modify_at, config_new, with_node, set_int, set_bool, set_real, set_string,
}
use samconf.Config.Get.{config_get}

-- The node that `samconfInsertAt` makes for a segment on the way.
abbrev pub object_node : Bytes → Config
object_node seg = config (record { key = some seg; is_signed = false; value = object }) nil

-- `existingNode`, which keeps what it was if `samconfConfigGet` stores nothing.
abbrev pub position_or : Position → Option Position → Position
position_or p none = p
position_or p (some q) = q

-- `childCount` of the node at a position.
abbrev pub count_at : Option Config → ℕ
count_at none = 0
count_at (some c) = child_count (children c)

-- The loop of `samconfInsertAt` on a tree in which no `samconfConfigGet` crashes, from index i on,
-- `rest` being the segments from there; `parent` is a position in the tree of `*root`. Store/Insert
-- has the loop with the crash. The last segment links `config`, those before it a new object.
unfoldable pub insert_loop :
    List Bytes → ℕ → List Bytes → Config → Position → Config → Status → Status × Config
insert_loop items i [] root parent conf result = (result, root)
insert_loop items i (seg ∷ rest) root parent conf result =
    let (status, found) = config_get (some root) (some (get_path_until items i)) in
    let child : Config = if is_empty rest then conf else object_node seg in
    let behind = parent ++ count_at (subtree root parent) ∷ [] in
    let descend = insert_loop items (suc i) rest root (position_or parent found) conf ok in
    let grow = insert_loop items (suc i) rest (modify_at root parent (link child)) behind conf ok in
    if is_ok status
    then (if is_empty rest then (ok, root) else descend)
    else if is_error status
    then (error, root)
    else grow

-- `samconfInsertAt`: the status, and `*root`.
unfoldable pub insert_at : Option Config → Option Bytes → Option Config → Status × Option Config
unfolding insert_loop
insert_at root none conf = (error, root)
insert_at root (some path) none = (error, root)
insert_at none (some path) (some conf) = (error, none)
insert_at (some root) (some path) (some conf) =
    let arr = create_array (some path) in
    if is_ok arr.status
    then (if is_empty arr.items
        then (error, some root)
        else let (status, root') = insert_loop arr.items 0 arr.items root [] conf ok in
          (status, some root'))
    else (error, some root)

-- What the five creating functions share: a new node, named by the base name of the path, that a
-- setter gives its value.
unfoldable pub create_at :
    (Option Config → Status × Option Config) → Option Config → Option Bytes → Status × Option Config
create_at set_value root none = (error, root)
create_at set_value root (some path) =
    let named = with_node (λ n. record n { key = some (basename path) }) config_new in
    let (status, conf) = set_value (some named) in
    if is_ok status then insert_at root (some path) conf else (status, root)

-- `samconfCreateIntAt`, `samconfCreateRealAt`, `samconfCreateBoolAt`, `samconfCreateStringAt`
unfoldable pub create_int_at : Option Config → Option Bytes → ℤ → Status × Option Config
unfolding create_at
create_int_at root path v = create_at (λ c. set_int c v) root path

unfoldable pub create_real_at : Option Config → Option Bytes → ℕ → Status × Option Config
unfolding create_at
create_real_at root path v = create_at (λ c. set_real c v) root path

unfoldable pub create_bool_at : Option Config → Option Bytes → Bool → Status × Option Config
unfolding create_at
create_bool_at root path v = create_at (λ c. set_bool c v) root path

unfoldable pub create_string_at :
    Option Config → Option Bytes → Option Bytes → Status × Option Config
unfolding create_at
create_string_at root path none = (error, root)
create_string_at root path (some v) = create_at (λ c. set_string c (some v)) root path

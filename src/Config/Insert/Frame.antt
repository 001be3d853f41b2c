-- ===== src/Config/Insert/Frame.antt =====
-- What the loop of `samconfInsertAt` does to the nodes that are there.
use samconf.Common.{
  ℕ, suc, Bool, true, false, List, [], ◌∷◌, ◌++◌, some, ◌≡◌, refl, ◌∙◌, arith, is_empty,
  if◌then◌else◌,
}
use samconf.Status.{Status, ok, error, is_ok, is_error}
use samconf.Text.{Bytes}
use samconf.Path.{get_path_until}
use samconf.Config.{Config, Position, link, subtree, modify_at}
use samconf.Config.Get.{config_get}
use samconf.Config.Get.Resolve.{resolve}
use samconf.Config.Tree.{SameNode, subtree-link, resolve-link}
use samconf.Config.Insert.{object_node, position_or, count_at, insert_loop}

-- What holds on each branch of one round.
branches :
    (P : Config → Type 0) (a b c : Bool) (w x y z : Status × Config)
    → P w.1
    → P x.1
    → P y.1
    → P z.1
    → P (if a then (if b then w else x) else if c then y else z).1
branches P true true c w x y z pw px py pz = pw
branches P true false c w x y z pw px py pz = px
branches P false b true w x y z pw px py pz = py
branches P false b false w x y z pw px py pz = pz

-- Whatever the loop does, a path that led somewhere leads there still.
pub resolve-insert_loop :
    (items : List Bytes) (i : ℕ) (rest : List Bytes) (root : Config) (parent : Position)
    (conf : Config) (st : Status) (segs : List Bytes) (q : Position)
    → resolve root segs ≡ some q
    → resolve (insert_loop items i rest root parent conf st).1 segs ≡ some q
unfolding insert_loop
resolve-insert_loop items i [] root parent conf st segs q h = h
resolve-insert_loop items i (seg ∷ rest) root parent conf st segs q h = ground (
  arith,
  resolve-insert_loop items (suc i) rest root
      (position_or parent (config_get (some root) (some (get_path_until items i))).1) conf ok segs q
      h,
  resolve-insert_loop items (suc i) rest
      (modify_at root parent (link (if is_empty rest then conf else object_node seg)))
      (parent ++ count_at (subtree root parent) ∷ []) conf ok segs q
      (resolve-link root parent (if is_empty rest then conf else object_node seg) segs q h),
)

-- Nor does it change the members of a node that was there.
pub subtree-insert_loop :
    (items : List Bytes) (i : ℕ) (rest : List Bytes) (root : Config) (parent : Position)
    (conf : Config) (st : Status) (q : Position) (c : Config)
    → subtree root q ≡ some c
    → SameNode (subtree (insert_loop items i rest root parent conf st).1 q) c
unfolding insert_loop
subtree-insert_loop items i [] root parent conf st q c h = (c, h, refl)
subtree-insert_loop items i (seg ∷ rest) root parent conf st q c h =
    let asked = config_get (some root) (some (get_path_until items i)) in
    let child : Config = if is_empty rest then conf else object_node seg in
    let (c', there, same) = subtree-link root parent child q c h in
    let (d, found, kept) =
      subtree-insert_loop items (suc i) rest (modify_at root parent (link child))
        (parent ++ count_at (subtree root parent) ∷ []) conf ok q c' there in
    let grown : SameNode
        (subtree
          (insert_loop items (suc i) rest (modify_at root parent (link child))
            (parent ++ count_at (subtree root parent) ∷ []) conf ok).1
          q)
        c =
      (d, found, kept ∙ same) in
    let down =
      subtree-insert_loop items (suc i) rest root (position_or parent asked.1) conf ok q c h in
    branches (λ r. SameNode (subtree r q) c) (is_ok asked.0) (is_empty rest) (is_error asked.0)
      (ok, root) (insert_loop items (suc i) rest root (position_or parent asked.1) conf ok)
      (error, root)
      (insert_loop items (suc i) rest (modify_at root parent (link child))
        (parent ++ count_at (subtree root parent) ∷ []) conf ok)
      (c, h, refl) down (c, h, refl) grown

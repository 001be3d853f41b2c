-- ===== src/Config/Merge.antt =====
-- samconf.c: the walk over a tree and the merge of one tree into another.
pub mod Next
pub mod Rule
pub mod Several
pub mod Overlay
pub mod Presence
pub mod Carried
pub mod Again
pub mod Keeps
use samconf.Common.{
  ℕ, zero, suc, ◌+◌, Bool, true, false, not, ◌&&◌, ◌||◌, List, [], ◌∷◌, ◌++◌, Option, none, some,
  list_eq, if◌then◌else◌, ◌⊎◌, inl, inr,
}
use samconf.Status.{Status, ok, error, not_found, overwrite_not_allowed, is_ok, is_not_found}
use samconf.Text.{Bytes, codes}
use samconf.Path.{get_path}
use samconf.Config.{
  Value, object, Node, Config, config, Children, nil, cons, Position, node, children, child_at,
  subtree, modify_at, with_node, config_new, copy_value, copy_config,
}
use samconf.Config.Get.{samconf_get}
use samconf.Config.Insert.{insert_at}

-- What `_findNextConfigAtLevel` returns, `*found` and `*nextConfig`.
pub record Search : Type 0 where
  pub status : Status
  pub found : Bool
  pub next : Option Position

-- `_findNextConfigAtLevel`, at the node at the position `at`. The status is that of the last call.
unfoldable mutual
  pub find_next : Config → Position → Position → Bool → Option Position → Search
  find_next (config n cs) at to_find found (some q) = record {
    status = error;
    found = found;
    next = some q;
  }
  find_next (config n cs) at to_find true none = record {
    status = ok;
    found = true;
    next = some at;
  }
  find_next (config n cs) at to_find false none =
      find_next_children cs at 0 to_find
        (record { status = not_found; found = list_eq at to_find; next = none })

  -- The loop over the children from index i on.
  pub find_next_children : Children → Position → ℕ → Position → Search → Search
  find_next_children nil at i to_find s = s
  find_next_children (cons c cs) at i to_find s =
      find_next_children cs at (i + 1) to_find (find_next c (at ++ i ∷ []) to_find s.found s.next)

-- `samconfConfigNext`: the status and `*nextConfig`, which is NULL before the call.
unfoldable pub config_next : Option Config → Option Position → Status × Option Position
unfolding find_next list_eq
config_next none to_find = (error, none)
config_next (some root) none = (error, none)
config_next (some root) (some p) = let s = find_next root [] p false none in (s.status, s.next)

-- `_followsMergeRule`
unfoldable pub follows_merge_rule : Config → Config → Bool
follows_merge_rule merged to_merge =
    let a = (node merged).is_signed in
    let b = (node to_merge).is_signed in (a && b) || (not a && not b) || (not a && b)

-- The key of the node at a position and those of its ancestors, the nearest first.
unfoldable pub key_chain :
    Config → Position → List (Option Bytes) → Option (Option Bytes × List (Option Bytes))
key_chain c [] up = some ((node c).key, up)
key_chain c (i ∷ p) up = elim (child_at (children c) i) [
  | none ↦ none
  | some d ↦ key_chain d p ((node c).key ∷ up)
]

-- `samconfPathGetPath` on the node at a position of a tree.
unfoldable pub path_of : Config → Position → Option Bytes
path_of root p = elim (key_chain root p []) [ none ↦ none | some (key, up) ↦ get_path key up ]

-- What a merge comes to. `fault` is a NULL dereference; `out_of_fuel` does not occur.
pub data Outcome : Type 0 where
  done : Status → Config → Outcome
  fault : Outcome
  out_of_fuel : Outcome

-- One round of the loop of `samconfConfigMergeConfig`: on to the next node with the merged tree, or a
-- `break` with a result. That result is what `samconfConfigDelete(node)` returns, which is OK.
pub data Round : Type 0 where
  next_round : Config → Round
  leave : Status → Config → Round
  crash : Round

-- `samconfConfigDelete` of a node with no children.
abbrev pub delete_status : Status
delete_status = ok

-- The merged tree, or what it was if the status is not OK.
abbrev pub config_or : Config → Option Config → Config
config_or c none = c
config_or c (some d) = d

-- The write of `samconfCopyConfigValue(node, nodeInMerge)`.
unfoldable pub overwrite : Config → Config → Option Position → Round
overwrite new_node merged none = leave delete_status merged
overwrite new_node merged (some p) = elim (subtree merged p) [
  | none ↦ crash
  | some in_merge ↦
      let (status, to) = copy_value (some new_node) (some in_merge) in
      if is_ok status
      then next_round (modify_at merged p (λ c. config_or c to))
      else leave delete_status merged
]

-- The lookup of the path in the merged tree, and what follows from it.
unfoldable pub place : Config → Config → Bytes → Round
place new_node merged path = elim (samconf_get (some merged) (some path)) [
  | none ↦ crash
  | some (status, in_merge) ↦
      if is_not_found status
      then (let (inserted, merged') = insert_at (some merged) (some path) (some new_node) in
          if is_ok inserted
          then next_round (config_or merged merged')
          else leave delete_status (config_or merged merged'))
      else if is_ok status
      then overwrite new_node merged in_merge
      else leave delete_status merged
]

unfoldable pub merge_node : Config → Config → Position → Round
merge_node merged to_merge p = elim (subtree to_merge p) [
  | none ↦ crash
  | some from ↦ elim (copy_config (some from) (some config_new)) [
    | none ↦ crash
    | some (status, copied) ↦
        if is_ok status
        then elim (path_of to_merge p) [
          | none ↦ crash
          | some path ↦ place (config_or config_new copied) merged path
        ]
        else leave delete_status merged
  ]
]

-- The end of the loop, when there is no next node.
unfoldable pub finish : Config → Config → Config
finish merged to_merge =
    if not (node merged).is_signed && (node to_merge).is_signed
    then with_node (λ n. record n { is_signed = true }) merged
    else merged

abbrev pub after_round : Round → (Config → Outcome) → Outcome
after_round (next_round merged) go = go merged
after_round (leave status merged) go = done status merged
after_round crash go = fault

-- The loop of `samconfConfigMergeConfig`, with fuel for the rounds.
unfoldable pub merge_loop : ℕ → Config → Config → Position → Outcome
merge_loop zero merged to_merge p = out_of_fuel
merge_loop (suc fuel) merged to_merge p = elim (config_next (some to_merge) (some p)).1 [
  | none ↦ done ok (finish merged to_merge)
  | some q ↦
      after_round (merge_node merged to_merge q) (λ merged'. merge_loop fuel merged' to_merge q)
]

-- The number of nodes of a tree.
unfoldable mutual
  pub size : Config → ℕ
  size (config n cs) = suc (size_children cs)

  pub size_children : Children → ℕ
  size_children nil = 0
  size_children (cons c cs) = size c + size_children cs

-- `samconfConfigMergeConfig`. The loop makes one round for each node, so the size is enough fuel.
unfoldable pub merge_config : Config → Option Config → Outcome
merge_config merged none = done error merged
merge_config merged (some to_merge) =
    let merging = merge_loop (size to_merge) merged to_merge [] in
    if follows_merge_rule merged to_merge then merging else done overwrite_not_allowed merged

-- The loop of `samconfConfigMergeConfigs` over trees of which none is NULL. The rule is asked again
-- after the merge.
unfoldable pub merge_configs_loop : List Config → Status → Config → Outcome
merge_configs_loop [] result merged = done result merged
merge_configs_loop (to_merge ∷ more) result merged = elim (merge_config merged (some to_merge)) [
  | done res merged' ↦
      let further = merge_configs_loop more res merged' in
      if follows_merge_rule merged' to_merge
      then (if is_ok res then further else done res merged')
      else further
  | fault ↦ fault
  | out_of_fuel ↦ out_of_fuel
]

-- `samconfConfigMergeConfigs`, on a `*mergedConfig` that is not NULL, or with `none` for a NULL
-- `mergedConfig`: `samconfConfigNew` then answers ERROR, and the first merge reads `*mergedConfig`,
-- which is a crash; with no tree to merge ERROR is returned. `inl` is a status without a tree.
unfoldable pub merge_configs : Option Config → List Config → Status ⊎ Outcome
merge_configs none [] = inl error
merge_configs none (to_merge ∷ more) = inr fault
merge_configs (some merged) to_merge = inr (merge_configs_loop to_merge error merged)

-- ===== src/Config/Merge/Rule.antt =====
-- `samconfConfigMergeConfig`: which merges are refused, which nodes it visits, and that it ends.
use samconf.Common.{
  ℕ, zero, suc, ◌<◌, true, false, List, [], ◌∷◌, ◌++◌, Option, none, some, ◌≡◌, ◌≢◌, refl, sym, ap,
  ◌∙◌, arith, append_assoc, length, ◌⊎◌, Option-cases, inl, inr, if◌then◌else◌,
}
use mathlib.Core.Path.{fun_ext}
use samconf.Status.{Status, ok, overwrite_not_allowed}
use samconf.Text.{Bytes}
use samconf.Config.Get.{samconf_get}
use samconf.Config.{subtree, copy_config, config_new, Config, config, Position, node}
use samconf.Config.Merge.{
  Outcome, done, out_of_fuel, after_round, Round, next_round, leave, crash, config_next, merge_node,
  finish, config_or, path_of, merge_loop, merge_config, follows_merge_rule, size, place, overwrite,
}
use samconf.Config.Merge.Next.{
  preorder, preorder-root, preorder_children, config_next-preorder, length-preorder_children,
}

-- The merge of the nodes at given positions, one after the other, up to a `break`.
unfoldable pub merge_all : Config → Config → List Position → Outcome
merge_all merged to_merge [] = done ok (finish merged to_merge)
merge_all merged to_merge (q ∷ qs) =
    after_round (merge_node merged to_merge q) (λ merged'. merge_all merged' to_merge qs)

after_round_congr :
    (r : Round) (f g : Config → Outcome)
    → ((m : Config) → f m ≡ g m)
    → after_round r f ≡ after_round r g
after_round_congr r f g h = ap (after_round r) (fun_ext h)

loop_end :
    (fuel : ℕ) (merged to_merge : Config) (p : Position)
    → (config_next (some to_merge) (some p)).1 ≡ none
    → merge_loop (suc fuel) merged to_merge p ≡ done ok (finish merged to_merge)
unfolding merge_loop
loop_end fuel merged to_merge p h = rw (h, merge_loop)

loop_next :
    (fuel : ℕ) (merged to_merge : Config) (p q : Position)
    → (config_next (some to_merge) (some p)).1 ≡ some q
    → merge_loop (suc fuel) merged to_merge p
      ≡ after_round (merge_node merged to_merge q) (λ m. merge_loop fuel m to_merge q)
unfolding merge_loop
loop_next fuel merged to_merge p q h = rw (h, merge_loop)

merge_loop-merge_all :
    (fuel : ℕ) (merged to_merge : Config) (before after : List Position) (p : Position)
    → preorder to_merge [] ≡ before ++ p ∷ after
    → length after < fuel
    → merge_loop fuel merged to_merge p ≡ merge_all merged to_merge after
unfolding merge_all
merge_loop-merge_all zero merged to_merge before after p e h = elim h [ ]
merge_loop-merge_all (suc fuel) merged to_merge before [] p e h =
    loop_end fuel merged to_merge p (config_next-preorder to_merge before [] p e)
merge_loop-merge_all (suc fuel) merged to_merge before (q ∷ after) p e h =
    loop_next fuel merged to_merge p q (config_next-preorder to_merge before (q ∷ after) p e)
    ∙ after_round_congr (merge_node merged to_merge q) _ _ (λ m.
      merge_loop-merge_all fuel m to_merge (before ++ p ∷ []) after q
        (e ∙ sym (append_assoc before (p ∷ []) (q ∷ after))) (omega arith))

-- The positions of the nodes below the root, in preorder.
abbrev pub below_root : Config → List Position
below_root (config n cs) = preorder_children cs [] 0

loop-below_root :
    (merged to_merge : Config)
    → merge_loop (size to_merge) merged to_merge []
      ≡ merge_all merged to_merge (below_root to_merge)
loop-below_root merged (config n cs) =
    merge_loop-merge_all (size (config n cs)) merged (config n cs) [] (preorder_children cs [] 0) []
      (preorder-root n cs) (unfold size in omega (arith, length-preorder_children cs [] 0))

-- A merge that the merge rule allows visits every node below the root of the other tree, in
-- preorder, each after the effects of those before it, up to a break or a crash; any other merge
-- changes nothing.
pub merge_config-merge_all :
    (merged to_merge : Config)
    → merge_config merged (some to_merge) ≡ (
        if follows_merge_rule merged to_merge
        then merge_all merged to_merge (below_root to_merge)
        else done overwrite_not_allowed merged)
unfolding merge_config
merge_config-merge_all merged to_merge = rw (loop-below_root merged to_merge)

after_round-ne-out_of_fuel :
    (r : Round) (f : Config → Outcome)
    → ((m : Config) → f m ≢ out_of_fuel)
    → after_round r f ≢ out_of_fuel
after_round-ne-out_of_fuel (next_round m) f h = h m
after_round-ne-out_of_fuel (leave st m) f h = λ e. cc
after_round-ne-out_of_fuel crash f h = λ e. cc

merge_all-ne-out_of_fuel :
    (merged to_merge : Config) (qs : List Position) → merge_all merged to_merge qs ≢ out_of_fuel
unfolding merge_all
merge_all-ne-out_of_fuel merged to_merge [] = λ e. cc
merge_all-ne-out_of_fuel merged to_merge (q ∷ qs) =
    after_round-ne-out_of_fuel (merge_node merged to_merge q) _
      (λ m. merge_all-ne-out_of_fuel m to_merge qs)

-- A `break` of the loop leaves OK as the result.
abbrev LeavesOk : Round → Type 0
LeavesOk (next_round m) = Unit
LeavesOk (leave st m) = st ≡ ok
LeavesOk crash = Unit

overwrite-LeavesOk :
    (new_node merged : Config) (o : Option Position) → LeavesOk (overwrite new_node merged o)
unfolding overwrite
overwrite-LeavesOk new_node merged none = refl
overwrite-LeavesOk new_node merged (some p) = elim (Option-cases (subtree merged p)) [
  | inl missing ↦ rw (missing, overwrite) tt
  | inr (c, here) ↦ ground arith
]

place-LeavesOk : (new_node merged : Config) (path : Bytes) → LeavesOk (place new_node merged path)
unfolding place
place-LeavesOk new_node merged path = elim (Option-cases (samconf_get (some merged) (some path))) [
  | inl crashed ↦ rw (place, crashed) tt
  | inr ((st, found), got) ↦
      rw (place, got) (ground (arith, overwrite-LeavesOk new_node merged found))
]

merge_node-LeavesOk :
    (merged to_merge : Config) (p : Position) → LeavesOk (merge_node merged to_merge p)
unfolding merge_node
merge_node-LeavesOk merged to_merge p = elim (Option-cases (subtree to_merge p)) [
  | inl missing ↦ rw (missing, merge_node) tt
  | inr (from, here) ↦ elim (Option-cases (copy_config (some from) (some config_new))) [
    | inl no_key ↦ rw (here, merge_node, no_key) tt
    | inr ((st, copied), made) ↦ elim (Option-cases (path_of to_merge p)) [
      | inl lost ↦ ground arith
      | inr (path, led) ↦ ground (arith, place-LeavesOk (config_or config_new copied) merged path)
    ]
  ]
]

merge_all-status :
    (merged to_merge m' : Config) (st : Status) (qs : List Position)
    → merge_all merged to_merge qs ≡ done st m'
    → st ≡ ok
unfolding merge_all
merge_all-status merged to_merge m' st [] e = cc
merge_all-status merged to_merge m' st (q ∷ qs) e =
    go (merge_node merged to_merge q) (merge_node-LeavesOk merged to_merge q)
      (λ m. merge_all-status m to_merge m' st qs) e
  where
    go :
        (r : Round)
        → LeavesOk r
        → ((m : Config) → merge_all m to_merge qs ≡ done st m' → st ≡ ok)
        → after_round r (λ m. merge_all m to_merge qs) ≡ done st m'
        → st ≡ ok
    go (next_round m) l h e = h m e
    go (leave s m) l h e = cc
    go crash l h e = cc

-- A merge comes to an end: within the fuel given, which is the number of nodes, it is done or crashes.
pub merge_config-ne-out_of_fuel :
    (merged : Config) (to_merge : Option Config) → merge_config merged to_merge ≢ out_of_fuel
unfolding merge_config
merge_config-ne-out_of_fuel merged none = λ e. cc
merge_config-ne-out_of_fuel merged (some to_merge) = ground (
  arith,
  loop-below_root merged to_merge,
  merge_all-ne-out_of_fuel merged to_merge (below_root to_merge),
)

-- The result of a merge that ends without a crash: either the base is signed and the other tree is
-- not, the base stays as it is and the status says that the overwrite is not allowed; or the rule
-- allows the merge, and the status is OK, also where a node could not be copied, inserted or
-- overwritten.
pub merge_config-status :
    (merged to_merge m' : Config) (st : Status)
    → merge_config merged (some to_merge) ≡ done st m'
    → ((node merged).is_signed ≡ true)
        × ((node to_merge).is_signed ≡ false)
        × (st ≡ overwrite_not_allowed)
        × (m' ≡ merged)
      ⊎ (((node merged).is_signed ≡ false) ⊎ ((node to_merge).is_signed ≡ true)) × (st ≡ ok)
unfolding follows_merge_rule
merge_config-status merged to_merge m' st e =
    let run = sym (merge_config-merge_all merged to_merge) ∙ e in
    ground (arith, merge_all-status merged to_merge m' st (below_root to_merge))

-- ===== src/Config/Merge/Again.antt =====
-- samconf.c: merging the same tree again by `samconfConfigMergeConfig`.
use samconf.Common.{
  Bool, not, ◌&&◌, List, [], ◌∷◌, some, true, false, ◌≡◌, ◌≢◌, refl, sym, ap, ◌∙◌, inl, inr, All,
  Bool-cases,
}
use mathlib.Core.Path.{subst}
use samconf.Status.{Status, ok}
use samconf.Text.{Bytes, last_or, str_eq}
use samconf.Path.{segments}
use samconf.Config.{Value, Config, config, Node, Position, node, with_value, modify_at, subtree}
use samconf.Config.Insert.{insert_loop}
use samconf.Config.Insert.Frame.{subtree-insert_loop}
use samconf.Config.Insert.Keeps.{config_get-cases}
use samconf.Config.Insert.Laws.{insert_at-config_get, insert_at-loop}
use samconf.Config.Tree.{resolve-subtree, subtree_nil, modify_at-same, modify_at_id}
use samconf.Config.Merge.{
  next_round, done, place, merge_node, path_of, finish, merge_config, follows_merge_rule,
}
use samconf.Config.Merge.Overlay.{HasText, overlay, overwrite-overlay}
use samconf.Config.Merge.Presence.{Carries, IsMergeable, copy_of, copied, merge_node-Carries}
use samconf.Config.Merge.Carried.{led_to, AllApart, IsCarried, merge_config-IsCarried}
use samconf.Config.Merge.Presence.{place_inserts, place_overwrites}
use samconf.Config.Get.Crash.{IsKeyed}
use samconf.Config.Merge.Rule.{merge_all, below_root, merge_config-merge_all}

with_value_self : (v : Value) (c : Config) → (node c).value ≡ v → with_value v c ≡ c
with_value_self v (config n cs) e = ap (λ (x : Value). config (record n { value = x }) cs) (sym e)

-- A round at a path that shows the value of the node already changes nothing.
merge_node-unchanged :
    (root to_merge from : Config) (q : Position) (key path : Bytes)
    → IsKeyed root
    → subtree to_merge q ≡ some from
    → (node from).key ≡ some key
    → HasText (node from).value
    → path_of to_merge q ≡ some path
    → Carries root path (node from).value
    → merge_node root to_merge q ≡ next_round root
unfolding merge_node
merge_node-unchanged root to_merge from q key path keyed here k text led
      (p, c, found, there, shows) =
    let v = overlay (node from).value (node c).value in
    let over = overwrite-overlay (copy_of from key) root c p text there in
    let same =
      modify_at-same root p c (with_value v) (λ d. d) there (with_value_self v c shows)
      ∙ modify_at_id p root in
    rw (here, merge_node, copied from key k text, led)
      (place_overwrites (copy_of from key) root path p (next_round root) keyed found
        (over ∙ ap next_round same))

-- The rest of the loop on a tree that shows all the values already.
merge_all-unchanged :
    (qs : List Position) (root to_merge : Config)
    → IsKeyed root
    → All (IsMergeable to_merge) qs
    → All (IsCarried to_merge root) qs
    → finish root to_merge ≡ root
    → merge_all root to_merge qs ≡ done ok root
unfolding merge_all
merge_all-unchanged [] root to_merge keyed h c finished = ap (done ok) finished
merge_all-unchanged (q ∷ qs) root to_merge keyed ((from, key, path, here, k, text, led, n, last), h)
      ((from', path', here', led', shown), c) finished =
    let same_from : from' ≡ from = cc in
    let same_path : path' ≡ path = cc in
    let shown' : Carries root path (node from).value =
      subst (λ x. Carries root x (node from).value) same_path
        (subst (λ x. Carries root path' (node x).value) same_from shown) in
    rw (merge_node-unchanged root to_merge from q key path keyed here k text led shown')
      (merge_all-unchanged qs root to_merge keyed h c finished)

finish_idem :
    (merged to_merge : Config) → finish (finish merged to_merge) to_merge ≡ finish merged to_merge
unfolding finish
finish_idem (config n cs) to_merge =
    elim (Bool-cases (not n.is_signed && (node to_merge).is_signed)) [
      | inl signs ↦ rw signs refl
      | inr stays ↦ rw (stays, stays) refl
    ]

-- A loop that goes through to its end has ended with `finish`.
merge_all-finished :
    (qs : List Position) (merged to_merge m' : Config) (st : Status)
    → IsKeyed merged
    → All (IsMergeable to_merge) qs
    → merge_all merged to_merge qs ≡ done st m'
    → finish m' to_merge ≡ m'
unfolding merge_all
merge_all-finished [] merged to_merge m' st keyed h ran =
    let same : finish merged to_merge ≡ m' = cc in rw (sym same) (finish_idem merged to_merge)
merge_all-finished (q ∷ qs) merged to_merge m' st keyed
      ((from, key, path, here, k, text, led, n, last), h) ran =
    let (m1, one, keyed1, shown) =
      merge_node-Carries merged to_merge from q key path keyed here k text led n last in
    merge_all-finished qs m1 to_merge m' st keyed1 h (rw one at ran)

-- The mark of the root.
abbrev sign : Config → Bool
sign c = (node c).is_signed

sign-modify_at :
    (root : Config) (p : Position) (v : Value) → sign (modify_at root p (with_value v)) ≡ sign root
unfolding modify_at
sign-modify_at (config n cs) [] v = refl
sign-modify_at (config n cs) (i ∷ p) v = refl

place-sign :
    (new_node merged m' : Config) (path key : Bytes)
    → IsKeyed merged
    → segments path ≢ []
    → (node new_node).key ≡ some key
    → str_eq key (last_or [] (segments path)) ≡ true
    → HasText (node new_node).value
    → place new_node merged path ≡ next_round m'
    → sign m' ≡ sign merged
place-sign new_node merged m' path key keyed h named last text ran =
    elim (config_get-cases merged path h) [
      | inl lost ↦
          let (m1, q, run, at_q, is_q, safe) =
            insert_at-config_get merged path new_node h lost (rw named last) in
          let made = place_inserts new_node merged m1 path keyed lost run in
          let out = insert_loop (segments path) 0 (segments path) merged [] new_node ok in
          let (c, here, members) =
            subtree-insert_loop (segments path) 0 (segments path) merged [] new_node ok [] merged
              (subtree_nil merged) in
          let same : out.1 ≡ m' = cc (insert_at-loop merged path new_node h) in
          let root : c ≡ out.1 = cc (subtree_nil out.1) in
          ap sign (sym same ∙ sym root) ∙ ap (λ (n : Node). n.is_signed) members
      | inr (q, found) ↦
          let (d, there) =
            resolve-subtree merged (segments path) q (led_to merged path q h found) in
          let w = overlay (node new_node).value (node d).value in
          let over = overwrite-overlay new_node merged d q text there in
          let same : modify_at merged q (with_value w) ≡ m' =
            cc (place_overwrites new_node merged path q _ keyed found over) in
          ap sign (sym same) ∙ sign-modify_at merged q w
    ]

merge_node-sign :
    (merged to_merge from m' : Config) (q : Position) (key path : Bytes)
    → IsKeyed merged
    → subtree to_merge q ≡ some from
    → (node from).key ≡ some key
    → HasText (node from).value
    → path_of to_merge q ≡ some path
    → segments path ≢ []
    → str_eq key (last_or [] (segments path)) ≡ true
    → merge_node merged to_merge q ≡ next_round m'
    → sign m' ≡ sign merged
unfolding merge_node
merge_node-sign merged to_merge from m' q key path keyed here k text led h last ran =
    place-sign (copy_of from key) merged m' path key keyed h refl last text
      (rw (here, merge_node, copied from key k text, led) at ran)

finish-sign : (merged to_merge : Config) → sign to_merge ≡ false → finish merged to_merge ≡ merged
unfolding finish
finish-sign merged to_merge unsigned =
    rw unsigned (elim (Bool-cases (not (sign merged))) [ inl a ↦ rw a refl | inr a ↦ rw a refl ])

-- The merge of an unsigned tree leaves the mark of the root.
merge_all-sign :
    (qs : List Position) (merged to_merge m' : Config) (st : Status)
    → IsKeyed merged
    → All (IsMergeable to_merge) qs
    → sign to_merge ≡ false
    → merge_all merged to_merge qs ≡ done st m'
    → sign m' ≡ sign merged
unfolding merge_all
merge_all-sign [] merged to_merge m' st keyed h unsigned ran =
    let same : finish merged to_merge ≡ m' = cc in
    ap sign (sym same ∙ finish-sign merged to_merge unsigned)
merge_all-sign (q ∷ qs) merged to_merge m' st keyed
      ((from, key, path, here, k, text, led, n, last), h) unsigned ran =
    let (m1, one, keyed1, shown) =
      merge_node-Carries merged to_merge from q key path keyed here k text led n last in
    merge_all-sign qs m1 to_merge m' st keyed1 h unsigned (rw one at ran)
    ∙ merge_node-sign merged to_merge from m1 q key path keyed here k text led n last one

-- The rule still allows the other tree behind a merge that it allowed.
rule_again :
    (merged to_merge m' : Config)
    → follows_merge_rule merged to_merge ≡ true
    → (sign to_merge ≡ false → sign m' ≡ sign merged)
    → follows_merge_rule m' to_merge ≡ true
unfolding follows_merge_rule
rule_again merged to_merge m' allowed kept = elim (Bool-cases (sign to_merge)) [
  | inl signed ↦ rw signed (elim (Bool-cases (sign m')) [ inl a ↦ rw a refl | inr a ↦ rw a refl ])
  | inr unsigned ↦ rw (kept unsigned) allowed
]

-- A merge into a tree in which each node below the root has a key, that the rule allows, of a tree
-- whose nodes below the root each have a key, a value that is no NULL string and a path whose last
-- segment is that key, no two of them with the same path, ends with status OK, and merging that
-- tree once more into the result answers OK and changes nothing.
pub merge_config-again :
    (merged to_merge : Config)
    → IsKeyed merged
    → follows_merge_rule merged to_merge ≡ true
    → All (IsMergeable to_merge) (below_root to_merge)
    → AllApart to_merge (below_root to_merge)
    → (m' : Config) × (merge_config merged (some to_merge) ≡ done ok m')
      × (merge_config m' (some to_merge) ≡ done ok m')
merge_config-again merged to_merge keyed allowed h apart =
    let (m', run, keyed', carried) = merge_config-IsCarried merged to_merge keyed allowed h apart in
    let looped : merge_all merged to_merge (below_root to_merge) ≡ done ok m' =
      rw allowed at (sym (merge_config-merge_all merged to_merge) ∙ run) in
    let again = rule_again merged to_merge m' allowed (λ unsigned.
      merge_all-sign (below_root to_merge) merged to_merge m' ok keyed h unsigned looped) in
    let same =
      merge_all-unchanged (below_root to_merge) m' to_merge keyed' h carried
        (merge_all-finished (below_root to_merge) merged to_merge m' ok keyed h looped) in
    (m', run, merge_config-merge_all m' to_merge ∙ rw again same)

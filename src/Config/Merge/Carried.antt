-- ===== src/Config/Merge/Carried.antt =====
-- samconf.c: the values that `samconfConfigMergeConfig` leaves in the merged tree.
use samconf.Common.{
  not, ◌&&◌, List, [], ◌∷◌, some, true, ◌≡◌, ◌≢◌, refl, sym, ap, ◌∙◌, inl, inr, All, Bool-cases,
}
use samconf.Status.{Status, ok}
use samconf.Text.{Bytes, last_or, str_eq}
use samconf.Path.{segments}
use samconf.Config.{
  Value, Config, config, Position, node, with_node, with_value, modify_at, subtree,
}
use samconf.Config.Get.{config_get}
use samconf.Config.Get.Resolve.{resolve, answer-some, config_get-resolve}
use samconf.Config.Tree.{
  SameNode, resolve-subtree, resolve-injective, subtree-modify_other, resolve_nil,
}
use samconf.Config.Insert.Keeps.{config_get-cases}
use samconf.Config.Insert.Laws.{insert_at-config_get, insert_at-frame}
use samconf.Config.Merge.{
  next_round, done, place, merge_node, path_of, finish, merge_config, follows_merge_rule,
}
use samconf.Config.Merge.Overlay.{HasText, overlay, overwrite-overlay, with_value-KeepsShape}
use samconf.Config.Merge.Keeps.{written-Keeps, sign-KeepsShape}
use samconf.Config.Merge.Presence.{
  Carries, IsMergeable, copy_of, copied, merge_node-Carries, place_inserts, place_overwrites,
}
use samconf.Config.Get.Crash.{IsKeyed}
use samconf.Config.Merge.Rule.{merge_all, below_root, merge_config-merge_all}

-- What a path with a segment leads to.
pub led_to :
    (root : Config) (path : Bytes) (p : Position)
    → segments path ≢ []
    → config_get (some root) (some path) ≡ (ok, some p)
    → resolve root (segments path) ≡ some p
led_to root path p h found =
    answer-some (resolve root (segments path)) p (sym (config_get-resolve root path h) ∙ found)

-- A node that keeps its place and its members still shows the value.
Carries-SameNode :
    (root root' : Config) (path : Bytes) (v : Value) (p : Position) (c : Config)
    → config_get (some root') (some path) ≡ (ok, some p)
    → SameNode (subtree root' p) c
    → (node c).value ≡ overlay v (node c).value
    → Carries root' path v
Carries-SameNode root root' path v p c led (c', there, members) shows =
    (p, c', led, there, rw members shows)

-- A placing at another path leaves the value that a path shows.
place-Carries_other :
    (new_node merged m' : Config) (path key other : Bytes) (v : Value)
    → IsKeyed merged
    → segments path ≢ []
    → segments other ≢ []
    → segments path ≢ segments other
    → (node new_node).key ≡ some key
    → str_eq key (last_or [] (segments path)) ≡ true
    → HasText (node new_node).value
    → place new_node merged path ≡ next_round m'
    → Carries merged other v
    → Carries m' other v
place-Carries_other new_node merged m' path key other v keyed h k apart named last text ran
      (p, c, led, here, shows) =
    elim (config_get-cases merged path h) [
      | inl lost ↦
          let (m1, q, run, at_q, is_q, safe) =
            insert_at-config_get merged path new_node h lost (rw named last) in
          let (st, m2, run', still, members) =
            insert_at-frame merged path other new_node p c h k led here in
          let made = place_inserts new_node merged m1 path keyed lost run in
          let same : m2 ≡ m' = cc in
          rw (sym same) (Carries-SameNode merged m2 other v p c still members shows)
      | inr (q, found) ↦
          let (d, there) =
            resolve-subtree merged (segments path) q (led_to merged path q h found) in
          let w = overlay (node new_node).value (node d).value in
          let over = overwrite-overlay new_node merged d q text there in
          let same : modify_at merged q (with_value w) ≡ m' =
            cc (place_overwrites new_node merged path q _ keyed found over) in
          let other_place : q ≢ p = λ e. apart (
            resolve-injective merged (segments path) (segments other) p
              (led_to merged path q h found ∙ ap some e) (led_to merged other p k led)) in
          rw (sym same) (
            Carries-SameNode merged (modify_at merged q (with_value w)) other v p c
              (written-Keeps merged q (with_value w) (with_value-KeepsShape w) other p k led)
              (subtree-modify_other merged q p c (with_value w) (with_value-KeepsShape w) here
                other_place)
              shows)
    ]

-- A round at another path leaves the value that a path shows.
merge_node-Carries_other :
    (merged to_merge from m' : Config) (q : Position) (key path other : Bytes) (v : Value)
    → IsKeyed merged
    → subtree to_merge q ≡ some from
    → (node from).key ≡ some key
    → HasText (node from).value
    → path_of to_merge q ≡ some path
    → segments path ≢ []
    → str_eq key (last_or [] (segments path)) ≡ true
    → segments other ≢ []
    → segments path ≢ segments other
    → merge_node merged to_merge q ≡ next_round m'
    → Carries merged other v
    → Carries m' other v
unfolding merge_node
merge_node-Carries_other merged to_merge from m' q key path other v keyed here k text led h last g
      apart ran shown =
    place-Carries_other (copy_of from key) merged m' path key other v keyed h g apart refl last text
      (rw (here, merge_node, copied from key k text, led) at ran) shown

-- The end of the merge leaves the value that a path shows.
finish-Carries :
    (merged to_merge : Config) (other : Bytes) (v : Value)
    → segments other ≢ []
    → Carries merged other v
    → Carries (finish merged to_merge) other v
unfolding finish modify_at
finish-Carries merged to_merge other v g (p, c, led, here, shows) =
    let not_root : [] ≢ p = λ e. g (
      sym (
        resolve-injective merged [] (segments other) p (resolve_nil merged ∙ ap some e)
          (led_to merged other p g led))) in
    let f : Config → Config = with_node (λ n. record n { is_signed = true }) in
    let signed = subtree-modify_other merged [] p c f sign-KeepsShape here not_root in
    elim (Bool-cases (not (node merged).is_signed && (node to_merge).is_signed)) [
      | inl signs ↦ rw signs (
          Carries-SameNode merged (f merged) other v p c
            (written-Keeps merged [] f sign-KeepsShape other p g led) signed shows)
      | inr stays ↦ rw stays (p, c, led, here, shows)
    ]

-- The nodes at two positions of a tree have different paths.
abbrev pub Apart : Config → Position → Position → Type 0
Apart to_merge q r =
    (path path' : Bytes)
    → path_of to_merge q ≡ some path
    → path_of to_merge r ≡ some path'
    → segments path ≢ segments path'

-- No two nodes at positions of a list have the same path.
abbrev pub AllApart : Config → List Position → Type 0
AllApart to_merge [] = Unit
AllApart to_merge (q ∷ qs) = All (Apart to_merge q) qs × AllApart to_merge qs

-- The path of a node of the other tree leads to a node that shows its value.
abbrev pub IsCarried : Config → Config → Position → Type 0
IsCarried to_merge m' q =
    (from : Config) × (path : Bytes) × (subtree to_merge q ≡ some from)
    × (path_of to_merge q ≡ some path)
    × Carries m' path (node from).value

-- The rest of the loop leaves the value that a path shows, if no node of it has that path.
merge_all-Carries_other :
    (qs : List Position) (merged to_merge m' : Config) (st : Status) (q : Position) (other : Bytes)
    (v : Value)
    → IsKeyed merged
    → All (IsMergeable to_merge) qs
    → All (Apart to_merge q) qs
    → path_of to_merge q ≡ some other
    → segments other ≢ []
    → merge_all merged to_merge qs ≡ done st m'
    → Carries merged other v
    → Carries m' other v
unfolding merge_all
merge_all-Carries_other [] merged to_merge m' st q other v keyed h a led g ran shown =
    let same : finish merged to_merge ≡ m' = cc in
    rw (sym same) (finish-Carries merged to_merge other v g shown)
merge_all-Carries_other (r ∷ qs) merged to_merge m' st q other v keyed
      ((from, key, path, here, k, text, led_r, n, last), h) (a, aa) led g ran shown =
    let (m1, one, keyed1, carries) =
      merge_node-Carries merged to_merge from r key path keyed here k text led_r n last in
    let shown1 =
      merge_node-Carries_other merged to_merge from m1 r key path other v keyed here k text led_r n
        last g (λ e. a other path led led_r (sym e)) one shown in
    merge_all-Carries_other qs m1 to_merge m' st q other v keyed1 h aa led g (rw one at ran) shown1

finish-IsKeyed : (merged to_merge : Config) → IsKeyed merged → IsKeyed (finish merged to_merge)
unfolding finish IsKeyed
finish-IsKeyed (config n cs) to_merge h =
    elim (Bool-cases (not n.is_signed && (node to_merge).is_signed)) [
      | inl signs ↦ rw signs h
      | inr stays ↦ rw stays h
    ]

merge_all-IsCarried :
    (qs : List Position) (merged to_merge : Config)
    → IsKeyed merged
    → All (IsMergeable to_merge) qs
    → AllApart to_merge qs
    → (m' : Config) × (merge_all merged to_merge qs ≡ done ok m')
      × IsKeyed m'
      × All (IsCarried to_merge m') qs
unfolding merge_all
merge_all-IsCarried [] merged to_merge keyed h a =
    (finish merged to_merge, refl, finish-IsKeyed merged to_merge keyed, tt)
merge_all-IsCarried (q ∷ qs) merged to_merge keyed (one, h) (a, aa) =
    let (from, key, path, here, k, text, led, n, last) = one in
    let (m1, ran, keyed1, shown) =
      merge_node-Carries merged to_merge from q key path keyed here k text led n last in
    let (m', run, keyed', carried) = merge_all-IsCarried qs m1 to_merge keyed1 h aa in
    (
      m',
      rw ran run,
      keyed',
      (
        (
          from,
          path,
          here,
          led,
          merge_all-Carries_other qs m1 to_merge m' ok q path (node from).value keyed1 h a led n run
              shown,
        ),
        carried,
      ),
    )

-- A merge into a tree in which each node below the root has a key, that the rule allows, of a tree
-- whose nodes below the root each have a key, a value that is no NULL string and a path whose last
-- segment is that key, no two of them with the same path, ends with status OK. The path of each of
-- the nodes merged then leads to a node of the merged tree with the value of that node; a type
-- without a value of its own leaves the value that it finds. Each node below the root of the result
-- has a key.
pub merge_config-IsCarried :
    (merged to_merge : Config)
    → IsKeyed merged
    → follows_merge_rule merged to_merge ≡ true
    → All (IsMergeable to_merge) (below_root to_merge)
    → AllApart to_merge (below_root to_merge)
    → (m' : Config) × (merge_config merged (some to_merge) ≡ done ok m')
      × IsKeyed m'
      × All (IsCarried to_merge m') (below_root to_merge)
merge_config-IsCarried merged to_merge keyed allowed h a =
    let (m', run, keyed', carried) =
      merge_all-IsCarried (below_root to_merge) merged to_merge keyed h a in
    (m', merge_config-merge_all merged to_merge ∙ rw allowed run, keyed', carried)

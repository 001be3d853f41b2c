-- ===== src/Config/Merge/Presence.antt =====
-- samconf.c: what `samconfConfigMergeConfig` brings into the merged tree.
use samconf.Common.{
  append-nil, List, [], ◌∷◌, none, some, true, ◌≡◌, ◌≢◌, refl, sym, ap, ◌∙◌, inl, inr, All,
}
use samconf.Status.{ok, not_found}
use samconf.Text.{Bytes, last_or, str_eq}
use samconf.Path.{segments}
use samconf.Config.{
  Value, no_value, string, integer, real, boolean, array, object, Config, config, nil, Position,
  node, with_value, modify_at, subtree, config_new, zero_of_type, copy_config,
}
use samconf.Config.Get.{config_get}
use samconf.Config.Get.Resolve.{resolve, answer-some, config_get-resolve}
use samconf.Config.Tree.{resolve-subtree, subtree-modify_at, subtree_nil}
use samconf.Config.Insert.Keeps.{Leads, config_get-cases}
use samconf.Config.Get.Crash.{IsKeyed, samconf_get-config_get}
use samconf.Config.Insert.{insert_at}
use samconf.Config.Insert.Keyed.{insert_at-IsKeyed, with_value-IsKeyed}
use samconf.Config.Insert.Laws.{insert_at-config_get}
use samconf.Config.Merge.{
  Round, next_round, done, overwrite, place, merge_node, path_of, finish, merge_config,
  follows_merge_rule,
}
use samconf.Config.Merge.Overlay.{
  HasText, overlay, copy_value-overlay, overwrite-overlay, with_value-KeepsShape,
}
use samconf.Config.Merge.Keeps.{written-Keeps, merge_all-Keeps}
use samconf.Config.Merge.Rule.{merge_all, below_root, merge_config-merge_all}

overlay-zero_of_type : (v : Value) → HasText v → overlay v (zero_of_type v) ≡ v
overlay-zero_of_type (string none) h = absurd h
overlay-zero_of_type (string (some s)) h = refl
overlay-zero_of_type no_value h = refl
overlay-zero_of_type (integer i) h = refl
overlay-zero_of_type (real r) h = refl
overlay-zero_of_type (boolean b) h = refl
overlay-zero_of_type array h = refl
overlay-zero_of_type object h = refl

overlay_idem : (v old : Value) → overlay v (overlay v old) ≡ overlay v old
overlay_idem (string s) old = refl
overlay_idem no_value old = refl
overlay_idem (integer i) old = refl
overlay_idem (real r) old = refl
overlay_idem (boolean b) old = refl
overlay_idem array old = refl
overlay_idem object old = refl

overlay_self : (v : Value) → overlay v v ≡ v
overlay_self (string s) = refl
overlay_self no_value = refl
overlay_self (integer i) = refl
overlay_self (real r) = refl
overlay_self (boolean b) = refl
overlay_self array = refl
overlay_self object = refl

-- The new node that a round makes for a node with a key.
abbrev pub copy_of : Config → Bytes → Config
copy_of from key =
    config (record { key = some key; is_signed = (node from).is_signed; value = (node from).value })
      nil

pub copied :
    (from : Config) (key : Bytes)
    → (node from).key ≡ some key
    → HasText (node from).value
    → copy_config (some from) (some config_new) ≡ some (ok, some (copy_of from key))
unfolding copy_config
copied from key k h = rw (
  k,
  copy_config,
  copy_value-overlay from
      (config
        (record {
          key = some key;
          is_signed = (node from).is_signed;
          value = zero_of_type (node from).value;
        })
        nil)
      h,
  overlay-zero_of_type (node from).value h,
)

-- The path leads to a node that has a value, but that a type without a value of its own does not show.
abbrev pub Carries : Config → Bytes → Value → Type 0
Carries root path v =
    (p : Position) × (c : Config) × (config_get (some root) (some path) ≡ (ok, some p))
    × (subtree root p ≡ some c)
    × ((node c).value ≡ overlay v (node c).value)

value-with_value : (v : Value) (c : Config) → (node (with_value v c)).value ≡ v
value-with_value v (config n cs) = refl

subtree-written :
    (root : Config) (p : Position) (c : Config) (f : Config → Config)
    → subtree root p ≡ some c
    → subtree (modify_at root p f) p ≡ some (f c)
subtree-written root p c f here =
    ap (subtree (modify_at root p f)) (sym (append-nil p))
    ∙ subtree-modify_at root p [] c f here
    ∙ subtree_nil (f c)

-- The two ways of placing a node.
pub place_inserts :
    (new_node merged m' : Config) (path : Bytes)
    → IsKeyed merged
    → config_get (some merged) (some path) ≡ (not_found, none)
    → insert_at (some merged) (some path) (some new_node) ≡ (ok, some m')
    → place new_node merged path ≡ next_round m'
unfolding place
place_inserts new_node merged m' path keyed lost run =
    let got = samconf_get-config_get merged (some path) keyed ∙ ap some lost in
    rw (place, got, run) refl

pub place_overwrites :
    (new_node merged : Config) (path : Bytes) (q : Position) (r : Round)
    → IsKeyed merged
    → config_get (some merged) (some path) ≡ (ok, some q)
    → overwrite new_node merged (some q) ≡ r
    → place new_node merged path ≡ r
unfolding place
place_overwrites new_node merged path q r keyed found over =
    let got = samconf_get-config_get merged (some path) keyed ∙ ap some found in
    rw (place, got) over

place-Carries :
    (new_node merged : Config) (path key : Bytes)
    → IsKeyed merged
    → IsKeyed new_node
    → segments path ≢ []
    → (node new_node).key ≡ some key
    → str_eq key (last_or [] (segments path)) ≡ true
    → HasText (node new_node).value
    → (m' : Config) × (place new_node merged path ≡ next_round m')
      × IsKeyed m'
      × Carries m' path (node new_node).value
place-Carries new_node merged path key keyed inner h k last text =
    elim (config_get-cases merged path h) [
      | inl lost ↦
          let (m', q, run, at_q, is_q, safe) =
            insert_at-config_get merged path new_node h lost (rw k last) in
          (
            m',
            place_inserts new_node merged m' path keyed lost run,
            insert_at-IsKeyed merged m' new_node path ok h keyed (key, k) inner run,
            (q, new_node, at_q, is_q, sym (overlay_self (node new_node).value)),
          )
      | inr (p, found) ↦
          let resolved =
            answer-some (resolve merged (segments path)) p
              (sym (config_get-resolve merged path h) ∙ found) in
          let (c, here) = resolve-subtree merged (segments path) p resolved in
          let v = overlay (node new_node).value (node c).value in
          let over = overwrite-overlay new_node merged c p text here in
          (
            modify_at merged p (with_value v),
            place_overwrites new_node merged path p _ keyed found over,
            with_value-IsKeyed merged p v keyed,
            (
              p,
              with_value v c,
              written-Keeps merged p (with_value v) (with_value-KeepsShape v) path p h found,
              subtree-written merged p c (with_value v) here,
              rw (value-with_value v c) (sym (overlay_idem (node new_node).value (node c).value)),
            ),
          )
    ]

-- What a node to merge has to be: it has a key and a value that is no NULL string, and its path has a
-- segment, the last one being its key.
abbrev pub IsMergeable : Config → Position → Type 0
IsMergeable to_merge q =
    (from : Config) × (key path : Bytes) × (subtree to_merge q ≡ some from)
    × ((node from).key ≡ some key)
    × HasText (node from).value
    × (path_of to_merge q ≡ some path)
    × (segments path ≢ [])
    × (str_eq key (last_or [] (segments path)) ≡ true)

-- One round of the merge into a tree in which each node below the root has a key, at a node as
-- above, leaves such a tree and goes on, and the path of the node then leads to a node with its
-- value, whether it was inserted or found there; a type without a value of its own leaves the value
-- that it finds.
pub merge_node-Carries :
    (merged to_merge from : Config) (q : Position) (key path : Bytes)
    → IsKeyed merged
    → subtree to_merge q ≡ some from
    → (node from).key ≡ some key
    → HasText (node from).value
    → path_of to_merge q ≡ some path
    → segments path ≢ []
    → str_eq key (last_or [] (segments path)) ≡ true
    → (m' : Config) × (merge_node merged to_merge q ≡ next_round m')
      × IsKeyed m'
      × Carries m' path (node from).value
unfolding merge_node IsKeyed
merge_node-Carries merged to_merge from q key path keyed here k text led h last =
    let (m', run, keyed', carries) =
      place-Carries (copy_of from key) merged path key keyed tt h refl last text in
    (m', rw (here, merge_node, copied from key k text, led) run, keyed', carries)

-- The path of a node of the other tree leads to a node.
abbrev pub IsPresent : Config → Config → Position → Type 0
IsPresent to_merge m' q =
    (path : Bytes) × (path_of to_merge q ≡ some path) × (segments path ≢ []) × Leads m' path

merge_all-IsPresent :
    (qs : List Position) (merged to_merge : Config)
    → IsKeyed merged
    → All (IsMergeable to_merge) qs
    → (m' : Config) × (merge_all merged to_merge qs ≡ done ok m') × All (IsPresent to_merge m') qs
unfolding merge_all
merge_all-IsPresent [] merged to_merge keyed h = (finish merged to_merge, refl, tt)
merge_all-IsPresent (q ∷ qs) merged to_merge keyed
      ((from, key, path, here, k, text, led, n, last), h) =
    let (m1, one, keyed1, (p, c, at_p, there, has_value)) =
      merge_node-Carries merged to_merge from q key path keyed here k text led n last in
    let (m', all, present) = merge_all-IsPresent qs m1 to_merge keyed1 h in
    let still = merge_all-Keeps m1 to_merge m' ok qs all path p n at_p in
    (m', rw (one, merge_all) all, ((path, led, n, (p, still)), present))

-- A merge into a tree in which each node below the root has a key, that the rule allows, of a tree
-- whose nodes below the root each have a key and a value that is no NULL string and a path whose
-- last segment is that key, ends with status OK, and the path of each of these nodes leads to a
-- node of the merged tree.
pub merge_config-IsPresent :
    (merged to_merge : Config)
    → IsKeyed merged
    → follows_merge_rule merged to_merge ≡ true
    → All (IsMergeable to_merge) (below_root to_merge)
    → (m' : Config) × (merge_config merged (some to_merge) ≡ done ok m')
      × All (IsPresent to_merge m') (below_root to_merge)
merge_config-IsPresent merged to_merge keyed allowed h =
    let (m', run, present) = merge_all-IsPresent (below_root to_merge) merged to_merge keyed h in
    (m', merge_config-merge_all merged to_merge ∙ rw allowed run, present)

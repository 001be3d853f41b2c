-- ===== src/Tests/Merges.antt =====
-- Walking a tree and merging another one into it.
use samconf.Common.{
  List, All, ap, ◌∷◌, [], ◌++◌, some, true, false, list_eq, if◌then◌else◌, ◌≡◌, ◌≢◌, ◌⊎◌, inr, refl,
}
use samconf.Status.{ok, overwrite_not_allowed}
use samconf.Text.{Bytes, codes, str_eq, last_or}
use samconf.Path.{create_array, get_path, segments}
use samconf.Config.{
  Config, boolean, object, nil, cons, node, subtree, modify_at, copy_value, copy_config,
}
use samconf.Config.Get.{samconf_get, walk_segments, scan_children, config_get, get_walk, find_child}
use samconf.Config.Get.Crash.{IsKeyed}
use samconf.Config.Merge.{
  done, out_of_fuel, next_round, config_next, find_next, follows_merge_rule, key_chain, path_of,
  overwrite, place, merge_node, finish, merge_loop, size, merge_config,
}
use samconf.Config.Merge.{merge_configs}
use samconf.Config.Merge.Several.{merge_each, merge_configs-merge_each}
use samconf.Status.{error}
use samconf.Config.Merge.Next.{preorder, first, config_next-preorder}
use samconf.Config.Merge.Rule.{
  merge_all, below_root, merge_config-merge_all, merge_config-ne-out_of_fuel, merge_config-status,
}
use samconf.Config.Merge.Presence.{
  IsMergeable, IsPresent, Carries, merge_node-Carries, merge_config-IsPresent,
}
use samconf.Config.Merge.Carried.{Apart, AllApart, IsCarried, merge_config-IsCarried}
use samconf.Config.Merge.Again.{merge_config-again}
use samconf.Config.Merge.Keeps.{merge_config-Keeps}
use samconf.Tests.{named_node, settings, port}

-- A tree as the JSON backend loads it, with the settings below its root.
abbrev base : Config
base = named_node (codes "config") false object (cons settings nil)

-- A signed tree like it, in which root/debug has another value.
abbrev quiet : Config
quiet = named_node (codes "config") true object (
    cons
      (named_node (codes "root") true object
        (cons (named_node (codes "debug") true (boolean false) nil) nil))
      nil)

base-IsKeyed : IsKeyed base
unfolding IsKeyed
base-IsKeyed = ((_, refl), ((_, refl), ((_, refl), tt, tt), ((_, refl), tt, tt)), tt)

-- What the merge makes of the two.
abbrev merged : Config
merged = named_node (codes "config") true object (
    cons
      (named_node (codes "root") false object (
        cons (named_node (codes "server") false object (cons port nil))
          (cons (named_node (codes "debug") false (boolean false) nil) nil)))
      nil)

settings-preorder : preorder settings [] ≡ ([] ∷ (0 ∷ []) ∷ []) ++ (0 ∷ 0 ∷ []) ∷ (1 ∷ []) ∷ []
unfolding preorder
settings-preorder = refl

config_next-preorder_example :
    (config_next (some settings) (some (0 ∷ 0 ∷ []))).1 ≡ first ((1 ∷ []) ∷ [])
config_next-preorder_example =
    config_next-preorder settings ([] ∷ (0 ∷ []) ∷ []) ((1 ∷ []) ∷ []) (0 ∷ 0 ∷ [])
      settings-preorder

merge_config-merge_all_example : merge_config base (some quiet) ≡ (
    if follows_merge_rule base quiet
    then merge_all base quiet (below_root quiet)
    else done overwrite_not_allowed base)
merge_config-merge_all_example = merge_config-merge_all base quiet

merge_config-ne-out_of_fuel_example : merge_config base (some quiet) ≢ out_of_fuel
merge_config-ne-out_of_fuel_example = merge_config-ne-out_of_fuel base (some quiet)

merge_quiet : merge_config base (some quiet) ≡ done ok merged
unfolding merge_config merge_loop size config_next find_next merge_node copy_config copy_value
    path_of key_chain get_path place samconf_get create_array walk_segments scan_children overwrite
    subtree modify_at finish follows_merge_rule list_eq
merge_quiet = refl

merge_config-status_example :
    ((node base).is_signed ≡ true)
      × ((node quiet).is_signed ≡ false)
      × (ok ≡ overwrite_not_allowed)
      × (merged ≡ base)
    ⊎ (((node base).is_signed ≡ false) ⊎ ((node quiet).is_signed ≡ true)) × (ok ≡ ok)
merge_config-status_example = merge_config-status base quiet merged ok merge_quiet

merge_into_signed : merge_config quiet (some base) ≡ done overwrite_not_allowed quiet
unfolding merge_config follows_merge_rule
merge_into_signed = refl

each_merged :
    merge_configs (some base) (quiet ∷ base ∷ []) ≡ inr (merge_each (quiet ∷ base ∷ []) error base)
each_merged = merge_configs-merge_each base (quiet ∷ base ∷ [])

led_root : path_of quiet (0 ∷ []) ≡ some (codes "root")
unfolding path_of key_chain get_path subtree list_eq
led_root = refl

led_debug : path_of quiet (0 ∷ 0 ∷ []) ≡ some (codes "root/debug")
unfolding path_of key_chain get_path subtree list_eq
led_debug = refl

segments_root : segments (codes "root") ≡ codes "root" ∷ []
unfolding segments
segments_root = refl

segments_debug : segments (codes "root/debug") ≡ codes "root" ∷ codes "debug" ∷ []
unfolding segments
segments_debug = refl

segments_port :
    segments (codes "root/server/port") ≡ codes "root" ∷ codes "server" ∷ codes "port" ∷ []
unfolding segments
segments_port = refl

ne-nil : {a : Bytes} {more ss : List Bytes} → ss ≡ a ∷ more → ss ≢ []
ne-nil e none_there = cc

ends_debug : str_eq (codes "debug") (last_or [] (segments (codes "root/debug"))) ≡ true
unfolding list_eq segments
ends_debug = refl

ends_root : str_eq (codes "root") (last_or [] (segments (codes "root"))) ≡ true
unfolding list_eq segments
ends_root = refl

-- The two nodes of the tree below its root.
quiet-IsMergeable : All (IsMergeable quiet) (below_root quiet)
unfolding preorder subtree
quiet-IsMergeable = (
  (_, codes "root", codes "root", refl, refl, tt, led_root, ne-nil segments_root, ends_root),
  (
    (
      _,
      codes "debug",
      codes "root/debug",
      refl,
      refl,
      tt,
      led_debug,
      ne-nil segments_debug,
      ends_debug,
    ),
    tt,
  ),
)

allowed : follows_merge_rule base quiet ≡ true
unfolding follows_merge_rule
allowed = refl

present :
    (m' : Config) × (merge_config base (some quiet) ≡ done ok m')
    × All (IsPresent quiet m') (below_root quiet)
present = merge_config-IsPresent base quiet base-IsKeyed allowed quiet-IsMergeable

debug_written :
    (m' : Config) × (merge_node base quiet (0 ∷ 0 ∷ []) ≡ next_round m')
    × IsKeyed m'
    × Carries m' (codes "root/debug") (boolean false)
unfolding subtree
debug_written =
    merge_node-Carries base quiet (named_node (codes "debug") true (boolean false) nil) (0 ∷ 0 ∷ [])
      (codes "debug") (codes "root/debug") base-IsKeyed refl refl tt led_debug
      (ne-nil segments_debug) ends_debug

found_port : config_get (some base) (some (codes "root/server/port")) ≡ (ok, some (0 ∷ 0 ∷ 0 ∷ []))
unfolding config_get create_array get_walk find_child subtree list_eq
found_port = refl

merge_config-Keeps_example :
    config_get (some merged) (some (codes "root/server/port")) ≡ (ok, some (0 ∷ 0 ∷ 0 ∷ []))
merge_config-Keeps_example =
    merge_config-Keeps base quiet merged ok (codes "root/server/port") (0 ∷ 0 ∷ 0 ∷ []) merge_quiet
      (ne-nil segments_port) found_port

-- The paths of the two nodes of the tree below its root.
quiet-AllApart : AllApart quiet (below_root quiet)
unfolding preorder
quiet-AllApart = ((apart, tt), (tt, tt))
  where
    apart : Apart quiet (0 ∷ []) (0 ∷ 0 ∷ [])
    apart path path' e e' same =
        let p : path ≡ codes "root" = cc led_root in
        let q : path' ≡ codes "root/debug" = cc led_debug in
        cc (segments_root, segments_debug, ap segments p, ap segments q)

merge_config-IsCarried_example :
    (m' : Config) × (merge_config base (some quiet) ≡ done ok m')
    × IsKeyed m'
    × All (IsCarried quiet m') (below_root quiet)
merge_config-IsCarried_example =
    merge_config-IsCarried base quiet base-IsKeyed allowed quiet-IsMergeable quiet-AllApart

merge_config-again_example :
    (m' : Config) × (merge_config base (some quiet) ≡ done ok m')
    × (merge_config m' (some quiet) ≡ done ok m')
merge_config-again_example =
    merge_config-again base quiet base-IsKeyed allowed quiet-IsMergeable quiet-AllApart

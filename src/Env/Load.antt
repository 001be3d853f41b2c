-- ===== src/Env/Load.antt =====
-- env_backend.c: what the loaded tree holds of the environment.
use samconf.Common.{
  ℕ, Bool, false, List, [], ◌∷◌, some, ◌≡◌, ◌≢◌, ◌⊎◌, refl, sym, ap, ◌∙◌, inl, inr, Bool-cases, All,
}
use samconf.Status.{ok}
use samconf.Text.{Bytes, codes, contains, basename}
use samconf.Path.{segments}
use samconf.Config.{Config, config, nil, object, config_new, with_node}
use samconf.Config.Get.Crash.{IsKeyed, samconf_get-config_get, samconf_get-some}
use samconf.Config.Insert.Keyed.{insert_at-IsKeyed}
use samconf.Config.Insert.Keeps.{Keeps, Leads, config_get-cases, inserted-Keeps}
use samconf.Config.Insert.Laws.{insert_at-kept}
use samconf.Config.Insert.Create.{named, create_at-insert_at, create_at-get}
use samconf.Config.FromString.{value_of, set_value_from_string, set_from, create_from_string_at}
use samconf.Uri.{Uri, found, get_parameter}
use samconf.Env.{cut_entry, path_of_name, loaded, env_loop, transform_env, env_load}

-- What an entry of the environment has to be: the filter does not select it, or it has a value and its
-- name makes a path with a segment.
abbrev pub IsVariable : Bytes → Bytes → Type 0
IsVariable filter entry =
    (contains filter (cut_entry entry).0 ≡ false)
    ⊎ (segments (path_of_name (cut_entry entry).0) ≢ [])
      × ((v : Bytes) × ((cut_entry entry).1 ≡ some v))

-- The filter does not select the entry, or the path of its name leads to a node of the tree.
abbrev pub IsPlaced : Bytes → Config → Bytes → Type 0
IsPlaced filter root entry =
    (contains filter (cut_entry entry).0 ≡ false)
    ⊎ (segments (path_of_name (cut_entry entry).0) ≢ [])
      × Leads root (path_of_name (cut_entry entry).0)

module _ (strtod : Bytes → ℕ × Bytes) where
  created :
      (root : Config) (path text : Bytes)
      → segments path ≢ []
      → IsKeyed root
      → (root' : Config) × (create_from_string_at strtod (some root) (some path) (some text)
          ≡ (ok, some root'))
        × IsKeyed root'
        × Leads root' path
        × Keeps root root'
  unfolding create_from_string_at
  created root path text h keyed =
      let v = value_of strtod text in
      let sets : set_from strtod text
            (some (with_node (λ n. record n { key = some (basename path) }) config_new))
          ≡ (ok, some (named path v)) =
        unfold set_value_from_string in refl in
      let inserts = create_at-insert_at (set_from strtod text) v root path sets in
      elim (config_get-cases root path h) [
        | inl lost ↦
            let (root', q, run, at_q, is_q) =
              create_at-get (set_from strtod text) v root path sets h
                (samconf_get-config_get root (some path) keyed ∙ ap some lost) in
            (
              root',
              run,
              insert_at-IsKeyed root root' (named path v) path ok h keyed (_, refl)
                  (unfold IsKeyed in tt) (sym inserts ∙ run),
              (q, samconf_get-some root' (some path) (ok, some q) at_q),
              inserted-Keeps root path (named path v) root' ok h (sym inserts ∙ run),
            )
        | inr (p, here) ↦ (
          root,
          inserts ∙ insert_at-kept root path (named path v) p h here,
          keyed,
          (p, here),
          λ other q k led. led,
        )
      ]

  env_loop-IsPlaced :
      (filter : Bytes) (entries : List Bytes) (root : Config)
      → All (IsVariable filter) entries
      → IsKeyed root
      → (root' : Config) × (env_loop strtod filter entries ok root ≡ loaded ok root')
        × Keeps root root'
        × All (IsPlaced filter root') entries
  unfolding env_loop
  env_loop-IsPlaced filter [] root h keyed = (root, refl, (λ other p k led. led), tt)
  env_loop-IsPlaced filter (entry ∷ entries) root (inl unselected, h) keyed =
      let (root', run, keeps, all) = env_loop-IsPlaced filter entries root h keyed in
      (root', rw (unselected, env_loop) run, keeps, (inl unselected, all))
  env_loop-IsPlaced filter (entry ∷ entries) root (inr (some_segment, (v, val)), h) keyed =
      elim (Bool-cases (contains filter (cut_entry entry).0)) [
        | inr unselected ↦
            let (root', run, keeps, all) = env_loop-IsPlaced filter entries root h keyed in
            (root', rw (unselected, env_loop) run, keeps, (inl unselected, all))
        | inl selected ↦
            let path = path_of_name (cut_entry entry).0 in
            let (root1, ran, keyed1, (p, led), kept) = created root path v some_segment keyed in
            let (root', run, keeps, all) = env_loop-IsPlaced filter entries root1 h keyed1 in
            (
              root',
              rw (selected, val, env_loop, ran) run,
              (λ other q k l. keeps other q k (kept other q k l)),
              (inr (some_segment, (p, keeps path p some_segment led)), all),
            )
      ]

  -- With a URI that gives a filter, and an environment in which each variable selected by the
  -- filter has a value and a name that makes a path with a segment, the environment backend loads
  -- with status OK, and in the tree the path of each selected variable leads to a node.
  pub env_load-IsPlaced :
      (environ : List Bytes) (uri : Uri) (signed : Bool) (filter : Bytes)
      → get_parameter uri (codes "envPrefix") ≡ found filter
      → All (IsVariable filter) environ
      → (root : Config) × (env_load strtod environ uri signed ≡ loaded ok root)
        × All (IsPlaced filter root) environ
  unfolding env_load transform_env
  env_load-IsPlaced environ uri signed filter given h =
      let start : Config =
        config (record { key = some (codes "root"); is_signed = signed; value = object }) nil in
      let (root, run, keeps, all) =
        env_loop-IsPlaced filter environ start h (unfold IsKeyed in tt) in
      (root, rw (given, transform_env) run, all)

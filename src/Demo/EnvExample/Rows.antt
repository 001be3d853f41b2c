-- ===== src/Demo/EnvExample/Rows.antt =====
-- src/demo/env_example.c: the rows that are printed of a tree.
use samconf.Common.{
  List, [], ◌∷◌, ◌++◌, Option, none, some, ◌≡◌, ◌≢◌, refl, ap, ◌∙◌, inl, inr, All, Option-cases,
  append-nil, append_assoc,
}
use samconf.Text.{Bytes}
use samconf.Path.{segments}
use samconf.Config.{Config, Position}
use samconf.Config.Get.{samconf_get}
use samconf.Config.Get.Crash.{IsKeyed}
use samconf.Config.Get.Resolve.{resolve, answer, samconf_get-resolve}
use samconf.Config.Tree.{resolve-subtree}
use samconf.Dump.{Printf}
use samconf.Demo.EnvExample.{pointed, node_row, show_path, kept_or, show_paths}

module _ (printf : Printf) (c : Config) where
  -- The row of a path, if its segments lead to a node.
  abbrev pub row_at : Bytes → Bytes
  row_at path = elim (pointed c (resolve c (segments path))) [
    | none ↦ []
    | some n ↦ node_row printf path n
  ]

  abbrev pub rows_at : List Bytes → Bytes
  rows_at [] = []
  rows_at (path ∷ rest) = row_at path ++ rows_at rest

  -- A round, for what the segments lead to.
  show_path-row_at :
      (path : Bytes) (kept : Option Position) (led : Option Position)
      → resolve c (segments path) ≡ led
      → show_path printf c path (answer led).0 (kept_or kept (answer led).1) ≡ row_at path
  show_path-row_at path kept none e =
      rw (row_at, e)
        (elim (Option-cases (pointed c kept)) [
          | inl unset ↦ rw unset refl
          | inr (n, there) ↦ rw there refl
        ])
  show_path-row_at path kept (some p) e =
      let (n, here) = resolve-subtree c (segments path) p e in rw (row_at, e, show_path, here) refl

  -- In a tree in which each node below the root has a key, the loop over paths that each have a
  -- segment prints, in their order, the row of the node that the segments of a path lead to, and
  -- nothing for a path that leads nowhere, whatever `node` was before.
  pub show_paths-rows_at :
      (ps : List Bytes) (kept : Option Position) (out : Bytes)
      → IsKeyed c
      → All (λ path. segments path ≢ []) ps
      → show_paths printf c ps kept out ≡ some (out ++ rows_at ps)
  unfolding show_paths
  show_paths-rows_at [] kept out keyed h = rw append-nil
  show_paths-rows_at (path ∷ rest) kept out keyed (some_segment, h) =
      let led = answer (resolve c (segments path)) in
      let at = kept_or kept led.1 in
      let got : samconf_get (some c) (some path) ≡ some (led.0, led.1) =
        samconf_get-resolve c path keyed some_segment in
      let same = show_path-row_at path kept (resolve c (segments path)) refl in
      rw (show_paths, got)
        (show_paths-rows_at rest at (out ++ show_path printf c path led.0 at) keyed h
          ∙ (ap (λ (row : Bytes). some ((out ++ row) ++ rows_at rest)) same
              ∙ ap some (append_assoc out (row_at path) (rows_at rest))))

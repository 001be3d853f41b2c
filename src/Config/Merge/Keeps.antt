-- ===== src/Config/Merge/Keeps.antt =====
-- samconf.c: what `samconfConfigMergeConfig` leaves in place.
use samconf.Common.{
  not, ◌&&◌, List, [], ◌∷◌, Option, none, some, true, ◌≡◌, ◌≢◌, refl, sym, ◌∙◌, inl, inr,
  Option-cases, Bool-cases,
}
use samconf.Status.{Status, ok, is_ok, is_not_found}
use samconf.Text.{Bytes}
use samconf.Path.{segments}
use samconf.Config.{
  Config, config, Position, node, with_node, modify_at, subtree, copy_config, config_new,
}
use samconf.Config.Get.{config_get, samconf_get}
use samconf.Config.Tree.{KeepsShape, resolve-shape}
use samconf.Config.Insert.Keeps.{Keeps, Keeps-resolve, insert_at-Keeps}
use samconf.Config.Merge.{
  Round, next_round, leave, crash, done, config_or, overwrite, place, merge_node, path_of, finish,
  after_round, merge_config, follows_merge_rule,
}
use samconf.Config.Merge.Overlay.{
  HasText-cases, with_value-KeepsShape, overwrite-overlay, overwrite-null,
}
use samconf.Config.Merge.Rule.{merge_all, below_root, merge_config-merge_all}

pub Keeps-refl : (root : Config) → Keeps root root
Keeps-refl root other p k led = led

pub Keeps-trans : (a b c : Config) → Keeps a b → Keeps b c → Keeps a c
Keeps-trans a b c h g other p k led = g other p k (h other p k led)

pub written-Keeps :
    (root : Config) (p : Position) (f : Config → Config)
    → KeepsShape f
    → Keeps root (modify_at root p f)
written-Keeps root p f keep =
    Keeps-resolve root (modify_at root p f) (λ other. resolve-shape root p f (segments other) keep)

-- A round keeps what leads to a node, whether the loop goes on or not.
abbrev pub RoundKeeps : Config → Round → Type 0
RoundKeeps merged (next_round m) = Keeps merged m
RoundKeeps merged (leave st m) = Keeps merged m
RoundKeeps merged crash = Unit

overwrite-RoundKeeps :
    (new_node merged : Config) (o : Option Position)
    → RoundKeeps merged (overwrite new_node merged o)
unfolding overwrite
overwrite-RoundKeeps new_node merged none = Keeps-refl merged
overwrite-RoundKeeps new_node merged (some p) = elim (Option-cases (subtree merged p)) [
  | inl missing ↦ rw (missing, overwrite) tt
  | inr (c, here) ↦ elim (HasText-cases (node new_node).value) [
    | inl text ↦
        rw (overwrite-overlay new_node merged c p text here)
          (written-Keeps merged p _ (with_value-KeepsShape _))
    | inr null ↦ rw (overwrite-null new_node merged c p null here) (Keeps-refl merged)
  ]
]

place-RoundKeeps :
    (new_node merged : Config) (path : Bytes) → RoundKeeps merged (place new_node merged path)
unfolding place
place-RoundKeeps new_node merged path =
    let (st, m', run, keeps) = insert_at-Keeps merged path new_node in
    elim (Option-cases (samconf_get (some merged) (some path))) [
      | inl crashed ↦ rw (place, crashed) tt
      | inr ((status, found), got) ↦
          let over = overwrite-RoundKeeps new_node merged found in
          elim (Bool-cases (is_not_found status)) [
            | inl lost ↦ elim (Bool-cases (is_ok st)) [
              | inl fine ↦ rw (place, got, lost, run, fine) keeps
              | inr failed ↦ rw (place, got, lost, run, failed) keeps
            ]
            | inr other ↦ elim (Bool-cases (is_ok status)) [
              | inl fine ↦ rw (place, got, other, fine) over
              | inr failed ↦ rw (place, got, other, failed) (Keeps-refl merged)
            ]
          ]
    ]

pub merge_node-RoundKeeps :
    (merged to_merge : Config) (p : Position) → RoundKeeps merged (merge_node merged to_merge p)
unfolding merge_node
merge_node-RoundKeeps merged to_merge p = elim (Option-cases (subtree to_merge p)) [
  | inl missing ↦ rw (missing, merge_node) tt
  | inr (from, here) ↦ elim (Option-cases (copy_config (some from) (some config_new))) [
    | inl no_key ↦ rw (here, merge_node, no_key) tt
    | inr ((st, copied), made) ↦ elim (Bool-cases (is_ok st)) [
      | inr failed ↦ rw (here, merge_node, made, failed) (Keeps-refl merged)
      | inl fine ↦ elim (Option-cases (path_of to_merge p)) [
        | inl lost ↦ rw (here, merge_node, made, fine, lost) tt
        | inr (path, led) ↦
            rw (here, merge_node, made, fine, led)
              (place-RoundKeeps (config_or config_new copied) merged path)
      ]
    ]
  ]
]

pub sign-KeepsShape : KeepsShape (with_node (λ n. record n { is_signed = true }))
sign-KeepsShape (config n cs) = (refl, refl)

finish-Keeps : (merged to_merge : Config) → Keeps merged (finish merged to_merge)
unfolding finish modify_at
finish-Keeps merged to_merge =
    let signs = not (node merged).is_signed && (node to_merge).is_signed in
    let f : Config → Config = with_node (λ n. record n { is_signed = true }) in
    elim (Bool-cases signs) [
      | inl signed ↦ rw signed (written-Keeps merged [] f sign-KeepsShape)
      | inr unsigned ↦ rw unsigned (Keeps-refl merged)
    ]

pub merge_all-Keeps :
    (merged to_merge m' : Config) (st : Status) (qs : List Position)
    → merge_all merged to_merge qs ≡ done st m'
    → Keeps merged m'
unfolding merge_all
merge_all-Keeps merged to_merge m' st [] e =
    let same : finish merged to_merge ≡ m' = cc in rw (sym same) (finish-Keeps merged to_merge)
merge_all-Keeps merged to_merge m' st (q ∷ qs) e =
    go (merge_node merged to_merge q) (merge_node-RoundKeeps merged to_merge q)
      (λ m. merge_all-Keeps m to_merge m' st qs) e
  where
    go :
        (r : Round)
        → RoundKeeps merged r
        → ((m : Config) → merge_all m to_merge qs ≡ done st m' → Keeps m m')
        → after_round r (λ m. merge_all m to_merge qs) ≡ done st m'
        → Keeps merged m'
    go (next_round m) l h e = Keeps-trans merged m m' l (h m e)
    go (leave s m) l h e = let same : m ≡ m' = cc in rw (sym same) l
    go crash l h e = cc

-- A merge that ends without a crash, whatever its status, never moves a node that a path led to: the
-- path leads to the same position afterwards.
pub merge_config-Keeps :
    (merged to_merge m' : Config) (st : Status) (other : Bytes) (p : Position)
    → merge_config merged (some to_merge) ≡ done st m'
    → segments other ≢ []
    → config_get (some merged) (some other) ≡ (ok, some p)
    → config_get (some m') (some other) ≡ (ok, some p)
merge_config-Keeps merged to_merge m' st other p e k led =
    elim (Bool-cases (follows_merge_rule merged to_merge)) [
      | inl allowed ↦
          merge_all-Keeps merged to_merge m' st (below_root to_merge)
            (rw allowed at (sym (merge_config-merge_all merged to_merge) ∙ e)) other p k led
      | inr refused ↦
          let run = rw refused at (sym (merge_config-merge_all merged to_merge) ∙ e) in
          let same : merged ≡ m' = cc in rw (sym same) led
    ]

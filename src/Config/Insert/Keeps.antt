-- ===== src/Config/Insert/Keeps.antt =====
-- What leads to a node stays where it is.
use samconf.Common.{
  List, ◌∷◌, refl, [], none, some, ◌≡◌, ◌≢◌, ◌⊎◌, sym, ◌∙◌, inl, inr, Option-cases,
}
use samconf.Status.{Status, ok, error, not_found}
use samconf.Text.{Bytes}
use samconf.Path.{segments, create_array}
use samconf.Config.{Config, Position}
use samconf.Config.Get.{config_get}
use samconf.Config.Get.Resolve.{resolve, answer-some, config_get-resolve}
use samconf.Config.Tree.{resolve-subtree}
use samconf.Config.Insert.{insert_at, insert_loop}
use samconf.Config.Insert.Laws.{insert_at-loop, insert_at-frame}

-- What leads to a node in one tree leads to the same position in another.
abbrev pub Keeps : Config → Config → Type 0
Keeps root root' =
    (other : Bytes) (p : Position)
    → segments other ≢ []
    → config_get (some root) (some other) ≡ (ok, some p)
    → config_get (some root') (some other) ≡ (ok, some p)

-- The path leads to a node.
abbrev pub Leads : Config → Bytes → Type 0
Leads root path = (p : Position) × (config_get (some root) (some path) ≡ (ok, some p))

pub config_get-cases :
    (root : Config) (path : Bytes)
    → segments path ≢ []
    → (config_get (some root) (some path) ≡ (not_found, none)) ⊎ Leads root path
config_get-cases root path h = elim (Option-cases (resolve root (segments path))) [
  | inl missing ↦ inl (config_get-resolve root path h ∙ rw missing)
  | inr (p, here) ↦ inr (p, config_get-resolve root path h ∙ rw here)
]

pub inserted-Keeps :
    (root : Config) (path : Bytes) (conf root' : Config) (st : Status)
    → segments path ≢ []
    → insert_at (some root) (some path) (some conf) ≡ (st, some root')
    → Keeps root root'
inserted-Keeps root path conf root' st h ran other p k led =
    let resolved =
      answer-some (resolve root (segments other)) p (sym (config_get-resolve root other k) ∙ led) in
    let (c, there) = resolve-subtree root (segments other) p resolved in
    let (st', r, run, still, same) = insert_at-frame root path other conf p c h k led there in
    let e : r ≡ root' = cc in rw (sym e) still

insert_at-no_segment :
    (root : Config) (path : Bytes) (conf : Config)
    → segments path ≡ []
    → insert_at (some root) (some path) (some conf) ≡ (error, some root)
unfolding insert_at create_array
insert_at-no_segment root path conf h = rw h

-- Whatever becomes of an insertion, there is a tree, and it keeps what led to a node.
pub insert_at-Keeps :
    (root : Config) (path : Bytes) (conf : Config)
    → (st : Status) × (root' : Config) × (insert_at (some root) (some path) (some conf)
        ≡ (st, some root'))
      × Keeps root root'
insert_at-Keeps root path conf = go (segments path) refl
  where
    go :
        (segs : List Bytes)
        → segments path ≡ segs
        → (st : Status) × (root' : Config) × (insert_at (some root) (some path) (some conf)
            ≡ (st, some root'))
          × Keeps root root'
    go [] e = (error, root, insert_at-no_segment root path conf e, λ other p k led. led)
    go (seg ∷ rest) e =
        let h : segments path ≢ [] = λ n. cc in
        let out = insert_loop (segments path) 0 (segments path) root [] conf ok in
        let run = insert_at-loop root path conf h in
        (out.0, out.1, run, inserted-Keeps root path conf out.1 out.0 h run)

-- Trees in which every path leads to the same position.
pub Keeps-resolve :
    (root root' : Config)
    → ((other : Bytes) → resolve root' (segments other) ≡ resolve root (segments other))
    → Keeps root root'
Keeps-resolve root root' same other p k led =
    config_get-resolve root' other k ∙ rw (same other) (sym (config_get-resolve root other k) ∙ led)

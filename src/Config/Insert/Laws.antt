-- ===== src/Config/Insert/Laws.antt =====
-- What `samconfInsertAt` and the creating functions do to the answers of `samconfConfigGet`.
use samconf.Common.{
  true, List, [], ◌∷◌, none, some, ◌≡◌, ◌≢◌, refl, ap, ◌∙◌, sym, is_empty-eq-false, All,
}
use samconf.Status.{Status, ok, not_found}
use samconf.Text.{Bytes, last_or}
use samconf.Path.{segments, create_array, IsSegment}
use samconf.Path.Segments.{segments-IsSegment}
use samconf.Config.{Config, Position, node, subtree}
use samconf.Config.Get.{key_is, samconf_get, config_get}
use samconf.Config.Get.Crash.{samconf_get-some}
use samconf.Config.Get.Safe.{Safe, samconf_get-Safe, Safe-samconf_get}
use samconf.Config.Get.Resolve.{resolve, answer, answer-none, answer-some, config_get-resolve}
use samconf.Config.Tree.{SameNode, resolve_nil, subtree_nil}
use samconf.Config.Insert.{insert_at, insert_loop}
use samconf.Config.Insert.Loop.{insert_loop-resolve, insert_loop-exists}
use samconf.Config.Insert.Frame.{resolve-insert_loop, subtree-insert_loop}

pub insert_at-loop :
    (root : Config) (path : Bytes) (conf : Config)
    → segments path ≢ []
    → insert_at (some root) (some path) (some conf) ≡ (
        let (status, root') = insert_loop (segments path) 0 (segments path) root [] conf ok in
        (status, some root'))
unfolding insert_at create_array
insert_at-loop root path conf h = rw (is_empty-eq-false (segments path) h)

-- What inserting at a path that leads nowhere yet does to the answers; a path without a crash stays
-- one.
pub insert_at-config_get :
    (root : Config) (path : Bytes) (conf : Config)
    → segments path ≢ []
    → config_get (some root) (some path) ≡ (not_found, none)
    → key_is (node conf).key (last_or [] (segments path)) ≡ true
    → (root' : Config) × (q : Position) × (insert_at (some root) (some path) (some conf)
        ≡ (ok, some root'))
      × (config_get (some root') (some path) ≡ (ok, some q))
      × (subtree root' q ≡ some conf)
      × (Safe root (segments path) → Safe root' (segments path))
insert_at-config_get root path conf h lost key =
    let nowhere =
      answer-none (resolve root (segments path)) (sym (config_get-resolve root path h) ∙ lost) in
    let (root', q, run, at_q, is_q, safe) =
      go (segments path) (segments-IsSegment path) h nowhere key in
    (
      root',
      q,
      insert_at-loop root path conf h ∙ rw run,
      config_get-resolve root' path h ∙ rw at_q,
      is_q,
      safe,
    )
  where
    go :
        (items : List Bytes)
        → All IsSegment items
        → items ≢ []
        → resolve root items ≡ none
        → key_is (node conf).key (last_or [] items) ≡ true
        → (root' : Config) × (q : Position) × (insert_loop items 0 items root [] conf ok
            ≡ (ok, root'))
          × (resolve root' items ≡ some q)
          × (subtree root' q ≡ some conf)
          × (Safe root items → Safe root' items)
    go [] all n lost key = absurd (n refl)
    go (seg ∷ rest) all n lost key =
        insert_loop-resolve (seg ∷ rest) 0 [] seg rest root [] root conf ok refl refl all
          (resolve_nil root) (subtree_nil root) lost key

pub insert_at-kept :
    (root : Config) (path : Bytes) (conf : Config) (p : Position)
    → segments path ≢ []
    → config_get (some root) (some path) ≡ (ok, some p)
    → insert_at (some root) (some path) (some conf) ≡ (ok, some root)
insert_at-kept root path conf p h found =
    let there =
      answer-some (resolve root (segments path)) p (sym (config_get-resolve root path h) ∙ found) in
    insert_at-loop root path conf h ∙ rw (go (segments path) (segments-IsSegment path) h there)
  where
    go :
        (items : List Bytes)
        → All IsSegment items
        → items ≢ []
        → resolve root items ≡ some p
        → insert_loop items 0 items root [] conf ok ≡ (ok, root)
    go [] all n there = absurd (n refl)
    go (seg ∷ rest) all n there =
        insert_loop-exists (seg ∷ rest) 0 [] seg rest root [] root conf ok p refl refl all
          (resolve_nil root) (subtree_nil root) there

-- Inserting at a path with a segment that leads nowhere yet, as `samconfConfigGet` answers without a
-- crash, succeeds, and `samconfConfigGet` then finds at that path, again without a crash, the inserted
-- node, with all below it, if its key is the last segment.
pub insert_at-get :
    (root : Config) (path : Bytes) (conf : Config)
    → segments path ≢ []
    → samconf_get (some root) (some path) ≡ some (not_found, none)
    → key_is (node conf).key (last_or [] (segments path)) ≡ true
    → (root' : Config) × (q : Position) × (insert_at (some root) (some path) (some conf)
        ≡ (ok, some root'))
      × (samconf_get (some root') (some path) ≡ some (ok, some q))
      × (subtree root' q ≡ some conf)
insert_at-get root path conf h lost key =
    let missing = samconf_get-some root (some path) (not_found, none) lost in
    let (root', q, run, found, is_q, safe) = insert_at-config_get root path conf h missing key in
    let fine = safe (samconf_get-Safe root path (not_found, none) h lost) in
    (root', q, run, Safe-samconf_get root' path fine ∙ ap some found, is_q)

-- Inserting at a path that leads to a node already, as `samconfConfigGet` answers without a crash,
-- answers OK and changes nothing: the node given is neither linked nor copied to the existing one.
pub insert_at-existing :
    (root : Config) (path : Bytes) (conf : Config) (p : Position)
    → segments path ≢ []
    → samconf_get (some root) (some path) ≡ some (ok, some p)
    → insert_at (some root) (some path) (some conf) ≡ (ok, some root)
insert_at-existing root path conf p h found =
    insert_at-kept root path conf p h (samconf_get-some root (some path) (ok, some p) found)

-- Inserting at any path with a segment never moves a node that another path led to, and leaves its
-- key, signature mark, type and value.
pub insert_at-frame :
    (root : Config) (path other : Bytes) (conf : Config) (p : Position) (c : Config)
    → segments path ≢ []
    → segments other ≢ []
    → config_get (some root) (some other) ≡ (ok, some p)
    → subtree root p ≡ some c
    → (st : Status) × (root' : Config) × (insert_at (some root) (some path) (some conf)
        ≡ (st, some root'))
      × (config_get (some root') (some other) ≡ (ok, some p))
      × SameNode (subtree root' p) c
insert_at-frame root path other conf p c h k found there =
    let items = segments path in
    let out = insert_loop items 0 items root [] conf ok in
    let led =
      answer-some (resolve root (segments other)) p
        (sym (config_get-resolve root other k) ∙ found) in
    let leads = resolve-insert_loop items 0 items root [] conf ok (segments other) p led in
    (
      out.0,
      out.1,
      insert_at-loop root path conf h,
      config_get-resolve out.1 other k ∙ ap answer leads,
      subtree-insert_loop items 0 items root [] conf ok p c there,
    )

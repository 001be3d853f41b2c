-- ===== src/Config/Insert/Loop.antt =====
-- The loop of `samconfInsertAt`.
use samconf.Common.{
  ℕ, suc, ◌<◌, true, List, [], ◌∷◌, ◌++◌, Option, none, some, ◌≡◌, ◌≢◌, refl, ◌∙◌, sym, ap, arith,
  append_assoc, inl, inr, Option-cases, is_empty, All, length, length-append, list_eq_refl, take,
  if◌then◌else◌,
}
use mathlib.Core.List.{concat-ne-nil}
use samconf.Status.{Status, ok, not_found}
use samconf.Text.{Bytes, last_or}
use samconf.Path.{segments, get_path_until, IsSegment}
use samconf.Path.Until.{segments-get_path_until}
use samconf.Config.{
  Config, config, Position, node, children, child_count, append_child, link, subtree, modify_at,
}
use samconf.Config.Get.{key_is, find_child, config_get}
use samconf.Config.Get.Safe.{Safe}
use samconf.Config.Insert.Safe.{key_is-HasKey, Safe-object_node, last_segment, Safe-linked}
use samconf.Config.Get.Resolve.{resolve, under, answer, config_get-resolve, resolve-childless}
use samconf.Config.Tree.{
  resolve-append, resolve-modify_at, subtree-modify_at, resolve-hit, resolve-miss, resolve-step,
  find_child-child_at, subtree-append, node-link, find_child-append_none, child_at-append,
  subtree-cons, resolve_nil, subtree_nil,
}
use samconf.Config.Insert.{object_node, insert_loop}

take_prefix :
    (seen rest : List Bytes) (seg : Bytes)
    → take (suc (length seen)) (seen ++ seg ∷ rest) ≡ seen ++ seg ∷ []
take_prefix [] rest seg = refl
take_prefix (s ∷ seen) rest seg = ap (λ r. s ∷ r) (take_prefix seen rest seg)

length_prefix : (seen rest : List Bytes) (seg : Bytes) → length seen < length (seen ++ seg ∷ rest)
length_prefix [] rest seg = omega arith
length_prefix (s ∷ seen) rest seg = omega (arith, length_prefix seen rest seg)

-- What the loop asks `samconfConfigGet` at the segment behind those that led to `parent`.
prefix_get :
    (items : List Bytes) (i : ℕ) (seen rest : List Bytes) (seg : Bytes) (root : Config)
    (parent : Position) (c : Config)
    → items ≡ seen ++ seg ∷ rest
    → i ≡ length seen
    → All IsSegment items
    → resolve root seen ≡ some parent
    → subtree root parent ≡ some c
    → config_get (some root) (some (get_path_until items i))
      ≡ answer (under parent (resolve c (seg ∷ [])))
prefix_get items i seen rest seg root parent c e k all h s =
    let path = get_path_until items i in
    let fits : i < length items = rw (e, k) (length_prefix seen rest seg) in
    let names : segments path ≡ seen ++ seg ∷ [] =
      segments-get_path_until items i all fits ∙ rw (e, k) (take_prefix seen rest seg) in
    let nonempty : segments path ≢ [] = rw names (concat-ne-nil seg seen) in
    cc (
      config_get-resolve root path nonempty,
      ap (resolve root) names,
      resolve-append root seen (seg ∷ []) parent c h s,
    )

-- The new node, once linked under `parent`, is what its segment leads to.
linked :
    (seen : List Bytes) (seg : Bytes) (root : Config) (parent : Position) (c child : Config)
    → resolve root seen ≡ some parent
    → subtree root parent ≡ some c
    → find_child seg (children c) 0 ≡ none
    → key_is (node child).key seg ≡ true
    → (resolve (modify_at root parent (link child)) (seen ++ seg ∷ [])
        ≡ some (parent ++ child_count (children c) ∷ []))
      × (subtree (modify_at root parent (link child)) (parent ++ child_count (children c) ∷ [])
          ≡ some child)
linked seen seg root parent (config n cs) child h s missing k =
    let keep = node-link child in
    let hit = find_child-append_none seg cs 0 (child_count cs) child missing k (omega arith) in
    let count = child_count cs in
    (
      rw (
        resolve-modify_at root seen (seg ∷ []) parent (config n cs) (link child) keep h s,
        resolve-hit seg (link child (config n cs)) child count [] hit,
        resolve_nil,
      ),
      rw (
        subtree-modify_at root parent (count ∷ []) (config n cs) (link child) s,
        subtree-cons n (append_child cs child) count child [] (child_at-append cs child),
        subtree_nil,
      ),
    )

under-eq-none : (p : Position) (o : Option Position) → under p o ≡ none → o ≡ none
under-eq-none p none h = refl
under-eq-none p (some q) h = cc

-- One round of the loop at a segment that a child has, and one where none has it.
pub round_found :
    (items : List Bytes) (i : ℕ) (seg t : Bytes) (rest : List Bytes) (root : Config)
    (parent q : Position) (conf : Config) (st : Status)
    → config_get (some root) (some (get_path_until items i)) ≡ (ok, some q)
    → insert_loop items i (seg ∷ t ∷ rest) root parent conf st
      ≡ insert_loop items (suc i) (t ∷ rest) root q conf ok
unfolding insert_loop
round_found items i seg t rest root parent q conf st h = rw h

pub round_exists :
    (items : List Bytes) (i : ℕ) (seg : Bytes) (root : Config) (parent q : Position) (conf : Config)
    (st : Status)
    → config_get (some root) (some (get_path_until items i)) ≡ (ok, some q)
    → insert_loop items i (seg ∷ []) root parent conf st ≡ (ok, root)
unfolding insert_loop
round_exists items i seg root parent q conf st h = rw h

pub round_missing :
    (items : List Bytes) (i : ℕ) (seg : Bytes) (rest : List Bytes) (root : Config)
    (parent : Position) (c conf : Config) (st : Status)
    → config_get (some root) (some (get_path_until items i)) ≡ (not_found, none)
    → subtree root parent ≡ some c
    → insert_loop items i (seg ∷ rest) root parent conf st
      ≡ insert_loop items
          (suc i)
          rest
          (modify_at root parent (link (if is_empty rest then conf else object_node seg)))
          (parent ++ child_count (children c) ∷ [])
          conf
          ok
unfolding insert_loop
round_missing items i seg rest root parent c conf st h s = rw (h, s)

pub round_last :
    (items : List Bytes) (i : ℕ) (seg : Bytes) (root : Config) (parent : Position) (conf : Config)
    (st : Status)
    → config_get (some root) (some (get_path_until items i)) ≡ (not_found, none)
    → insert_loop items i (seg ∷ []) root parent conf st ≡ (ok, modify_at root parent (link conf))
unfolding insert_loop
round_last items i seg root parent conf st h = rw h

-- The segments up to one that a child of the node they led to has.
followed :
    (seen : List Bytes) (seg : Bytes) (root : Config) (parent : Position) (c d : Config) (j : ℕ)
    → resolve root seen ≡ some parent
    → subtree root parent ≡ some c
    → find_child seg (children c) 0 ≡ some (j, d)
    → (resolve root (seen ++ seg ∷ []) ≡ some (parent ++ j ∷ []))
      × (subtree root (parent ++ j ∷ []) ≡ some d)
followed seen seg root parent (config n cs) d j h s hit = (
  rw (
    resolve-append root seen (seg ∷ []) parent (config n cs) h s,
    resolve-hit seg (config n cs) d j [] hit,
    resolve_nil,
  ),
  rw (
    subtree-append root parent (j ∷ []) (config n cs) s,
    subtree-cons n cs j d [] (find_child-child_at seg cs j d hit).0,
    subtree_nil,
  ),
)

one_more :
    (i : ℕ) (seen : List Bytes) (seg : Bytes) → i ≡ length seen → suc i ≡ length (seen ++ seg ∷ [])
one_more i seen seg k = omega (arith, length-append seen (seg ∷ []))

resolve_hit_nil :
    (seg : Bytes) (c d : Config) (j : ℕ)
    → find_child seg (children c) 0 ≡ some (j, d)
    → resolve c (seg ∷ []) ≡ some (j ∷ [])
resolve_hit_nil seg c d j hit = rw (resolve-hit seg c d j [] hit, resolve_nil)

-- The loop, from segments that led to `parent`, when the rest leads nowhere below it. No path of
-- the segments that was without a crash gets one.
pub insert_loop-resolve :
    (items : List Bytes) (i : ℕ) (seen : List Bytes) (seg : Bytes) (rest : List Bytes)
    (root : Config) (parent : Position) (c conf : Config) (st : Status)
    → items ≡ seen ++ seg ∷ rest
    → i ≡ length seen
    → All IsSegment items
    → resolve root seen ≡ some parent
    → subtree root parent ≡ some c
    → resolve c (seg ∷ rest) ≡ none
    → key_is (node conf).key (last_or [] (seg ∷ rest)) ≡ true
    → (root' : Config) × (q : Position) × (insert_loop items i (seg ∷ rest) root parent conf st
        ≡ (ok, root'))
      × (resolve root' items ≡ some q)
      × (subtree root' q ≡ some conf)
      × (Safe root items → Safe root' items)
insert_loop-resolve items i seen seg [] root parent c conf st e k all h s lost key =
    elim (Option-cases (find_child seg (children c) 0)) [
      | inr ((j, d), hit) ↦ cc (resolve_hit_nil seg c d j hit)
      | inl missing ↦
          let asked = prefix_get items i seen [] seg root parent c e k all h s in
          let got = linked seen seg root parent c conf h s missing key in
          (
            modify_at root parent (link conf),
            parent ++ child_count (children c) ∷ [],
            round_last items i seg root parent conf st
                (asked ∙ ap (λ o. answer (under parent o)) (resolve-miss seg c [] missing)),
            rw e got.0,
            got.1,
            Safe-linked items root parent conf (key_is-HasKey conf (last_or [] (seg ∷ [])) key)
                (λ ss n. last_segment items seen seg root parent conf e h ss n),
          )
    ]
insert_loop-resolve items i seen seg (t ∷ rest) root parent c conf st e k all h s lost key =
    elim (Option-cases (find_child seg (children c) 0)) [
      | inr ((j, d), hit) ↦
          let asked = prefix_get items i seen (t ∷ rest) seg root parent c e k all h s in
          let (led, there) = followed seen seg root parent c d j h s hit in
          let (root', q, run, at_q, is_q, safe) =
            insert_loop-resolve items (suc i) (seen ++ seg ∷ []) t rest root (parent ++ j ∷ []) d
              conf ok (e ∙ sym (append_assoc seen (seg ∷ []) (t ∷ rest))) (one_more i seen seg k)
              all led there
              (under-eq-none (j ∷ []) (resolve d (t ∷ rest))
                (sym (resolve-hit seg c d j (t ∷ rest) hit) ∙ lost))
              key in
          (
            root',
            q,
            round_found items i seg t rest root parent (parent ++ j ∷ []) conf st
                  (asked ∙ ap (λ o. answer (under parent o)) (resolve_hit_nil seg c d j hit))
                ∙ run,
            at_q,
            is_q,
            safe,
          )
      | inl missing ↦
          let asked = prefix_get items i seen (t ∷ rest) seg root parent c e k all h s in
          let (led, there) =
            linked seen seg root parent c (object_node seg) h s missing (list_eq_refl seg) in
          let (root', q, run, at_q, is_q, safe) =
            insert_loop-resolve items (suc i) (seen ++ seg ∷ []) t rest
              (modify_at root parent (link (object_node seg)))
              (parent ++ child_count (children c) ∷ []) (object_node seg) conf ok
              (e ∙ sym (append_assoc seen (seg ∷ []) (t ∷ rest))) (one_more i seen seg k) all led
              there (resolve-childless (object_node seg) (t ∷ rest) refl (λ x. cc)) key in
          (
            root',
            q,
            round_missing items i seg (t ∷ rest) root parent c conf st
                  (asked ∙ ap (λ o. answer (under parent o)) (resolve-miss seg c [] missing)) s
                ∙ run,
            at_q,
            is_q,
            (λ was. safe (
                Safe-linked items root parent (object_node seg) (seg, refl)
                  (λ ss n. Safe-object_node seg ss) was)),
          )
    ]

-- The loop, from segments that led to `parent`, when the rest leads to a node: nothing changes.
pub insert_loop-exists :
    (items : List Bytes) (i : ℕ) (seen : List Bytes) (seg : Bytes) (rest : List Bytes)
    (root : Config) (parent : Position) (c conf : Config) (st : Status) (q : Position)
    → items ≡ seen ++ seg ∷ rest
    → i ≡ length seen
    → All IsSegment items
    → resolve root seen ≡ some parent
    → subtree root parent ≡ some c
    → resolve c (seg ∷ rest) ≡ some q
    → insert_loop items i (seg ∷ rest) root parent conf st ≡ (ok, root)
insert_loop-exists items i seen seg [] root parent c conf st q e k all h s there =
    round_exists items i seg root parent (parent ++ q) conf st (
      prefix_get items i seen [] seg root parent c e k all h s
      ∙ ap (λ o. answer (under parent o)) there)
insert_loop-exists items i seen seg (t ∷ rest) root parent c conf st q e k all h s there =
    let (j, d, r, hit, deep, _) = resolve-step seg c (t ∷ rest) q there in
    let asked = prefix_get items i seen (t ∷ rest) seg root parent c e k all h s in
    let (led, below) = followed seen seg root parent c d j h s hit in
    round_found items i seg t rest root parent (parent ++ j ∷ []) conf st
      (asked ∙ ap (λ o. answer (under parent o)) (resolve_hit_nil seg c d j hit))
    ∙ insert_loop-exists items (suc i) (seen ++ seg ∷ []) t rest root (parent ++ j ∷ []) d conf ok r
        (e ∙ sym (append_assoc seen (seg ∷ []) (t ∷ rest))) (one_more i seen seg k) all led below
        deep

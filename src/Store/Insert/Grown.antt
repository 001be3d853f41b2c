-- ===== src/Store/Insert/Grown.antt =====
-- `samconfInsertAt` on pointers, against that on trees.
use samconf.Common.{
  ℕ, suc, ◌+◌, ◌≤◌, List, [], ◌∷◌, ◌++◌, Option, none, some, ◌≡◌, ◌≢◌, refl, sym, ◌∙◌, inl, inr,
  arith, All, length, is_empty-eq-false,
}
use samconf.Status.{Status, ok}
use samconf.Text.{Bytes}
use samconf.Path.{segments, create_array, get_path_until, IsSegment}
use samconf.Path.Segments.{segments-IsSegment}
use samconf.Config.{Config, Position, child_count, children, link, modify_at}
use samconf.Config.Insert.{insert_loop, insert_at}
use samconf.Config.Insert.Loop.{round_found, round_exists, round_missing, round_last}
use samconf.Config.Insert.Laws.{insert_at-loop}
use samconf.Store.{Addr, Store, Walk, walked, store_add}
use samconf.Store.Laid.{Laid, laid, empty, address, erase, LiesIn, AreDistinct, laid_at, link_at}
use samconf.Store.Add.{AreApart, address-link_at, store_add-LiesIn}
use samconf.Store.Lookup.{IsNamed}
use samconf.Store.Insert.{object_members, store_insert_loop, store_insert_at}
use samconf.Store.Distinct.{link_at-IsAddress}
use samconf.Store.Insert.Ready.{AreReady, Grows, asked, got_some, got_none, goes_on}
use samconf.Store.Insert.Rounds.{store_exists, store_links, store_descends, store_grows}
use samconf.Store.Insert.Links.{subtree-erase}

-- From the round i on, the memory for new nodes is free.
abbrev IsFreeFrom : (ℕ → Addr) → ℕ → Store → Type 0
IsFreeFrom alloc i s = (j : ℕ) → i ≤ j → s (alloc j) ≡ none

module _ (alloc : ℕ → Addr) (distinct_nodes : (i j : ℕ) → alloc i ≡ alloc j → i ≡ j)
    (items : List Bytes) (all : All IsSegment items) where
  -- The loop stops with the tree that is there.
  stopped :
      (s : Store) (up up' : Option Addr) (t u : Laid) (w : Walk (Status × Store))
      (r : Status × Config)
      → AreReady s up up' t u
      → w ≡ walked (ok, s)
      → r ≡ (ok, erase t)
      → Grows alloc s up t u w r
  stopped s up up' t u w r (h, distinct, _, _, _, _) ran same =
      rw (ran, same) (t, s, refl, h, distinct, refl, refl, (λ x m. inl (inl m)), (λ x n m k. refl))

  -- The last segment, if no node is there.
  last_linked :
      (s : Store) (up up' : Option Addr) (t u d : Laid) (p : Position) (w : Walk (Status × Store))
      (r : Status × Config)
      → AreReady s up up' t u
      → laid_at t p ≡ some d
      → ((s' : Store)
          → store_add (some (address d)) (some (address u)) s ≡ some (ok, s')
          → w ≡ walked (ok, s'))
      → r ≡ (ok, modify_at (erase t) p (link (erase u)))
      → Grows alloc s up t u w r
  last_linked s up up' t u d p w r (h, distinct, named, lies, own, apart) at ran same =
      let (s', added, h', distinct', erased, elsewhere) =
        store_add-LiesIn s up up' t u d p h distinct lies own apart at in
      rw (ran s' added, same)
        (
          link_at t p u,
          s',
          refl,
          h',
          distinct',
          erased,
          address-link_at t p u,
          (λ x m. inl (link_at-IsAddress x t p u m)),
          (λ x m k made. elsewhere x m k),
        )

  loop-Grows :
      (rest : List Bytes) (i : ℕ) (s : Store) (up up' : Option Addr) (root : Addr)
      (existing : Option Addr) (t u d : Laid) (p : Position) (st : Status) (seg : Bytes)
      → i + suc (length rest) ≡ length items
      → IsFreeFrom alloc i s
      → AreReady s up up' t u
      → root ≡ address t
      → laid_at t p ≡ some d
      → Grows alloc s up t u
          (store_insert_loop alloc items i
            (seg ∷ rest)
            (some root)
            (some (address d))
            existing
            (address u)
            st
            s)
          (insert_loop items i (seg ∷ rest) (erase t) p (erase u) st)
  loop-Grows [] i s up up' root existing t u d p st seg count free ready is_root at =
      let (h, distinct, named, _, _, _) = ready in
      elim (asked items i (erase t) all (omega (arith, count))) [
        | inl lost ↦
            let got = got_none s up t (get_path_until items i) h named lost in
            last_linked s up up' t u d p _ _ ready at
              (λ s' added.
                store_links alloc items i seg (some root) (some (address d)) existing (address u) st
                  s s' (rw is_root got) added)
              (round_last items i seg (erase t) p (erase u) st lost)
        | inr (q, found) ↦
            let (e, there, got) = got_some s up t (get_path_until items i) q h named found in
            stopped s up up' t u _ _ ready
              (store_exists alloc items i seg (some root) (some (address d)) existing (address u) st
                s (some (address e)) (rw is_root got))
              (round_exists items i seg (erase t) p q (erase u) st found)
      ]
  loop-Grows (seg' ∷ rest) i s up up' root existing t u d p st seg count free ready is_root at =
      let (h, distinct, named, _, _, _) = ready in
      elim (asked items i (erase t) all (omega (arith, count))) [
        | inl lost ↦
            let got = got_none s up t (get_path_until items i) h named lost in
            goes_on alloc i s seg up up' t u d p _ _ (free i (omega arith)) ready at
              (λ s2 t2 ready2 same there added grown unused.
                let further =
                  loop-Grows rest (suc i) s2 up up' root existing t2 u
                    (laid (alloc i) (object_members seg) empty)
                    (p ++ child_count (children (erase d)) ∷ []) ok seg' (omega (arith, count))
                    (λ j le.
                      unused (alloc j)
                        (λ e.
                          let same_round : j ≡ i = distinct_nodes j i e in
                          absurd (omega (arith, le)))
                        (free j (omega (arith, le))))
                    ready2 (is_root ∙ sym same) there in
                rw
                  (
                    store_grows alloc items i seg (some root) (some (address d)) existing
                        (address u) st s seg' rest s2 (rw is_root got) added,
                    round_missing items i seg (seg' ∷ rest) (erase t) p (erase d) (erase u) st lost
                        (subtree-erase t d p at),
                    sym grown,
                  )
                  further)
        | inr (q, found) ↦
            let (e, there, got) = got_some s up t (get_path_until items i) q h named found in
            let further =
              loop-Grows rest (suc i) s up up' root (some (address e)) t u e q ok seg'
                (omega (arith, count)) (λ j le. free j (omega (arith, le))) ready is_root there in
            rw
              (
                store_descends alloc items i seg (some root) (some (address d)) existing (address u)
                    st s seg' rest (address e) (rw is_root got),
                round_found items i seg seg' rest (erase t) p q (erase u) st found,
              )
              further
      ]

  all_Grows :
      (s : Store) (up up' : Option Addr) (t u : Laid)
      → items ≢ []
      → IsFreeFrom alloc 0 s
      → AreReady s up up' t u
      → Grows alloc s up t u
          (store_insert_loop alloc items 0 items
            (some (address t))
            (some (address t))
            none
            (address u)
            ok
            s)
          (insert_loop items 0 items (erase t) [] (erase u) ok)
  unfolding laid_at
  all_Grows s up up' t u nonempty free ready = go items refl nonempty
    where
      go :
          (rest : List Bytes)
          → rest ≡ items
          → rest ≢ []
          → Grows alloc s up t u
              (store_insert_loop alloc items 0 rest
                (some (address t))
                (some (address t))
                none
                (address u)
                ok
                s)
              (insert_loop items 0 rest (erase t) [] (erase u) ok)
      go [] same n = absurd (n refl)
      go (seg ∷ rest) same n =
          let count : 0 + suc (length rest) ≡ length items = rw (sym same) (omega arith) in
          loop-Grows rest 0 s up up' (address t) none t u t [] ok seg count free ready refl refl

-- From the pointers to a tree in which each node below the root has a key and to another tree, which lie
-- in memory, no two nodes of them at one address, with `samconfConfigNew` giving memory that holds no
-- node, another one in each round, `samconfInsertAt` at a path with a segment ends without a crash. It
-- answers what it answers on trees, and the tree at the root is then the one that it makes on trees, the
-- parent of each node right and no two nodes at one address. Its nodes are those of the two trees, or were
-- made, and all other memory is as it was.
pub store_insert_at-Grows :
    (alloc : ℕ → Addr) (s : Store) (up up' : Option Addr) (t u : Laid) (path : Bytes)
    → ((i j : ℕ) → alloc i ≡ alloc j → i ≡ j)
    → ((i : ℕ) → s (alloc i) ≡ none)
    → segments path ≢ []
    → LiesIn s up t
    → AreDistinct t
    → IsNamed t
    → LiesIn s up' u
    → AreDistinct u
    → AreApart t u
    → (st : Status) × (c : Config) × (insert_at (some (erase t)) (some path) (some (erase u))
        ≡ (st, some c))
      × Grows alloc s up t u
          (store_insert_at alloc (some (address t)) (some path) (some (address u)) s)
          (st, c)
unfolding store_insert_at create_array
store_insert_at-Grows alloc s up up' t u path differ free some_segment h distinct named lies own
      apart =
    let grown =
      all_Grows alloc differ (segments path) (segments-IsSegment path) s up up' t u some_segment
        (λ j le. free j) (h, distinct, named, lies, own, apart) in
    let out = insert_loop (segments path) 0 (segments path) (erase t) [] (erase u) ok in
    (
      out.0,
      out.1,
      insert_at-loop (erase t) path (erase u) some_segment,
      rw (is_empty-eq-false (segments path) some_segment) grown,
    )

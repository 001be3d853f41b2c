-- ===== src/Store/Onward.antt =====
-- `samconfConfigNext` on pointers, against that on positions.
use samconf.Common.{
  ℕ, zero, suc, ◌+◌, ◌≤◌, ◌==◌, Bool, true, false, [], ◌∷◌, ◌++◌, Option, none, some, ◌≡◌, refl,
  sym, inl, inr, arith, Bool-cases, list_eq, list_eq_iff,
}
use mathlib.Core.Path.{subst}
use samconf.Status.{Status, not_found}
use samconf.Config.{Position}
use samconf.Config.Merge.{Search, find_next, find_next_children, config_next, size, size_children}
use samconf.Store.{Addr, Store, Walk, walked, visit_all, store_find_next, store_next}
use samconf.Store.Laid.{
  Laid, laid, Laids, empty, more, address, roots, erase, erase_all, LiesIn, AllLieIn, AreDistinct,
  laid_at,
}
use samconf.Store.Add.{eq_self, eq-ne}
use samconf.Store.Positions.{
  laid_at-inj, pointer_to, Stands, StandAt, StandAt-children, StandAt-head, StandAt-tail,
}

-- What a search on positions leaves, as one on pointers leaves it.
abbrev image : Laid → Search → Walk (Status × Bool × Option Addr)
image t r = walked (r.status, r.found, pointer_to t r.next)

-- A search on pointers does what one on positions does.
abbrev Agree : Laid → Walk (Status × Bool × Option Addr) → Search → Type 0
Agree t w r = (w ≡ image t r) × Stands t r.next

module _ (s : Store) (t d : Laid) (p : Position) (distinct : AreDistinct t)
    (there : laid_at t p ≡ some d) where
  -- The comparison of pointers is that of positions.
  compare :
      (e : Laid) (at : Position) → laid_at t at ≡ some e → (address e == address d) ≡ list_eq at p
  compare e at here = elim (Bool-cases (list_eq at p)) [
    | inl same ↦
        let eqs : at ≡ p = (list_eq_iff at p).0 same in
        let one : e ≡ d = cc in
        rw same (subst (λ x. (address x == address d) ≡ true) (sym one) (eq_self (address d)))
    | inr other ↦ rw other (
        eq-ne (address e) (address d) (λ q.
          let eqs : at ≡ p = laid_at-inj t e d at p distinct here there q in
          let same : list_eq at p ≡ true = (list_eq_iff at p).1 eqs in cc))
  ]

  mutual
    unfolding laid_at LiesIn erase find_next size store_find_next

    store_find_next-Agree :
        (e : Laid) (at : Position) (up : Option Addr) (fuel : ℕ) (st : Status) (found : Bool)
        (next : Option Position)
        → laid_at t at ≡ some e
        → LiesIn s up e
        → size (erase e) ≤ fuel
        → Stands t next
        → Agree t
            (store_find_next fuel s (address d) (address e) (st, found, pointer_to t next))
            (find_next (erase e) at p found next)
    store_find_next-Agree (laid a n ds) at up zero st found next here lies enough stands =
        absurd (omega (arith, enough))
    store_find_next-Agree (laid a n ds) at up (suc fuel) st found (some q) here lies enough
          (e, is_q) =
        (rw is_q refl, (e, is_q))
    store_find_next-Agree (laid a n ds) at up (suc fuel) st true none here lies enough stands =
        (rw here refl, (_, here))
    store_find_next-Agree (laid a n ds) at up (suc fuel) st false none here (cell, below) enough
          stands =
        let (ran, stands') =
          visit_all-Agree ds at (some a) fuel 0 not_found (list_eq at p) none
            (StandAt-children t a n ds at here) below (omega (arith, enough)) tt in
        (rw (store_find_next, cell, compare (laid a n ds) at here) ran, stands')

    visit_all-Agree :
        (ds : Laids) (at : Position) (up : Option Addr) (fuel i : ℕ) (st : Status) (found : Bool)
        (next : Option Position)
        → StandAt t at i ds
        → AllLieIn s up ds
        → size_children (erase_all ds) ≤ fuel
        → Stands t next
        → Agree t
            (visit_all
              (store_find_next fuel s (address d))
              (roots ds)
              (st, found, pointer_to t next))
            (find_next_children
              (erase_all ds)
              at
              i
              p
              (record { status = st; found = found; next = next }))
    visit_all-Agree empty at up fuel i st found next h lies enough stands = (refl, stands)
    visit_all-Agree (more e ds) at up fuel i st found next h (first, lies) enough stands =
        let (ran, stands1) =
          store_find_next-Agree e (at ++ i ∷ []) up fuel st found next (StandAt-head t e at i ds h)
            first (omega (arith, enough)) stands in
        let one = find_next (erase e) (at ++ i ∷ []) p found next in
        let (rest, stands2) =
          visit_all-Agree ds at up fuel (i + 1) one.status one.found one.next
            (StandAt-tail t e at i ds h) lies (omega (arith, enough)) stands1 in
        (rw ran rest, stands2)

-- From the pointers to a tree whose nodes have distinct addresses and to a node of it, and with no less
-- fuel than the tree has nodes, `samconfConfigNext` answers what it answers on positions, and stores the
-- pointer to the node at the position that it gives, which is one of the tree, or NULL where it gives
-- none. In particular its recursion ends, and it accesses no memory outside of the tree.
pub store_next-config_next :
    (s : Store) (up : Option Addr) (t d : Laid) (p : Position) (fuel : ℕ)
    → LiesIn s up t
    → AreDistinct t
    → laid_at t p ≡ some d
    → size (erase t) ≤ fuel
    → (store_next fuel s (some (address t)) (some (address d))
        ≡ walked (
          (config_next (some (erase t)) (some p)).0,
          pointer_to t (config_next (some (erase t)) (some p)).1,
        ))
      × Stands t (config_next (some (erase t)) (some p)).1
unfolding store_next config_next laid_at
store_next-config_next s up t d p fuel h distinct there enough =
    let (ran, stands) =
      store_find_next-Agree s t d p distinct there t [] up fuel not_found false none refl h enough
        tt in
    (rw ran refl, stands)

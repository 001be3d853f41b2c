-- ===== src/Store/Add.antt =====
-- `samconfConfigAdd` on pointers, as the linking of one tree into another.
use samconf.Common.{
  ℕ, zero, suc, true, false, List, [], ◌∷◌, ◌++◌, Option, some, ◌≡◌, ◌≢◌, refl, sym, ap, ◌∙◌, inl,
  inr, ◌==◌, ==_iff, Bool-cases,
}
use mathlib.Core.Path.{subst}
use samconf.Status.{ok}
use samconf.Config.{Node, Position, modify_at, link}
use samconf.Store.{Addr, Cell, Store, write, store_add}
use samconf.Store.Laid.{
  Laid, laid, Laids, empty, more, address, roots, erase, LiesIn, AllLieIn, IsAddress, IsAddressIn,
  AreDistinct, AreDistinctIn, laid_at, laid_in, append_laid, link_at, link_in,
}
use samconf.Store.Distinct.{link_at-AreDistinct}
use samconf.Store.Frame.{
  laid_at-LiesIn, LiesIn-cell, LiesIn-frame, AllLieIn-frame, laid_at-IsAddress, laid_in-IsAddressIn,
  address-IsAddress, roots-append, erase-link_at,
}

-- No address is that of a node of both trees.
abbrev pub AreApart : Laid → Laid → Type 0
AreApart t u = (x : Addr) → IsAddress x t → IsAddress x u → ⊥

pub address-link_at : (d : Laid) (p : Position) (u : Laid) → address (link_at d p u) ≡ address d
unfolding link_at
address-link_at (laid a n ds) [] u = refl
address-link_at (laid a n ds) (i ∷ p) u = refl

roots-link_in : (ds : Laids) (i : ℕ) (p : Position) (u : Laid) → roots (link_in ds i p u) ≡ roots ds
unfolding link_at
roots-link_in empty i p u = refl
roots-link_in (more d ds) zero p u = ap (λ x. x ∷ roots ds) (address-link_at d p u)
roots-link_in (more d ds) (suc i) p u = ap (λ l. address d ∷ l) (roots-link_in ds i p u)

-- The new store differs from the old one at a, where a child b is added, and at b.
module _ (s s' : Store) (a b : Addr) (u : Laid) (is_b : address u ≡ b)
    (at_a : (n : Node) (up : Option Addr) (as' : List Addr)
      → s a ≡ some (record { node = n; parent = up; children = as' })
      → s' a ≡ some (record { node = n; parent = up; children = as' ++ b ∷ [] }))
    (elsewhere : (x : Addr) → x ≢ a → x ≢ b → s' x ≡ s x) (lies : LiesIn s' (some a) u) where
  append-AllLieIn :
      (up : Option Addr) (ds : Laids)
      → up ≡ some a
      → AllLieIn s' up ds
      → AllLieIn s' up (append_laid ds u)
  unfolding LiesIn
  append-AllLieIn up empty e h = (rw e lies, tt)
  append-AllLieIn up (more d ds) e (h, hs) = (h, append-AllLieIn up ds e hs)

  mutual
    unfolding LiesIn IsAddress AreDistinct laid_at link_at

    link_at-LiesIn :
        (up : Option Addr) (t d : Laid) (p : Position)
        → LiesIn s up t
        → AreDistinct t
        → laid_at t p ≡ some d
        → address d ≡ a
        → (IsAddress b t → ⊥)
        → LiesIn s' up (link_at t p u)
    link_at-LiesIn up (laid c n ds) d [] (here, below) (apart, distinct) at is_a fresh =
        let same : laid c n ds ≡ d = cc in
        let c_is : c ≡ a = ap address same ∙ is_a in
        let listed : roots ds ++ b ∷ [] ≡ roots (append_laid ds u) =
          ap (λ y. roots ds ++ y ∷ []) (sym is_b) ∙ sym (roots-append ds u) in
        let kept = AllLieIn-frame s s' (some c) ds below (λ x m.
          elsewhere x (λ q. apart (subst (λ z. IsAddressIn z ds) (q ∙ sym c_is) m))
            (λ q. fresh (inr (subst (λ z. IsAddressIn z ds) q m)))) in
        (
          ap s' c_is
              ∙ at_a n up (roots ds) (ap s (sym c_is) ∙ here)
              ∙ ap (λ (l : List Addr). some (record { node = n; parent = up; children = l }))
                  listed,
          append-AllLieIn (some c) ds (ap some c_is) kept,
        )
    link_at-LiesIn up (laid c n ds) d (i ∷ p) (here, below) (apart, distinct) at is_a fresh =
        let a_in = laid_in-IsAddressIn ds d i p (address d) at (address-IsAddress d) in
        let kept : s' c ≡ s c =
          elsewhere c (λ q. apart (subst (λ z. IsAddressIn z ds) (is_a ∙ sym q) a_in))
            (λ q. fresh (inl (sym q))) in
        (
          kept
              ∙ here
              ∙ ap (λ (l : List Addr). some (record { node = n; parent = up; children = l }))
                  (sym (roots-link_in ds i p u)),
          link_in-AllLieIn (some c) ds d i p below distinct at is_a (λ m. fresh (inr m)),
        )

    link_in-AllLieIn :
        (up : Option Addr) (ds : Laids) (d : Laid) (i : ℕ) (p : Position)
        → AllLieIn s up ds
        → AreDistinctIn ds
        → laid_in ds i p ≡ some d
        → address d ≡ a
        → (IsAddressIn b ds → ⊥)
        → AllLieIn s' up (link_in ds i p u)
    link_in-AllLieIn up empty d i p h distinct at is_a fresh = tt
    link_in-AllLieIn up (more e ds) d zero p (h, hs) (distinct, apart, rest) at is_a fresh =
        let a_in = laid_at-IsAddress e d p (address d) at (address-IsAddress d) in
        (
          link_at-LiesIn up e d p h distinct at is_a (λ m. fresh (inl m)),
          AllLieIn-frame s s' up ds hs (λ x m.
              elsewhere x (λ q. apart x (subst (λ z. IsAddress z e) (is_a ∙ sym q) a_in) m)
                (λ q. fresh (inr (subst (λ z. IsAddressIn z ds) q m)))),
        )
    link_in-AllLieIn up (more e ds) d (suc i) p (h, hs) (distinct, apart, rest) at is_a fresh =
        let a_in = laid_in-IsAddressIn ds d i p (address d) at (address-IsAddress d) in
        (
          LiesIn-frame s s' up e h (λ x m.
              elsewhere x (λ q. apart x m (subst (λ z. IsAddressIn z ds) (is_a ∙ sym q) a_in))
                (λ q. fresh (inl (subst (λ z. IsAddress z e) q m)))),
          link_in-AllLieIn up ds d i p hs rest at is_a (λ m. fresh (inr m)),
        )

pub eq_self : (a : Addr) → (a == a) ≡ true
eq_self a = (==_iff a a).1 refl

pub eq-ne : (a b : Addr) → a ≢ b → (a == b) ≡ false
eq-ne a b h = elim (Bool-cases (a == b)) [ inl e ↦ absurd (h ((==_iff a b).0 e)) | inr e ↦ e ]

-- The store behind the two writes.
abbrev added : Addr → Addr → Cell → Cell → Store → Store
added a b cell child s =
    write b (record child { parent = some a })
      (write a (record cell { children = cell.children ++ b ∷ [] }) s)

store_add-added :
    (s : Store) (a b : Addr) (cell child : Cell)
    → s a ≡ some cell
    → s b ≡ some child
    → b ≢ a
    → store_add (some a) (some b) s ≡ some (ok, added a b cell child s)
unfolding store_add
store_add-added s a b cell child at_a at_b apart = rw (store_add, at_a, eq-ne b a apart, at_b) refl

module _ (s : Store) (a b : Addr) (cell child : Cell) where
  added_elsewhere : (x : Addr) → x ≢ a → x ≢ b → added a b cell child s x ≡ s x
  added_elsewhere x p q = rw (eq-ne x b q, eq-ne x a p) refl

  added_parent :
      a ≢ b → added a b cell child s a ≡ some (record cell { children = cell.children ++ b ∷ [] })
  added_parent h = rw (eq-ne a b h, eq_self a) refl

  added_child : added a b cell child s b ≡ some (record child { parent = some a })
  added_child = rw (eq_self b) refl

same_cell :
    (s : Store) (a : Addr) (cell : Cell) → s a ≡ some cell → {c : Cell} → s a ≡ some c → cell ≡ c
same_cell s a cell h e = cc

-- Linking a tree that lies in the store with no parent, or with any, below a node of another tree that
-- lies there answers OK, and the linked tree then lies in the store, with the parent of each node right.
-- It is the tree that linking makes without addresses, again no two of its nodes have the same address,
-- and the memory at all other addresses is as it was.
pub store_add-LiesIn :
    (s : Store) (up up' : Option Addr) (t u d : Laid) (p : Position)
    → LiesIn s up t
    → AreDistinct t
    → LiesIn s up' u
    → AreDistinct u
    → AreApart t u
    → laid_at t p ≡ some d
    → (s' : Store) × (store_add (some (address d)) (some (address u)) s ≡ some (ok, s'))
      × LiesIn s' up (link_at t p u)
      × AreDistinct (link_at t p u)
      × (erase (link_at t p u) ≡ modify_at (erase t) p (link (erase u)))
      × ((x : Addr) → (IsAddress x t → ⊥) → (IsAddress x u → ⊥) → s' x ≡ s x)
unfolding LiesIn AreDistinct IsAddress
store_add-LiesIn s up up' t (laid b m es) d p h distinct (here, below) (fresh, deep) apart at =
    let a = address d in
    let a_in = laid_at-IsAddress t d p a at (address-IsAddress d) in
    let a_ne : a ≢ b = λ e. apart a a_in (inl e) in
    let (up_d, lies) = laid_at-LiesIn s up t d p h at in
    let (cell, at_a) = LiesIn-cell s up_d d lies in
    let child : Cell = record { node = m; parent = up'; children = roots es } in
    let s' = added a b cell child s in
    let elsewhere = added_elsewhere s a b cell child in
    let kept = AllLieIn-frame s s' (some b) es below (λ x n.
      elsewhere x (λ e. apart a a_in (inr (subst (λ z. IsAddressIn z es) e n)))
        (λ e. fresh (subst (λ z. IsAddressIn z es) e n))) in
    let u_lies : LiesIn s' (some a) (laid b m es) = (added_child s a b cell child, kept) in
    (
      s',
      store_add-added s a b cell child at_a here (λ e. a_ne (sym e)),
      link_at-LiesIn s s' a b (laid b m es) refl
          (λ n above as' e.
            added_parent s a b cell child a_ne
            ∙ ap (λ (c : Cell). some (record c { children = c.children ++ b ∷ [] }))
                (same_cell s a cell at_a e))
          elsewhere u_lies up t d p h distinct at refl (λ n. apart b n (inl refl)),
      link_at-AreDistinct t p (laid b m es) distinct (fresh, deep) apart,
      erase-link_at t p (laid b m es),
      (λ x out off.
          elsewhere x (λ e. out (subst (λ z. IsAddress z t) (sym e) a_in)) (λ e. off (inl e))),
    )

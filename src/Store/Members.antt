-- ===== src/Store/Members.antt =====
-- Writes to the members of a node in memory.
use samconf.Common.{ℕ, zero, suc, [], ◌∷◌, Option, some, ◌≡◌, ◌≢◌, refl, sym, ap, ◌∙◌, inl, inr}
use mathlib.Core.Path.{subst}
use samconf.Config.{Node, config, Children, Position, with_node, modify_at, modify_child}
use samconf.Store.{Addr, Cell, Store}
use samconf.Store.Laid.{
  Laid, laid, Laids, empty, more, address, roots, erase, erase_all, LiesIn, AllLieIn, IsAddress,
  IsAddressIn, AreDistinct, AreDistinctIn, laid_at, laid_in,
}
use samconf.Store.Frame.{
  LiesIn-frame, AllLieIn-frame, laid_at-IsAddress, laid_in-IsAddressIn, address-IsAddress,
}

-- The tree with other members of the node at a position.
mutual
  pub members_at : Laid → Position → (Node → Node) → Laid
  members_at (laid a n ds) [] f = laid a (f n) ds
  members_at (laid a n ds) (i ∷ p) f = laid a n (members_in ds i p f)

  pub members_in : Laids → ℕ → Position → (Node → Node) → Laids
  members_in empty i p f = empty
  members_in (more d ds) zero p f = more (members_at d p f) ds
  members_in (more d ds) (suc i) p f = more d (members_in ds i p f)

module _ (f : Node → Node) where
  pub address-members_at : (t : Laid) (p : Position) → address (members_at t p f) ≡ address t
  unfolding members_at
  address-members_at (laid a n ds) [] = refl
  address-members_at (laid a n ds) (i ∷ p) = refl

  roots-members_in : (ds : Laids) (i : ℕ) (p : Position) → roots (members_in ds i p f) ≡ roots ds
  unfolding members_at
  roots-members_in empty i p = refl
  roots-members_in (more d ds) zero p = ap (λ x. x ∷ roots ds) (address-members_at d p)
  roots-members_in (more d ds) (suc i) p = ap (λ l. address d ∷ l) (roots-members_in ds i p)

  mutual
    unfolding members_at erase modify_at

    pub erase-members_at :
        (t : Laid) (p : Position) → erase (members_at t p f) ≡ modify_at (erase t) p (with_node f)
    erase-members_at (laid a n ds) [] = refl
    erase-members_at (laid a n ds) (i ∷ p) = ap (config n) (erase-members_in ds i p)

    erase-members_in :
        (ds : Laids) (i : ℕ) (p : Position)
        → erase_all (members_in ds i p f)
          ≡ modify_child (erase_all ds) i (λ c. modify_at c p (with_node f))
    erase-members_in empty i p = refl
    erase-members_in (more d ds) zero p =
        ap (λ c. Children.cons c (erase_all ds)) (erase-members_at d p)
    erase-members_in (more d ds) (suc i) p = ap (Children.cons (erase d)) (erase-members_in ds i p)

  -- The addresses stay.
  mutual
    unfolding members_at IsAddress

    pub members_at-IsAddress :
        (t : Laid) (p : Position) (x : Addr) → IsAddress x (members_at t p f) → IsAddress x t
    members_at-IsAddress (laid a n ds) [] x m = m
    members_at-IsAddress (laid a n ds) (i ∷ p) x (inl e) = inl e
    members_at-IsAddress (laid a n ds) (i ∷ p) x (inr m) = inr (members_in-IsAddressIn ds i p x m)

    members_in-IsAddressIn :
        (ds : Laids) (i : ℕ) (p : Position) (x : Addr)
        → IsAddressIn x (members_in ds i p f)
        → IsAddressIn x ds
    members_in-IsAddressIn empty i p x m = m
    members_in-IsAddressIn (more d ds) zero p x (inl m) = inl (members_at-IsAddress d p x m)
    members_in-IsAddressIn (more d ds) zero p x (inr m) = inr m
    members_in-IsAddressIn (more d ds) (suc i) p x (inl m) = inl m
    members_in-IsAddressIn (more d ds) (suc i) p x (inr m) = inr (members_in-IsAddressIn ds i p x m)

  mutual
    unfolding members_at AreDistinct

    pub members_at-AreDistinct :
        (t : Laid) (p : Position) → AreDistinct t → AreDistinct (members_at t p f)
    members_at-AreDistinct (laid a n ds) [] h = h
    members_at-AreDistinct (laid a n ds) (i ∷ p) (lone, h) =
        ((λ m. lone (members_in-IsAddressIn ds i p a m)), members_in-AreDistinct ds i p h)

    members_in-AreDistinct :
        (ds : Laids) (i : ℕ) (p : Position) → AreDistinctIn ds → AreDistinctIn (members_in ds i p f)
    members_in-AreDistinct empty i p h = h
    members_in-AreDistinct (more d ds) zero p (h, apart, hs) =
        (members_at-AreDistinct d p h, (λ x m n. apart x (members_at-IsAddress d p x m) n), hs)
    members_in-AreDistinct (more d ds) (suc i) p (h, apart, hs) = (
      h,
      (λ x m n. apart x m (members_in-IsAddressIn ds i p x n)),
      members_in-AreDistinct ds i p hs,
    )

  -- The tree lies in memory in which the members of that node are changed.
  module _ (s s' : Store) (a : Addr)
      (at_a : (cell : Cell) → s a ≡ some cell → s' a ≡ some (record cell { node = f cell.node }))
      (elsewhere : (x : Addr) → x ≢ a → s' x ≡ s x) where
    mutual
      unfolding members_at LiesIn AreDistinct IsAddress laid_at

      pub members_at-LiesIn :
          (up : Option Addr) (t d : Laid) (p : Position)
          → LiesIn s up t
          → AreDistinct t
          → laid_at t p ≡ some d
          → address d ≡ a
          → LiesIn s' up (members_at t p f)
      members_at-LiesIn up (laid b n ds) d [] (here, below) (lone, deep) at is_a =
          let same : laid b n ds ≡ d = cc in
          let is_b : b ≡ a = ap address same ∙ is_a in
          (
            ap s' is_b ∙ at_a _ (ap s (sym is_b) ∙ here),
            AllLieIn-frame s s' (some b) ds below
                (λ x m. elsewhere x (λ e. lone (subst (λ z. IsAddressIn z ds) (e ∙ sym is_b) m))),
          )
      members_at-LiesIn up (laid b n ds) d (i ∷ p) (here, below) (lone, deep) at is_a =
          let inside = laid_in-IsAddressIn ds d i p (address d) at (address-IsAddress d) in
          let off : b ≢ a = λ e. lone (subst (λ z. IsAddressIn z ds) (is_a ∙ sym e) inside) in
          (
            elsewhere b off
                ∙ here
                ∙ ap (λ l. some (record { node = n; parent = up; children = l }))
                    (sym (roots-members_in ds i p)),
            members_in-AllLieIn (some b) ds d i p below deep at is_a,
          )

      members_in-AllLieIn :
          (up : Option Addr) (ds : Laids) (d : Laid) (i : ℕ) (p : Position)
          → AllLieIn s up ds
          → AreDistinctIn ds
          → laid_in ds i p ≡ some d
          → address d ≡ a
          → AllLieIn s' up (members_in ds i p f)
      members_in-AllLieIn up empty d i p h distinct at is_a = cc
      members_in-AllLieIn up (more e ds) d zero p (h, hs) (own, apart, others) at is_a =
          let inside = laid_at-IsAddress e d p (address d) at (address-IsAddress d) in
          (
            members_at-LiesIn up e d p h own at is_a,
            AllLieIn-frame s s' up ds hs (λ x m.
                elsewhere x (λ q. apart x (subst (λ z. IsAddress z e) (is_a ∙ sym q) inside) m)),
          )
      members_in-AllLieIn up (more e ds) d (suc i) p (h, hs) (own, apart, others) at is_a =
          let inside = laid_in-IsAddressIn ds d i p (address d) at (address-IsAddress d) in
          (
            LiesIn-frame s s' up e h (λ x m.
                elsewhere x (λ q. apart x m (subst (λ z. IsAddressIn z ds) (is_a ∙ sym q) inside))),
            members_in-AllLieIn up ds d i p hs others at is_a,
          )
